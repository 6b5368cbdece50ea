-- ===== src/Pending/Single.antt =====
-- A row is decided once.
use tag_pulse.Prelude.{
  ℕ, ◌+◌, ◌≤◌, ◌≡◌, ◌≢◌, refl, false, Option, some, List, [], ◌∷◌, String, ==_iff, nat_eq,
  string_eq, Result, ok, err, arith, inl, inr, ◌⊎◌, Option-cases, subst, sym,
}
use tag_pulse.Dict.{Dict, lookup, insert}
use tag_pulse.Dict.Laws.{lookup-insert}
use tag_pulse.Pending.{
  DecisionOutcome, decided, PendingError, PendingOp, Table, load, is_pending, expire_if_due,
  Executor, Decision, executed_row, approve, rejected_row, reject,
}
use tag_pulse.Pending.Decisions.{
  load-lookup, expire_if_due-closed, decision_check_closed, rejected_only, approved_only,
}

-- One call of a decision on an operation.
pub data Attempt : Type 0 where
  approval : (tenant user now request : ℕ) → Attempt
  rejection : (tenant user now : ℕ) → Attempt

abbrev pub is_decided : DecisionOutcome → ℕ
is_decided decided = 1
is_decided _ = 0

is_decided-0 : (o : DecisionOutcome) → o ≢ decided → is_decided o ≡ 0
is_decided-0 o h = ground arith

-- A raise rolls the table back.
abbrev settled : Table → Result PendingError Decision → ℕ × Table
settled table (ok (o, table', _)) = (is_decided o, table')
settled table (err _) = (0, table)

module _ (hasher : List ℕ → String) (executors : Dict String Executor) where
  -- The outcome and the table after a call.
  unfoldable pub attempt : ℕ → Attempt → Table → ℕ × Table
  attempt id (approval tenant user now request) table =
      settled table (approve hasher executors id tenant user now request table)
  attempt id (rejection tenant user now) table =
      let done = reject id tenant user now table in (is_decided done.0, done.1)

  -- How many of the calls decide.
  unfoldable pub decisions : ℕ → List Attempt → Table → ℕ
  decisions id [] table = 0
  decisions id (a ∷ rest) table = (attempt id a table).0 + decisions id rest (attempt id a table).1

  -- A row that does not wait is not decided, and still does not wait afterwards.
  Closed : ℕ → Table → Type 0
  Closed id table = (row : PendingOp) → lookup id table ≡ some row → is_pending row.status ≡ false

  reject-Closed :
      (id tenant user now : ℕ) (table : Table)
      → Closed id table
      → ((reject id tenant user now table).0 ≢ decided)
        × Closed id (reject id tenant user now table).1
  unfolding reject Closed
  reject-Closed id tenant user now table closed = elim (Option-cases (load id tenant table)) [
    | inl e ↦ (λ h. ground arith, λ row found. ground (arith, closed row))
    | inr (row, e) ↦
        let still = closed row (load-lookup id tenant table row e).0 in
        let shut = decision_check_closed row user now still in
        (
          λ h. ground arith,
          λ row' found. ground (
            arith,
            closed row',
            expire_if_due-closed row now still,
            lookup-insert id id (expire_if_due now row) table,
            ==_iff id id,
          ),
        )
  ]

  approve-Closed :
      (id tenant user now request : ℕ) (table table' : Table) (o : DecisionOutcome)
      (summary : Option (List String))
      → Closed id table
      → approve hasher executors id tenant user now request table ≡ ok (o, table', summary)
      → (o ≢ decided) × Closed id table'
  unfolding approve Closed
  approve-Closed id tenant user now request table table' o summary closed h =
      elim (Option-cases (load id tenant table)) [
        | inl e ↦ (λ same. ground arith, λ row found. ground (arith, closed row))
        | inr (row, e) ↦
            let still = closed row (load-lookup id tenant table row e).0 in
            let shut = decision_check_closed row user now still in
            (
              λ same. ground arith,
              λ row' found. ground (
                arith,
                closed row',
                expire_if_due-closed row now still,
                lookup-insert id id (expire_if_due now row) table,
                ==_iff id id,
              ),
            )
      ]

  attempt-Closed :
      (id : ℕ) (a : Attempt) (table : Table)
      → Closed id table
      → ((attempt id a table).0 ≡ 0) × Closed id (attempt id a table).1
  unfolding attempt
  attempt-Closed id (approval tenant user now request) table closed =
      by_result (approve hasher executors id tenant user now request table) refl
    where
      by_result :
          (r : Result PendingError Decision)
          → approve hasher executors id tenant user now request table ≡ r
          → ((attempt id (approval tenant user now request) table).0 ≡ 0)
            × Closed id (attempt id (approval tenant user now request) table).1
      by_result (ok (o, table', summary)) e =
          let shut = approve-Closed id tenant user now request table table' o summary closed e in
          (rw e (is_decided-0 o shut.0), rw e shut.1)
      by_result (err x) e = (rw e refl, rw e closed)
  attempt-Closed id (rejection tenant user now) table closed =
      let shut = reject-Closed id tenant user now table closed in (ground arith, shut.1)

  insert-Closed :
      (id : ℕ) (row : PendingOp) (table : Table)
      → is_pending row.status ≡ false
      → Closed id (insert id row table)
  unfolding Closed
  insert-Closed id row table h =
      λ other found. ground (arith, lookup-insert id id row table, ==_iff id id)

  -- A call that decides leaves the row decided.
  attempt-decides :
      (id : ℕ) (a : Attempt) (table : Table)
      → ((attempt id a table).0 ≡ 0)
        ⊎ (((attempt id a table).0 ≡ 1) × Closed id (attempt id a table).1)
  unfolding attempt
  attempt-decides id (approval tenant user now request) table =
      by_result (approve hasher executors id tenant user now request table) refl
    where
      by_result :
          (r : Result PendingError Decision)
          → approve hasher executors id tenant user now request table ≡ r
          → ((attempt id (approval tenant user now request) table).0 ≡ 0)
            ⊎ (((attempt id (approval tenant user now request) table).0 ≡ 1)
                × Closed id (attempt id (approval tenant user now request) table).1)
      by_result (ok (decided, table', summary)) e =
          let (row, d, _, _, _, _) =
            approved_only hasher executors id tenant user now request table table' summary e in
          inr (
            rw e refl,
            rw e (
                subst (Closed id) (sym d.result)
                  (insert-Closed id (executed_row user now request row) table refl)),
          )
      by_result (ok (_, table', summary)) e = inl (rw e refl)
      by_result (err x) e = inl (rw e refl)
  attempt-decides id (rejection tenant user now) table =
      by_outcome (reject id tenant user now table).0 refl
    where
      by_outcome :
          (o : DecisionOutcome)
          → (reject id tenant user now table).0 ≡ o
          → (is_decided (reject id tenant user now table).0 ≡ 0)
            ⊎ ((is_decided (reject id tenant user now table).0 ≡ 1)
                × Closed id (reject id tenant user now table).1)
      by_outcome decided e =
          let (row, d) =
            rejected_only id tenant user now table (reject id tenant user now table).1
              (λ i. (e i, (reject id tenant user now table).1)) in
          inr (
            rw e refl,
            subst (Closed id) (sym d.result)
                (insert-Closed id (rejected_row user now row) table refl),
          )
      by_outcome _ e = inl (rw e refl)

  decisions-Closed :
      (id : ℕ) (calls : List Attempt) (table : Table)
      → Closed id table
      → decisions id calls table ≡ 0
  unfolding decisions
  decisions-Closed id [] table closed = refl
  decisions-Closed id (a ∷ rest) table closed =
      let shut = attempt-Closed id a table closed in
      ground (arith, shut.0, decisions-Closed id rest (attempt id a table).1 shut.1)

  -- Over any sequence of approvals and rejections of an operation that run one after another, each
  -- transaction settled before the next call loads the row, by whomever and whenever, with executors
  -- that may raise, at most one call decides it.
  pub decisions_single :
      (id : ℕ) (calls : List Attempt) (table : Table) → decisions id calls table ≤ 1
  unfolding decisions
  decisions_single id [] table = omega arith
  decisions_single id (a ∷ rest) table = elim (attempt-decides id a table) [
    | inl none_yet ↦ ground (arith, none_yet, decisions_single id rest (attempt id a table).1)
    | inr (one, closed) ↦
        ground (arith, one, decisions-Closed id rest (attempt id a table).1 closed)
  ]
