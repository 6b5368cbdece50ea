-- ===== src/Pending/Decisions.antt =====
-- What a decision needs and what it leaves.
use tag_pulse.Prelude.{
  ℕ, ◌<◌, ◌≡◌, ◌≢◌, refl, ap, ◌∙◌, false, Option, some, ◌==◌, ◌↔◌, Bool-cases, List, String, ==_iff,
  nat_eq, string_eq, ok, arith, inl, inr, Option-cases,
}
use tag_pulse.Dict.{Dict, lookup, insert}
use tag_pulse.Pending.{
  PendingStatus, pending, decided, PendingOp, Table, load, is_pending, expire_if_due,
  decision_check, Executor, executed_row, execute, approve, rejected_row, reject,
}

pub load-lookup :
    (id tenant : ℕ) (table : Table) (row : PendingOp)
    → load id tenant table ≡ some row
    → (lookup id table ≡ some row) × (row.tenant_id ≡ tenant)
unfolding load
load-lookup id tenant table row h = ground arith

-- The checks let a row pass only if it waits still, in time, for somebody else.
pub record MayDecide (row : PendingOp) (user now : ℕ) : Type 0 where
  pub waits : row.status ≡ pending
  pub in_time : now < row.expires_at
  pub by_another : row.requested_by ≢ some user

decision_check-MayDecide :
    (row : PendingOp) (user now : ℕ)
    → decision_check (expire_if_due now row) user ≡ decided
    → MayDecide row user now
unfolding decision_check expire_if_due
decision_check-MayDecide row user now h = by_status row.status refl
  where
    by_status : (s : PendingStatus) → row.status ≡ s → MayDecide row user now
    by_status pending e = record {
      waits = e;
      in_time = ground arith;
      by_another = λ same. ground arith;
    }
    by_status _ e = ground arith

MayDecide-decision_check :
    (row : PendingOp) (user now : ℕ)
    → MayDecide row user now
    → decision_check (expire_if_due now row) user ≡ decided
unfolding decision_check expire_if_due
MayDecide-decision_check row user now m = elim (Option-cases row.requested_by) [
  | inl nobody ↦ ground (arith, m.waits, m.in_time)
  | inr (requester, somebody) ↦ elim (Bool-cases (requester == user)) [
    | inl same ↦ absurd (m.by_another (somebody ∙ ap some ((==_iff requester user).0 same)))
    | inr other ↦ ground (arith, m.waits, m.in_time, other)
  ]
]

expire_if_due-MayDecide :
    (row : PendingOp) (user now : ℕ) → MayDecide row user now → expire_if_due now row ≡ row
unfolding expire_if_due
expire_if_due-MayDecide row user now m = ground (arith, m.waits, m.in_time)

pub decision_check_closed :
    (row : PendingOp) (user now : ℕ)
    → is_pending row.status ≡ false
    → decision_check (expire_if_due now row) user ≢ decided
unfolding decision_check expire_if_due
decision_check_closed row user now h = by_status row.status refl
  where
    by_status :
        (s : PendingStatus) → row.status ≡ s → decision_check (expire_if_due now row) user ≢ decided
    by_status pending e = ground arith
    by_status _ e = ground arith

pub expire_if_due-closed :
    (row : PendingOp) (now : ℕ)
    → is_pending row.status ≡ false
    → is_pending (expire_if_due now row).status ≡ false
unfolding expire_if_due
expire_if_due-closed row now h = ground arith

-- An accepted decision, `after` being the row that it leaves.
pub record IsDecision (id tenant user now : ℕ) (table table' : Table) (row after : PendingOp)
    : Type 0 where
  pub found : lookup id table ≡ some row
  pub in_tenant : row.tenant_id ≡ tenant
  pub allowed : MayDecide row user now
  pub result : table' ≡ insert id after table

load-found :
    (id tenant : ℕ) (table : Table) (row : PendingOp)
    → lookup id table ≡ some row
    → row.tenant_id ≡ tenant
    → load id tenant table ≡ some row
unfolding load
load-found id tenant table row found own = ground (arith, ==_iff row.tenant_id tenant)

reject_allowed :
    (id tenant user now : ℕ) (table table' : Table) (row : PendingOp)
    → IsDecision id tenant user now table table' row (rejected_row user now row)
    → reject id tenant user now table ≡ (decided, table')
unfolding reject
reject_allowed id tenant user now table table' row d =
    let loaded = load-found id tenant table row d.found d.in_tenant in
    let passes = MayDecide-decision_check row user now d.allowed in
    let kept = expire_if_due-MayDecide row user now d.allowed in
    ground (arith, loaded, passes, kept, d.result)

pub rejected_only :
    (id tenant user now : ℕ) (table table' : Table)
    → reject id tenant user now table ≡ (decided, table')
    → (row : PendingOp) × IsDecision id tenant user now table table' row (rejected_row user now row)
unfolding reject
rejected_only id tenant user now table table' h = elim (Option-cases (load id tenant table)) [
  | inl e ↦ ground arith
  | inr (row, e) ↦
      let known = load-lookup id tenant table row e in
      let checked : decision_check (expire_if_due now row) user ≡ decided = ground arith in
      let may = decision_check-MayDecide row user now checked in
      (
        row,
        record {
          found = known.0;
          in_tenant = known.1;
          allowed = may;
          result = ground (arith, expire_if_due-MayDecide row user now may);
        },
      )
]

-- A rejection decides exactly if there is a row of the tenant under the id that waits still, in time,
-- and that the user did not request; that row is then rejected, by the user and at the instant of
-- the call, its other fields are kept, and so is every other row.
pub reject_decided :
    (id tenant user now : ℕ) (table table' : Table)
    → (reject id tenant user now table ≡ (decided, table')) ↔ (
        (row : PendingOp) × IsDecision id tenant user now table table' row (record row {
          status = PendingStatus.rejected;
          decided_by = some user;
          decided_at = some now;
        }))
reject_decided id tenant user now table table' = (
  rejected_only id tenant user now table table',
  λ (row, d). reject_allowed id tenant user now table table' row d,
)

module _ (hasher : List ℕ → String) (executors : Dict String Executor) where
  execute_decided :
      (id user now request : ℕ) (row : PendingOp) (table table' : Table)
      (summary : Option (List String))
      → execute hasher executors id user now request row table ≡ ok (decided, table', summary)
      → (hasher row.payload ≡ row.content_hash)
        × (table' ≡ insert id (executed_row user now request row) table)
        × (run : Executor) × (lookup row.operation executors ≡ some run)
        × (run row request ≡ summary)
  unfolding execute
  execute_decided id user now request row table table' summary h =
      ground (arith, ==_iff (hasher row.payload) row.content_hash)

  pub approved_only :
      (id tenant user now request : ℕ) (table table' : Table) (summary : Option (List String))
      → approve hasher executors id tenant user now request table ≡ ok (decided, table', summary)
      → (row : PendingOp) × IsDecision id tenant user now table table' row
          (executed_row user now request row)
        × (hasher row.payload ≡ row.content_hash)
        × (run : Executor) × (lookup row.operation executors ≡ some run)
        × (run row request ≡ summary)
  unfolding approve
  approved_only id tenant user now request table table' summary h =
      elim (Option-cases (load id tenant table)) [
        | inl e ↦ ground arith
        | inr (row, e) ↦
            let known = load-lookup id tenant table row e in
            let checked : decision_check (expire_if_due now row) user ≡ decided = ground arith in
            let may = decision_check-MayDecide row user now checked in
            let ran =
              execute_decided id user now request row table table' summary
                (ground (arith, expire_if_due-MayDecide row user now may)) in
            (
              row,
              record { found = known.0; in_tenant = known.1; allowed = may; result = ran.1 },
              ran.0,
              ran.2,
              ran.3,
              ran.4,
            )
      ]

  approve_allowed :
      (id tenant user now request : ℕ) (table table' : Table) (summary : List String)
      (row : PendingOp) (run : Executor)
      → IsDecision id tenant user now table table' row (executed_row user now request row)
      → hasher row.payload ≡ row.content_hash
      → lookup row.operation executors ≡ some run
      → run row request ≡ some summary
      → approve hasher executors id tenant user now request table
        ≡ ok (decided, table', some summary)
  unfolding approve execute
  approve_allowed id tenant user now request table table' summary row run d same known ran =
      let loaded = load-found id tenant table row d.found d.in_tenant in
      let passes = MayDecide-decision_check row user now d.allowed in
      let kept = expire_if_due-MayDecide row user now d.allowed in
      let intact = (==_iff (hasher row.payload) row.content_hash).1 same in
      ground (arith, loaded, passes, kept, intact, known, ran, d.result)

  -- An approval decides exactly if there is a row of the tenant under the id that waits still, in
  -- time, and that the user did not request, whose content has the hash it was stored with, and whose
  -- executor is registered and returns; that row is then executed, decided by the user at the instant
  -- of the call and under its request id, its other fields are kept, and so is every other row.
  pub approve_decided :
      (id tenant user now request : ℕ) (table table' : Table) (summary : List String)
      → (approve hasher executors id tenant user now request table
          ≡ ok (decided, table', some summary))
        ↔ ((row : PendingOp) × IsDecision id tenant user now table table' row (record row {
          status = PendingStatus.executed;
          decided_by = some user;
          decided_at = some now;
          executed_at = some now;
          request_id = some request;
        })
            × (hasher row.payload ≡ row.content_hash)
            × (run : Executor) × (lookup row.operation executors ≡ some run)
            × (run row request ≡ some summary))
  approve_decided id tenant user now request table table' summary = (
    approved_only id tenant user now request table table' (some summary),
    λ (row, d, same, run, known, ran).
        approve_allowed id tenant user now request table table' summary row run d same known ran,
  )
