-- ===== src/Pending.antt =====
-- The two-person rule of bulk operations (src/tagpulse/services/pending_bulk_operations.py). The
-- table is a dict keyed by id; ids, tenants and users are numbers, instants seconds. The hasher and
-- the executors are the callers': an executor returns a summary, or raises. A raise ends the
-- transaction, so the table stays as it was. A call is one step, from its load to its commit; the source
-- does not lock the row, and Overlap is about calls that load it before either commits.
pub mod Decisions
pub mod Overlap
pub mod Single
use tag_pulse.Prelude.{
  ℕ, ◌+◌, leb, Bool, true, false, ◌&&◌, not, Option, none, some, List, [], ◌∷◌, String, Eq, ◌==◌,
  nat_eq, string_eq, if◌then◌else◌, Result, ok, err,
}
use tag_pulse.Dict.{Dict, lookup, insert}

abbrev pub pending_bulk_op_ttl_seconds : ℕ
pending_bulk_op_ttl_seconds = 86400

pub data PendingStatus : Type 0 where
  pending expired rejected executed : PendingStatus

pub data DecisionOutcome : Type 0 where
  decided not_found expired already_decided self_approval content_tamper : DecisionOutcome

pub data PendingError : Type 0 where
  ttl_not_positive no_executor executor_raised : PendingError

pub record PendingOp : Type 0 where
  pub tenant_id : ℕ
  pub operation : String
  pub status : PendingStatus
  pub requested_by : Option ℕ
  pub decided_by : Option ℕ
  pub content_hash : String
  pub row_count : ℕ
  pub sample : List String
  pub payload : List ℕ
  pub request_id : Option ℕ
  pub created_at : ℕ
  pub decided_at : Option ℕ
  pub executed_at : Option ℕ
  pub expires_at : ℕ

abbrev pub Table : Type 0
Table = Dict ℕ PendingOp

-- The fields of the call; `id` is the fresh uuid4.
unfoldable pub create_pending :
    (id tenant : ℕ) (operation : String) (requested_by : Option ℕ) (content_hash : String)
    (row_count : ℕ) (sample : List String) (payload : List ℕ) (ttl_seconds now : ℕ)
    → Table
    → Result PendingError (Table × PendingOp)
create_pending id tenant op by hash rows sample payload ttl now table =
    let row : PendingOp = record {
      tenant_id = tenant;
      operation = op;
      status = PendingStatus.pending;
      requested_by = by;
      decided_by = none;
      content_hash = hash;
      row_count = rows;
      sample = sample;
      payload = payload;
      request_id = none;
      created_at = now;
      decided_at = none;
      executed_at = none;
      expires_at = now + ttl;
    } in
    if ttl == 0 then err ttl_not_positive else ok (insert id row table, row)

-- WHERE id = … AND tenant_id = …
unfoldable pub load : ℕ → ℕ → Table → Option PendingOp
load id tenant table = elim (lookup id table) [
  | none ↦ none
  | some row ↦ if row.tenant_id == tenant then some row else none
]

abbrev pub is_pending : PendingStatus → Bool
is_pending PendingStatus.pending = true
is_pending _ = false

-- A row that has waited too long is flipped in place.
unfoldable pub expire_if_due : ℕ → PendingOp → PendingOp
expire_if_due now row =
    if is_pending row.status && leb row.expires_at now
    then record row { status = PendingStatus.expired }
    else row

-- `requested_by is not None and requested_by == decided_by`
abbrev pub is_requester : Option ℕ → ℕ → Bool
is_requester none user = false
is_requester (some requester) user = requester == user

-- The checks that `approve` and `reject` share, on the row after the flip; `decided` lets it pass.
unfoldable pub decision_check : PendingOp → ℕ → DecisionOutcome
decision_check row user = elim row.status [
  | PendingStatus.expired ↦ DecisionOutcome.expired
  | PendingStatus.pending ↦ if is_requester row.requested_by user then self_approval else decided
  | _ ↦ already_decided
]

abbrev pub Executor : Type 0
Executor = PendingOp → ℕ → Option (List String)

abbrev pub Decision : Type 0
Decision = DecisionOutcome × Table × Option (List String)

-- The row as the approval leaves it.
abbrev pub executed_row : ℕ → ℕ → ℕ → PendingOp → PendingOp
executed_row user now request row = record row {
  status = PendingStatus.executed;
  decided_by = some user;
  decided_at = some now;
  executed_at = some now;
  request_id = some request;
}

module _ (hasher : List ℕ → String) (executors : Dict String Executor) where
  -- The part of `approve` behind the checks: the tamper guard, then the executor.
  unfoldable pub execute : ℕ → ℕ → ℕ → ℕ → PendingOp → Table → Result PendingError Decision
  execute id user now request row table =
      if not (hasher row.payload == row.content_hash)
      then ok (content_tamper, insert id row table, none)
      else elim (lookup row.operation executors) [
        | none ↦ err no_executor
        | some run ↦ elim (run row request) [
          | none ↦ err executor_raised
          | some summary ↦
              ok (decided, insert id (executed_row user now request row) table, some summary)
        ]
      ]

  -- `request` is the fresh uuid4.
  unfoldable pub approve : ℕ → ℕ → ℕ → ℕ → ℕ → Table → Result PendingError Decision
  approve id tenant user now request table = elim (load id tenant table) [
    | none ↦ ok (not_found, table, none)
    | some found ↦ elim (decision_check (expire_if_due now found) user) [
      | decided ↦ execute id user now request (expire_if_due now found) table
      | o ↦ ok (o, insert id (expire_if_due now found) table, none)
    ]
  ]

abbrev pub rejected_row : ℕ → ℕ → PendingOp → PendingOp
rejected_row user now row = record row {
  status = PendingStatus.rejected;
  decided_by = some user;
  decided_at = some now;
}

unfoldable pub reject : ℕ → ℕ → ℕ → ℕ → Table → DecisionOutcome × Table
reject id tenant user now table = elim (load id tenant table) [
  | none ↦ (not_found, table)
  | some found ↦ elim (decision_check (expire_if_due now found) user) [
    | decided ↦ (decided, insert id (rejected_row user now (expire_if_due now found)) table)
    | o ↦ (o, insert id (expire_if_due now found) table)
  ]
]
