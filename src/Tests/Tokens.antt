-- ===== src/Tests/Tokens.antt =====
-- Runs of the confirmation tokens and of the two-person rule.
use mathlib.Core.Logic.{◌↔◌}
use tag_pulse.Prelude.{
  ℕ, ◌+◌, ◌≤◌, ◌≡◌, refl, none, some, List, [], ◌∷◌, String, string_eq, nat_eq, ok,
}
use tag_pulse.Dict.{Dict, lookup, insert, has_key, keep_entries}
use tag_pulse.Tokens.{ok_token, Binding, Entry, Store, mint, consume, purge_expired}
use tag_pulse.Tokens.Lifecycle.{consume-mint, attempts, attempts_single_use}
use tag_pulse.Pending.{
  PendingStatus, PendingOp, decided, Table, Executor, approve, reject, load, decision_check,
  expire_if_due, executed_row, rejected_row,
}
use tag_pulse.Pending.Decisions.{IsDecision, approve_decided, reject_decided}
use tag_pulse.Pending.Single.{approval, rejection, decisions, decisions_single}

abbrev retire : Binding
retire = record {
  tenant_id = 1;
  user_id = some 7;
  operation = "tags.bulk_retire";
  content_hash = "ab";
}

abbrev retire_entry : Entry
retire_entry = record { bound = retire; expires_at = 910 }

abbrev store : Store
store = ("tok", retire_entry) ∷ []

mint_run : mint "tok" retire 900 10 [] ≡ ok (store, "tok", 900)
unfolding mint insert purge_expired keep_entries
mint_run = refl

consume-mint_example :
    ((consume "tok" retire 500 store).0 ≡ ok_token) ↔ ((retire ≡ retire) × (500 ≤ 10 + 900))
consume-mint_example = consume-mint "tok" retire retire 900 10 500 [] store mint_run

attempts_single_use_example : attempts "tok" ((retire, 500) ∷ (retire, 501) ∷ []) store ≤ 1
unfolding has_key
attempts_single_use_example =
    attempts_single_use "tok" ((retire, 500) ∷ (retire, 501) ∷ []) store (refl, tt)

abbrev request : PendingOp
request = record {
  tenant_id = 1;
  operation = "tags.import";
  status = PendingStatus.pending;
  requested_by = some 7;
  decided_by = none;
  content_hash = "ab";
  row_count = 1;
  sample = "E2801160" ∷ [];
  payload = 5 ∷ [];
  request_id = none;
  created_at = 0;
  decided_at = none;
  executed_at = none;
  expires_at = 86400;
}

abbrev table : Table
table = (3, request) ∷ []

abbrev hasher : List ℕ → String
hasher bytes = "ab"

abbrev import_rows : Executor
import_rows row id = some ("rows_created" ∷ [])

abbrev executors : Dict String Executor
executors = ("tags.import", import_rows) ∷ []

approve_decided_example :
    (approve hasher executors 3 1 8 100 4 table
      ≡ ok (decided, (3, executed_row 8 100 4 request) ∷ [], some ("rows_created" ∷ [])))
    ↔ ((row : PendingOp) × IsDecision 3 1 8 100 table
          ((3, executed_row 8 100 4 request) ∷ [])
          row
          (record row {
            status = PendingStatus.executed;
            decided_by = some 8;
            decided_at = some 100;
            executed_at = some 100;
            request_id = some 4;
          })
        × (hasher row.payload ≡ row.content_hash)
        × (run : Executor) × (lookup row.operation executors ≡ some run)
        × (run row 4 ≡ some ("rows_created" ∷ [])))
approve_decided_example =
    approve_decided hasher executors 3 1 8 100 4 table ((3, executed_row 8 100 4 request) ∷ [])
      ("rows_created" ∷ [])

reject_run : reject 3 1 8 100 table ≡ (decided, (3, rejected_row 8 100 request) ∷ [])
unfolding reject load lookup decision_check expire_if_due insert
reject_run = refl

reject_decided_example :
    (reject 3 1 8 100 table ≡ (decided, (3, rejected_row 8 100 request) ∷ [])) ↔ (
      (row : PendingOp) × IsDecision 3 1 8 100 table
        ((3, rejected_row 8 100 request) ∷ [])
        row
        (record row {
          status = PendingStatus.rejected;
          decided_by = some 8;
          decided_at = some 100;
        }))
reject_decided_example = reject_decided 3 1 8 100 table ((3, rejected_row 8 100 request) ∷ [])

decisions_single_example :
    decisions hasher executors 3 (approval 1 8 100 4 ∷ rejection 1 9 200 ∷ []) table ≤ 1
decisions_single_example =
    decisions_single hasher executors 3 (approval 1 8 100 4 ∷ rejection 1 9 200 ∷ []) table
