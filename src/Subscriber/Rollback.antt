-- ===== src/Subscriber/Rollback.antt =====
-- What a failed ingestion leaves behind.
use tag_pulse.Prelude.{
  ◌≡◌, ap, subst, Bool, true, false, List, [], ◌∷◌, arith, ok, ltb_ℤ, ==_refl, pair_eq, list_eq,
  nat_eq,
}
use tag_pulse.Wire.Message.{Entry, Envelope, RawMessage, WmMessage, validate_message}
use tag_pulse.Presence.{Scope, Db, ts_to_datetime, max_ts_ms, settle_appeared, apply_appeared}
use tag_pulse.Presence.View.{is_present}
use tag_pulse.Presence.Transitions.{IsConsistent}
use tag_pulse.Presence.Transitions.Delta.{settle_appeared_lem}
use tag_pulse.Subscriber.{rolled_back, reconcile, apply_message, handle_wm_v2_message}

-- Events are published before the transaction ends and are not withdrawn: where a valid `t=1` for
-- an EPC that the table does not show has an instant that a datetime holds, and its ingestion
-- fails, the table is rolled back but the appearance stays published, so that events and table
-- disagree from then on.
pub handle_wm_v2_message_unpublished :
    (ingest : List Entry → Bool) (scope : Scope) (raw : RawMessage) (env : Envelope) (entry : Entry)
    (db : Db)
    → IsConsistent db
    → validate_message raw ≡ ok (WmMessage.appeared env entry)
    → ltb_ℤ env.ts max_ts_ms ≡ true
    → is_present db.table (scope, entry.epc) ≡ false
    → ingest (entry ∷ []) ≡ false
    → ((handle_wm_v2_message ingest scope raw db).1.table ≡ db.table)
      × (¬ IsConsistent (handle_wm_v2_message ingest scope raw db).1)
unfolding handle_wm_v2_message apply_message reconcile apply_appeared ts_to_datetime
handle_wm_v2_message_unpublished ingest scope raw env entry db c v t n f =
    let a = settle_appeared_lem scope env.ts entry db c in
    let final = (settle_appeared scope env.ts entry db).0 in
    let e : (handle_wm_v2_message ingest scope raw db).1 ≡ rolled_back db final = ground arith in
    (
      ap (λ (d : Db). d.table) e,
      λ bad. ground (
        arith,
        (subst IsConsistent e bad).replayed (scope, entry.epc),
        a.consistent.replayed (scope, entry.epc),
        a.shown (scope, entry.epc),
        ==_refl scope,
        ==_refl entry.epc,
      ),
    )
