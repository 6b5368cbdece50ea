-- ===== src/Subscriber.antt =====
-- The MQTT subscriber's handler of version-2 messages, `_handle_wm_v2_message` of
-- src/tagpulse/ingestion/mqtt_subscriber.py: validate, reconcile, ingest the reads, commit. What
-- becomes of the reads is a parameter: whether their ingestion and the commit succeed.
pub mod Rollback
pub mod Accepts
pub mod Compact
use mathlib.Core.List.{foldl}
use tag_pulse.Prelude.{Bool, Option, List, [], ◌∷◌, Result, ok, err, ◌>>=◌, if◌then◌else◌}
use tag_pulse.Wire.Message.{
  Entry, Envelope, RawMessage, WmMessage, snap, appeared, disappeared, WireError, validate_message,
}
use tag_pulse.Presence.{Scope, Db, PresenceError, reconcile_snap, apply_appeared, apply_disappeared}

pub data Outcome : Type 0 where
  rejected : WireError → Outcome
  failed committed : Outcome

-- The reconciler's part, and the entries of which `tag_reads` rows are made.
unfoldable pub reconcile : Scope → WmMessage → Db → Result PresenceError (Db × List Entry)
reconcile scope (WmMessage.snap env entries) db = do
  out ← reconcile_snap scope env entries db
  ok (out.0, entries)
reconcile scope (WmMessage.appeared env entry) db = do
  out ← apply_appeared scope env entry db
  ok (out.0, entry ∷ [])
reconcile scope (WmMessage.disappeared env an epc) db = do
  out ← apply_disappeared scope env epc db
  ok (out.0, [])

-- A failure rolls the table back; what was published stays published.
abbrev pub rolled_back : Db → Db → Db
rolled_back before after = record before { published = after.published }

-- `ingest` tells whether every read is ingested and the transaction commits.
module _ (ingest : List Entry → Bool) where
  abbrev pub after_reconcile : Db → Result PresenceError (Db × List Entry) → Outcome × Db
  after_reconcile db (err e) = (failed, db)
  after_reconcile db (ok (after, reads)) =
      if ingest reads then (committed, after) else (failed, rolled_back db after)

  unfoldable pub apply_message : Scope → WmMessage → Db → Outcome × Db
  apply_message scope msg db = after_reconcile db (reconcile scope msg db)

  abbrev pub after_validation : Scope → Db → Result WireError WmMessage → Outcome × Db
  after_validation scope db (err e) = (rejected e, db)
  after_validation scope db (ok msg) = apply_message scope msg db

  unfoldable pub handle_wm_v2_message : Scope → RawMessage → Db → Outcome × Db
  handle_wm_v2_message scope raw db = after_validation scope db (validate_message raw)

  -- The messages of one device, in the order of their arrival.
  unfoldable pub handle_all : Scope → List RawMessage → Db → Db
  handle_all scope [] db = db
  handle_all scope (raw ∷ rest) db = handle_all scope rest (handle_wm_v2_message scope raw db).1

  -- The messages of many devices, in the order of their arrival.
  unfoldable pub handle_stream : List (Scope × RawMessage) → Db → Db
  handle_stream [] db = db
  handle_stream ((scope, raw) ∷ rest) db = handle_stream rest (handle_wm_v2_message scope raw db).1
