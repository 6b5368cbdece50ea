-- ===== src/Subscriber/Compact.antt =====
-- The handler of the compact dialect, `_handle_wm_v2_compact_message` of
-- src/tagpulse/ingestion/mqtt_subscriber.py: a message is lowered into the keyed models, which are
-- validated as they are built, and goes through the same reconciler.
pub mod Applied
pub mod Lowered
pub mod Committed
use tag_pulse.Prelude.{
  ℤ, pos, negsuc, leb_ℤ, Bool, true, false, Option, none, some, List, [], ◌∷◌, map, Result, ok, err,
  if◌then◌else◌,
}
use tag_pulse.Wire.Epc.{Text}
use tag_pulse.Wire.Message.{
  Entry, RawEntry, RawMessage, WmMessage, WireError, Field, omitted, null, value, validate_message,
  rssi_min, rssi_max,
}
use tag_pulse.Wire.Compact.{
  Float, finite, infinite, Reason, overflow_error, Kind, snap, add, delete, CompactEntry,
  CompactMessage, RawCompact, round, parse_wm_v2,
}
use tag_pulse.Presence.{Scope, Db, PresenceError}
use tag_pulse.Subscriber.{reconcile, rolled_back}

-- `raised` is an OverflowError of the parser, which the handler does not catch.
pub data CompactOutcome : Type 0 where
  rejected : Reason → CompactOutcome
  failed committed raised : CompactOutcome

abbrev pub clamp : ℤ → ℤ → ℤ → ℤ
clamp lo hi n = if leb_ℤ hi n then hi else if leb_ℤ n lo then lo else n

-- The rounded strength, clamped to the range of the keyed dialect; round() raises on an infinite one.
unfoldable pub rssi_to_smallint : Option Float → Option ℤ
rssi_to_smallint none = some (pos 0)
rssi_to_smallint (some (finite rssi)) = some (clamp rssi_min rssi_max (round rssi))
rssi_to_smallint (some infinite) = none

abbrev pub or_null : Option ℤ → Field ℤ
or_null none = null
or_null (some n) = value n

abbrev pub or_zero : Option ℤ → ℤ
or_zero none = pos 0
or_zero (some an) = an

abbrev pub with_rssi : CompactMessage → CompactEntry → ℤ → RawEntry
with_rssi msg entry rssi = record {
  an = or_zero msg.ant;
  epc = entry.epc;
  rssi = rssi;
  cnt = pos 1;
  tmp = omitted;
  hum = omitted;
}

-- What is built below is `none` where rounding a strength raises.
unfoldable pub lowered_entry : CompactMessage → CompactEntry → Option RawEntry
lowered_entry msg entry = elim (rssi_to_smallint entry.rssi) [
  | none ↦ none
  | some rssi ↦ some (with_rssi msg entry rssi)
]

unfoldable pub lowered_all : CompactMessage → List CompactEntry → Option (List RawEntry)
lowered_all msg [] = some []
lowered_all msg (entry ∷ entries) = elim (lowered_entry msg entry) [
  | none ↦ none
  | some first ↦ elim (lowered_all msg entries) [ none ↦ none | some rest ↦ some (first ∷ rest) ]
]

unfoldable pub to_snap_model : CompactMessage → Option RawMessage
to_snap_model msg = elim (lowered_all msg msg.entries) [
  | none ↦ none
  | some entries ↦ some (RawMessage.snap (pos 0) msg.ts (or_null msg.lat) (or_null msg.lon) entries)
]

unfoldable pub to_appeared_model : CompactMessage → CompactEntry → Option RawMessage
to_appeared_model msg entry = elim (lowered_entry msg entry) [
  | none ↦ none
  | some raw ↦ some (RawMessage.appeared (pos 0) msg.ts (or_null msg.lat) (or_null msg.lon) raw)
]

unfoldable pub to_disappeared_model : CompactMessage → CompactEntry → Option RawMessage
to_disappeared_model msg entry =
    some (RawMessage.disappeared (pos 0) msg.ts omitted omitted omitted entry.epc)

abbrev pub after_lowered : Db → Result PresenceError (Db × List Entry) → Bool × Db
after_lowered db (ok (after, reads)) = (true, after)
after_lowered db (err e) = (false, db)

abbrev pub after_model : Scope → Db → Result WireError WmMessage → Bool × Db
after_model scope db (ok msg) = after_lowered db (reconcile scope msg db)
after_model scope db (err e) = (false, db)

-- One call of the reconciler, and whether it raised: building the model may raise as well.
unfoldable pub apply_model : Scope → Option RawMessage → Db → Bool × Db
apply_model scope none db = (false, db)
apply_model scope (some raw) db = after_model scope db (validate_message raw)

-- The loop over the entries, up to the first that raises.
unfoldable pub apply_each : Scope → List (Option RawMessage) → Db → Bool × Db
apply_each scope [] db = (true, db)
apply_each scope (raw ∷ rest) db =
    let step = apply_model scope raw db in
    let after = apply_each scope rest step.1 in if step.0 then after else step

abbrev pub models : Kind → CompactMessage → List (Option RawMessage)
models snap msg = to_snap_model msg ∷ []
models add msg = map (to_appeared_model msg) msg.entries
models delete msg = map (to_disappeared_model msg) msg.entries

-- The entries of which `tag_reads` rows are made.
abbrev pub reads_of : Kind → CompactMessage → List CompactEntry
reads_of delete msg = []
reads_of _ msg = msg.entries

-- `ingest` tells whether every read is ingested and the transaction commits.
module _ (fromisoformat : Text → Option ℤ)
    (ingest : CompactMessage → List CompactEntry → Bool) where
  abbrev pub after_apply : CompactMessage → Db → Bool × Db → CompactOutcome × Db
  after_apply msg db (false, after) = (failed, rolled_back db after)
  after_apply msg db (true, after) =
      if ingest msg (reads_of msg.t msg) then (committed, after) else (failed, rolled_back db after)

  abbrev pub after_parse : Scope → Db → Result Reason CompactMessage → CompactOutcome × Db
  after_parse scope db (err overflow_error) = (raised, db)
  after_parse scope db (err r) = (rejected r, db)
  after_parse scope db (ok msg) = after_apply msg db (apply_each scope (models msg.t msg) db)

  unfoldable pub handle_wm_v2_compact_message : Scope → RawCompact → Db → CompactOutcome × Db
  handle_wm_v2_compact_message scope raw db = after_parse scope db (parse_wm_v2 fromisoformat raw)
