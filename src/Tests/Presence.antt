-- ===== src/Tests/Presence.antt =====
-- Runs of the wire format, the producer, the presence table and the subscriber.
use tag_pulse.Prelude.{
  pos, negsuc, ◌≤◌, ◌%◌, ◌≡◌, refl, arith, Bool, true, false, ◌&&◌, ◌||◌, not, none, some, List, [],
  ◌∷◌, ok, ◌==◌, list_eq, nat_eq, int_eq, pair_eq, if◌then◌else◌, contains, Unique, map, length,
  inl,
}
use tag_pulse.Dict.{Dict, has_key, insert, lookup}
use tag_pulse.Wire.Epc.{
  Text, validate_epc, int_base16, is_space, unsigned, unprefixed, digits_start, is_hex, digits_from,
  upper, to_upper, epc_min_hex_chars, epc_max_hex_chars,
}
use tag_pulse.Wire.Epc.Canonical.{validate_epc_canonical, validate_epc_prefixed}
use tag_pulse.Wire.Message.{
  Entry, Envelope, RawMessage, WmMessage, null, validate_entry, validate_message, normalize_epc,
  validate_envelope, nullable, in_range, sensor,
}
use tag_pulse.Edge.Producer.{
  Producer, Observation, CycleKey, new_producer, begin_session, validate_obs, entry_dict,
  materialize, emit_cycle, checked_epc, validate_lat_lon, snap_triggered, emit_snap,
}
use tag_pulse.Edge.Producer.Laws.{as_entry, IsCycle, has_epc, names, validate_obs_accepted}
use tag_pulse.Edge.Producer.Cycles.{cycle_key, materialize_lem}
use tag_pulse.Presence.{Scope, PresenceKey, Db, settle_snap, settle_appeared, settle_disappeared}
use tag_pulse.Presence.View.{is_present, epcs_in}
use tag_pulse.Presence.Events.{replay}
use tag_pulse.Presence.Transitions.{IsConsistent, Applied, settle_snap_lem, settle_snap_reports}
use tag_pulse.Presence.Transitions.Delta.{settle_appeared_lem, settle_disappeared_lem}
use tag_pulse.Subscriber.{handle_wm_v2_message, handle_stream, handle_all}
use tag_pulse.Subscriber.Accepts.{handle_stream-IsConsistent}
use tag_pulse.Subscriber.Rollback.{handle_wm_v2_message_unpublished}
use tag_pulse.Sync.{InSync, emit_cycle-InSync, begin_session-resync}

-- "e2801160" and the same in capitals.
abbrev epc_text : Text
epc_text = b'e' ∷ b'2' ∷ b'8' ∷ b'0' ∷ b'1' ∷ b'1' ∷ b'6' ∷ b'0' ∷ []

abbrev epc : Text
epc = b'E' ∷ b'2' ∷ b'8' ∷ b'0' ∷ b'1' ∷ b'1' ∷ b'6' ∷ b'0' ∷ []

epc_run : validate_epc epc_text ≡ ok epc
unfolding validate_epc int_base16 is_space unsigned unprefixed digits_start is_hex digits_from upper
    to_upper
epc_run = refl

validate_epc_canonical_example :
    (epc ≡ upper epc_text)
    × (epc_min_hex_chars ≤ length epc)
    × (length epc ≤ epc_max_hex_chars)
    × (length epc % 2 ≡ 0)
    × (validate_epc epc ≡ ok epc)
validate_epc_canonical_example = validate_epc_canonical epc_text epc epc_run

validate_epc_prefixed_example :
    validate_epc (b'0' ∷ b'x' ∷ epc_text) ≡ ok (b'0' ∷ b'X' ∷ upper epc_text)
unfolding is_hex
validate_epc_prefixed_example = validate_epc_prefixed epc_text refl refl (omega arith) (omega arith)

abbrev seen : Observation
seen = record { an = pos 1; epc = epc_text; rssi = negsuc 59; cnt = pos 2; tmp = none; hum = none }

abbrev checked : Observation
checked = record { an = pos 1; epc = epc; rssi = negsuc 59; cnt = pos 2; tmp = none; hum = none }

seen_run : validate_obs seen ≡ ok checked
unfolding validate_obs checked_epc validate_epc int_base16 is_space unsigned unprefixed digits_start
    is_hex digits_from upper to_upper
seen_run = refl

validate_obs_accepted_example :
    (checked.epc ≡ upper seen.epc)
    × (validate_entry (entry_dict checked) ≡ ok (as_entry checked))
    × (normalize_epc checked.epc ≡ ok checked.epc)
validate_obs_accepted_example = validate_obs_accepted seen checked seen_run

abbrev current : Dict CycleKey Observation
current = ((pos 1, epc), checked) ∷ []

current_run : materialize [] (seen ∷ []) ≡ ok current
unfolding materialize has_key insert validate_obs checked_epc validate_epc int_base16 is_space
    unsigned unprefixed digits_start is_hex digits_from upper to_upper
current_run = refl

materialize_lem_example :
    Unique (map cycle_key (seen ∷ []))
    × IsCycle current
    × ((e : Text) → has_epc e current ≡ names e (seen ∷ []))
materialize_lem_example = materialize_lem (seen ∷ []) current current_run

abbrev empty : Db
empty = record { table = []; published = [] }

empty-IsConsistent : IsConsistent empty
unfolding replay is_present lookup
empty-IsConsistent = record { distinct = tt; replayed = λ key. refl }

abbrev scope : Scope
scope = (1, 2)

abbrev entry : Entry
entry = as_entry checked

settle_snap_lem_example : Applied (settle_snap scope (pos 5) (entry ∷ []) empty).0 (λ key.
    if scope == key.0 then contains key.1 (epcs_in (entry ∷ [])) else is_present empty.table key)
settle_snap_lem_example = settle_snap_lem scope (pos 5) (entry ∷ []) empty empty-IsConsistent

settle_snap_reports_example :
    (contains epc (settle_snap scope (pos 5) (entry ∷ []) empty).1
      ≡ contains epc (epcs_in (entry ∷ [])) && not (is_present empty.table (scope, epc)))
    × (contains epc (settle_snap scope (pos 5) (entry ∷ []) empty).2
        ≡ is_present empty.table (scope, epc) && not (contains epc (epcs_in (entry ∷ []))))
settle_snap_reports_example =
    settle_snap_reports scope (pos 5) (entry ∷ []) empty epc empty-IsConsistent

settle_appeared_lem_example :
    Applied
      (settle_appeared scope (pos 5) entry empty).0
      (λ key. (scope, entry.epc) == key || is_present empty.table key)
settle_appeared_lem_example = settle_appeared_lem scope (pos 5) entry empty empty-IsConsistent

abbrev shown : Db
shown = (settle_appeared scope (pos 5) entry empty).0

shown-IsConsistent : IsConsistent shown
shown-IsConsistent = (settle_appeared_lem scope (pos 5) entry empty empty-IsConsistent).consistent

settle_disappeared_lem_example :
    Applied
      (settle_disappeared scope (pos 9) epc shown).0
      (λ key. not ((scope, epc) == key) && is_present shown.table key)
settle_disappeared_lem_example = settle_disappeared_lem scope (pos 9) epc shown shown-IsConsistent

abbrev ingest_all : List Entry → Bool
ingest_all reads = true

abbrev ingest_none : List Entry → Bool
ingest_none reads = false

abbrev appearance : RawMessage
appearance = RawMessage.appeared (pos 1) (pos 5) null null (entry_dict seen)

handle_stream-IsConsistent_example :
    IsConsistent (handle_stream ingest_all ((scope, appearance) ∷ ((1, 3), appearance) ∷ []) empty)
handle_stream-IsConsistent_example =
    handle_stream-IsConsistent ingest_all ((scope, appearance) ∷ ((1, 3), appearance) ∷ []) empty
      (λ reads. refl) empty-IsConsistent

abbrev envelope : Envelope
envelope = record { sn = pos 1; ts = pos 5; lat = none; lon = none }

appearance_run : validate_message appearance ≡ ok (WmMessage.appeared envelope entry)
unfolding validate_message validate_envelope nullable validate_entry in_range sensor normalize_epc
    validate_epc int_base16 is_space unsigned unprefixed digits_start is_hex digits_from upper
    to_upper
appearance_run = refl

handle_wm_v2_message_unpublished_example :
    ((handle_wm_v2_message ingest_none scope appearance empty).1.table ≡ empty.table)
    × (¬ IsConsistent (handle_wm_v2_message ingest_none scope appearance empty).1)
unfolding is_present lookup
handle_wm_v2_message_unpublished_example =
    handle_wm_v2_message_unpublished ingest_none scope appearance envelope entry empty
      empty-IsConsistent appearance_run refl refl refl

-- A producer that has sent its first snap, and the table after it; then a cycle without the tag.
abbrev start : Producer
start = new_producer (pos 1) (pos 60000) (pos 60)

abbrev next : Producer
next = record start {
  last_cycle = current;
  last_snap_ts_ms = some (pos 5);
  force_snap_next = false;
}

abbrev first_snap : List RawMessage
first_snap = RawMessage.snap (pos 1) (pos 5) null null (entry_dict checked ∷ []) ∷ []

emit_run : emit_cycle start (pos 5) none none (seen ∷ []) ≡ ok (next, first_snap)
unfolding emit_cycle validate_lat_lon snap_triggered emit_snap materialize has_key insert
    validate_obs checked_epc validate_epc int_base16 is_space unsigned unprefixed digits_start
    is_hex digits_from upper to_upper
emit_run = refl

start-InSync : InSync scope start empty
start-InSync = record {
  cycle = record { distinct = tt; entries = tt };
  consistent = empty-IsConsistent;
  agree = inl refl;
}

emit_cycle-InSync_example :
    InSync scope next (handle_all ingest_all scope first_snap empty)
    × ((key : PresenceKey)
        → is_present (handle_all ingest_all scope first_snap empty).table key
          ≡ (if scope == key.0 then names key.1 (seen ∷ []) else is_present empty.table key))
emit_cycle-InSync_example =
    emit_cycle-InSync ingest_all scope start next (pos 5) none none (seen ∷ []) first_snap empty
      (λ reads. refl) refl refl start-InSync emit_run

restart_run : emit_cycle (begin_session start) (pos 5) none none (seen ∷ []) ≡ ok (next, first_snap)
unfolding emit_cycle begin_session validate_lat_lon snap_triggered emit_snap materialize has_key
    insert validate_obs checked_epc validate_epc int_base16 is_space unsigned unprefixed
    digits_start is_hex digits_from upper to_upper
restart_run = refl

begin_session-resync_example :
    InSync scope next (handle_all ingest_all scope first_snap shown)
    × ((e : Text)
        → is_present (handle_all ingest_all scope first_snap shown).table (scope, e)
          ≡ names e (seen ∷ []))
begin_session-resync_example =
    begin_session-resync ingest_all scope start next (pos 5) none none (seen ∷ []) first_snap shown
      (λ reads. refl) refl refl shown-IsConsistent restart_run
