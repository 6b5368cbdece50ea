-- ===== src/Tests/Compact.antt =====
-- A run of the compact dialect.
use tag_pulse.Prelude.{
  ℤ, pos, negsuc, ◌≡◌, ◌≢◌, ◌⊎◌, refl, Bool, true, Option, none, some, List, [], ◌∷◌, ok, err,
  arith,
}
use tag_pulse.Dict.{lookup}
use tag_pulse.Wire.Epc.{
  Text, validate_epc, int_base16, is_space, unsigned, unprefixed, digits_start, is_hex, digits_from,
  upper, to_upper,
}
use tag_pulse.Wire.Compact.{
  plain, beyond, finite, infinite, to_float, overflows_float, rounded, overflow_error, null,
  integer, fraction, text, CompactEntry, CompactMessage, RawCompact, given, add, parse_wm_v2,
  v2_kind, v2_sn, parse_v2_ts, v2_int, v2_num, round, parse_v2_entry, v2_epc, v2_coord, v2_fw,
}
use tag_pulse.Presence.{Db}
use tag_pulse.Presence.View.{is_present}
use tag_pulse.Presence.Events.{replay}
use tag_pulse.Presence.Transitions.{IsConsistent}
use tag_pulse.Subscriber.Compact.{committed, rssi_to_smallint, handle_wm_v2_compact_message}
use tag_pulse.Subscriber.Compact.Committed.{handle_wm_v2_compact_message_commits}
use tag_pulse.Subscriber.Compact.Applied.{handle_wm_v2_compact_message-IsConsistent}

-- A stand-in for the parser of instants.
abbrev noon : Text → Option ℤ
noon s = some (pos 43200000)

abbrev ingest_compact : CompactMessage → List CompactEntry → Bool
ingest_compact msg reads = true

abbrev start_db : Db
start_db = record { table = []; published = [] }

start_db-IsConsistent : IsConsistent start_db
unfolding replay is_present lookup
start_db-IsConsistent = record { distinct = tt; replayed = λ key. refl }

-- An addition of one tag at -60.5 dBm.
abbrev addition : RawCompact
addition = record {
  v = plain (integer (pos 2));
  t = plain (integer (pos 1));
  sn = plain (text (b'r' ∷ []));
  ts = plain (text (b'Z' ∷ []));
  lat = plain null;
  lon = plain null;
  fw = plain null;
  ant = plain (integer (pos 1));
  epcs = some (
      some (
        plain (text (b'e' ∷ b'2' ∷ b'8' ∷ b'0' ∷ b'1' ∷ b'1' ∷ b'6' ∷ b'0' ∷ []))
        ∷ plain (fraction (negsuc 60499999))
        ∷ plain (integer (pos 1))
        ∷ plain null
        ∷ plain null
        ∷ [])
      ∷ []);
}

handle_wm_v2_compact_message-IsConsistent_example :
    (((handle_wm_v2_compact_message noon ingest_compact (1, 2) addition start_db).0 ≢ committed)
      × ((handle_wm_v2_compact_message noon ingest_compact (1, 2) addition start_db).1.table
          ≡ start_db.table))
    ⊎ (((handle_wm_v2_compact_message noon ingest_compact (1, 2) addition start_db).0 ≡ committed)
        × IsConsistent
            (handle_wm_v2_compact_message noon ingest_compact (1, 2) addition start_db).1)
handle_wm_v2_compact_message-IsConsistent_example =
    handle_wm_v2_compact_message-IsConsistent noon ingest_compact (1, 2) addition start_db
      start_db-IsConsistent

abbrev addition_message : CompactMessage
addition_message = record {
  t = add;
  sn = given (b'r' ∷ []);
  ts = pos 43200000;
  lat = none;
  lon = none;
  fw = none;
  ant = some (pos 1);
  entries =
      record {
        epc = b'E' ∷ b'2' ∷ b'8' ∷ b'0' ∷ b'1' ∷ b'1' ∷ b'6' ∷ b'0' ∷ [];
        rssi = some (finite (negsuc 60499999));
        cnt = some (pos 1);
        tmp = none;
        hum = none;
      }
      ∷ [];
}

addition_run : parse_wm_v2 noon addition ≡ ok addition_message
unfolding parse_wm_v2 v2_kind v2_sn parse_v2_ts v2_int v2_num to_float overflows_float rounded round
    parse_v2_entry v2_epc v2_coord v2_fw validate_epc int_base16 is_space unsigned unprefixed
    digits_start is_hex digits_from upper to_upper
addition_run = refl

handle_wm_v2_compact_message_commits_example :
    (handle_wm_v2_compact_message noon ingest_compact (1, 2) addition start_db).0 ≡ committed
handle_wm_v2_compact_message_commits_example =
    handle_wm_v2_compact_message_commits noon ingest_compact (1, 2) addition addition_message
      start_db addition_run refl refl ((λ same. ground arith), tt) (λ reads. refl)

-- A strength of 1e400 passes the parser, but its message is not applied; the same for a count raises.
strength_parsed : v2_num beyond ≡ ok (some infinite)
unfolding v2_num
strength_parsed = refl

strength_unrounded : rssi_to_smallint (some infinite) ≡ none
unfolding rssi_to_smallint
strength_unrounded = refl

count_overflows : v2_int beyond ≡ err overflow_error
unfolding v2_int v2_num rounded
count_overflows = refl
