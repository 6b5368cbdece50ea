-- ===== src/Edge/Producer.antt =====
-- The cycle-diff producer of version-2 messages (clients/pi/tagpulse_edge/wm_v2_producer.py). A
-- cycle that raises leaves the producer as it was, so a method returns the new producer and its
-- messages, or the error.
pub mod Laws
pub mod Cycles
use mathlib.Core.List.{flat_map}
use tag_pulse.Prelude.{
  ℕ, ◌+◌, ◌%◌, ltb, length, nat_beq, ℤ, pos, negsuc, ◌-ℤ◌, Bool, true, false, ◌&&◌, ◌||◌, not,
  Option, none, some, List, [], ◌∷◌, ◌++◌, map, Result, ok, err, ◌>>=◌, ◌>>◌, guard, between, leb_ℤ,
  ltb_ℤ, if◌then◌else◌, keep, contains, dedup, sorted, Eq, ◌==◌, pair_eq, list_eq, nat_eq, int_eq,
  nat_ord, int_ord, list_ord, pair_ord,
}
use tag_pulse.Dict.{Dict, has_key, insert, lookup, keys, values}
use tag_pulse.Wire.Epc.{
  Text, EpcError, length_outside, length_odd, not_hexadecimal, int_base16, upper,
}
use tag_pulse.Wire.Message.{
  Field, omitted, null, value, RawEntry, RawMessage, snap, appeared, disappeared,
}
use tag_pulse.Edge.Limits.{
  epc_min_hex_chars, epc_max_hex_chars, antenna_min, antenna_max, rssi_min, rssi_max, cnt_min,
  cnt_max, lat_min, lat_max, lon_min, lon_max, tmp_min, tmp_max, hum_min, hum_max,
}

pub record Observation : Type 0 where
  pub an : ℤ
  pub epc : Text
  pub rssi : ℤ
  pub cnt : ℤ
  pub tmp : Option ℤ
  pub hum : Option ℤ

-- (antenna, EPC)
abbrev pub CycleKey : Type 0
CycleKey = ℤ × Text

pub data ProducerError : Type 0 where
  negative_ts an_outside rssi_outside cnt_outside tmp_outside hum_outside lat_outside lon_outside :
      ProducerError
  duplicate_key : CycleKey → ProducerError
  epc_rejected : EpcError → ProducerError

-- `snap_period_ms` is snap_period_s * 1000.
pub record Producer : Type 0 where
  pub sn : ℤ
  pub snap_period_ms : ℤ
  pub snap_cycle_count : ℤ
  pub last_cycle : Dict CycleKey Observation
  pub last_snap_ts_ms : Option ℤ
  pub cycles_since_snap : ℕ
  pub force_snap_next : Bool

abbrev pub new_producer : ℤ → ℤ → ℤ → Producer
new_producer sn period count = record {
  sn = sn;
  snap_period_ms = period;
  snap_cycle_count = count;
  last_cycle = [];
  last_snap_ts_ms = none;
  cycles_since_snap = 0;
  force_snap_next = true;
}

-- `v is not None and not lo <= v <= hi` raises.
abbrev pub check_optional : ℤ → ℤ → ProducerError → Option ℤ → Result ProducerError Unit
check_optional lo hi e none = ok tt
check_optional lo hi e (some n) = guard (between lo hi n) e

-- The edge's copy of _validate_epc, on the same int(_, 16) and upper().
unfoldable pub checked_epc : Text → Result ProducerError Text
checked_epc raw =
    if ltb (length raw) epc_min_hex_chars || ltb epc_max_hex_chars (length raw)
    then err (epc_rejected length_outside)
    else if not (nat_beq (length raw % 2) 0)
    then err (epc_rejected length_odd)
    else if int_base16 raw
    then ok (upper raw)
    else err (epc_rejected not_hexadecimal)

unfoldable pub validate_obs : Observation → Result ProducerError Observation
validate_obs obs = do
  guard (between antenna_min antenna_max obs.an) an_outside
  epc ← checked_epc obs.epc
  guard (between rssi_min rssi_max obs.rssi) rssi_outside
  guard (between cnt_min cnt_max obs.cnt) cnt_outside
  check_optional tmp_min tmp_max tmp_outside obs.tmp
  check_optional hum_min hum_max hum_outside obs.hum
  ok (record obs { epc = epc })

unfoldable pub validate_lat_lon : Option ℤ → Option ℤ → Result ProducerError Unit
validate_lat_lon lat lon =
    check_optional lat_min lat_max lat_outside lat >> check_optional lon_min lon_max lon_outside lon

-- A key is left out where there is no reading.
abbrev pub or_omitted : Option ℤ → Field ℤ
or_omitted none = omitted
or_omitted (some n) = value n

-- lat and lon stand as `null` where there is no fix.
abbrev pub or_null : Option ℤ → Field ℤ
or_null none = null
or_null (some n) = value n

abbrev pub entry_dict : Observation → RawEntry
entry_dict obs = record {
  an = obs.an;
  epc = obs.epc;
  rssi = obs.rssi;
  cnt = obs.cnt;
  tmp = or_omitted obs.tmp;
  hum = or_omitted obs.hum;
}

unfoldable pub begin_session : Producer → Producer
begin_session p = record p { last_cycle = []; cycles_since_snap = 0; force_snap_next = true }

-- The loop over the cycle: each observation is validated, and a key that is there is an error.
unfoldable pub materialize :
    Dict CycleKey Observation → List Observation → Result ProducerError (Dict CycleKey Observation)
materialize current [] = ok current
materialize current (obs ∷ cycle) = do
  checked ← validate_obs obs
  let key : CycleKey = (checked.an, checked.epc)
  let rest = materialize (insert key checked current) cycle
  if has_key key current then err (duplicate_key key) else rest

unfoldable pub snap_triggered : Producer → ℤ → Bool
snap_triggered p ts = if p.force_snap_next then true else elim p.last_snap_ts_ms [
  | none ↦ true
  | some last ↦
      if leb_ℤ (pos 0) p.snap_period_ms && leb_ℤ p.snap_period_ms (ts -ℤ last)
      then true
      else leb_ℤ (pos 0) p.snap_cycle_count && leb_ℤ p.snap_cycle_count (pos p.cycles_since_snap)
]

unfoldable pub emit_snap :
    Producer → ℤ → Option ℤ → Option ℤ → Dict CycleKey Observation → Producer × List RawMessage
emit_snap p ts lat lon current = (
  record p {
    last_cycle = current;
    last_snap_ts_ms = some ts;
    cycles_since_snap = 0;
    force_snap_next = false;
  },
  snap p.sn ts (or_null lat) (or_null lon) (map entry_dict (values current)) ∷ [],
)

-- {epc for (_an, epc) in d}
abbrev pub epcs_of : Dict CycleKey Observation → List Text
epcs_of d = dedup (map (λ k. k.1) (keys d))

-- sorted(current.keys() - last.keys())
unfoldable pub add_keys : Dict CycleKey Observation → Dict CycleKey Observation → List CycleKey
add_keys last current = sorted (keep (λ k. not (has_key k last)) (keys current))

-- sorted(last_epcs - current_epcs)
unfoldable pub sub_epcs : Dict CycleKey Observation → Dict CycleKey Observation → List Text
sub_epcs last current = sorted (keep (λ e. not (contains e (epcs_of current))) (epcs_of last))

-- The t=1 of one added key. Every added key is one of `current`, so the lookup never misses.
unfoldable pub appeared_for :
    Producer → ℤ → Option ℤ → Option ℤ → Dict CycleKey Observation → CycleKey → List RawMessage
appeared_for p ts lat lon current key = elim (lookup key current) [
  | none ↦ []
  | some obs ↦ appeared p.sn ts (or_null lat) (or_null lon) (entry_dict obs) ∷ []
]

-- A t=2 carries the EPC alone.
unfoldable pub disappeared_for : Producer → ℤ → Text → RawMessage
disappeared_for p ts epc = disappeared p.sn ts omitted omitted omitted epc

unfoldable pub emit_delta :
    Producer → ℤ → Option ℤ → Option ℤ → Dict CycleKey Observation → Producer × List RawMessage
emit_delta p ts lat lon current = (
  record p { last_cycle = current; cycles_since_snap = p.cycles_since_snap + 1 },
  flat_map (appeared_for p ts lat lon current) (add_keys p.last_cycle current)
      ++ map (disappeared_for p ts) (sub_epcs p.last_cycle current),
)

unfoldable pub emit_cycle :
    Producer
    → ℤ
    → Option ℤ
    → Option ℤ
    → List Observation
    → Result ProducerError (Producer × List RawMessage)
emit_cycle p ts lat lon cycle = do
  guard (leb_ℤ (pos 0) ts) negative_ts
  validate_lat_lon lat lon
  current ← materialize [] cycle
  if snap_triggered p ts
      then ok (emit_snap p ts lat lon current)
      else ok (emit_delta p ts lat lon current)
