-- ===== src/Wire/Compact.antt =====
-- The compact dialect, `parse_wm_v2` of src/tagpulse/ingestion/wm_wire_format.py. A JSON value is a
-- whole number, another number in millionths, a text, a truth value, null, or an array or object
-- (`structured`); the two arrays that the dialect reads are lists. A numeric serial keeps its number
-- where the source keeps its decimal text. `datetime.fromisoformat` is a parameter: the instant in
-- milliseconds, in UTC where the text names no zone. A number like 1e400, which Python reads as
-- infinite, is `beyond`, as are Infinity and NaN, which nothing here tells apart.
use tag_pulse.Prelude.{
  ℕ, zero, suc, int_beq, ◌+◌, ◌*◌, ◌/◌, ◌%◌, ◌-◌, ◌^◌, ltb, leb, nat_beq, ℤ, pos, negsuc, Bool,
  true, false, Option, none, some, List, [], ◌∷◌, if◌then◌else◌, Result, ok, err, ◌>>=◌, ◌>>◌,
  guard, map_ok, between,
}
use tag_pulse.Wire.Epc.{Text, validate_epc}
use tag_pulse.Wire.Message.{antenna_min, antenna_max, lat_min, lat_max, lon_min, lon_max}

pub data Value : Type 0 where
  null structured : Value
  boolean : Bool → Value
  integer : ℤ → Value
  fraction : ℤ → Value
  text : Text → Value

-- A value of the payload.
pub data Json : Type 0 where
  plain : Value → Json
  beyond : Json

-- A float: in millionths, or else an infinity or NaN.
pub data Float : Type 0 where
  finite : ℤ → Float
  infinite : Float

-- The reasons of WmV2ParseError; `overflow_error` is the OverflowError of float() and round(), which
-- is none of them.
pub data Reason : Type 0 where
  unknown_wire_version missing_type unknown_type missing_required_field invalid_timestamp : Reason
  invalid_snap_entry invalid_epc invalid_location overflow_error : Reason

pub data Serial : Type 0 where
  given : Text → Serial
  numeral : ℤ → Serial

pub data Firmware : Type 0 where
  version : Text → Firmware
  number : Float → Firmware

-- t
pub data Kind : Type 0 where
  snap add delete : Kind

pub record CompactEntry : Type 0 where
  pub epc : Text
  pub rssi : Option Float
  pub cnt : Option ℤ
  pub tmp : Option Float
  pub hum : Option Float

pub record CompactMessage : Type 0 where
  pub t : Kind
  pub sn : Serial
  pub ts : ℤ
  pub lat : Option ℤ
  pub lon : Option ℤ
  pub fw : Option Firmware
  pub ant : Option ℤ
  pub entries : List CompactEntry

-- The payload: a key that is left out reads as null; an element of `epcs` that is no list is `none`.
pub record RawCompact : Type 0 where
  pub v : Json
  pub t : Json
  pub sn : Json
  pub ts : Json
  pub lat : Json
  pub lon : Json
  pub fw : Json
  pub ant : Json
  pub epcs : Option (List (Option (List Json)))

-- A whole number in millionths.
abbrev pub millionths : ℤ → ℤ
millionths (pos n) = pos (n * 1000000)
millionths (negsuc n) = negsuc (n * 1000000 + 999999)

-- Whether float(n) raises: what would round to 2 ^ 1024 does.
abbrev float_bound : ℕ
float_bound = 2 ^ 1024 - 2 ^ 970

unfoldable pub overflows_float : ℤ → Bool
overflows_float (pos n) = leb float_bound n
overflows_float (negsuc n) = leb float_bound (n + 1)

-- float(n)
unfoldable pub to_float : ℤ → Result Reason Float
to_float n = if overflows_float n then err overflow_error else ok (finite (millionths n))

unfoldable pub v2_num : Json → Result Reason (Option Float)
v2_num (plain null) = ok none
v2_num (plain (integer n)) = do f ← to_float n; ok (some f)
v2_num (plain (fraction x)) = ok (some (finite x))
v2_num beyond = ok (some infinite)
v2_num _ = err invalid_snap_entry

-- round(), on a magnitude in millionths: to the nearest, a half to the even one.
abbrev pub round_magnitude : ℕ → ℕ
round_magnitude x =
    let whole = x / 1000000 in
    let rest = x % 1000000 in
    if ltb rest 500000 then whole else if ltb 500000 rest then whole + 1 else whole + whole % 2

abbrev pub negated : ℕ → ℤ
negated zero = pos 0
negated (suc k) = negsuc k

unfoldable pub round : ℤ → ℤ
round (pos n) = pos (round_magnitude n)
round (negsuc n) = negated (round_magnitude (n + 1))

-- int(round(n))
unfoldable pub rounded : Option Float → Result Reason (Option ℤ)
rounded none = ok none
rounded (some (finite x)) = ok (some (round x))
rounded (some infinite) = err overflow_error

unfoldable pub v2_int : Json → Result Reason (Option ℤ)
v2_int value = v2_num value >>= rounded

unfoldable pub v2_fw : Json → Result Reason (Option Firmware)
v2_fw (plain null) = ok none
v2_fw (plain (text s)) = ok (some (version s))
v2_fw (plain (integer n)) = do f ← to_float n; ok (some (number f))
v2_fw (plain (fraction x)) = ok (some (number (finite x)))
v2_fw beyond = ok (some (number infinite))
v2_fw _ = err invalid_snap_entry

unfoldable pub v2_sn : Json → Result Reason Serial
v2_sn (plain (text (c ∷ s))) = ok (given (c ∷ s))
v2_sn (plain (integer n)) = ok (numeral n)
v2_sn _ = err missing_required_field

abbrev pub in_coord : ℤ → ℤ → ℤ → Result Reason (Option ℤ)
in_coord lo hi x = if between lo hi x then ok (some x) else err invalid_location

-- An infinite one is outside, and NaN is not inside.
abbrev pub in_coord_float : ℤ → ℤ → Float → Result Reason (Option ℤ)
in_coord_float lo hi (finite x) = in_coord lo hi x
in_coord_float lo hi infinite = err invalid_location

unfoldable pub v2_coord : ℤ → ℤ → Json → Result Reason (Option ℤ)
v2_coord lo hi (plain null) = ok none
v2_coord lo hi (plain (integer n)) = to_float n >>= in_coord_float lo hi
v2_coord lo hi (plain (fraction x)) = in_coord lo hi x
v2_coord lo hi _ = err invalid_location

-- On a delete the readings are not looked at.
abbrev pub v2_readings : Kind → Text → Json → Json → Json → Json → Result Reason CompactEntry
v2_readings delete epc rssi cnt tmp hum =
    ok (record { epc = epc; rssi = none; cnt = none; tmp = none; hum = none })
v2_readings _ epc rssi cnt tmp hum = do
  r ← v2_num rssi
  c ← v2_int cnt
  m ← v2_num tmp
  h ← v2_num hum
  ok (record { epc = epc; rssi = r; cnt = c; tmp = m; hum = h })

-- `_validate_epc` on a JSON value.
unfoldable pub v2_epc : Json → Result Reason Text
v2_epc (plain (text s)) = elim (validate_epc s) [ ok epc ↦ ok epc | err _ ↦ err invalid_epc ]
v2_epc _ = err invalid_epc

unfoldable pub parse_v2_entry : Kind → Option (List Json) → Result Reason CompactEntry
parse_v2_entry t (some (epc ∷ rssi ∷ cnt ∷ tmp ∷ hum ∷ _)) = do
  e ← v2_epc epc
  v2_readings t e rssi cnt tmp hum
parse_v2_entry t _ = err invalid_snap_entry

-- What `==` compares of a value beside a number: True is 1.
abbrev pub as_number : Value → Option ℤ
as_number (integer n) = some (millionths n)
as_number (fraction x) = some x
as_number (boolean true) = some (pos 1000000)
as_number (boolean false) = some (pos 0)
as_number _ = none

abbrev pub is_number : ℕ → Json → Bool
is_number n beyond = false
is_number n (plain value) = elim (as_number value) [
  | none ↦ false
  | some x ↦ int_beq x (pos (n * 1000000))
]

-- t
unfoldable pub v2_kind : Json → Result Reason Kind
v2_kind (plain null) = err missing_type
v2_kind t =
    if is_number 0 t
    then ok snap
    else if is_number 1 t
    then ok add
    else if is_number 2 t
    then ok delete
    else err unknown_type

-- value[:-1] + "+00:00" if value.endswith("Z")
unfoldable pub zone_written : Text → Text
zone_written [] = []
zone_written (c ∷ []) =
    if nat_beq c b'Z' then b'+' ∷ b'0' ∷ b'0' ∷ b':' ∷ b'0' ∷ b'0' ∷ [] else c ∷ []
zone_written (c ∷ s) = c ∷ zone_written s

abbrev pub check_ant : Option ℤ → Result Reason Unit
check_ant none = ok tt
check_ant (some an) = guard (between antenna_min antenna_max an) invalid_snap_entry

abbrev pub or_reason : {A : Type 0} → Reason → Option A → Result Reason A
or_reason e none = err e
or_reason e (some a) = ok a

module _ (fromisoformat : Text → Option ℤ) where
  unfoldable pub parse_v2_ts : Json → Result Reason ℤ
  parse_v2_ts (plain (text (c ∷ s))) =
      or_reason invalid_timestamp (fromisoformat (zone_written (c ∷ s)))
  parse_v2_ts _ = err invalid_timestamp

  unfoldable pub parse_wm_v2 : RawCompact → Result Reason CompactMessage
  parse_wm_v2 raw = do
    guard (is_number 2 raw.v) unknown_wire_version
    t ← v2_kind raw.t
    sn ← v2_sn raw.sn
    ts ← parse_v2_ts raw.ts
    epcs ← or_reason missing_required_field raw.epcs
    ant ← v2_int raw.ant
    check_ant ant
    entries ← map_ok (parse_v2_entry t) epcs
    lat ← v2_coord lat_min lat_max raw.lat
    lon ← v2_coord lon_min lon_max raw.lon
    fw ← v2_fw raw.fw
    ok (record {
      t = t;
      sn = sn;
      ts = ts;
      lat = lat;
      lon = lon;
      fw = fw;
      ant = ant;
      entries = entries;
    })
