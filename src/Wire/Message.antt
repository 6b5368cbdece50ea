-- ===== src/Wire/Message.antt =====
-- Version-2 messages as they stand on the wire, and the models that the backend validates them
-- against: WmSnapEntry, WmSnapMessage, WmAppearedMessage and WmDisappearedMessage of
-- src/tagpulse/ingestion/wm_wire_format.py. A float is a count of millionths. A key of the payload
-- may be left out, `null`, or a value; other keys and values of another type are not modelled.
use tag_pulse.Prelude.{
  ℤ, pos, negsuc, Option, none, some, List, Result, ok, err, ◌>>=◌, ◌>>◌, guard, map_ok, between,
  leb_ℤ,
}
use tag_pulse.Wire.Epc.{Text, EpcError, validate_epc}

pub data Field (A : Type 0) : Type 0 where
  omitted null : Field A
  value : A → Field A

-- What the raw payload holds.
pub record RawEntry : Type 0 where
  pub an : ℤ
  pub epc : Text
  pub rssi : ℤ
  pub cnt : ℤ
  pub tmp : Field ℤ
  pub hum : Field ℤ

pub data RawMessage : Type 0 where
  snap : (sn ts : ℤ) (lat lon : Field ℤ) → List RawEntry → RawMessage
  appeared : (sn ts : ℤ) (lat lon : Field ℤ) → RawEntry → RawMessage
  disappeared : (sn ts : ℤ) (lat lon an : Field ℤ) → Text → RawMessage

-- What validation returns.
pub record Entry : Type 0 where
  pub an : ℤ
  pub epc : Text
  pub rssi : ℤ
  pub cnt : ℤ
  pub tmp : Option ℤ
  pub hum : Option ℤ

pub record Envelope : Type 0 where
  pub sn : ℤ
  pub ts : ℤ
  pub lat : Option ℤ
  pub lon : Option ℤ

pub data WmMessage : Type 0 where
  snap : Envelope → List Entry → WmMessage
  appeared : Envelope → Entry → WmMessage
  disappeared : Envelope → Option ℤ → Text → WmMessage

pub data WireError : Type 0 where
  out_of_range explicit_null missing : WireError
  bad_epc : EpcError → WireError

abbrev pub antenna_min : ℤ
antenna_min = pos 0

abbrev pub antenna_max : ℤ
antenna_max = pos 255

abbrev pub rssi_min : ℤ
rssi_min = negsuc 126

abbrev pub rssi_max : ℤ
rssi_max = pos 0

abbrev pub cnt_min : ℤ
cnt_min = pos 1

abbrev pub cnt_max : ℤ
cnt_max = pos 65535

abbrev pub lat_min : ℤ
lat_min = negsuc 89999999

abbrev pub lat_max : ℤ
lat_max = pos 90000000

abbrev pub lon_min : ℤ
lon_min = negsuc 179999999

abbrev pub lon_max : ℤ
lon_max = pos 180000000

abbrev pub tmp_min : ℤ
tmp_min = negsuc 39999999

abbrev pub tmp_max : ℤ
tmp_max = pos 85000000

abbrev pub hum_min : ℤ
hum_min = pos 0

abbrev pub hum_max : ℤ
hum_max = pos 100000000

-- A number under `Field(ge=lo, le=hi)`.
unfoldable pub in_range : ℤ → ℤ → ℤ → Result WireError ℤ
in_range lo hi n = do guard (between lo hi n) out_of_range; ok n

-- tmp and hum: may be left out, may not be `null`.
unfoldable pub sensor : ℤ → ℤ → Field ℤ → Result WireError (Option ℤ)
sensor lo hi omitted = ok none
sensor lo hi null = err explicit_null
sensor lo hi (value n) = do x ← in_range lo hi n; ok (some x)

-- lat and lon of t=0 and t=1: may be `null`, may not be left out.
unfoldable pub nullable : ℤ → ℤ → Field ℤ → Result WireError (Option ℤ)
nullable lo hi omitted = err missing
nullable lo hi null = ok none
nullable lo hi (value n) = do x ← in_range lo hi n; ok (some x)

-- lat, lon and an of t=2: may be either.
unfoldable pub optional : ℤ → ℤ → Field ℤ → Result WireError (Option ℤ)
optional lo hi omitted = ok none
optional lo hi null = ok none
optional lo hi (value n) = do x ← in_range lo hi n; ok (some x)

unfoldable pub normalize_epc : Text → Result WireError Text
normalize_epc t = elim (validate_epc t) [ ok e ↦ ok e | err r ↦ err (bad_epc r) ]

unfoldable pub validate_entry : RawEntry → Result WireError Entry
validate_entry r = do
  a ← in_range antenna_min antenna_max r.an
  e ← normalize_epc r.epc
  s ← in_range rssi_min rssi_max r.rssi
  c ← in_range cnt_min cnt_max r.cnt
  t ← sensor tmp_min tmp_max r.tmp
  h ← sensor hum_min hum_max r.hum
  ok (record { an = a; epc = e; rssi = s; cnt = c; tmp = t; hum = h })

-- `sn` and `ts` are at least 0.
unfoldable pub validate_envelope :
    (ℤ → ℤ → Field ℤ → Result WireError (Option ℤ))
    → ℤ
    → ℤ
    → Field ℤ
    → Field ℤ
    → Result WireError Envelope
validate_envelope location sn ts lat lon = do
  guard (leb_ℤ (pos 0) sn) out_of_range
  guard (leb_ℤ (pos 0) ts) out_of_range
  x ← location lat_min lat_max lat
  y ← location lon_min lon_max lon
  ok (record { sn = sn; ts = ts; lat = x; lon = y })

-- The discriminated union: dispatch on `t`.
unfoldable pub validate_message : RawMessage → Result WireError WmMessage
validate_message (RawMessage.snap sn ts lat lon epcs) = do
  env ← validate_envelope nullable sn ts lat lon
  entries ← map_ok validate_entry epcs
  ok (WmMessage.snap env entries)
validate_message (RawMessage.appeared sn ts lat lon r) = do
  env ← validate_envelope nullable sn ts lat lon
  e ← validate_entry r
  ok (WmMessage.appeared env e)
validate_message (RawMessage.disappeared sn ts lat lon an epc) = do
  env ← validate_envelope optional sn ts lat lon
  a ← optional antenna_min antenna_max an
  e ← normalize_epc epc
  ok (WmMessage.disappeared env a e)
