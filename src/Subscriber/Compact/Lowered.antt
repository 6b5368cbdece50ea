-- ===== src/Subscriber/Compact/Lowered.antt =====
-- A parsed compact message whose strengths are finite becomes valid keyed models.
use tag_pulse.Prelude.{
  ℤ, pos, leb_ℤ, between, ◌≡◌, ◌≢◌, refl, sym, subst, true, Option, none, some, List, [], ◌∷◌, map,
  arith, ok, >>=-eq-ok, guard, map_ok, All, Bool-cases, inl, inr,
}
use tag_pulse.Wire.Epc.{Text}
use tag_pulse.Wire.Epc.Canonical.{validate_epc_canonical}
use tag_pulse.Wire.Message.{
  Entry, RawEntry, normalize_epc, validate_entry, validate_envelope, in_range, sensor, nullable,
  antenna_min, antenna_max, rssi_min, rssi_max, lat_min, lat_max, lon_min, lon_max,
}
use tag_pulse.Edge.Producer.Laws.{guard-eq-ok}
use tag_pulse.Wire.Compact.{
  Json, plain, Float, finite, infinite, to_float, in_coord_float, null, integer, fraction, text,
  round, Kind, delete, CompactEntry, CompactMessage, RawCompact, is_number, v2_kind, v2_sn, v2_fw,
  v2_int, v2_num, v2_coord, v2_epc, v2_readings, in_coord, check_ant, or_reason, parse_v2_entry,
  parse_v2_ts, parse_wm_v2,
}
use tag_pulse.Subscriber.Compact.{
  clamp, rssi_to_smallint, or_null, or_zero, with_rssi, lowered_entry, lowered_all,
}

clamp-between : (n : ℤ) → between rssi_min rssi_max (clamp rssi_min rssi_max n) ≡ true
clamp-between n = ground arith

-- The strength is no infinity.
abbrev pub IsFinite : CompactEntry → Type 0
IsFinite e = e.rssi ≢ some infinite

-- What a strength that is finite becomes.
abbrev pub smallint : Option Float → ℤ
smallint (some (finite x)) = clamp rssi_min rssi_max (round x)
smallint _ = pos 0

smallint-between : (o : Option Float) → between rssi_min rssi_max (smallint o) ≡ true
smallint-between none = refl
smallint-between (some infinite) = refl
smallint-between (some (finite x)) = clamp-between (round x)

rssi_to_smallint_lem :
    (o : Option Float) → o ≢ some infinite → rssi_to_smallint o ≡ some (smallint o)
unfolding rssi_to_smallint
rssi_to_smallint_lem none h = refl
rssi_to_smallint_lem (some infinite) h = absurd (h refl)
rssi_to_smallint_lem (some (finite x)) h = refl

v2_epc-canonical : (v : Json) (epc : Text) → v2_epc v ≡ ok epc → normalize_epc epc ≡ ok epc
unfolding v2_epc normalize_epc
v2_epc-canonical (plain (text s)) epc h = ground (arith, validate_epc_canonical s epc)
v2_epc-canonical _ epc h = ground arith

abbrev pub IsCanonical : CompactEntry → Type 0
IsCanonical e = normalize_epc e.epc ≡ ok e.epc

v2_readings-epc :
    (t : Kind) (epc : Text) (r c m h : Json) (e : CompactEntry)
    → v2_readings t epc r c m h ≡ ok e
    → e.epc ≡ epc
v2_readings-epc delete epc r c m h e g = ground arith
v2_readings-epc _ epc r c m h e g =
    let (_, _, g1) = >>=-eq-ok (v2_num r) _ g in
    let (_, _, g2) = >>=-eq-ok (v2_int c) _ g1 in
    let (_, _, g3) = >>=-eq-ok (v2_num m) _ g2 in
    let (_, _, g4) = >>=-eq-ok (v2_num h) _ g3 in ground arith

parse_v2_entry-IsCanonical :
    (t : Kind) (raw : Option (List Json)) (e : CompactEntry)
    → parse_v2_entry t raw ≡ ok e
    → IsCanonical e
unfolding parse_v2_entry
parse_v2_entry-IsCanonical t (some (v ∷ r ∷ c ∷ m ∷ h ∷ _)) e g =
    let (epc, a, g1) = >>=-eq-ok (v2_epc v) _ g in
    subst (λ x. normalize_epc x ≡ ok x) (sym (v2_readings-epc t epc r c m h e g1))
      (v2_epc-canonical v epc a)
parse_v2_entry-IsCanonical t _ e g = ground arith

entries-IsCanonical :
    (t : Kind) (raws : List (Option (List Json))) (es : List CompactEntry)
    → map_ok (parse_v2_entry t) raws ≡ ok es
    → All IsCanonical es
entries-IsCanonical t [] es g = subst (All IsCanonical) {x = []} (ground arith) tt
entries-IsCanonical t (raw ∷ raws) es g =
    let (e, a, g1) = >>=-eq-ok (parse_v2_entry t raw) _ g in
    let (rest, b, g2) = >>=-eq-ok (map_ok (parse_v2_entry t) raws) _ g1 in
    subst (All IsCanonical) {x = e ∷ rest} (ground arith)
      (parse_v2_entry-IsCanonical t raw e a, entries-IsCanonical t raws rest b)

in_coord-nullable :
    (lo hi x : ℤ) (o : Option ℤ) → in_coord lo hi x ≡ ok o → nullable lo hi (or_null o) ≡ ok o
unfolding nullable in_range
in_coord-nullable lo hi x o h = elim (Bool-cases (between lo hi x)) [
  | inl inside ↦
      subst (λ o. nullable lo hi (or_null o) ≡ ok o) {x = some x} (ground arith) (rw inside refl)
  | inr outside ↦ absurd (cc (rw outside at h))
]

in_coord_float-nullable :
    (lo hi : ℤ) (f : Float) (o : Option ℤ)
    → in_coord_float lo hi f ≡ ok o
    → nullable lo hi (or_null o) ≡ ok o
in_coord_float-nullable lo hi (finite x) o h = in_coord-nullable lo hi x o h
in_coord_float-nullable lo hi infinite o h = ground arith

v2_coord-nullable :
    (lo hi : ℤ) (v : Json) (o : Option ℤ)
    → v2_coord lo hi v ≡ ok o
    → nullable lo hi (or_null o) ≡ ok o
unfolding v2_coord nullable
v2_coord-nullable lo hi (plain null) o h =
    subst (λ o. nullable lo hi (or_null o) ≡ ok o) {x = none} (ground arith) refl
v2_coord-nullable lo hi (plain (integer n)) o h =
    let (f, _, g) = >>=-eq-ok (to_float n) _ h in in_coord_float-nullable lo hi f o g
v2_coord-nullable lo hi (plain (fraction x)) o h = in_coord-nullable lo hi x o h
v2_coord-nullable lo hi _ o h = ground arith

-- What holds of every parsed message.
pub record Parsed (msg : CompactMessage) : Type 0 where
  pub antenna : between antenna_min antenna_max (or_zero msg.ant) ≡ true
  pub latitude : nullable lat_min lat_max (or_null msg.lat) ≡ ok msg.lat
  pub longitude : nullable lon_min lon_max (or_null msg.lon) ≡ ok msg.lon
  pub canonical : All IsCanonical msg.entries

check_ant_lem :
    (o : Option ℤ) → check_ant o ≡ ok tt → between antenna_min antenna_max (or_zero o) ≡ true
check_ant_lem none h = refl
check_ant_lem (some an) h = guard-eq-ok _ _ h

pub parse_wm_v2-Parsed :
    (fromisoformat : Text → Option ℤ) (raw : RawCompact) (msg : CompactMessage)
    → parse_wm_v2 fromisoformat raw ≡ ok msg
    → Parsed msg
unfolding parse_wm_v2
parse_wm_v2-Parsed fromisoformat raw msg h =
    let (_, _, h1) = >>=-eq-ok (guard (is_number 2 raw.v) _) _ h in
    let (t, _, h2) = >>=-eq-ok (v2_kind raw.t) _ h1 in
    let (sn, _, h3) = >>=-eq-ok (v2_sn raw.sn) _ h2 in
    let (ts, _, h4) = >>=-eq-ok (parse_v2_ts fromisoformat raw.ts) _ h3 in
    let (epcs, _, h5) = >>=-eq-ok (or_reason _ raw.epcs) _ h4 in
    let (ant, _, h6) = >>=-eq-ok (v2_int raw.ant) _ h5 in
    let (_, a, h7) = >>=-eq-ok (check_ant ant) _ h6 in
    let (entries, b, h8) = >>=-eq-ok (map_ok (parse_v2_entry t) epcs) _ h7 in
    let (lat, c, h9) = >>=-eq-ok (v2_coord lat_min lat_max raw.lat) _ h8 in
    let (lon, d, h10) = >>=-eq-ok (v2_coord lon_min lon_max raw.lon) _ h9 in
    let (fw, _, h11) = >>=-eq-ok (v2_fw raw.fw) _ h10 in
    let built : CompactMessage = record {
      t = t;
      sn = sn;
      ts = ts;
      lat = lat;
      lon = lon;
      fw = fw;
      ant = ant;
      entries = entries;
    } in
    subst Parsed {x = built} (ground arith) (record {
      antenna = check_ant_lem ant a;
      latitude = v2_coord-nullable lat_min lat_max raw.lat lat c;
      longitude = v2_coord-nullable lon_min lon_max raw.lon lon d;
      canonical = entries-IsCanonical t epcs entries b;
    })

-- The keyed entry that validation makes of a lowered one.
abbrev pub keyed : CompactMessage → CompactEntry → Entry
keyed msg e = record {
  an = or_zero msg.ant;
  epc = e.epc;
  rssi = smallint e.rssi;
  cnt = pos 1;
  tmp = none;
  hum = none;
}

-- An entry as it is lowered, where its strength is finite.
abbrev pub lowered : CompactMessage → CompactEntry → RawEntry
lowered msg e = with_rssi msg e (smallint e.rssi)

pub lowered_entry_lem :
    (msg : CompactMessage) (e : CompactEntry)
    → IsFinite e
    → lowered_entry msg e ≡ some (lowered msg e)
unfolding lowered_entry
lowered_entry_lem msg e f = rw (rssi_to_smallint_lem e.rssi f, lowered_entry) refl

pub lowered_all_lem :
    (msg : CompactMessage) (es : List CompactEntry)
    → All IsFinite es
    → lowered_all msg es ≡ some (map (lowered msg) es)
unfolding lowered_all
lowered_all_lem msg [] f = refl
lowered_all_lem msg (e ∷ es) f =
    rw (lowered_entry_lem msg e f.0, lowered_all_lem msg es f.1, lowered_all) refl

pub validate_entry-lowered :
    (msg : CompactMessage) (e : CompactEntry)
    → Parsed msg
    → IsCanonical e
    → validate_entry (lowered msg e) ≡ ok (keyed msg e)
unfolding validate_entry in_range sensor
validate_entry-lowered msg e p c = rw (p.antenna, c, smallint-between e.rssi) refl

pub validate_envelope-lowered :
    (msg : CompactMessage)
    → Parsed msg
    → leb_ℤ (pos 0) msg.ts ≡ true
    → validate_envelope nullable (pos 0) msg.ts (or_null msg.lat) (or_null msg.lon)
      ≡ ok (record { sn = pos 0; ts = msg.ts; lat = msg.lat; lon = msg.lon })
unfolding validate_envelope
validate_envelope-lowered msg p h = rw (h, p.latitude, p.longitude) refl

pub map_ok-lowered :
    (msg : CompactMessage) (es : List CompactEntry)
    → Parsed msg
    → All IsCanonical es
    → map_ok validate_entry (map (lowered msg) es) ≡ ok (map (keyed msg) es)
map_ok-lowered msg [] p c = refl
map_ok-lowered msg (e ∷ es) p c =
    rw (validate_entry-lowered msg e p c.0, map_ok-lowered msg es p c.1) refl
