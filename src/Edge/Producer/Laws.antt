-- ===== src/Edge/Producer/Laws.antt =====
-- What an accepted cycle is made of, and that the backend's models accept it.
use tag_pulse.Prelude.{
  Bool-cases, inl, inr, ℤ, ◌≡◌, refl, sym, subst, ◌∙◌, ==_iff, Bool, true, false, ◌||◌, Option,
  none, some, List, [], ◌∷◌, map, arith, ok, guard, between, contains, ◌==◌, pair_eq, list_eq,
  nat_eq, int_eq, pair_beq_iff, contains-dedup, >>=-eq-ok,
}
use tag_pulse.Dict.{Dict, insert, lookup, has_key, keys, Distinct}
use tag_pulse.Dict.Laws.{insert-Distinct}
use tag_pulse.Wire.Epc.{Text, upper, validate_epc}
use tag_pulse.Wire.Epc.Canonical.{validate_epc_canonical}
use tag_pulse.Wire.Message.{Entry, validate_entry, in_range, sensor, normalize_epc}
use tag_pulse.Edge.Limits.{
  antenna_min, antenna_max, rssi_min, rssi_max, cnt_min, cnt_max, tmp_min, tmp_max, hum_min,
  hum_max,
}
use tag_pulse.Edge.Producer.{
  Observation, CycleKey, ProducerError, validate_obs, checked_epc, or_omitted, tmp_outside,
  hum_outside, entry_dict, materialize, epcs_of, check_optional,
}

-- An observation as the backend's model holds it.
abbrev pub as_entry : Observation → Entry
as_entry obs = record {
  an = obs.an;
  epc = obs.epc;
  rssi = obs.rssi;
  cnt = obs.cnt;
  tmp = obs.tmp;
  hum = obs.hum;
}

-- The backend's check agrees with the edge's copy of it.
checked_epc-validate_epc :
    (value epc : Text) → checked_epc value ≡ ok epc → validate_epc value ≡ ok epc
unfolding checked_epc validate_epc
checked_epc-validate_epc value epc h = ground arith

checked_epc_lem :
    (value epc : Text)
    → checked_epc value ≡ ok epc
    → (epc ≡ upper value) × (normalize_epc epc ≡ ok epc)
unfolding normalize_epc
checked_epc_lem value epc h =
    ground (arith, checked_epc-validate_epc value epc h, validate_epc_canonical value epc)

-- The three ways in which the two sides check a number agree.
in_range_lem : (lo hi n : ℤ) → between lo hi n ≡ true → in_range lo hi n ≡ ok n
unfolding in_range
in_range_lem lo hi n h = rw h

sensor_lem :
    (lo hi : ℤ) (e : ProducerError) (o : Option ℤ)
    → check_optional lo hi e o ≡ ok tt
    → sensor lo hi (or_omitted o) ≡ ok o
unfolding sensor in_range
sensor_lem lo hi e none h = refl
sensor_lem lo hi e (some n) h = elim (Bool-cases (between lo hi n)) [
  | inl b ↦ rw b
  | inr b ↦ absurd (cc (rw b at h))
]

pub guard-eq-ok {ℓ} : {E : Type ℓ} (b : Bool) (e : E) {u : Unit} → guard b e ≡ ok u → b ≡ true
guard-eq-ok true e h = refl
guard-eq-ok false e h = cc

-- The parts of an observation that passed.
pub record Checked (raw obs : Observation) : Type 0 where
  pub fields : obs ≡ record raw { epc = obs.epc }
  epc : checked_epc raw.epc ≡ ok obs.epc
  an : between antenna_min antenna_max raw.an ≡ true
  rssi : between rssi_min rssi_max raw.rssi ≡ true
  cnt : between cnt_min cnt_max raw.cnt ≡ true
  tmp : check_optional tmp_min tmp_max tmp_outside raw.tmp ≡ ok tt
  hum : check_optional hum_min hum_max hum_outside raw.hum ≡ ok tt

pub validate_obs-Checked : (raw obs : Observation) → validate_obs raw ≡ ok obs → Checked raw obs
unfolding validate_obs
validate_obs-Checked raw obs h =
    let (_, a, h1) = >>=-eq-ok (guard (between antenna_min antenna_max raw.an) _) _ h in
    let (e, b, h2) = >>=-eq-ok (checked_epc raw.epc) _ h1 in
    let (_, c, h3) = >>=-eq-ok (guard (between rssi_min rssi_max raw.rssi) _) _ h2 in
    let (_, d, h4) = >>=-eq-ok (guard (between cnt_min cnt_max raw.cnt) _) _ h3 in
    let (_, t, h5) = >>=-eq-ok (check_optional tmp_min tmp_max tmp_outside raw.tmp) _ h4 in
    let (_, u, h6) = >>=-eq-ok (check_optional hum_min hum_max hum_outside raw.hum) _ h5 in
    record {
      fields = ground arith;
      epc = ground arith;
      an = guard-eq-ok _ _ a;
      rssi = guard-eq-ok _ _ c;
      cnt = guard-eq-ok _ _ d;
      tmp = t;
      hum = u;
    }

validate_entry_lem :
    (raw obs : Observation)
    → Checked raw obs
    → normalize_epc obs.epc ≡ ok obs.epc
    → validate_entry (entry_dict (record raw { epc = obs.epc }))
      ≡ ok (as_entry (record raw { epc = obs.epc }))
unfolding validate_entry
validate_entry_lem raw obs c e = rw (
  in_range_lem antenna_min antenna_max raw.an c.an,
  e,
  in_range_lem rssi_min rssi_max raw.rssi c.rssi,
  in_range_lem cnt_min cnt_max raw.cnt c.cnt,
  sensor_lem tmp_min tmp_max tmp_outside raw.tmp c.tmp,
  sensor_lem hum_min hum_max hum_outside raw.hum c.hum,
)

-- An observation that the producer accepts has its EPC in capitals, and the entry that is made of
-- it passes the backend's model with every value as it was.
pub validate_obs_accepted :
    (raw obs : Observation)
    → validate_obs raw ≡ ok obs
    → (obs.epc ≡ upper raw.epc)
      × (validate_entry (entry_dict obs) ≡ ok (as_entry obs))
      × (normalize_epc obs.epc ≡ ok obs.epc)
validate_obs_accepted raw obs h =
    let c = validate_obs-Checked raw obs h in
    let e = checked_epc_lem raw.epc obs.epc c.epc in
    (
      e.0,
      subst (λ o. validate_entry (entry_dict o) ≡ ok (as_entry o)) (sym c.fields)
          (validate_entry_lem raw obs c e.1),
      e.1,
    )

-- An entry of a materialised cycle: its key is its antenna and EPC, and the backend accepts it.
pub record IsEntry (key : CycleKey) (obs : Observation) : Type 0 where
  pub keyed : key ≡ (obs.an, obs.epc)
  pub accepted : validate_entry (entry_dict obs) ≡ ok (as_entry obs)
  pub canonical : normalize_epc obs.epc ≡ ok obs.epc

abbrev pub EntriesOk : Dict CycleKey Observation → Type 0
EntriesOk [] = Unit
EntriesOk ((key, obs) ∷ d) = IsEntry key obs × EntriesOk d

-- What `emit_cycle` makes of an accepted cycle.
pub record IsCycle (d : Dict CycleKey Observation) : Type 0 where
  pub distinct : Distinct d
  pub entries : EntriesOk d

-- `epc in {epc for (_an, epc) in d}`
abbrev pub has_epc : Text → Dict CycleKey Observation → Bool
has_epc epc [] = false
has_epc epc ((key, obs) ∷ d) = epc == key.1 || has_epc epc d

pub contains-epcs_of :
    (epc : Text) (d : Dict CycleKey Observation) → contains epc (epcs_of d) ≡ has_epc epc d
contains-epcs_of epc d = contains-dedup epc (map (λ k. k.1) (keys d)) ∙ contains-map d
  where
    contains-map :
        (d : Dict CycleKey Observation) → contains epc (map (λ k. k.1) (keys d)) ≡ has_epc epc d
    contains-map [] = refl
    contains-map ((key, obs) ∷ d) = ground (arith, contains-map d)

has_epc-insert :
    (epc : Text) (key : CycleKey) (obs : Observation) (d : Dict CycleKey Observation)
    → has_epc epc (insert key obs d) ≡ (epc == key.1 || has_epc epc d)
unfolding insert
has_epc-insert epc key obs [] = refl
has_epc-insert epc key obs ((k, o) ∷ d) =
    ground (arith, has_epc-insert epc key obs d, pair_beq_iff k key)

insert-EntriesOk :
    (key : CycleKey) (obs : Observation) (d : Dict CycleKey Observation)
    → IsEntry key obs
    → EntriesOk d
    → EntriesOk (insert key obs d)
unfolding insert
insert-EntriesOk key obs [] i h = (i, tt)
insert-EntriesOk key obs ((k, o) ∷ d) i h = elim (Bool-cases (k == key)) [
  | inl same ↦ rw same (subst (λ j. IsEntry j obs) (sym ((==_iff k key).0 same)) i, h.1)
  | inr other ↦ rw other (h.0, insert-EntriesOk key obs d i h.1)
]

-- The canonical EPCs of the observations.
abbrev pub names : Text → List Observation → Bool
names epc [] = false
names epc (obs ∷ cycle) = epc == upper obs.epc || names epc cycle

insert-IsCycle :
    (key : CycleKey) (obs : Observation) (d : Dict CycleKey Observation)
    → IsEntry key obs
    → IsCycle d
    → IsCycle (insert key obs d)
insert-IsCycle key obs d i c = record {
  distinct = insert-Distinct key obs d c.distinct;
  entries = insert-EntriesOk key obs d i c.entries;
}

pub materialize-IsCycle :
    (current : Dict CycleKey Observation) (cycle : List Observation)
    (out : Dict CycleKey Observation)
    → IsCycle current
    → materialize current cycle ≡ ok out
    → IsCycle out × ((epc : Text) → has_epc epc out ≡ (names epc cycle || has_epc epc current))
unfolding materialize
materialize-IsCycle current [] out c h = ground arith
materialize-IsCycle current (obs ∷ cycle) out c h =
    let (checked, v, h1) = >>=-eq-ok (validate_obs obs) _ h in
    let key : CycleKey = (checked.an, checked.epc) in
    let a = validate_obs_accepted obs checked v in
    let step = materialize-IsCycle (insert key checked current) cycle out (
      insert-IsCycle key checked current (record { keyed = refl; accepted = a.1; canonical = a.2 })
        c) in
    elim (Bool-cases (has_key key current)) [
      | inl old ↦ absurd (cc (rw old at h1))
      | inr new ↦
          let rest = step (rw new at h1) in
          (rest.0, λ epc. ground (arith, rest.1 epc, has_epc-insert epc key checked current, a.0))
    ]

pub lookup-IsEntry :
    (key : CycleKey) (obs : Observation) (d : Dict CycleKey Observation)
    → EntriesOk d
    → lookup key d ≡ some obs
    → IsEntry key obs
unfolding lookup
lookup-IsEntry key obs [] h e = absurd (cc)
lookup-IsEntry key obs ((k, o) ∷ d) h e = elim (Bool-cases (k == key)) [
  | inl same ↦
      subst (λ j. IsEntry j obs) ((==_iff k key).0 same)
        (subst (IsEntry k) {x = o} {y = obs} (ground arith) h.0)
  | inr other ↦ lookup-IsEntry key obs d h.1 (rw other at e)
]
