-- ===== src/Edge/Producer/Cycles.antt =====
-- That an accepted cycle names no antenna and EPC twice.
use tag_pulse.Prelude.{
  Bool-cases, inl, inr, ◌≡◌, refl, subst, false, List, [], ◌∷◌, map, arith, ok, contains, pair_eq,
  list_eq, nat_eq, int_eq, pair_beq_iff, Unique, >>=-eq-ok,
}
use tag_pulse.Dict.{Dict, insert, has_key}
use tag_pulse.Dict.Laws.{has_key-insert}
use tag_pulse.Wire.Epc.{Text, upper}
use tag_pulse.Edge.Producer.{Observation, CycleKey, validate_obs, materialize}
use tag_pulse.Edge.Producer.Laws.{
  IsCycle, has_epc, names, validate_obs_accepted, validate_obs-Checked, materialize-IsCycle,
}

-- The key under which an observation is kept.
abbrev pub cycle_key : Observation → CycleKey
cycle_key obs = (obs.an, upper obs.epc)

-- None of the keys is in the dict.
abbrev Apart : Dict CycleKey Observation → List CycleKey → Type 0
Apart d [] = Unit
Apart d (key ∷ rest) = (has_key key d ≡ false) × Apart d rest

-- The keys are apart from a dict and from the key that was inserted.
Apart-insert :
    (key : CycleKey) (obs : Observation) (d : Dict CycleKey Observation) (rest : List CycleKey)
    → Apart (insert key obs d) rest
    → (contains key rest ≡ false) × Apart d rest
Apart-insert key obs d [] h = (refl, tt)
Apart-insert key obs d (other ∷ rest) h =
    let (fresh, later) = Apart-insert key obs d rest h.1 in
    (
      ground (
        arith,
        fresh,
        h.0,
        has_key-insert other key obs d,
        pair_beq_iff key other,
        pair_beq_iff other key,
      ),
      (ground (arith, h.0, has_key-insert other key obs d), later),
    )

-- A cycle that is accepted has no key twice, and none that was there.
materialize-Apart :
    (current : Dict CycleKey Observation) (cycle : List Observation)
    (out : Dict CycleKey Observation)
    → materialize current cycle ≡ ok out
    → Unique (map cycle_key cycle) × Apart current (map cycle_key cycle)
unfolding materialize
materialize-Apart current [] out h = (tt, tt)
materialize-Apart current (obs ∷ cycle) out h =
    let (checked, v, h1) = >>=-eq-ok (validate_obs obs) _ h in
    let key : CycleKey = (checked.an, checked.epc) in
    let named : key ≡ cycle_key obs = ground (
      arith,
      (validate_obs_accepted obs checked v).0,
      (validate_obs-Checked obs checked v).fields,
    ) in
    elim (Bool-cases (has_key key current)) [
      | inl old ↦ absurd (cc (rw old at h1))
      | inr new ↦
          let (later, apart) =
            materialize-Apart (insert key checked current) cycle out (rw new at h1) in
          let (fresh, rest) = Apart-insert key checked current (map cycle_key cycle) apart in
          (
            (subst (λ k. contains k (map cycle_key cycle) ≡ false) named fresh, later),
            (subst (λ k. has_key k current ≡ false) named new, rest),
          )
    ]

-- A cycle is accepted only if no two of its observations have the same antenna and, in capitals, the
-- same EPC. The dict that is made of it has the antenna and EPC of an entry for its key, each key
-- once; the backend accepts each entry; and its EPCs are those of the observations, in capitals.
pub materialize_lem :
    (cycle : List Observation) (out : Dict CycleKey Observation)
    → materialize [] cycle ≡ ok out
    → Unique (map cycle_key cycle)
      × IsCycle out
      × ((epc : Text) → has_epc epc out ≡ names epc cycle)
materialize_lem cycle out h =
    let (cyc, named) =
      materialize-IsCycle [] cycle out (record { distinct = tt; entries = tt }) h in
    ((materialize-Apart [] cycle out h).0, cyc, λ epc. ground (arith, named epc))
