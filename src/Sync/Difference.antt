-- ===== src/Sync/Difference.antt =====
-- The differences between two cycles, as the producer sorts them and as they are read back.

use tag_pulse.Prelude.{
  ◌≡◌, refl, subst, Bool, true, false, ◌&&◌, not, List, [], ◌∷◌, map, arith, ok, contains, keep,
  sorted, All, ◌==◌, pair_eq, list_eq, nat_eq, int_eq, list_beq_iff, pair_beq_iff, Bool-cases, inl,
  inr, contains-sorted, contains-keep, All-contains, any-sorted, nat_ord, int_ord, list_ord,
  pair_ord,
}
use tag_pulse.Dict.{Dict, has_key, keys, values}
use tag_pulse.Dict.Laws.{contains-keys}
use tag_pulse.Wire.Epc.{Text}
use tag_pulse.Wire.Message.{normalize_epc}
use tag_pulse.Edge.Producer.{Observation, CycleKey, add_keys, sub_epcs, epcs_of}
use tag_pulse.Edge.Producer.Laws.{as_entry, EntriesOk, has_epc, contains-epcs_of}
use tag_pulse.Presence.View.{epcs_in}
use tag_pulse.Sync.Delivery.{any_epc}

pub epcs_in-values :
    (epc : Text) (d : Dict CycleKey Observation)
    → EntriesOk d
    → contains epc (epcs_in (map as_entry (values d))) ≡ has_epc epc d
epcs_in-values epc [] h = refl
epcs_in-values epc ((key, obs) ∷ d) h = ground (arith, epcs_in-values epc d h.1, h.0.keyed)

-- An EPC has a key in a cycle whose antenna is any.
any_epc-keys : (epc : Text) (d : Dict CycleKey Observation) → any_epc epc (keys d) ≡ has_epc epc d
any_epc-keys epc [] = refl
any_epc-keys epc ((key, obs) ∷ d) =
    ground (arith, any_epc-keys epc d, list_beq_iff key.1 epc, list_beq_iff epc key.1)

has_key-has_epc :
    (k : CycleKey) (epc : Text) (d : Dict CycleKey Observation)
    → k.1 == epc ≡ true
    → has_epc epc d ≡ false
    → has_key k d ≡ false
unfolding has_key
has_key-has_epc k epc [] e h = refl
has_key-has_epc k epc ((j, o) ∷ d) e h =
    ground
      (arith, has_key-has_epc k epc d, pair_beq_iff j k, list_beq_iff k.1 epc, list_beq_iff epc j.1)

has_epc-canonical :
    (epc : Text) (d : Dict CycleKey Observation)
    → EntriesOk d
    → has_epc epc d ≡ true
    → normalize_epc epc ≡ ok epc
has_epc-canonical epc [] h e = absurd (cc)
has_epc-canonical epc ((key, obs) ∷ d) h e = elim (Bool-cases (epc == key.1)) [
  | inl same ↦
      subst (λ t. normalize_epc t ≡ ok t) (ground (arith, list_beq_iff epc key.1, h.0.keyed))
        h.0.canonical
  | inr other ↦ has_epc-canonical epc d h.1 (rw other at e)
]

module _ (last current : Dict CycleKey Observation) where
  abbrev fresh_key : CycleKey → Bool
  fresh_key k = not (has_key k last)

  fresh_among :
      (epc : Text) (ks : List CycleKey)
      → has_epc epc last ≡ false
      → any_epc epc (keep fresh_key ks) ≡ any_epc epc ks
  fresh_among epc [] h = refl
  fresh_among epc (k ∷ ks) h = ground (arith, fresh_among epc ks h, has_key-has_epc k epc last)

  among_kept :
      (epc : Text) (ks : List CycleKey)
      → any_epc epc ks ≡ false
      → any_epc epc (keep fresh_key ks) ≡ false
  among_kept epc [] h = refl
  among_kept epc (k ∷ ks) h = ground (arith, among_kept epc ks)

  pub any_epc-add_keys :
      (epc : Text)
      → (has_epc epc last ≡ false → any_epc epc (add_keys last current) ≡ has_epc epc current)
        × (has_epc epc current ≡ false → any_epc epc (add_keys last current) ≡ false)
  unfolding add_keys
  any_epc-add_keys epc = ground (
    arith,
    any-sorted (λ k. k.1 == epc) (keep fresh_key (keys current)),
    fresh_among epc (keys current),
    among_kept epc (keys current),
    any_epc-keys epc current,
  )

  pub contains-sub_epcs :
      (epc : Text)
      → contains epc (sub_epcs last current) ≡ (has_epc epc last && not (has_epc epc current))
  unfolding sub_epcs
  contains-sub_epcs epc = ground (
    arith,
    contains-sorted epc (keep (λ e. not (contains e (epcs_of current))) (epcs_of last)),
    contains-keep (λ e. not (contains e (epcs_of current))) epc (epcs_of last),
    contains-epcs_of epc last,
    contains-epcs_of epc current,
  )

  pub add_keys-known : All (λ k. has_key k current ≡ true) (add_keys last current)
  unfolding add_keys
  add_keys-known = All-contains _ (sorted (keep fresh_key (keys current))) (λ k m. ground (
    arith,
    contains-sorted k (keep fresh_key (keys current)),
    contains-keep fresh_key k (keys current),
    contains-keys k current,
  ))

  pub sub_epcs-canonical :
      EntriesOk last → All (λ e. normalize_epc e ≡ ok e) (sub_epcs last current)
  sub_epcs-canonical h =
      All-contains _ (sub_epcs last current)
        (λ e m. has_epc-canonical e last h (ground (arith, contains-sub_epcs e)))
