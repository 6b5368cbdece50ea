-- ===== src/Rules/Suppression.antt =====
-- The cooldown table of src/tagpulse/rules/evaluator.py against the list of all cooldowns so far.
use tag_pulse.Prelude.{
  ℕ, zero, suc, ◌+◌, ◌≤◌, ltb, leb, Bool, true, false, ◌&&◌, not, Option, none, some, List, [], ◌∷◌,
  ℤ, pos, negsuc, if◌then◌else◌, length, Eq, ◌==◌, ==_iff, ==_refl, contains, ◌≡◌, arith, inl, inr,
  Bool-cases, Option-cases,
}
use tag_pulse.Dict.{Dict, lookup, insert, erase, has_key, Distinct}
use tag_pulse.Dict.Laws.{
  lookup-insert, lookup-erase, insert-Distinct, erase-Distinct, length-insert, has_key-insert,
  has_key-erase-le, has_key-lookup,
}
use tag_pulse.EventBus.{remove_first}
use tag_pulse.Rules.Cooldown.{rule_cooldown_max, cooldown_active, set_cooldown}

abbrev pub is_later : ℕ → Option ℕ → Bool
is_later now none = false
is_later now (some until) = ltb now until

module _ {K : Type 0} ⦃e : Eq K⦄ where
  -- The end of the key's last cooldown; the last one stands first.
  unfoldable pub latest : K → List (K × ℕ) → Option ℕ
  latest key [] = none
  latest key ((k, until) ∷ past) = if k == key then some until else latest key past

  -- The cooldowns after an alert.
  unfoldable pub past_after : K → ℕ → ℤ → List (K × ℕ) → List (K × ℕ)
  past_after key now (pos (suc n)) past = (key, now + suc n) ∷ past
  past_after key now _ past = past

  -- The table has no key twice, only keys of the universe, and from `now` on it suppresses what the
  -- list suppresses.
  pub record Agrees (universe : List K) (past : List (K × ℕ)) (now : ℕ) (table : Dict K ℕ)
      : Type 0 where
    pub distinct : Distinct table
    pub known : (key : K) → has_key key table ≡ true → contains key universe ≡ true
    pub suppressed :
        (key : K) (at : ℕ)
        → now ≤ at
        → is_later at (lookup key table) ≡ is_later at (latest key past)

  pub later-Agrees :
      (universe : List K) (past : List (K × ℕ)) (now at : ℕ) (table : Dict K ℕ)
      → now ≤ at
      → Agrees universe past now table
      → Agrees universe past at table
  later-Agrees universe past now at table h a = record {
    distinct = a.distinct;
    known = a.known;
    suppressed = λ key later g. a.suppressed key later (omega arith);
  }

  length-remove_first :
      (key : K) (u : List K) → contains key u ≡ true → length (remove_first key u) + 1 ≡ length u
  unfolding remove_first
  length-remove_first key [] member = ground arith
  length-remove_first key (k ∷ u) member =
      ground (arith, length-remove_first key u, ==_iff k key, ==_iff key k)

  contains-remove_first :
      (j key : K) (u : List K)
      → j == key ≡ false
      → contains j u ≡ true
      → contains j (remove_first key u) ≡ true
  unfolding remove_first
  contains-remove_first j key [] apart member = member
  contains-remove_first j key (k ∷ u) apart member =
      ground (arith, contains-remove_first j key u apart, ==_iff k key, ==_iff j k, ==_iff j key)

  -- Pigeonhole: a dict of some keys has no more entries than there are keys.
  length_within :
      (universe : List K) (table : Dict K ℕ)
      → Distinct table
      → ((key : K) → has_key key table ≡ true → contains key universe ≡ true)
      → length table ≤ length universe
  unfolding has_key
  length_within universe [] distinct known = omega arith
  length_within universe ((k, until) ∷ table) (fresh, distinct) known =
      let member = known k (ground (arith, ==_refl k)) in
      omega (
        arith,
        length-remove_first k universe member,
        length_within (remove_first k universe) table distinct (λ key inside.
            contains-remove_first key k universe (ground (arith, ==_iff key k))
              (known key (ground arith))),
      )

  pub active-answer :
      (key : K) (now : ℕ) (table : Dict K ℕ)
      → (cooldown_active key now table).0 ≡ is_later now (lookup key table)
  unfolding cooldown_active
  active-answer key now table = ground arith

  pub active-Agrees :
      (key : K) (now : ℕ) (table : Dict K ℕ) (universe : List K) (past : List (K × ℕ))
      → Agrees universe past now table
      → Agrees universe past now (cooldown_active key now table).1
  unfolding cooldown_active
  active-Agrees key now table universe past a = elim (Option-cases (lookup key table)) [
    | inl nothing ↦ rw (nothing, cooldown_active) a
    | inr (expires, found) ↦ elim (Bool-cases (leb expires now)) [
      | inl over ↦
          rw (found, cooldown_active)
            (rw (over, cooldown_active)
              (record {
                distinct = erase-Distinct key table a.distinct;
                known = λ j inside. a.known j (ground (arith, has_key-erase-le j key table));
                suppressed = λ j at h.
                    ground (
                      arith,
                      lookup-erase j key table a.distinct,
                      a.suppressed j at h,
                      ==_iff key j,
                    );
              }))
      | inr running ↦ rw (found, cooldown_active) (rw (running, cooldown_active) a)
    ]
  ]

  pub inactive_absent :
      (key : K) (now : ℕ) (table : Dict K ℕ)
      → Distinct table
      → (cooldown_active key now table).0 ≡ false
      → has_key key (cooldown_active key now table).1 ≡ false
  unfolding cooldown_active
  inactive_absent key now table distinct inactive = ground (
    arith,
    lookup-erase key key table distinct,
    ==_refl key,
    has_key-lookup key table,
    has_key-lookup key (erase key table),
  )

  pub set_cooldown-Agrees :
      (key : K) (now : ℕ) (seconds : ℤ) (table : Dict K ℕ) (universe : List K) (past : List (K × ℕ))
      → length universe ≤ rule_cooldown_max
      → contains key universe ≡ true
      → has_key key table ≡ false
      → Agrees universe past now table
      → Agrees universe (past_after key now seconds past) now (set_cooldown key now seconds table)
  unfolding set_cooldown past_after latest
  set_cooldown-Agrees key now (negsuc n) table universe past room member fresh a = a
  set_cooldown-Agrees key now (pos zero) table universe past room member fresh a = a
  set_cooldown-Agrees key now (pos (suc n)) table universe past room member fresh a =
      rw (roomy) (record {
        distinct = insert-Distinct key (now + suc n) table a.distinct;
        known = inserted_known;
        suppressed =
            λ j at h. ground (arith, lookup-insert j key (now + suc n) table, a.suppressed j at h);
      })
    where
      inserted_known :
          (j : K) → has_key j (insert key (now + suc n) table) ≡ true → contains j universe ≡ true
      inserted_known j inside =
          ground (arith, has_key-insert j key (now + suc n) table, a.known j, ==_iff key j)

      roomy : not (has_key key table) && leb rule_cooldown_max (length table) ≡ false
      roomy = ground (
        arith,
        length_within universe (insert key (now + suc n) table)
            (insert-Distinct key (now + suc n) table a.distinct) inserted_known,
        length-insert key (now + suc n) table,
      )
