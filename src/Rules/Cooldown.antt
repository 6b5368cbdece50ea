-- ===== src/Rules/Cooldown.antt =====
-- The cooldown table of src/tagpulse/rules/evaluator.py: until when a key is suppressed. Instants
-- are seconds.
use tag_pulse.Prelude.{
  ℕ, zero, suc, ◌+◌, leb, Bool, true, false, ◌&&◌, not, none, some, [], ◌∷◌, ℤ, pos, negsuc,
  if◌then◌else◌, length, Eq,
}
use tag_pulse.Dict.{Dict, lookup, insert, erase, has_key}

-- _RULE_COOLDOWN_MAX
abbrev pub rule_cooldown_max : ℕ
rule_cooldown_max = 16384

module _ {K : Type 0} ⦃e : Eq K⦄ where
  -- The answer, and the table, which loses an entry that has expired.
  unfoldable pub cooldown_active : K → ℕ → Dict K ℕ → Bool × Dict K ℕ
  cooldown_active key now table = elim (lookup key table) [
    | none ↦ (false, table)
    | some expires ↦ if leb expires now then (false, erase key table) else (true, table)
  ]

  -- pop(next(iter(d))), if there is one
  unfoldable pub evict_oldest : Dict K ℕ → Dict K ℕ
  evict_oldest [] = []
  evict_oldest ((key, expires) ∷ table) = erase key ((key, expires) ∷ table)

  unfoldable pub set_cooldown : K → ℕ → ℤ → Dict K ℕ → Dict K ℕ
  set_cooldown key now (negsuc n) table = table
  set_cooldown key now (pos zero) table = table
  set_cooldown key now (pos (suc n)) table = insert key (now + suc n) (
      if not (has_key key table) && leb rule_cooldown_max (length table)
      then evict_oldest table
      else table)
