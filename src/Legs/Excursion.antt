-- ===== src/Legs/Excursion.antt =====
-- The verdict on a leg against its description by blocks: the samples between two that are in range.
use tag_pulse.Prelude.{
  ℕ, ◌-◌, ◌/◌, ◌≤◌, ltb, leb, true, ◌||◌, Option, none, some, List, [], ◌∷◌, any, if◌then◌else◌,
  ◌≡◌, refl, sym, subst, ap, ◌∙◌, arith, inl, inr, Bool-cases,
}
use tag_pulse.Legs.Summary.{
  EnvSample, SlaConfig, is_in_range, sla_bounded, max_of, longest_from, Verdict, verdict_on,
  verdict_of, by_time, place, summarize_leg_env,
}

module _ (sla : SlaConfig) where
  -- The head is the block at the start of the samples, maybe empty; each sample in range ends one.
  unfoldable pub head_block : List EnvSample → List EnvSample
  head_block [] = []
  head_block (s ∷ samples) =
      let rest = head_block samples in if is_in_range sla s then [] else s ∷ rest

  unfoldable pub later_blocks : List EnvSample → List (List EnvSample)
  later_blocks [] = []
  later_blocks (s ∷ samples) =
      let here = head_block samples ∷ later_blocks samples in
      let later = later_blocks samples in if is_in_range sla s then here else later

  abbrev pub blocks : List EnvSample → List (List EnvSample)
  blocks samples = head_block samples ∷ later_blocks samples

-- The time of the last sample, or a default.
unfoldable pub last_time : ℕ → List EnvSample → ℕ
last_time time [] = time
last_time time (s ∷ block) = last_time s.time block

-- From the first sample to the last one.
unfoldable pub span : List EnvSample → ℕ
span [] = 0
span (s ∷ block) = last_time s.time block - s.time

unfoldable pub longest_span : List (List EnvSample) → ℕ
longest_span [] = 0
longest_span (block ∷ blocks) = max_of (span block) (longest_span blocks)

module _ (sla : SlaConfig) where
  -- What the loop still gives: a run that is open goes on with the first block.
  abbrev expected : List EnvSample → Option (ℕ × ℕ) → ℕ → ℕ
  expected samples none longest = max_of longest (longest_span (blocks sla samples))
  expected samples (some (start, prev)) longest = max_of longest (
      max_of (last_time prev (head_block sla samples) - start)
        (longest_span (later_blocks sla samples)))

  longest_from_lem :
      (samples : List EnvSample) (run : Option (ℕ × ℕ)) (longest : ℕ)
      → longest_from sla samples run longest ≡ expected samples run longest
  unfolding longest_from head_block later_blocks last_time span longest_span
  longest_from_lem [] none longest = ground arith
  longest_from_lem [] (some (start, prev)) longest = ground arith
  longest_from_lem (s ∷ samples) none longest = elim (Bool-cases (is_in_range sla s)) [
    | inl inside ↦ rw (inside, longest_from) (longest_from_lem samples none longest ∙ ground arith)
    | inr outside ↦
        rw (outside, longest_from) (longest_from_lem samples (some (s.time, s.time)) longest)
  ]
  longest_from_lem (s ∷ samples) (some (start, prev)) longest =
      elim (Bool-cases (is_in_range sla s)) [
        | inl inside ↦
            rw (inside, longest_from)
              (longest_from_lem samples none (max_of longest (prev - start)) ∙ ground arith)
        | inr outside ↦
            rw (outside, longest_from) (longest_from_lem samples (some (start, s.time)) longest)
      ]

div_mono : (a b : ℕ) → a ≤ b → a / 1000000 ≤ b / 1000000
div_mono a b h = omega arith

ltb_max :
    (tolerance a b : ℕ)
    → ltb tolerance (max_of a b / 1000000)
      ≡ ltb tolerance (a / 1000000) || ltb tolerance (b / 1000000)
ltb_max tolerance a b = elim (Bool-cases (ltb a b)) [
  | inl less ↦ rw less (ground (arith, div_mono a b))
  | inr more ↦ rw more (ground (arith, div_mono b a))
]

any_exceeds :
    (tolerance : ℕ) (blocks : List (List EnvSample))
    → ltb tolerance (longest_span blocks / 1000000)
      ≡ any (λ block. ltb tolerance (span block / 1000000)) blocks
unfolding longest_span
any_exceeds tolerance [] = ground arith
any_exceeds tolerance (block ∷ blocks) =
    ltb_max tolerance (span block) (longest_span blocks)
    ∙ ap (λ b. ltb tolerance (span block / 1000000) || b) (any_exceeds tolerance blocks)

place-cons :
    (s : EnvSample) (samples : List EnvSample)
    → (first : EnvSample) × (rest : List EnvSample) × (place s samples ≡ first ∷ rest)
unfolding place
place-cons s [] = (s, [], refl)
place-cons s (t ∷ rest) = elim (Bool-cases (leb s.time t.time)) [
  | inl before ↦ (s, t ∷ rest, rw before refl)
  | inr after ↦ (t, place s rest, rw after refl)
]

nonempty_verdict :
    (s : EnvSample) (samples : List EnvSample) (sla : SlaConfig)
    → sla_bounded sla ≡ true
    → verdict_of (by_time (s ∷ samples)) (some sla) ≡ some (verdict_on sla (by_time (s ∷ samples)))
unfolding verdict_of by_time
nonempty_verdict s samples sla bounded =
    let (first, rest, ordered) = place-cons s (by_time samples) in
    subst (λ l. verdict_of l (some sla) ≡ some (verdict_on sla l)) (sym ordered) (rw bounded refl)

-- Under an SLA that bounds something, the verdict on a leg with samples tells the longest time that a
-- block of samples out of range spans, in whole seconds, and a breach exactly if some block spans
-- more seconds than are tolerated.
pub summarize_leg_env_lem :
    (s : EnvSample) (samples : List EnvSample) (sla : SlaConfig)
    → sla_bounded sla ≡ true
    → (v : Verdict) × ((summarize_leg_env (s ∷ samples) (some sla)).verdict ≡ some v)
      × (v.excursion_s ≡ longest_span (blocks sla (by_time (s ∷ samples))) / 1000000)
      × (v.sla_breached
          ≡ any
              (λ block. ltb sla.excursion_tolerance_s (span block / 1000000))
              (blocks sla (by_time (s ∷ samples))))
unfolding summarize_leg_env
summarize_leg_env_lem s samples sla bounded =
    let ordered = by_time (s ∷ samples) in
    let loop = longest_from_lem sla ordered none 0 in
    (
      verdict_on sla ordered,
      nonempty_verdict s samples sla bounded,
      ap (λ n. n / 1000000) (loop ∙ ground arith),
      ap (λ n. ltb sla.excursion_tolerance_s (n / 1000000)) (loop ∙ ground arith)
          ∙ any_exceeds sla.excursion_tolerance_s (blocks sla ordered),
    )
