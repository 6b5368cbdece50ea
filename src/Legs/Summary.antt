-- ===== src/Legs/Summary.antt =====
-- `summarize_leg_env` of src/tagpulse/services/legs.py: the verdict on a leg. Instants are
-- microseconds, the tolerance is whole seconds, readings are millionths. The mean temperature and the
-- percentage behind the two counts, which are quotients of floats, are left out.
use tag_pulse.Prelude.{
  ℕ, ◌-◌, ◌/◌, map, ltb, leb, Bool, false, ◌&&◌, ◌||◌, not, Option, none, some, List, [], ◌∷◌, ℤ,
  ltb_ℤ, if◌then◌else◌, length, keep, is_some,
}

pub record EnvSample : Type 0 where
  pub time : ℕ
  pub temperature_c : Option ℤ
  pub humidity_pct : Option ℤ

pub record SlaConfig : Type 0 where
  pub temp_min_c : Option ℤ
  pub temp_max_c : Option ℤ
  pub humidity_max : Option ℤ
  pub excursion_tolerance_s : ℕ

-- sorted(samples, key=time): equal times keep their order.
unfoldable pub place : EnvSample → List EnvSample → List EnvSample
place s [] = s ∷ []
place s (t ∷ rest) =
    let later = place s rest in if leb s.time t.time then s ∷ t ∷ rest else t ∷ later

unfoldable pub by_time : List EnvSample → List EnvSample
by_time [] = []
by_time (s ∷ samples) = place s (by_time samples)

-- A bound that is set and a reading that is there, compared.
abbrev fails : (ℤ → ℤ → Bool) → Option ℤ → Option ℤ → Bool
fails beyond (some reading) (some bound) = beyond reading bound
fails beyond _ _ = false

unfoldable pub is_in_range : SlaConfig → EnvSample → Bool
is_in_range sla s =
    not (fails (λ t b. ltb_ℤ t b) s.temperature_c sla.temp_min_c)
    && not (fails (λ t b. ltb_ℤ b t) s.temperature_c sla.temp_max_c)
    && not (fails (λ h b. ltb_ℤ b h) s.humidity_pct sla.humidity_max)

unfoldable pub sla_bounded : SlaConfig → Bool
sla_bounded sla = is_some sla.temp_min_c || is_some sla.temp_max_c || is_some sla.humidity_max

abbrev pub max_of : ℕ → ℕ → ℕ
max_of a b = if ltb a b then b else a

-- The loop: `run` is run_start with prev, which are set and reset together.
unfoldable pub longest_from : SlaConfig → List EnvSample → Option (ℕ × ℕ) → ℕ → ℕ
longest_from sla [] none longest = longest
longest_from sla [] (some (start, prev)) longest = max_of longest (prev - start)
longest_from sla (s ∷ samples) none longest =
    let inside = longest_from sla samples none longest in
    let outside = longest_from sla samples (some (s.time, s.time)) longest in
    if is_in_range sla s then inside else outside
longest_from sla (s ∷ samples) (some (start, prev)) longest =
    let inside = longest_from sla samples none (max_of longest (prev - start)) in
    let outside = longest_from sla samples (some (start, s.time)) longest in
    if is_in_range sla s then inside else outside

-- excursion_s, the counts behind in_range_pct, sla_breached
pub record Verdict : Type 0 where
  pub excursion_s : ℕ
  pub in_range_count : ℕ
  pub sample_count : ℕ
  pub sla_breached : Bool

-- The envelope of the readings that are there, and the verdict.
pub record LegEnvSummary : Type 0 where
  pub temp_lowest : Option ℤ
  pub temp_highest : Option ℤ
  pub humidity_lowest : Option ℤ
  pub humidity_highest : Option ℤ
  pub verdict : Option Verdict

abbrev pub verdict_on : SlaConfig → List EnvSample → Verdict
verdict_on sla ordered =
    let excursion = longest_from sla ordered none 0 / 1000000 in
    record {
      excursion_s = excursion;
      in_range_count = length (keep (is_in_range sla) ordered);
      sample_count = length ordered;
      sla_breached = ltb sla.excursion_tolerance_s excursion;
    }

-- Nothing without an SLA that bounds something, or without samples.
unfoldable pub verdict_of : List EnvSample → Option SlaConfig → Option Verdict
verdict_of [] sla = none
verdict_of (s ∷ ordered) none = none
verdict_of (s ∷ ordered) (some sla) =
    if sla_bounded sla then some (verdict_on sla (s ∷ ordered)) else none

-- min and max of the readings, by the test that a later one is better.
unfoldable pub best : (ℤ → ℤ → Bool) → List (Option ℤ) → Option ℤ
best better [] = none
best better (none ∷ readings) = best better readings
best better (some x ∷ readings) = elim (best better readings) [
  | none ↦ some x
  | some y ↦ some (if better y x then y else x)
]

unfoldable pub summarize_leg_env : List EnvSample → Option SlaConfig → LegEnvSummary
summarize_leg_env samples sla =
    let ordered = by_time samples in
    let temps = map (λ s. s.temperature_c) ordered in
    let hums = map (λ s. s.humidity_pct) ordered in
    record {
      temp_lowest = best (λ y x. ltb_ℤ y x) temps;
      temp_highest = best (λ y x. ltb_ℤ x y) temps;
      humidity_lowest = best (λ y x. ltb_ℤ y x) hums;
      humidity_highest = best (λ y x. ltb_ℤ x y) hums;
      verdict = verdict_of ordered sla;
    }
