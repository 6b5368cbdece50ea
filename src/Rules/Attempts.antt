-- ===== src/Rules/Attempts.antt =====
-- The alerts that an event asks the rule evaluator of src/tagpulse/rules/evaluator.py for, as a list
-- over the rules that match.

use tag_pulse.Prelude.{
  ℕ, ltb_ℤ, Bool, ◌&&◌, ◌||◌, not, Option, some, List, [], ◌∷◌, ◌++◌, map, ℤ, pos, String,
  string_eq, nat_eq, keep, ◌==◌, if◌then◌else◌, ◌≡◌, refl, ◌∙◌, arith, Bool-cases, inl, inr,
}
use tag_pulse.Wire.Epc.{Text}
use tag_pulse.Wire.Compact.{Value}
use tag_pulse.Rfid.Texts.{codes}
use tag_pulse.EventBus.{or_default}
use tag_pulse.Rules.Conditions.{
  Fields, field, is_truthy, equal, evaluate_condition, eval_telemetry_threshold,
}
use tag_pulse.Rules.Evaluator.{
  Rule, RuleEvaluator, Alert, CooldownKey, Severity, info, warning, quiet, fire,
  fire_unless_cooling, tag_read_rules, telemetry_rules, min_confidence, attribution_rules,
}
use tag_pulse.Rules.Zones.{is_other_kind, is_allowed, zone_rules, stock_rules}

-- An alert at once, or one that a cooldown may suppress: key, instant, length of the next cooldown.
pub data Attempt : Type 0 where
  at_once : Alert → Attempt
  cooled : CooldownKey → ℕ → ℤ → Alert → Attempt

unfoldable pub perform : Attempt → RuleEvaluator → RuleEvaluator
perform (at_once alert) evaluator = fire alert evaluator
perform (cooled key now seconds alert) evaluator =
    fire_unless_cooling key now seconds alert evaluator

unfoldable pub perform_all : List Attempt → RuleEvaluator → RuleEvaluator
perform_all [] evaluator = evaluator
perform_all (attempt ∷ attempts) evaluator = perform_all attempts (perform attempt evaluator)

pub perform_all-append :
    (xs ys : List Attempt) (evaluator : RuleEvaluator)
    → perform_all (xs ++ ys) evaluator ≡ perform_all ys (perform_all xs evaluator)
unfolding perform_all
perform_all-append [] ys evaluator = refl
perform_all-append (x ∷ xs) ys evaluator = perform_all-append xs ys (perform x evaluator)

rules-perform :
    (x : Attempt) (evaluator : RuleEvaluator) → (perform x evaluator).rules ≡ evaluator.rules
unfolding perform fire_unless_cooling
rules-perform (at_once alert) evaluator = refl
rules-perform (cooled key now seconds alert) evaluator = ground arith

pub rules-perform_all :
    (xs : List Attempt) (evaluator : RuleEvaluator)
    → (perform_all xs evaluator).rules ≡ evaluator.rules
unfolding perform_all
rules-perform_all [] evaluator = refl
rules-perform_all (x ∷ xs) evaluator =
    rules-perform_all xs (perform x evaluator) ∙ rules-perform x evaluator

-- The rules that match, each with its attempt.
abbrev pub chosen : (Rule → Bool) → (Rule → Attempt) → List Rule → List Attempt
chosen matches attempt rules = map attempt (keep matches rules)

-- A loop over rules that performs one attempt for each that matches, or for each that is not skipped.
loop_lem :
    (matches : Rule → Bool) (attempt : Rule → Attempt) (rule : Rule) (rules : List Rule)
    (evaluator : RuleEvaluator)
    → perform_all
        (chosen matches attempt rules)
        (if matches rule then perform (attempt rule) evaluator else evaluator)
      ≡ perform_all (chosen matches attempt (rule ∷ rules)) evaluator
unfolding perform_all
loop_lem matches attempt rule rules evaluator = elim (Bool-cases (matches rule)) [
  | inl hit ↦ rw hit refl
  | inr miss ↦ rw miss refl
]

skip_lem :
    (skips : Rule → Bool) (attempt : Rule → Attempt) (rule : Rule) (rules : List Rule)
    (evaluator : RuleEvaluator)
    → perform_all
        (chosen (λ r. not (skips r)) attempt rules)
        (if skips rule then evaluator else perform (attempt rule) evaluator)
      ≡ perform_all (chosen (λ r. not (skips r)) attempt (rule ∷ rules)) evaluator
unfolding perform_all
skip_lem skips attempt rule rules evaluator = elim (Bool-cases (skips rule)) [
  | inl out ↦ rw out refl
  | inr kept ↦ rw kept refl
]

abbrev pub of_type : ℕ → String → List Rule → List Rule
of_type tenant condition_type rules =
    keep (λ rule. rule.tenant == tenant && rule.enabled && rule.condition_type == condition_type)
      rules

abbrev pub cooled_alert : ℕ → Text → Severity → ℤ → ℕ → Rule → Attempt
cooled_alert tenant subject severity default now rule =
    cooled (tenant, (rule.id, subject)) now (or_default default rule.cooldown_s)
      (quiet tenant rule subject severity)

abbrev pub tag_read_alert : ℕ → ℕ → Rule → Attempt
tag_read_alert tenant device rule = at_once (record {
  tenant_id = tenant;
  rule_id = rule.id;
  device_id = some device;
  subject = [];
  severity = warning;
})

module _ (float_of : Text → Option ℤ) (uuid_of : Text → Option ℕ) where
  pub tag_read_rules_lem :
      (rules : List Rule) (tenant device : ℕ) (payload : Fields) (evaluator : RuleEvaluator)
      → tag_read_rules float_of uuid_of rules tenant device payload evaluator
        ≡ perform_all
            (chosen
              (λ rule.
                evaluate_condition float_of rule.condition_type rule.condition_config payload)
              (tag_read_alert tenant device)
              rules)
            evaluator
  unfolding tag_read_rules perform_all perform
  tag_read_rules_lem [] tenant device payload evaluator = refl
  tag_read_rules_lem (rule ∷ rules) tenant device payload evaluator =
      tag_read_rules_lem rules tenant device payload _ ∙ loop_lem _ _ rule rules evaluator

  pub telemetry_rules_lem :
      (rules : List Rule) (tenant : ℕ) (subject : Text) (payload : Fields) (now : ℕ)
      (evaluator : RuleEvaluator)
      → telemetry_rules float_of uuid_of rules tenant subject payload now evaluator
        ≡ perform_all
            (chosen
              (λ rule. eval_telemetry_threshold float_of rule.condition_config payload)
              (cooled_alert tenant subject warning (pos 300) now)
              rules)
            evaluator
  unfolding telemetry_rules perform_all perform fire_unless_cooling
  telemetry_rules_lem [] tenant subject payload now evaluator = refl
  telemetry_rules_lem (rule ∷ rules) tenant subject payload now evaluator =
      telemetry_rules_lem rules tenant subject payload now _ ∙ loop_lem _ _ rule rules evaluator

  pub attribution_rules_lem :
      (rules : List Rule) (tenant : ℕ) (asset : Text) (confidence : ℤ) (now : ℕ)
      (evaluator : RuleEvaluator)
      → attribution_rules float_of uuid_of rules tenant asset confidence now evaluator
        ≡ perform_all
            (chosen
              (λ rule. not (ltb_ℤ confidence (min_confidence float_of uuid_of rule)))
              (cooled_alert tenant asset info (pos 60) now)
              rules)
            evaluator
  unfolding attribution_rules perform_all perform fire_unless_cooling
  attribution_rules_lem [] tenant asset confidence now evaluator = refl
  attribution_rules_lem (rule ∷ rules) tenant asset confidence now evaluator =
      attribution_rules_lem rules tenant asset confidence now _
      ∙ skip_lem (λ r. ltb_ℤ confidence (min_confidence float_of uuid_of r)) _ rule rules evaluator

pub zone_rules_lem :
    (rules : List Rule) (tenant : ℕ) (subject : Text) (kind target_zone : Value) (now : ℕ)
    (evaluator : RuleEvaluator)
    → zone_rules rules tenant subject kind target_zone now evaluator
      ≡ perform_all
          (chosen
            (λ rule. not (
              not (equal (field "zone_id" rule.condition_config) target_zone)
              || is_other_kind kind rule.subject_kinds))
            (cooled_alert tenant subject info (pos 60) now)
            rules)
          evaluator
unfolding zone_rules perform_all perform fire_unless_cooling
zone_rules_lem [] tenant subject kind target_zone now evaluator = refl
zone_rules_lem (rule ∷ rules) tenant subject kind target_zone now evaluator =
    zone_rules_lem rules tenant subject kind target_zone now _
    ∙ skip_lem
        (λ r.
          not (equal (field "zone_id" r.condition_config) target_zone)
          || is_other_kind kind r.subject_kinds)
        _ rule rules evaluator

pub stock_rules_lem :
    (rules : List Rule) (tenant : ℕ) (subject : Option Text) (product to_zone : Value)
    (evaluator : RuleEvaluator)
    → stock_rules rules tenant subject product to_zone evaluator
      ≡ perform_all
          (chosen
            (λ rule. not (
              is_truthy (field "product_id" rule.condition_config)
                && not (equal (field "product_id" rule.condition_config) product)
              || is_allowed to_zone rule.allowed_zone_ids))
            (λ rule. at_once (quiet tenant rule (or_default (codes "<unknown>") subject) warning))
            rules)
          evaluator
unfolding stock_rules perform_all perform
stock_rules_lem [] tenant subject product to_zone evaluator = refl
stock_rules_lem (rule ∷ rules) tenant subject product to_zone evaluator =
    stock_rules_lem rules tenant subject product to_zone _
    ∙ skip_lem
        (λ r.
          is_truthy (field "product_id" r.condition_config)
            && not (equal (field "product_id" r.condition_config) product)
          || is_allowed to_zone r.allowed_zone_ids)
        _ rule rules evaluator
