-- ===== src/Rules/Evaluator.antt =====
-- The handlers of `RuleEvaluator` in src/tagpulse/rules/evaluator.py.
use tag_pulse.Prelude.{
  ℕ, ltb_ℤ, Bool, true, ◌&&◌, Option, none, some, List, [], ◌∷◌, ◌++◌, ℤ, pos, String, string_eq,
  nat_eq, list_eq, pair_eq, option_eq, keep, ◌==◌, if◌then◌else◌,
}
use tag_pulse.Dict.{Dict, lookup}
use tag_pulse.Wire.Epc.{Text}
use tag_pulse.Wire.Compact.{Value, integer, text}
use tag_pulse.EventBus.{or_default}
use tag_pulse.Rules.Conditions.{
  Fields, field, is_truthy, float, evaluate_condition, eval_telemetry_threshold,
}
use tag_pulse.Rules.Cooldown.{cooldown_active, set_cooldown}

pub data Severity : Type 0 where
  info warning : Severity

-- A row of the rules table; two lists and an integer of its condition_config are fields of their
-- own: subject_kinds, allowed_zone_ids (empty where missing) and cooldown_s.
pub record Rule : Type 0 where
  pub id : ℕ
  pub tenant : ℕ
  pub enabled : Bool
  pub scope_device_id : Option ℕ
  pub condition_type : String
  pub condition_config : Fields
  pub subject_kinds : List Value
  pub allowed_zone_ids : List Value
  pub cooldown_s : Option ℤ

-- (tenant, rule, subject)
abbrev pub CooldownKey : Type 0
CooldownKey = ℕ × (ℕ × Text)

pub record Alert : Type 0 where
  pub tenant_id : ℕ
  pub rule_id : ℕ
  pub device_id : Option ℕ
  pub subject : Text
  pub severity : Severity

pub record RuleEvaluator : Type 0 where
  pub rules : List Rule
  pub cooldown_until : Dict CooldownKey ℕ
  pub alerts : List Alert

abbrev pub fire : Alert → RuleEvaluator → RuleEvaluator
fire alert evaluator = record evaluator { alerts = evaluator.alerts ++ alert ∷ [] }

-- The lines from `_cooldown_active` to the publish: nothing but a table without an expired entry, or
-- the cooldown and the alert.
unfoldable pub fire_unless_cooling : CooldownKey → ℕ → ℤ → Alert → RuleEvaluator → RuleEvaluator
fire_unless_cooling key now cooldown_s alert evaluator =
    let (active, table) = cooldown_active key now evaluator.cooldown_until in
    if active
    then record evaluator { cooldown_until = table }
    else fire alert (record evaluator { cooldown_until = set_cooldown key now cooldown_s table })

-- payload.get(key), where it is a text with a character; ids in payloads are texts.
unfoldable pub text_in : String → Fields → Option Text
text_in key payload = elim (field key payload) [ text (c ∷ s) ↦ some (c ∷ s) | _ ↦ none ]

-- UUID(payload.get(key)): no text, a text that is no UUID, or the UUID
pub data ParsedUuid : Type 0 where
  absent invalid : ParsedUuid
  id : ℕ → ParsedUuid

unfoldable pub id_in : (Text → Option ℕ) → String → Fields → ParsedUuid
id_in uuid_of key payload = elim (text_in key payload) [
  | none ↦ absent
  | some s ↦ elim (uuid_of s) [ none ↦ invalid | some n ↦ id n ]
]

unfoldable pub active_rules_by_condition_type : ℕ → String → RuleEvaluator → List Rule
active_rules_by_condition_type tenant condition_type evaluator =
    keep (λ rule. rule.tenant == tenant && rule.enabled && rule.condition_type == condition_type)
      evaluator.rules

unfoldable pub in_scope : ℕ → Option ℕ → Bool
in_scope device none = true
in_scope device (some scope) = scope == device

unfoldable pub active_rules_for_device : ℕ → ℕ → RuleEvaluator → List Rule
active_rules_for_device tenant device evaluator =
    keep (λ rule. rule.tenant == tenant && rule.enabled && in_scope device rule.scope_device_id)
      evaluator.rules

-- Without a device.
abbrev pub quiet : ℕ → Rule → Text → Severity → Alert
quiet tenant rule subject severity = record {
  tenant_id = tenant;
  rule_id = rule.id;
  device_id = none;
  subject = subject;
  severity = severity;
}

abbrev pub on_inference_types : List String
on_inference_types =
    "signaling.location.on_inference" ∷ "signaling.geolocation.on_inference"
    ∷ "signaling.temperature.on_inference" ∷ []

module _ (float_of : Text → Option ℤ) (uuid_of : Text → Option ℕ) where
  unfoldable pub tag_read_rules : List Rule → ℕ → ℕ → Fields → RuleEvaluator → RuleEvaluator
  tag_read_rules [] tenant device payload evaluator = evaluator
  tag_read_rules (rule ∷ rules) tenant device payload evaluator =
      tag_read_rules rules tenant device payload (
        if evaluate_condition float_of rule.condition_type rule.condition_config payload
        then fire
            (record {
              tenant_id = tenant;
              rule_id = rule.id;
              device_id = some device;
              subject = [];
              severity = warning;
            })
            evaluator
        else evaluator)

  abbrev pub tag_read_of : ParsedUuid → ParsedUuid → Fields → RuleEvaluator → Option RuleEvaluator
  tag_read_of absent device payload evaluator = some evaluator
  tag_read_of invalid absent payload evaluator = some evaluator
  tag_read_of invalid _ payload evaluator = none
  tag_read_of (id tenant) absent payload evaluator = some evaluator
  tag_read_of (id tenant) invalid payload evaluator = none
  tag_read_of (id tenant) (id device) payload evaluator = some (
      tag_read_rules (active_rules_for_device tenant device evaluator) tenant device payload
        evaluator)

  -- Nothing where UUID() raises: the event is then lost.
  unfoldable pub on_tag_read : Fields → RuleEvaluator → Option RuleEvaluator
  on_tag_read payload evaluator =
      if is_truthy (field "backfill" payload)
      then some evaluator
      else tag_read_of (id_in uuid_of "tenant_id" payload) (id_in uuid_of "device_id" payload)
          payload evaluator

  unfoldable pub telemetry_rules : List Rule → ℕ → Text → Fields → ℕ → RuleEvaluator → RuleEvaluator
  telemetry_rules [] tenant subject payload now evaluator = evaluator
  telemetry_rules (rule ∷ rules) tenant subject payload now evaluator =
      telemetry_rules rules tenant subject payload now (
        if eval_telemetry_threshold float_of rule.condition_config payload
        then fire_unless_cooling (tenant, (rule.id, subject)) now
            (or_default (pos 300) rule.cooldown_s) (quiet tenant rule subject warning) evaluator
        else evaluator)

  abbrev pub telemetry_of : ParsedUuid → Option Text → Fields → ℕ → RuleEvaluator → RuleEvaluator
  telemetry_of (id tenant) (some subject) payload now evaluator =
      telemetry_rules (active_rules_by_condition_type tenant "telemetry.threshold" evaluator) tenant
        subject payload now evaluator
  telemetry_of _ _ payload now evaluator = evaluator

  unfoldable pub on_telemetry_recorded : Fields → ℕ → RuleEvaluator → RuleEvaluator
  on_telemetry_recorded payload now evaluator =
      if is_truthy (field "backfill" payload)
      then evaluator
      else telemetry_of (id_in uuid_of "tenant_id" payload) (text_in "subject_id" payload) payload
          now evaluator

  -- The confidence of the event, 0 if there is none; an event with another is left.
  abbrev pub confidence_of : Fields → Option ℤ
  confidence_of payload =
      float float_of (or_default (integer (pos 0)) (lookup "confidence" payload))

  abbrev pub min_confidence : Rule → ℤ
  min_confidence rule = or_default (pos 0) (
      float float_of (or_default (integer (pos 0)) (lookup "min_confidence" rule.condition_config)))

  unfoldable pub attribution_rules : List Rule → ℕ → Text → ℤ → ℕ → RuleEvaluator → RuleEvaluator
  attribution_rules [] tenant asset confidence now evaluator = evaluator
  attribution_rules (rule ∷ rules) tenant asset confidence now evaluator =
      attribution_rules rules tenant asset confidence now (
        if ltb_ℤ confidence (min_confidence rule)
        then evaluator
        else fire_unless_cooling (tenant, (rule.id, asset)) now
            (or_default (pos 60) rule.cooldown_s) (quiet tenant rule asset info) evaluator)

  unfoldable pub attribution_types : List String → ℕ → Text → ℤ → ℕ → RuleEvaluator → RuleEvaluator
  attribution_types [] tenant asset confidence now evaluator = evaluator
  attribution_types (condition_type ∷ types) tenant asset confidence now evaluator =
      attribution_types types tenant asset confidence now (
        attribution_rules (active_rules_by_condition_type tenant condition_type evaluator) tenant
          asset confidence now evaluator)

  abbrev pub attribution_of :
      ParsedUuid → Option Text → Option Text → Option ℤ → ℕ → RuleEvaluator → RuleEvaluator
  attribution_of (id tenant) (some asset) (some zone) (some confidence) now evaluator =
      attribution_types on_inference_types tenant asset confidence now evaluator
  attribution_of _ _ _ _ now evaluator = evaluator

  unfoldable pub on_attribution_settled : Fields → ℕ → RuleEvaluator → RuleEvaluator
  on_attribution_settled payload now evaluator =
      attribution_of (id_in uuid_of "tenant_id" payload) (text_in "asset_id" payload)
        (text_in "zone_id" payload) (confidence_of payload) now evaluator
