-- ===== src/Rules/Zones.antt =====
-- `on_subject_zone_changed` of src/tagpulse/rules/evaluator.py with the two methods it calls.
use tag_pulse.Prelude.{
  ℕ, Bool, true, false, ◌&&◌, ◌||◌, not, Option, none, some, List, [], ◌∷◌, pos, String, string_eq,
  any, if◌then◌else◌,
}
use tag_pulse.Wire.Epc.{Text}
use tag_pulse.Wire.Compact.{Value, null, text}
use tag_pulse.Rfid.Texts.{codes}
use tag_pulse.EventBus.{or_default}
use tag_pulse.Rules.Conditions.{Fields, field, is_truthy, equal}
use tag_pulse.Rules.Evaluator.{
  Rule, RuleEvaluator, info, warning, quiet, fire, fire_unless_cooling, text_in, ParsedUuid, absent,
  invalid, id, id_in, active_rules_by_condition_type,
}

unfoldable pub is_null : Value → Bool
is_null null = true
is_null _ = false

-- `allowed_kinds and subject_kind is not None and subject_kind not in allowed_kinds`
unfoldable pub is_other_kind : Value → List Value → Bool
is_other_kind kind [] = false
is_other_kind kind (k ∷ kinds) = not (is_null kind) && not (any (λ a. equal a kind) (k ∷ kinds))

unfoldable pub zone_rules : List Rule → ℕ → Text → Value → Value → ℕ → RuleEvaluator → RuleEvaluator
zone_rules [] tenant subject kind target_zone now evaluator = evaluator
zone_rules (rule ∷ rules) tenant subject kind target_zone now evaluator =
    zone_rules rules tenant subject kind target_zone now (
      if not (equal (field "zone_id" rule.condition_config) target_zone)
        || is_other_kind kind rule.subject_kinds
      then evaluator
      else fire_unless_cooling (tenant, (rule.id, subject)) now
          (or_default (pos 60) rule.cooldown_s) (quiet tenant rule subject info) evaluator)

-- One of the two condition types; a zone that is null has none.
unfoldable pub zone_type : String → Value → ℕ → Text → Value → ℕ → RuleEvaluator → RuleEvaluator
zone_type condition_type target_zone tenant subject kind now evaluator =
    if is_null target_zone
    then evaluator
    else zone_rules (active_rules_by_condition_type tenant condition_type evaluator) tenant subject
        kind target_zone now evaluator

unfoldable pub eval_zone_entered_exited :
    ℕ → Text → Value → Value → Value → ℕ → RuleEvaluator → RuleEvaluator
eval_zone_entered_exited tenant subject kind from_zone to_zone now evaluator =
    zone_type "zone.exited" from_zone tenant subject kind now
      (zone_type "zone.entered" to_zone tenant subject kind now evaluator)

-- `not allowed or to_zone_id in allowed`
unfoldable pub is_allowed : Value → List Value → Bool
is_allowed to_zone [] = true
is_allowed to_zone (zone ∷ zones) = any (λ allowed. equal allowed to_zone) (zone ∷ zones)

unfoldable pub stock_rules :
    List Rule → ℕ → Option Text → Value → Value → RuleEvaluator → RuleEvaluator
stock_rules [] tenant subject product to_zone evaluator = evaluator
stock_rules (rule ∷ rules) tenant subject product to_zone evaluator =
    let config_product = field "product_id" rule.condition_config in
    stock_rules rules tenant subject product to_zone (
      if is_truthy config_product && not (equal config_product product)
        || is_allowed to_zone rule.allowed_zone_ids
      then evaluator
      else fire (quiet tenant rule (or_default (codes "<unknown>") subject) warning) evaluator)

abbrev pub if_subject : ℕ → Option Text → Fields → ℕ → RuleEvaluator → RuleEvaluator
if_subject tenant none payload now evaluator = evaluator
if_subject tenant (some subject) payload now evaluator =
    eval_zone_entered_exited tenant subject (field "subject_kind" payload)
      (field "from_zone_id" payload) (field "to_zone_id" payload) now evaluator

abbrev pub is_stock_entry : Fields → Bool
is_stock_entry payload =
    equal (field "subject_kind" payload) (text (codes "stock_item"))
    && not (is_null (field "to_zone_id" payload))

abbrev pub stock_if : ℕ → Option Text → Fields → RuleEvaluator → RuleEvaluator
stock_if tenant subject payload evaluator =
    if is_stock_entry payload
    then stock_rules (active_rules_by_condition_type tenant "stock.unexpected_in_zone" evaluator)
        tenant subject (field "product_id" payload) (field "to_zone_id" payload) evaluator
    else evaluator

unfoldable pub zone_changes : ℕ → Option Text → Fields → ℕ → RuleEvaluator → RuleEvaluator
zone_changes tenant subject payload now evaluator =
    stock_if tenant subject payload (if_subject tenant subject payload now evaluator)

abbrev pub zone_changed_of : ParsedUuid → Fields → ℕ → RuleEvaluator → Option RuleEvaluator
zone_changed_of absent payload now evaluator = some evaluator
zone_changed_of invalid payload now evaluator = none
zone_changed_of (id tenant) payload now evaluator =
    some (zone_changes tenant (text_in "subject_id" payload) payload now evaluator)

-- Nothing where UUID() raises: the event is then lost.
unfoldable pub on_subject_zone_changed :
    (Text → Option ℕ) → Fields → ℕ → RuleEvaluator → Option RuleEvaluator
on_subject_zone_changed uuid_of payload now evaluator =
    if is_truthy (field "backfill" payload)
    then some evaluator
    else zone_changed_of (id_in uuid_of "tenant_id" payload) payload now evaluator
