-- ===== src/Rules/Requests.antt =====
-- What each event asks for: the handlers of src/tagpulse/rules/evaluator.py perform exactly that.
use tag_pulse.Prelude.{
  ℕ, ltb_ℤ, ◌&&◌, ◌||◌, not, Option, none, some, List, [], ◌∷◌, ◌++◌, ℤ, pos, String, keep,
  string_eq, nat_eq, ◌==◌, if◌then◌else◌, ◌≡◌, refl, sym, ap, ◌∙◌, Bool-cases, inl, inr,
}
use tag_pulse.Wire.Epc.{Text}
use tag_pulse.Wire.Compact.{Value}
use tag_pulse.Rfid.Texts.{codes}
use tag_pulse.EventBus.{or_default}
use tag_pulse.Rules.Conditions.{
  Fields, field, is_truthy, equal, evaluate_condition, eval_telemetry_threshold,
}
use tag_pulse.Rules.Evaluator.{
  Rule, RuleEvaluator, info, warning, quiet, text_in, ParsedUuid, absent, invalid, id, id_in,
  active_rules_by_condition_type, active_rules_for_device, in_scope, on_tag_read, tag_read_of,
  telemetry_of, on_telemetry_recorded, confidence_of, min_confidence, attribution_types,
  attribution_of, on_inference_types, on_attribution_settled,
}
use tag_pulse.Rules.Zones.{
  is_null, is_other_kind, is_allowed, zone_type, eval_zone_entered_exited, if_subject,
  is_stock_entry, zone_changes, stock_if, zone_changed_of, on_subject_zone_changed,
}
use tag_pulse.Rules.Attempts.{
  Attempt, at_once, perform_all, perform_all-append, rules-perform_all, chosen, of_type,
  cooled_alert, tag_read_alert, tag_read_rules_lem, telemetry_rules_lem, attribution_rules_lem,
  zone_rules_lem, stock_rules_lem,
}

-- The events that the evaluator subscribes to.
pub data Occurrence : Type 0 where
  tag_read telemetry settled zone_changed : Fields → Occurrence

module _ (float_of : Text → Option ℤ) (uuid_of : Text → Option ℕ) where
  -- The handler of each; an event whose handler raises changes nothing.
  unfoldable pub handle : Occurrence → ℕ → RuleEvaluator → RuleEvaluator
  handle (tag_read payload) now evaluator =
      or_default evaluator (on_tag_read float_of uuid_of payload evaluator)
  handle (telemetry payload) now evaluator =
      on_telemetry_recorded float_of uuid_of payload now evaluator
  handle (settled payload) now evaluator =
      on_attribution_settled float_of uuid_of payload now evaluator
  handle (zone_changed payload) now evaluator =
      or_default evaluator (on_subject_zone_changed uuid_of payload now evaluator)

  abbrev pub unless_backfill : Fields → List Attempt → List Attempt
  unless_backfill payload attempts = if is_truthy (field "backfill" payload) then [] else attempts

  abbrev pub asked_tag_read : ParsedUuid → ParsedUuid → Fields → List Rule → List Attempt
  asked_tag_read (id tenant) (id device) payload rules =
      chosen (λ rule. evaluate_condition float_of rule.condition_type rule.condition_config payload)
        (tag_read_alert tenant device)
        (keep
          (λ rule. rule.tenant == tenant && rule.enabled && in_scope device rule.scope_device_id)
          rules)
  asked_tag_read _ _ payload rules = []

  abbrev pub asked_telemetry : ParsedUuid → Option Text → Fields → ℕ → List Rule → List Attempt
  asked_telemetry (id tenant) (some subject) payload now rules =
      chosen (λ rule. eval_telemetry_threshold float_of rule.condition_config payload)
        (cooled_alert tenant subject warning (pos 300) now)
        (of_type tenant "telemetry.threshold" rules)
  asked_telemetry _ _ payload now rules = []

  abbrev pub asked_types : List String → ℕ → Text → ℤ → ℕ → List Rule → List Attempt
  asked_types [] tenant asset confidence now rules = []
  asked_types (condition_type ∷ types) tenant asset confidence now rules =
      chosen (λ rule. not (ltb_ℤ confidence (min_confidence float_of uuid_of rule)))
        (cooled_alert tenant asset info (pos 60) now) (of_type tenant condition_type rules)
      ++ asked_types types tenant asset confidence now rules

  abbrev pub asked_attribution :
      ParsedUuid → Option Text → Option Text → Option ℤ → ℕ → List Rule → List Attempt
  asked_attribution (id tenant) (some asset) (some place) (some confidence) now rules =
      asked_types on_inference_types tenant asset confidence now rules
  asked_attribution _ _ _ _ now rules = []

  abbrev pub asked_zone : String → Value → ℕ → Text → Value → ℕ → List Rule → List Attempt
  asked_zone condition_type target_zone tenant subject kind now rules =
      if is_null target_zone
      then []
      else chosen
          (λ rule. not (
            not (equal (field "zone_id" rule.condition_config) target_zone)
            || is_other_kind kind rule.subject_kinds))
          (cooled_alert tenant subject info (pos 60) now) (of_type tenant condition_type rules)

  abbrev pub asked_subject : ℕ → Option Text → Fields → ℕ → List Rule → List Attempt
  asked_subject tenant none payload now rules = []
  asked_subject tenant (some subject) payload now rules =
      asked_zone "zone.entered" (field "to_zone_id" payload) tenant subject
        (field "subject_kind" payload) now rules
      ++ asked_zone "zone.exited" (field "from_zone_id" payload) tenant subject
          (field "subject_kind" payload) now rules

  abbrev pub asked_stock : ℕ → Option Text → Fields → List Rule → List Attempt
  asked_stock tenant subject payload rules =
      if is_stock_entry payload
      then chosen
          (λ rule. not (
            is_truthy (field "product_id" rule.condition_config)
              && not (equal (field "product_id" rule.condition_config) (field "product_id" payload))
            || is_allowed (field "to_zone_id" payload) rule.allowed_zone_ids))
          (λ rule. at_once (quiet tenant rule (or_default (codes "<unknown>") subject) warning))
          (of_type tenant "stock.unexpected_in_zone" rules)
      else []

  abbrev pub asked_zone_changed : ParsedUuid → Fields → ℕ → List Rule → List Attempt
  asked_zone_changed (id tenant) payload now rules =
      asked_subject tenant (text_in "subject_id" payload) payload now rules
      ++ asked_stock tenant (text_in "subject_id" payload) payload rules
  asked_zone_changed _ payload now rules = []

  -- What an event asks for, over the rules of the table.
  unfoldable pub asked : Occurrence → ℕ → List Rule → List Attempt
  asked (tag_read payload) now rules = unless_backfill payload (
      asked_tag_read (id_in uuid_of "tenant_id" payload) (id_in uuid_of "device_id" payload) payload
        rules)
  asked (telemetry payload) now rules = unless_backfill payload (
      asked_telemetry (id_in uuid_of "tenant_id" payload) (text_in "subject_id" payload) payload now
        rules)
  asked (settled payload) now rules =
      asked_attribution (id_in uuid_of "tenant_id" payload) (text_in "asset_id" payload)
        (text_in "zone_id" payload) (confidence_of float_of uuid_of payload) now rules
  asked (zone_changed payload) now rules =
      unless_backfill payload
        (asked_zone_changed (id_in uuid_of "tenant_id" payload) payload now rules)

  -- Two steps, where the second one asks the table that the first one left.
  then_lem :
      (xs : List Attempt) (next : List Rule → List Attempt) (run : RuleEvaluator → RuleEvaluator)
      (middle evaluator : RuleEvaluator)
      → middle ≡ perform_all xs evaluator
      → ((e : RuleEvaluator) → run e ≡ perform_all (next e.rules) e)
      → run middle ≡ perform_all (xs ++ next evaluator.rules) evaluator
  then_lem xs next run middle evaluator same step =
      step middle
      ∙ ap (λ m. perform_all (next m.rules) m) same
      ∙ ap (λ rules. perform_all (next rules) (perform_all xs evaluator))
          (rules-perform_all xs evaluator)
      ∙ sym (perform_all-append xs (next evaluator.rules) evaluator)

  attribution_types_lem :
      (types : List String) (tenant : ℕ) (asset : Text) (confidence : ℤ) (now : ℕ)
      (evaluator : RuleEvaluator)
      → attribution_types float_of uuid_of types tenant asset confidence now evaluator
        ≡ perform_all (asked_types types tenant asset confidence now evaluator.rules) evaluator
  unfolding attribution_types active_rules_by_condition_type perform_all
  attribution_types_lem [] tenant asset confidence now evaluator = refl
  attribution_types_lem (condition_type ∷ types) tenant asset confidence now evaluator =
      then_lem
        (chosen (λ rule. not (ltb_ℤ confidence (min_confidence float_of uuid_of rule)))
          (cooled_alert tenant asset info (pos 60) now)
          (of_type tenant condition_type evaluator.rules))
        (asked_types types tenant asset confidence now)
        (attribution_types float_of uuid_of types tenant asset confidence now) _ evaluator
        (attribution_rules_lem float_of uuid_of _ tenant asset confidence now evaluator)
        (attribution_types_lem types tenant asset confidence now)

  zone_type_lem :
      (condition_type : String) (target_zone : Value) (tenant : ℕ) (subject : Text) (kind : Value)
      (now : ℕ) (evaluator : RuleEvaluator)
      → zone_type condition_type target_zone tenant subject kind now evaluator
        ≡ perform_all
            (asked_zone condition_type target_zone tenant subject kind now evaluator.rules)
            evaluator
  unfolding zone_type active_rules_by_condition_type perform_all
  zone_type_lem condition_type target_zone tenant subject kind now evaluator =
      elim (Bool-cases (is_null target_zone)) [
        | inl nowhere ↦ rw nowhere refl
        | inr zone ↦ rw zone (zone_rules_lem _ tenant subject kind target_zone now evaluator)
      ]

  if_subject_lem :
      (tenant : ℕ) (subject : Option Text) (payload : Fields) (now : ℕ) (evaluator : RuleEvaluator)
      → if_subject tenant subject payload now evaluator
        ≡ perform_all (asked_subject tenant subject payload now evaluator.rules) evaluator
  unfolding eval_zone_entered_exited perform_all
  if_subject_lem tenant none payload now evaluator = refl
  if_subject_lem tenant (some subject) payload now evaluator =
      then_lem
        (asked_zone "zone.entered" (field "to_zone_id" payload) tenant subject
          (field "subject_kind" payload) now evaluator.rules)
        (asked_zone "zone.exited" (field "from_zone_id" payload) tenant subject
          (field "subject_kind" payload) now)
        (zone_type "zone.exited" (field "from_zone_id" payload) tenant subject
          (field "subject_kind" payload) now)
        _ evaluator
        (zone_type_lem "zone.entered" (field "to_zone_id" payload) tenant subject
          (field "subject_kind" payload) now evaluator)
        (zone_type_lem "zone.exited" (field "from_zone_id" payload) tenant subject
          (field "subject_kind" payload) now)

  stock_if_lem :
      (tenant : ℕ) (subject : Option Text) (payload : Fields) (evaluator : RuleEvaluator)
      → stock_if tenant subject payload evaluator
        ≡ perform_all (asked_stock tenant subject payload evaluator.rules) evaluator
  unfolding active_rules_by_condition_type perform_all
  stock_if_lem tenant subject payload evaluator = elim (Bool-cases (is_stock_entry payload)) [
    | inl stock ↦ rw stock (
        stock_rules_lem _ tenant subject (field "product_id" payload) (field "to_zone_id" payload)
          evaluator)
    | inr other ↦ rw other refl
  ]

  zone_changes_lem :
      (tenant : ℕ) (subject : Option Text) (payload : Fields) (now : ℕ) (evaluator : RuleEvaluator)
      → zone_changes tenant subject payload now evaluator
        ≡ perform_all
            (asked_subject tenant subject payload now evaluator.rules
              ++ asked_stock tenant subject payload evaluator.rules)
            evaluator
  unfolding zone_changes active_rules_by_condition_type perform_all
  zone_changes_lem tenant subject payload now evaluator =
      then_lem (asked_subject tenant subject payload now evaluator.rules)
        (asked_stock tenant subject payload) (stock_if tenant subject payload) _ evaluator
        (if_subject_lem tenant subject payload now evaluator) (stock_if_lem tenant subject payload)

  tag_read_of_lem :
      (tenant device : ParsedUuid) (payload : Fields) (evaluator : RuleEvaluator)
      → or_default evaluator (tag_read_of float_of uuid_of tenant device payload evaluator)
        ≡ perform_all (asked_tag_read tenant device payload evaluator.rules) evaluator
  unfolding perform_all active_rules_for_device
  tag_read_of_lem absent device payload evaluator = refl
  tag_read_of_lem invalid absent payload evaluator = refl
  tag_read_of_lem invalid invalid payload evaluator = refl
  tag_read_of_lem invalid (id device) payload evaluator = refl
  tag_read_of_lem (id tenant) absent payload evaluator = refl
  tag_read_of_lem (id tenant) invalid payload evaluator = refl
  tag_read_of_lem (id tenant) (id device) payload evaluator =
      tag_read_rules_lem float_of uuid_of _ tenant device payload evaluator

  telemetry_of_lem :
      (tenant : ParsedUuid) (subject : Option Text) (payload : Fields) (now : ℕ)
      (evaluator : RuleEvaluator)
      → telemetry_of float_of uuid_of tenant subject payload now evaluator
        ≡ perform_all (asked_telemetry tenant subject payload now evaluator.rules) evaluator
  unfolding perform_all active_rules_by_condition_type
  telemetry_of_lem absent subject payload now evaluator = refl
  telemetry_of_lem invalid subject payload now evaluator = refl
  telemetry_of_lem (id tenant) none payload now evaluator = refl
  telemetry_of_lem (id tenant) (some subject) payload now evaluator =
      telemetry_rules_lem float_of uuid_of _ tenant subject payload now evaluator

  attribution_of_lem :
      (tenant : ParsedUuid) (asset place : Option Text) (confidence : Option ℤ) (now : ℕ)
      (evaluator : RuleEvaluator)
      → attribution_of float_of uuid_of tenant asset place confidence now evaluator
        ≡ perform_all
            (asked_attribution tenant asset place confidence now evaluator.rules)
            evaluator
  unfolding perform_all
  attribution_of_lem absent asset place confidence now evaluator = refl
  attribution_of_lem invalid asset place confidence now evaluator = refl
  attribution_of_lem (id tenant) none place confidence now evaluator = refl
  attribution_of_lem (id tenant) (some asset) none confidence now evaluator = refl
  attribution_of_lem (id tenant) (some asset) (some place) none now evaluator = refl
  attribution_of_lem (id tenant) (some asset) (some place) (some confidence) now evaluator =
      attribution_types_lem on_inference_types tenant asset confidence now evaluator

  zone_changed_of_lem :
      (tenant : ParsedUuid) (payload : Fields) (now : ℕ) (evaluator : RuleEvaluator)
      → or_default evaluator (zone_changed_of tenant payload now evaluator)
        ≡ perform_all (asked_zone_changed tenant payload now evaluator.rules) evaluator
  unfolding perform_all
  zone_changed_of_lem absent payload now evaluator = refl
  zone_changed_of_lem invalid payload now evaluator = refl
  zone_changed_of_lem (id tenant) payload now evaluator =
      zone_changes_lem tenant (text_in "subject_id" payload) payload now evaluator

  -- A handler does what its event asks for, one attempt after the other.
  pub handle-asked :
      (occurrence : Occurrence) (now : ℕ) (evaluator : RuleEvaluator)
      → handle occurrence now evaluator
        ≡ perform_all (asked occurrence now evaluator.rules) evaluator
  unfolding handle asked on_tag_read on_telemetry_recorded on_attribution_settled
      on_subject_zone_changed perform_all
  handle-asked (tag_read payload) now evaluator =
      elim (Bool-cases (is_truthy (field "backfill" payload))) [
        | inl backfill ↦ rw backfill refl
        | inr live ↦ rw live (tag_read_of_lem _ _ payload evaluator)
      ]
  handle-asked (telemetry payload) now evaluator =
      elim (Bool-cases (is_truthy (field "backfill" payload))) [
        | inl backfill ↦ rw backfill refl
        | inr live ↦ rw live (telemetry_of_lem _ _ payload now evaluator)
      ]
  handle-asked (settled payload) now evaluator = attribution_of_lem _ _ _ _ now evaluator
  handle-asked (zone_changed payload) now evaluator =
      elim (Bool-cases (is_truthy (field "backfill" payload))) [
        | inl backfill ↦ rw backfill refl
        | inr live ↦ rw live (zone_changed_of_lem _ payload now evaluator)
      ]
