-- ===== src/Rules/Conditions.antt =====
-- The conditions of src/tagpulse/rules/evaluator.py. A number is in millionths.
use tag_pulse.Prelude.{
  ℕ, ◌+◌, ◌*◌, ◌-ℤ◌, Bool, true, false, ◌&&◌, ◌||◌, not, Option, none, some, [], ◌∷◌, ℤ, pos,
  negsuc, pos_part, neg_part, leb_ℤ, ltb_ℤ, int_beq, ltb, String, string_eq, nat_eq, list_eq, ◌==◌,
  if◌then◌else◌,
}
use tag_pulse.Dict.{Dict, lookup}
use tag_pulse.Wire.Epc.{Text}
use tag_pulse.Wire.Compact.{
  Value, null, structured, boolean, integer, fraction, text, millionths, as_number,
}
use tag_pulse.Rfid.Texts.{codes}
use tag_pulse.EventBus.{or_default}

abbrev pub Fields : Type 0
Fields = Dict String Value

-- d.get(key); a missing key reads as None.
unfoldable pub field : String → Fields → Value
field key fields = or_default null (lookup key fields)

-- `bool(value)`; an array or object is taken to have elements.
unfoldable pub is_truthy : Value → Bool
is_truthy null = false
is_truthy structured = true
is_truthy (boolean b) = b
is_truthy (integer n) = not (int_beq n (pos 0))
is_truthy (fraction x) = not (int_beq x (pos 0))
is_truthy (text []) = false
is_truthy (text (c ∷ s)) = true

abbrev numbers_equal : Option ℤ → Option ℤ → Bool
numbers_equal (some x) (some y) = int_beq x y
numbers_equal _ _ = false

-- `==`, where arrays and objects do not occur.
unfoldable pub equal : Value → Value → Bool
equal null null = true
equal (text s) (text t) = s == t
equal a b = numbers_equal (as_number a) (as_number b)

module _ (float_of : Text → Option ℤ) where
  -- float(value); none where it raises
  unfoldable pub float : Value → Option ℤ
  float null = none
  float structured = none
  float (boolean b) = some (if b then pos 1000000 else pos 0)
  float (integer n) = some (millionths n)
  float (fraction x) = some x
  float (text s) = float_of s

  -- The five operators; any other is false.
  unfoldable pub operate : Value → ℤ → ℤ → Bool
  operate operator actual threshold =
      if equal operator (text (codes "gt"))
      then ltb_ℤ threshold actual
      else if equal operator (text (codes "lt"))
      then ltb_ℤ actual threshold
      else if equal operator (text (codes "gte"))
      then leb_ℤ threshold actual
      else if equal operator (text (codes "lte"))
      then leb_ℤ actual threshold
      else if equal operator (text (codes "eq"))
      then int_beq actual threshold
      else false

  abbrev compare_floats : Value → Option ℤ → Option ℤ → Bool
  compare_floats operator (some actual) (some threshold) = operate operator actual threshold
  compare_floats _ _ _ = false

  -- config.get("field", "") names a field by a text; `named` looks it up.
  abbrev named : Fields → Value → Value
  named [] name = null
  named ((key, value) ∷ fields) name =
      let rest = named fields name in if equal (text (codes key)) name then value else rest

  unfoldable pub eval_threshold : Fields → Fields → Bool
  eval_threshold config payload =
      compare_floats (field "operator" config)
        (float (named payload (or_default (text []) (lookup "field" config))))
        (float (field "value" config))

  unfoldable pub eval_absence : Fields → Fields → Bool
  eval_absence config payload =
      is_truthy (field "tag_id" config)
      && not (equal (field "tag_id" payload) (field "tag_id" config))

  -- |a - b|
  abbrev distance : ℤ → ℤ → ℕ
  distance a b = pos_part (a -ℤ b) + neg_part (a -ℤ b)

  -- abs((s - b) / b) * 100 > c, over the rationals: |s - b| * 100 * 10^6 > c * |b|, with b in
  -- millionths and c in millionths of a percent. A negative c is below every deviation.
  abbrev deviates : ℤ → ℤ → ℤ → Bool
  deviates signal baseline (negsuc change) = not (int_beq baseline (pos 0))
  deviates signal baseline (pos change) =
      not (int_beq baseline (pos 0))
      && ltb (change * distance baseline (pos 0)) (distance signal baseline * 100000000)

  abbrev rate_of : Option ℤ → Option ℤ → Option ℤ → Bool
  rate_of (some signal) (some change) (some baseline) = deviates signal baseline change
  rate_of _ _ _ = false

  -- config.get("baseline", -50.0): a baseline that is null is no number.
  abbrev baseline_of : Option Value → Option ℤ
  baseline_of none = some (negsuc 49999999)
  baseline_of (some value) = float value

  unfoldable pub eval_rate_change : Fields → Fields → Bool
  eval_rate_change config payload =
      rate_of (float (field "signal_strength" payload)) (float (field "change_percent" config))
        (baseline_of (lookup "baseline" config))

  unfoldable pub evaluate_condition : String → Fields → Fields → Bool
  evaluate_condition condition_type config payload =
      if condition_type == "threshold"
      then eval_threshold config payload
      else if condition_type == "rate_change"
      then eval_rate_change config payload
      else if condition_type == "absence"
      then eval_absence config payload
      else false

  unfoldable pub eval_telemetry_threshold : Fields → Fields → Bool
  eval_telemetry_threshold config payload =
      equal (field "subject_kind" config) (field "subject_kind" payload)
      && equal (field "metric_name" config) (field "metric_name" payload)
      && (not (is_truthy (field "subject_id" config))
          || equal (field "subject_id" config) (field "subject_id" payload))
      && compare_floats (field "operator" config) (float (field "metric_value" payload))
          (float (field "value" config))
