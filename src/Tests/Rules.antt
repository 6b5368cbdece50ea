-- ===== src/Tests/Rules.antt =====
-- Runs of the rule evaluator.
use tag_pulse.Prelude.{
  ℕ, true, Option, none, some, List, [], ◌∷◌, ℤ, pos, ◌≡◌, refl, arith, string_eq, nat_eq, list_eq,
  pair_eq, contains, All, length,
}
use tag_pulse.Wire.Epc.{Text}
use tag_pulse.Wire.Compact.{integer, fraction, text}
use tag_pulse.Rfid.Texts.{codes}
use tag_pulse.Dict.{lookup}
use tag_pulse.Rules.Conditions.{
  Fields, field, is_truthy, equal, float, operate, eval_telemetry_threshold,
}
use tag_pulse.Rules.Evaluator.{Rule, CooldownKey, text_in, id_in}
use tag_pulse.Rules.Requests.{telemetry, asked}
use tag_pulse.Rules.Suppression.{latest, past_after}
use tag_pulse.Rules.Agreement.{
  Timed, reference, keys_of, InOrder, handle_all, asked_all, handle_all-reference,
}

abbrev floats : Text → Option ℤ
floats s = none

abbrev uuids : Text → Option ℕ
uuids s = some (length s)

abbrev too_warm : Rule
too_warm = record {
  id = 7;
  tenant = 2;
  enabled = true;
  scope_device_id = none;
  condition_type = "telemetry.threshold";
  condition_config =
      ("subject_kind", text (codes "asset"))
      ∷ ("metric_name", text (codes "temp"))
      ∷ ("operator", text (codes "gt"))
      ∷ ("value", integer (pos 8))
      ∷ [];
  subject_kinds = [];
  allowed_zone_ids = [];
  cooldown_s = some (pos 60);
}

abbrev reading : ℤ → Fields
reading x =
    ("tenant_id", text (codes "t1"))
    ∷ ("subject_id", text (codes "lot"))
    ∷ ("subject_kind", text (codes "asset"))
    ∷ ("metric_name", text (codes "temp"))
    ∷ ("metric_value", fraction x)
    ∷ []

abbrev lot : CooldownKey
lot = (2, (7, codes "lot"))

-- Above the threshold at 100, 130 and 160, below it at 110.
abbrev events : List Timed
events =
    (telemetry (reading (pos 8500000)), 100)
    ∷ (telemetry (reading (pos 7000000)), 110)
    ∷ (telemetry (reading (pos 9000000)), 130)
    ∷ (telemetry (reading (pos 9500000)), 160)
    ∷ []

members :
    All
      (λ key. contains key (lot ∷ []) ≡ true)
      (keys_of (asked_all floats uuids events (too_warm ∷ [])))
unfolding asked_all asked keys_of field lookup is_truthy text_in id_in eval_telemetry_threshold
    equal float operate
members = (refl, (refl, (refl, tt)))

order : InOrder 0 (asked_all floats uuids events (too_warm ∷ []))
unfolding asked_all asked field lookup is_truthy text_in id_in eval_telemetry_threshold equal float
    operate
order = (omega arith, (omega arith, (omega arith, tt)))

handle_all-reference_example :
    (handle_all floats uuids events
      (record { rules = too_warm ∷ []; cooldown_until = []; alerts = [] })).alerts
    ≡ reference (asked_all floats uuids events (too_warm ∷ [])) []
handle_all-reference_example =
    handle_all-reference floats uuids (lot ∷ []) events (too_warm ∷ []) (omega arith) members order

-- The second breach is suppressed, the third one is not.
alerts_run : length (reference (asked_all floats uuids events (too_warm ∷ [])) []) ≡ 2
unfolding reference past_after latest asked_all asked field lookup is_truthy text_in id_in
    eval_telemetry_threshold equal float operate
alerts_run = refl
