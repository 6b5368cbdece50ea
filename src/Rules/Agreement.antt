-- ===== src/Rules/Agreement.antt =====
-- Every run of the rule evaluator of src/tagpulse/rules/evaluator.py against a list of all the
-- cooldowns that it ever started.
use tag_pulse.Prelude.{
  ℕ, ◌≤◌, true, false, Option, List, [], ◌∷◌, ◌++◌, ℤ, if◌then◌else◌, length, nat_eq, list_eq,
  pair_eq, contains, All, ◌≡◌, refl, sym, ap, ◌∙◌, arith, inl, inr, Bool-cases,
}
use mathlib.Core.List.{append_assoc, append-nil}
use tag_pulse.Wire.Epc.{Text}
use tag_pulse.Dict.{lookup, has_key}
use tag_pulse.Rules.Cooldown.{rule_cooldown_max, cooldown_active, set_cooldown}
use tag_pulse.Rules.Evaluator.{Rule, RuleEvaluator, Alert, CooldownKey, fire, fire_unless_cooling}
use tag_pulse.Rules.Attempts.{
  Attempt, at_once, cooled, perform, perform_all, perform_all-append, rules-perform_all,
}
use tag_pulse.Rules.Requests.{Occurrence, handle, asked, handle-asked}
use tag_pulse.Rules.Suppression.{
  latest, is_later, past_after, Agrees, later-Agrees, active-answer, active-Agrees, inactive_absent,
  set_cooldown-Agrees,
}

-- The alerts of a list of attempts, where one is suppressed exactly while the last cooldown of its
-- key lasts; `past` are the cooldowns so far, the last one first.
unfoldable pub reference : List Attempt → List (CooldownKey × ℕ) → List Alert
reference [] past = []
reference (at_once alert ∷ attempts) past = alert ∷ reference attempts past
reference (cooled key now seconds alert ∷ attempts) past =
    let suppressed = reference attempts past in
    let fired = alert ∷ reference attempts (past_after key now seconds past) in
    if is_later now (latest key past) then suppressed else fired

-- The keys that a list of attempts asks for.
unfoldable pub keys_of : List Attempt → List CooldownKey
keys_of [] = []
keys_of (at_once alert ∷ attempts) = keys_of attempts
keys_of (cooled key now seconds alert ∷ attempts) = key ∷ keys_of attempts

-- The clock does not run backwards, from `now` on.
abbrev pub InOrder : ℕ → List Attempt → Type 0
InOrder now [] = Unit
InOrder now (at_once alert ∷ attempts) = InOrder now attempts
InOrder now (cooled key at seconds alert ∷ attempts) = (now ≤ at) × InOrder at attempts

fire_hot :
    (key : CooldownKey) (now : ℕ) (seconds : ℤ) (alert : Alert) (evaluator : RuleEvaluator)
    → (cooldown_active key now evaluator.cooldown_until).0 ≡ true
    → fire_unless_cooling key now seconds alert evaluator
      ≡ record evaluator { cooldown_until = (cooldown_active key now evaluator.cooldown_until).1 }
unfolding fire_unless_cooling
fire_hot key now seconds alert evaluator hot = rw (hot, fire_unless_cooling) refl

fire_cold :
    (key : CooldownKey) (now : ℕ) (seconds : ℤ) (alert : Alert) (evaluator : RuleEvaluator)
    → (cooldown_active key now evaluator.cooldown_until).0 ≡ false
    → fire_unless_cooling key now seconds alert evaluator
      ≡ fire alert (record evaluator {
        cooldown_until =
            set_cooldown key now seconds (cooldown_active key now evaluator.cooldown_until).1;
      })
unfolding fire_unless_cooling
fire_cold key now seconds alert evaluator cold = rw (cold, fire_unless_cooling) refl

perform_all-reference :
    (universe : List CooldownKey)
    → length universe ≤ rule_cooldown_max
    → (attempts : List Attempt) (past : List (CooldownKey × ℕ)) (now : ℕ)
      (evaluator : RuleEvaluator)
    → All (λ key. contains key universe ≡ true) (keys_of attempts)
    → InOrder now attempts
    → Agrees universe past now evaluator.cooldown_until
    → (perform_all attempts evaluator).alerts ≡ evaluator.alerts ++ reference attempts past
unfolding perform_all perform reference keys_of fire_unless_cooling
perform_all-reference universe room [] past now evaluator members order agrees =
    sym (append-nil evaluator.alerts)
perform_all-reference universe room (at_once alert ∷ attempts) past now evaluator members order
      agrees =
    perform_all-reference universe room attempts past now (fire alert evaluator) members order
      agrees
    ∙ append_assoc evaluator.alerts (alert ∷ []) (reference attempts past)
perform_all-reference universe room (cooled key at seconds alert ∷ attempts) past now evaluator
      (member, members) (h, order) agrees =
    let here = later-Agrees universe past now at evaluator.cooldown_until h agrees in
    let after = active-Agrees key at evaluator.cooldown_until universe past here in
    let same =
      active-answer key at evaluator.cooldown_until ∙ here.suppressed key at (omega arith) in
    elim (Bool-cases (is_later at (latest key past))) [
      | inl hot ↦ rw (hot) (
          ap (λ next. (perform_all attempts next).alerts)
            (fire_hot key at seconds alert evaluator (same ∙ hot))
          ∙ perform_all-reference universe room attempts past at _ members order after)
      | inr cold ↦ rw (cold) (
          ap (λ next. (perform_all attempts next).alerts)
            (fire_cold key at seconds alert evaluator (same ∙ cold))
          ∙ perform_all-reference universe room attempts (past_after key at seconds past) at _
              members order
              (set_cooldown-Agrees key at seconds _ universe past room member
                (inactive_absent key at evaluator.cooldown_until agrees.distinct (same ∙ cold))
                after)
          ∙ append_assoc evaluator.alerts (alert ∷ [])
              (reference attempts (past_after key at seconds past)))
    ]

-- An event with its instant.
abbrev pub Timed : Type 0
Timed = Occurrence × ℕ

module _ (float_of : Text → Option ℤ) (uuid_of : Text → Option ℕ) where
  unfoldable pub handle_all : List Timed → RuleEvaluator → RuleEvaluator
  handle_all [] evaluator = evaluator
  handle_all ((occurrence, now) ∷ events) evaluator =
      handle_all events (handle float_of uuid_of occurrence now evaluator)

  unfoldable pub asked_all : List Timed → List Rule → List Attempt
  asked_all [] rules = []
  asked_all ((occurrence, now) ∷ events) rules =
      asked float_of uuid_of occurrence now rules ++ asked_all events rules

  handle_all-asked_all :
      (events : List Timed) (evaluator : RuleEvaluator)
      → handle_all events evaluator ≡ perform_all (asked_all events evaluator.rules) evaluator
  unfolding handle_all asked_all perform_all
  handle_all-asked_all [] evaluator = refl
  handle_all-asked_all ((occurrence, now) ∷ events) evaluator =
      handle_all-asked_all events (handle float_of uuid_of occurrence now evaluator)
      ∙ ap (λ next. perform_all (asked_all events next.rules) next)
          (handle-asked float_of uuid_of occurrence now evaluator)
      ∙ ap
          (λ rules.
            perform_all (asked_all events rules)
              (perform_all (asked float_of uuid_of occurrence now evaluator.rules) evaluator))
          (rules-perform_all (asked float_of uuid_of occurrence now evaluator.rules) evaluator)
      ∙ sym (
          perform_all-append (asked float_of uuid_of occurrence now evaluator.rules)
            (asked_all events evaluator.rules) evaluator)

  -- Whatever events the evaluator is given, with a clock that does not run backwards and no more than
  -- 16384 keys of tenant, rule and subject: the alerts are those that the matching rules ask for, in
  -- order, each suppressed exactly while the cooldown that its key's last alert started lasts.
  pub handle_all-reference :
      (universe : List CooldownKey) (events : List Timed) (rules : List Rule)
      → length universe ≤ rule_cooldown_max
      → All (λ key. contains key universe ≡ true) (keys_of (asked_all events rules))
      → InOrder 0 (asked_all events rules)
      → (handle_all events (record { rules = rules; cooldown_until = []; alerts = [] })).alerts
        ≡ reference (asked_all events rules) []
  unfolding lookup has_key latest
  handle_all-reference universe events rules room members order =
      ap (λ done. done.alerts) (handle_all-asked_all events _)
      ∙ perform_all-reference universe room (asked_all events rules) [] 0 _ members order (record {
        distinct = tt;
        known = λ key inside. ground arith;
        suppressed = λ key at h. refl;
      })
