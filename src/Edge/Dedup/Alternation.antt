-- ===== src/Edge/Dedup/Alternation.antt =====
-- The events of one tag at one antenna.

use tag_pulse.Prelude.{
  ℕ, ℤ, ◌≡◌, refl, sym, subst, Bool, true, false, not, Option, none, some, List, [], ◌∷◌, ◌++◌, map,
  ◌==◌, pair_eq, string_eq, nat_eq, if◌then◌else◌, arith, is_some, contains, Unique, pair_beq_iff,
}
use tag_pulse.Dict.{Dict, lookup, keys, keep_entries, Distinct}
use tag_pulse.Dict.Laws.{
  lookup-insert, insert-Distinct, keep_entries-Distinct, keys-Unique, only_if,
}
use tag_pulse.Edge.Dedup.{
  TagKey, Transition, enter, exit, PresenceEvent, Presence, PresenceTracker, observe, tick,
  is_expired, exit_event,
}
use tag_pulse.Edge.Dedup.Ticks.{delete_all-Distinct, lookup-tick, contains-expired}

-- A strict reader of the events of one key: an exit of what has not entered is refused, and an
-- entrance of what has not left.
abbrev pub follow : Transition → Bool → Option Bool
follow enter false = some true
follow exit true = some false
follow _ _ = none

unfoldable pub reading : TagKey → List PresenceEvent → Bool → Option Bool
reading key [] inside = some inside
reading key (event ∷ log) inside =
    elim (if event.key == key then follow event.transition inside else some inside) [
      | none ↦ none
      | some now ↦ reading key log now
    ]

abbrev resume : TagKey → List PresenceEvent → Option Bool → Option Bool
resume key log none = none
resume key log (some inside) = reading key log inside

reading-append :
    (key : TagKey) (first second : List PresenceEvent) (inside : Bool)
    → reading key (first ++ second) inside ≡ resume key second (reading key first inside)
unfolding reading
reading-append key [] second inside = refl
reading-append key (event ∷ first) second inside =
    ground (arith, reading-append key first second true, reading-append key first second false)

reading-exits :
    (key : TagKey) (at : ℕ) (expired : List TagKey) (inside : Bool)
    → Unique expired
    → reading key (map (exit_event at) expired) inside
      ≡ (if contains key expired then follow exit inside else some inside)
unfolding reading
reading-exits key at [] inside u = refl
reading-exits key at (k ∷ expired) inside u = ground (
  arith,
  pair_beq_iff k key,
  pair_beq_iff key k,
  reading-exits key at expired true,
  reading-exits key at expired false,
)

pub data Input : Type 0 where
  seen : TagKey → ℕ → Option ℤ → Input
  ticked : ℕ → Input

abbrev listed : Option PresenceEvent → List PresenceEvent
listed none = []
listed (some event) = event ∷ []

unfoldable pub input : Input → PresenceTracker → List PresenceEvent × PresenceTracker
input (seen key at signal) t = let done = observe key at signal t in (listed done.0, done.1)
input (ticked at) t = tick at t

unfoldable pub run : List Input → PresenceTracker → List PresenceEvent × PresenceTracker
run [] t = ([], t)
run (i ∷ inputs) t = let rest = run inputs (input i t).1 in ((input i t).0 ++ rest.0, rest.1)

input-Distinct :
    (i : Input) (t : PresenceTracker) → Distinct t.present → Distinct (input i t).1.present
unfolding input observe tick
input-Distinct (seen key at signal) t d =
    ground (
      arith,
      insert-Distinct key (record { last_seen_mono = at; last_signal = signal }) t.present d,
    )
input-Distinct (ticked at) t d =
    delete_all-Distinct (keys (keep_entries (is_expired t.exit_timeout_s at) t.present)) t.present d

reading-tick :
    (key : TagKey) (at : ℕ) (t : PresenceTracker)
    → Distinct t.present
    → reading key (tick at t).0 (is_some (lookup key t.present))
      ≡ some (is_some (lookup key (tick at t).1.present))
unfolding tick
reading-tick key at t d =
    subst (λ o. reading key (tick at t).0 (is_some (lookup key t.present)) ≡ some (is_some o))
      (sym (lookup-tick at t key d)) exits_lem
  where
    gone : Dict TagKey Presence
    gone = keep_entries (is_expired t.exit_timeout_s at) t.present

    exits_lem :
        reading key (tick at t).0 (is_some (lookup key t.present))
        ≡ some (
            is_some
              (only_if (λ p. not (is_expired t.exit_timeout_s at key p)) (lookup key t.present)))
    exits_lem = ground (
      arith,
      reading-exits key at (keys gone) (is_some (lookup key t.present))
          (keys-Unique gone (keep_entries-Distinct (is_expired t.exit_timeout_s at) t.present d)),
      contains-expired key at t d,
    )

reading-input :
    (key : TagKey) (i : Input) (t : PresenceTracker)
    → Distinct t.present
    → reading key (input i t).0 (is_some (lookup key t.present))
      ≡ some (is_some (lookup key (input i t).1.present))
unfolding input observe reading
reading-input key (seen k at signal) t d = ground (
  arith,
  lookup-insert key k (record { last_seen_mono = at; last_signal = signal }) t.present,
  pair_beq_iff k key,
)
reading-input key (ticked at) t d = reading-tick key at t d

-- Of every tag at every antenna, over any sequence of readings and ticks, entrances and exits
-- alternate, and the last of them tells whether the tracker holds it.
pub reading-run :
    (key : TagKey) (inputs : List Input) (t : PresenceTracker)
    → Distinct t.present
    → reading key (run inputs t).0 (is_some (lookup key t.present))
      ≡ some (is_some (lookup key (run inputs t).1.present))
unfolding run reading
reading-run key [] t d = refl
reading-run key (i ∷ inputs) t d = ground (
  arith,
  reading-append key (input i t).0 (run inputs (input i t).1).0 (is_some (lookup key t.present)),
  reading-input key i t d,
  reading-run key inputs (input i t).1 (input-Distinct i t d),
)
