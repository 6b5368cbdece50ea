-- ===== src/Tests/Dedup.antt =====
-- Runs of the edge's tracker.
use tag_pulse.Prelude.{
  ◌+◌, leb, ◌≡◌, refl, arith, true, none, some, List, [], ◌∷◌, is_some, string_eq, pair_eq,
}
use tag_pulse.Dict.{lookup, has_key}
use tag_pulse.Dict.Laws.{only_if}
use tag_pulse.Edge.Dedup.{TagKey, PresenceTracker, observe, tick}
use tag_pulse.Edge.Dedup.Ticks.{reports_exit, only_exits, tick-exits, tick_unrefreshed}
use tag_pulse.Edge.Dedup.Alternation.{Input, seen, ticked, run, reading, reading-run}

abbrev tag : TagKey
tag = ("E2801160", "1")

abbrev tracker : PresenceTracker
tracker = record { dedup_window_s = 5; exit_timeout_s = 3; present = [] }

abbrev inputs : List Input
inputs = seen tag 0 none ∷ seen tag 2 none ∷ ticked 4 ∷ seen tag 4 none ∷ []

reading-run_example :
    reading tag (run inputs tracker).0 (is_some (lookup tag tracker.present))
    ≡ some (is_some (lookup tag (run inputs tracker).1.present))
reading-run_example = reading-run tag inputs tracker tt

abbrev watching : PresenceTracker
watching = record tracker {
  present = (tag, record { last_seen_mono = 1; last_signal = none }) ∷ [];
}

tick-exits_example :
    (reports_exit tag 4 (tick 4 watching).0
      ≡ is_some (
          only_if
            (λ p. leb (p.last_seen_mono + watching.exit_timeout_s) 4)
            (lookup tag watching.present)))
    × (only_exits 4 (tick 4 watching).0 ≡ true)
unfolding has_key
tick-exits_example = tick-exits tag 4 watching (refl, tt)

tick_unrefreshed_example :
    reports_exit tag 4 (tick 4 (observe tag 2 none (observe tag 0 none tracker).1).1).0 ≡ true
unfolding lookup
tick_unrefreshed_example =
    tick_unrefreshed tag 0 2 4 none none tracker tt refl (omega arith) (omega arith)
