-- ===== src/Tests/Usage.antt =====
-- A run of the usage meter.
use tag_pulse.Prelude.{◌+◌, true, false, none, List, [], ◌∷◌, ◌≡◌, refl}
use tag_pulse.Usage.{
  BufferKey, UsageMeter, add_count, put_back, add_row, store_counts, record_usage, begin_flush,
  end_flush, Action, counting, starting, ending, perform, perform_all,
}
use tag_pulse.Usage.Conservation.{stored, held, added_all, spares, spares_all, held-perform_all}

abbrev fresh : UsageMeter
fresh = record { buffer = []; in_flight = none; detail = [] }

abbrev reads : BufferKey
reads = (1, ("api_read", "requests"))

-- A flush that fails while a count comes in, and one that is stored.
abbrev actions : List Action
actions =
    counting reads 3
    ∷ starting
    ∷ counting reads 2
    ∷ ending false 7
    ∷ starting
    ∷ counting reads 4
    ∷ ending true 8
    ∷ []

actions_spare : spares_all 1 "api_read" actions ≡ true
unfolding spares_all spares
actions_spare = refl

held-perform_all_example :
    held 1 "api_read" (perform_all actions fresh)
    ≡ held 1 "api_read" fresh + added_all 1 "api_read" actions
held-perform_all_example = held-perform_all 1 "api_read" actions fresh actions_spare

-- Five are stored and four wait.
stored_five : stored 1 "api_read" (perform_all actions fresh).detail ≡ 5
unfolding perform_all perform record_usage add_count begin_flush end_flush put_back store_counts
    add_row stored
stored_five = refl
