-- ===== src/Tests/EventBus.antt =====
-- Runs of the event bus: topics are texts, events and handlers numbers.
use tag_pulse.Prelude.{
  ℕ, ◌+◌, ◌-◌, ◌≤◌, Bool, true, false, Option, none, some, List, [], ◌∷◌, ◌++◌, ok, ◌≡◌, refl,
  arith, inl, String, string_eq, length, nat_beq, if◌then◌else◌,
}
use tag_pulse.Wire.Epc.{Text}
use tag_pulse.Dict.{lookup, has_key, insert, map_values}
use tag_pulse.EventBus.{
  EventBus, drop_oldest, Journal, queue_of, drops_of, publish_on, consume_next, drain, or_default,
  is_full, drain_queues, drain_queue, drain_handlers, publish_each,
}
use tag_pulse.EventBus.Accounting.{Runs, begun, published, consumed, IsAccounted, Runs-IsAccounted}
use tag_pulse.EventBus.Overflows.{publish_all, survivors, publish_all_lem}
use tag_pulse.EventBus.Deliveries.{every_call, letters, consume_next_lem}
use tag_pulse.EventBus.Drained.{pending_calls, queued, drain_lem}

-- Handler 2 raises on every event.
abbrev raised : ℕ → ℕ → Option Text
raised handler event = if nat_beq handler 2 then some (b'E' ∷ []) else none

abbrev kept : ℕ → ℕ → Bool
kept handler event = true

abbrev new_bus : EventBus String ℕ ℕ
new_bus = record {
  capacity = 2;
  overflow = drop_oldest;
  queues = [];
  handlers = ("read", 1 ∷ 2 ∷ 3 ∷ []) ∷ [];
  drop_count = [];
}

abbrev one_queued : EventBus String ℕ ℕ
one_queued = record new_bus { queues = ("read", 10 ∷ []) ∷ [] }

abbrev burst : List ℕ
burst = 1 ∷ 2 ∷ 3 ∷ []

abbrev journal : Journal String ℕ ℕ
journal = record { called = []; dead = [] }

published_run : publish_on "read" 10 new_bus ≡ ok one_queued
unfolding publish_on is_full lookup insert
published_run = refl

runs :
    Runs raised kept "read" new_bus
      (10 ∷ [])
      (10 ∷ [])
      (consume_next raised kept "read" one_queued journal).0
unfolding lookup
runs =
    consumed "read" one_queued journal (10 ∷ []) []
      (published "read" 10 new_bus one_queued [] [] begun published_run)

Runs-IsAccounted_example :
    IsAccounted raised kept "read"
      (10 ∷ [])
      (10 ∷ [])
      (consume_next raised kept "read" one_queued journal).0
Runs-IsAccounted_example =
    Runs-IsAccounted raised kept "read" new_bus refl refl (10 ∷ []) (10 ∷ [])
      (consume_next raised kept "read" one_queued journal).0 runs

publish_all_lem_example :
    (next : EventBus String ℕ ℕ) × (publish_all "read" burst one_queued ≡ ok next)
    × (queue_of "read" next ≡ survivors drop_oldest 2 (queue_of "read" one_queued ++ burst))
    × (drops_of "read" next
        ≡ drops_of "read" one_queued + (length (queue_of "read" one_queued) + length burst - 2))
unfolding lookup
publish_all_lem_example = publish_all_lem "read" burst one_queued (inl refl) (omega arith) within
  where
    within : length (queue_of "read" one_queued) ≤ 2
    within = omega arith

consume_next_lem_example :
    (queue_of "read" (consume_next raised kept "read" one_queued journal).0 ≡ [])
    × ((consume_next raised kept "read" one_queued journal).1.called
        ≡ journal.called ++ every_call (or_default [] (lookup "read" one_queued.handlers)) 10)
    × ((consume_next raised kept "read" one_queued journal).1.dead
        ≡ journal.dead
          ++ letters raised kept (or_default [] (lookup "read" one_queued.handlers)) "read" 10)
unfolding lookup
consume_next_lem_example = consume_next_lem raised kept "read" 10 [] one_queued journal refl

abbrev silent : ℕ → ℕ → List (String × ℕ)
silent handler event = []

drain_lem_example : drain silent 1 one_queued journal ≡ (
  false,
  (
    record one_queued { queues = map_values (λ topic queue. []) one_queued.queues },
    record journal {
      called = journal.called ++ pending_calls one_queued.handlers one_queued.queues;
    },
  ),
)
unfolding queued has_key
drain_lem_example =
    drain_lem silent (λ handler event. refl) 1 one_queued journal (refl, tt) (omega arith)

-- A handler of the later topic publishes on the earlier one, which was drained before.
abbrev answering : ℕ → ℕ → List (String × ℕ)
answering handler event = ("read", 99) ∷ []

abbrev two_topics : EventBus String ℕ ℕ
two_topics = record new_bus {
  queues = ("read", []) ∷ ("zone", 10 ∷ []) ∷ [];
  handlers = ("zone", 1 ∷ []) ∷ [];
}

left_behind : queue_of "read" (drain answering 5 two_topics journal).1.0 ≡ 99 ∷ []
unfolding drain drain_queues drain_queue drain_handlers publish_each publish_on is_full lookup
    insert
left_behind = refl

-- A topic that no event was published on before makes the loop over the queues raise.
abbrev branching : ℕ → ℕ → List (String × ℕ)
branching handler event = ("alert", 99) ∷ []

raises : (drain branching 5 two_topics journal).0 ≡ true
unfolding drain drain_queues drain_queue drain_handlers publish_each publish_on is_full lookup
    insert
raises = refl
