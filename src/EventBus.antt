-- ===== src/EventBus.antt =====
-- src/tagpulse/events/async_bus.py: the in-process event bus. A topic `T` is any type with equality,
-- an event `E` and a handler `H` any types; what a handler does is given by parameters: `raised`, the
-- traceback that it leaves, if it raises, and `publishes`, what it publishes during a drain.
mod Sublists
mod Changes
pub mod Accounting
pub mod Overflows
pub mod Deliveries
pub mod Drained
use tag_pulse.Prelude.{
  ℕ, zero, suc, ◌+◌, ◌-◌, Bool, true, false, ◌&&◌, not, Option, none, some, List, [], ◌∷◌, ◌++◌,
  ltb, leb, nat_beq, length, take, if◌then◌else◌, Result, ok, err, Eq, ◌==◌,
}
use tag_pulse.Dict.{Dict, lookup, insert, has_key, keys}
use tag_pulse.Wire.Epc.{Text}

-- The values of `overflow` that `publish` compares with, and any other.
pub data Overflow : Type 0 where
  drop_oldest drop_newest raise other : Overflow

-- EventBusFullError of protocol.py, and asyncio's QueueFull.
pub data BusError : Type 0 where
  event_bus_full : ℕ → BusError
  queue_full : BusError

pub record EventBus (T E H : Type 0) : Type 0 where
  pub capacity : ℕ
  pub overflow : Overflow
  pub queues : Dict T (List E)
  pub handlers : Dict T (List H)
  pub drop_count : Dict T ℕ

-- A row of dead_letter_events.
pub record DeadLetter (T E : Type 0) : Type 0 where
  pub topic : T
  pub payload : E
  pub error_message : Text

-- The calls of handlers, in order, and the rows written.
pub record Journal (T E H : Type 0) : Type 0 where
  pub called : List (H × E)
  pub dead : List (DeadLetter T E)

abbrev pub or_default {ℓ} : {A : Type ℓ} → A → Option A → A
or_default a none = a
or_default a (some b) = b

module _ {A : Type 0} where
  -- queue.full(): a queue of maxsize 0 never is.
  unfoldable pub is_full : ℕ → List A → Bool
  is_full capacity queue = ltb 0 capacity && leb capacity (length queue)

  -- get_nowait, where QueueEmpty is suppressed
  unfoldable pub without_oldest : List A → List A
  without_oldest [] = []
  without_oldest (event ∷ queue) = queue

  -- list.remove: the first one, if there is one
  unfoldable pub remove_first : ⦃h : Eq A⦄ → A → List A → List A
  remove_first handler [] = []
  remove_first handler (g ∷ rest) = if g == handler then rest else g ∷ remove_first handler rest

module _ {T E H : Type 0} ⦃e : Eq T⦄ where
  -- self._queues.get(topic), a new queue if there is none
  abbrev pub queue_of : T → EventBus T E H → List E
  queue_of topic bus = or_default [] (lookup topic bus.queues)

  abbrev pub drops_of : T → EventBus T E H → ℕ
  drops_of topic bus = or_default 0 (lookup topic bus.drop_count)

  abbrev pub put_nowait : T → List E → E → EventBus T E H → EventBus T E H
  put_nowait topic queue event bus = record bus {
    queues = insert topic (queue ++ event ∷ []) bus.queues;
  }

  abbrev pub count_drop : T → EventBus T E H → EventBus T E H
  count_drop topic bus = record bus {
    drop_count = insert topic (drops_of topic bus + 1) bus.drop_count;
  }

  unfoldable pub publish_full : Overflow → T → E → EventBus T E H → Result BusError (EventBus T E H)
  publish_full drop_oldest topic event bus =
      ok (put_nowait topic (without_oldest (queue_of topic bus)) event (count_drop topic bus))
  publish_full drop_newest topic event bus = ok (count_drop topic bus)
  publish_full raise topic event bus = err (event_bus_full (length (queue_of topic bus)))
  publish_full other topic event bus = err queue_full

  -- A topic's queue is made by its first publish, which is never full.
  unfoldable pub publish_on : T → E → EventBus T E H → Result BusError (EventBus T E H)
  publish_on topic event bus =
      if is_full bus.capacity (queue_of topic bus)
      then publish_full bus.overflow topic event bus
      else ok (put_nowait topic (queue_of topic bus) event bus)

  unfoldable pub subscribe : T → H → EventBus T E H → EventBus T E H
  subscribe topic handler bus = record bus {
    handlers =
        insert topic (or_default [] (lookup topic bus.handlers) ++ handler ∷ []) bus.handlers;
  }

  -- The list is changed in place; a topic without one keeps none.
  unfoldable pub unsubscribe : ⦃h : Eq H⦄ → T → H → EventBus T E H → EventBus T E H
  unsubscribe topic handler bus = elim (lookup topic bus.handlers) [
    | none ↦ bus
    | some handlers ↦ record bus {
      handlers = insert topic (remove_first handler handlers) bus.handlers;
    }
  ]

  module _ (raised : H → E → Option Text) (stored : H → E → Bool) where
    -- `_persist_dead_letter`, for the handler that raised; `stored` is whether there is a session
    -- factory and the write succeeds, which may differ from row to row.
    unfoldable pub persist_dead_letter : H → T → E → Text → Journal T E H → Journal T E H
    persist_dead_letter handler topic event error_message journal =
        if stored handler event
        then record journal {
          dead =
              journal.dead
              ++ record { topic = topic; payload = event; error_message = take 4000 error_message }
                ∷ [];
        }
        else journal

    abbrev note_call : H → E → Journal T E H → Journal T E H
    note_call handler event journal = record journal {
      called = journal.called ++ (handler, event) ∷ [];
    }

    -- The loop over the handlers in `_consume`.
    unfoldable pub call_handlers : List H → T → E → Journal T E H → Journal T E H
    call_handlers [] topic event journal = journal
    call_handlers (handler ∷ handlers) topic event journal =
        call_handlers handlers topic event (elim (raised handler event) [
          | none ↦ note_call handler event journal
          | some error_tb ↦
              persist_dead_letter handler topic event error_tb (note_call handler event journal)
        ])

    -- One turn of `_consume`: nothing, where the wait times out on an empty queue.
    unfoldable pub consume_next :
        T → EventBus T E H → Journal T E H → EventBus T E H × Journal T E H
    consume_next topic bus journal = elim (queue_of topic bus) [
      | [] ↦ (bus, journal)
      | event ∷ rest ↦ (
        record bus { queues = insert topic rest bus.queues },
        call_handlers (or_default [] (lookup topic bus.handlers)) topic event journal,
      )
    ]

  module _ (publishes : H → E → List (T × E)) where
    -- What a handler publishes on the bus, in order; a publish that raises ends the handler.
    unfoldable pub publish_each : List (T × E) → EventBus T E H → EventBus T E H
    publish_each [] bus = bus
    publish_each ((topic, event) ∷ rest) bus = elim (publish_on topic event bus) [
      | err error ↦ bus
      | ok next ↦ publish_each rest next
    ]

    -- The loop over the handlers in `drain`: a failure is logged only.
    unfoldable pub drain_handlers :
        List H → E → EventBus T E H → Journal T E H → EventBus T E H × Journal T E H
    drain_handlers [] event bus journal = (bus, journal)
    drain_handlers (handler ∷ handlers) event bus journal =
        drain_handlers handlers event (publish_each (publishes handler event) bus)
          (record journal { called = journal.called ++ (handler, event) ∷ [] })

    -- One queue of `drain`: `turns` is how many more events are taken before the deadline.
    unfoldable pub drain_queue :
        List H → T → ℕ → EventBus T E H → Journal T E H → ℕ × (EventBus T E H × Journal T E H)
    drain_queue handlers topic zero bus journal = (zero, (bus, journal))
    drain_queue handlers topic (suc turns) bus journal = elim (queue_of topic bus) [
      | [] ↦ (suc turns, (bus, journal))
      | event ∷ queue ↦
          let taken = record bus { queues = insert topic queue bus.queues } in
          let done = drain_handlers handlers event taken journal in
          drain_queue handlers topic turns done.0 done.1
    ]

    -- The loop over the queues; true where it raises, since the dict of `size` queues has got another
    -- one meanwhile.
    unfoldable pub drain_queues :
        List T → ℕ → ℕ → EventBus T E H → Journal T E H → Bool × (EventBus T E H × Journal T E H)
    drain_queues [] size turns bus journal = (false, (bus, journal))
    drain_queues (topic ∷ topics) size turns bus journal =
        let done =
          drain_queue (or_default [] (lookup topic bus.handlers)) topic turns bus journal in
        let rest = drain_queues topics size done.0 done.1.0 done.1.1 in
        if nat_beq (length done.1.0.queues) size then rest else (true, done.1)

    unfoldable pub drain :
        ℕ → EventBus T E H → Journal T E H → Bool × (EventBus T E H × Journal T E H)
    drain turns bus journal = drain_queues (keys bus.queues) (length bus.queues) turns bus journal
