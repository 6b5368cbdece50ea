-- ===== src/EventBus/Drained.antt =====
-- What a drain of the event bus leaves, where handlers publish nothing on it.
use mathlib.Core.List.{append-nil, append_assoc}
use tag_pulse.Prelude.{
  ℕ, zero, suc, ◌+◌, ◌-◌, ◌≤◌, true, false, List, [], ◌∷◌, ◌++◌, length, length-append, nat_beq,
  nat_beq_iff, Eq, ◌≡◌, refl, sym, ap, ◌∙◌, subst, arith,
}
use tag_pulse.Dict.{Dict, lookup, has_key, keys, map_values, Distinct}
use tag_pulse.Dict.Middle.{fresh_before, lookup-middle, insert-middle, Distinct-middle}
use tag_pulse.EventBus.{
  EventBus, Journal, or_default, publish_each, drain_handlers, drain_queue, drain_queues, drain,
}
use tag_pulse.EventBus.Deliveries.{every_call}

module _ {E H : Type 0} where
  -- Every event of a queue with every handler, event by event.
  unfoldable pub queue_calls : List H → List E → List (H × E)
  queue_calls handlers [] = []
  queue_calls handlers (event ∷ queue) = every_call handlers event ++ queue_calls handlers queue

module _ {T E : Type 0} where
  unfoldable pub queued : Dict T (List E) → ℕ
  queued [] = 0
  queued ((topic, queue) ∷ queues) = length queue + queued queues

  abbrev pub emptied : Dict T (List E) → Dict T (List E)
  emptied queues = map_values (λ topic queue. []) queues

module _ {T E H : Type 0} ⦃e : Eq T⦄ where
  unfoldable pub pending_calls : Dict T (List H) → Dict T (List E) → List (H × E)
  pending_calls handlers [] = []
  pending_calls handlers ((topic, queue) ∷ queues) =
      queue_calls (or_default [] (lookup topic handlers)) queue ++ pending_calls handlers queues

  abbrev with_calls : Journal T E H → List (H × E) → Journal T E H
  with_calls journal calls = record journal { called = journal.called ++ calls }

  with_none : (journal : Journal T E H) → journal ≡ with_calls journal []
  with_none journal =
      ap (λ calls. record journal { called = calls }) (sym (append-nil journal.called))

  with_both :
      (journal : Journal T E H) (first later : List (H × E))
      → with_calls (with_calls journal first) later ≡ with_calls journal (first ++ later)
  with_both journal first later =
      ap (λ calls. record journal { called = calls }) (append_assoc journal.called first later)

  abbrev with_queues : EventBus T E H → Dict T (List E) → EventBus T E H
  with_queues bus queues = record bus { queues = queues }

  module _ (publishes : H → E → List (T × E))
      (quiet : (handler : H) (event : E) → publishes handler event ≡ []) where
    drain_handlers_lem :
        (handlers : List H) (event : E) (bus : EventBus T E H) (journal : Journal T E H)
        → drain_handlers publishes handlers event bus journal
          ≡ (bus, with_calls journal (every_call handlers event))
    unfolding drain_handlers publish_each
    drain_handlers_lem [] event bus journal = ap (λ after. (bus, after)) (with_none journal)
    drain_handlers_lem (handler ∷ handlers) event bus journal =
        ap
          (λ sent.
            drain_handlers publishes handlers event (publish_each publishes sent bus)
              (with_calls journal ((handler, event) ∷ [])))
          (quiet handler event)
        ∙ drain_handlers_lem handlers event bus _
        ∙ ap (λ after. (bus, after))
            (with_both journal ((handler, event) ∷ []) (every_call handlers event))

    drain_queue_lem :
        (handlers : List H) (before : Dict T (List E)) (topic : T) (queue : List E)
        (after : Dict T (List E)) (turns : ℕ) (bus : EventBus T E H) (journal : Journal T E H)
        → has_key topic before ≡ false
        → length queue ≤ turns
        → drain_queue publishes handlers topic turns
            (with_queues bus (before ++ (topic, queue) ∷ after))
            journal
          ≡ (
            turns - length queue,
            (
              with_queues bus (before ++ (topic, []) ∷ after),
              with_calls journal (queue_calls handlers queue),
            ),
          )
    unfolding drain_queue queue_calls
    drain_queue_lem handlers before topic [] after zero bus journal fresh enough =
        ap (λ called. (zero, (with_queues bus (before ++ (topic, []) ∷ after), called)))
          (with_none journal)
    drain_queue_lem handlers before topic [] after (suc turns) bus journal fresh enough =
        rw (lookup-middle before topic [] after fresh, drain_queue)
          (ap (λ called. (suc turns, (with_queues bus (before ++ (topic, []) ∷ after), called)))
              (with_none journal)
            ∙ ap
                (λ left.
                  (left, (with_queues bus (before ++ (topic, []) ∷ after), with_calls journal [])))
                (omega arith))
    drain_queue_lem handlers before topic (event ∷ queue) after zero bus journal fresh enough =
        absurd (omega (arith, enough))
    drain_queue_lem handlers before topic (event ∷ queue) after (suc turns) bus journal fresh
          enough =
        let called = with_calls journal (every_call handlers event) in
        rw (lookup-middle before topic (event ∷ queue) after fresh, drain_queue)
          (ap (λ done. drain_queue publishes handlers topic turns done.0 done.1)
              (drain_handlers_lem handlers event _ journal)
            ∙ ap
                (λ queues.
                  drain_queue publishes handlers topic turns (with_queues bus queues) called)
                (insert-middle before topic (event ∷ queue) queue after fresh)
            ∙ drain_queue_lem handlers before topic queue after turns bus called fresh (omega arith)
            ∙ ap
                (λ calls.
                  (turns - length queue, (with_queues bus (before ++ (topic, []) ∷ after), calls)))
                (with_both journal (every_call handlers event) (queue_calls handlers queue))
            ∙ ap
                (λ left. (
                  left,
                  (
                    with_queues bus (before ++ (topic, []) ∷ after),
                    with_calls journal (every_call handlers event ++ queue_calls handlers queue),
                  ),
                ))
                (omega arith))

    drain_queues_lem :
        (before after : Dict T (List E)) (size turns : ℕ) (bus : EventBus T E H)
        (journal : Journal T E H)
        → Distinct (before ++ after)
        → length (before ++ after) ≡ size
        → queued after ≤ turns
        → drain_queues publishes (keys after) size turns (with_queues bus (before ++ after)) journal
          ≡ (
            false,
            (
              with_queues bus (before ++ emptied after),
              with_calls journal (pending_calls bus.handlers after),
            ),
          )
    unfolding drain_queues queued pending_calls map_values
    drain_queues_lem before [] size turns bus journal apart whole enough =
        ap (λ called. (false, (with_queues bus (before ++ []), called))) (with_none journal)
    drain_queues_lem before ((topic, queue) ∷ after) size turns bus journal apart whole enough =
        let handlers = or_default [] (lookup topic bus.handlers) in
        let fresh = fresh_before before topic queue after apart in
        let moved = append_assoc before ((topic, []) ∷ []) after in
        let same : nat_beq (length (before ++ (topic, []) ∷ after)) size ≡ true = ground (
          arith,
          whole,
          length-append before ((topic, []) ∷ after),
          length-append before ((topic, queue) ∷ after),
        ) in
        let rest =
          drain_queues_lem (before ++ (topic, []) ∷ []) after size (turns - length queue) bus
            (with_calls journal (queue_calls handlers queue))
            (subst Distinct (sym moved) (Distinct-middle before topic queue [] after apart))
            (ap length moved ∙ (nat_beq_iff _ size).0 same) (omega arith) in
        rw
          (
            drain_queue_lem handlers before topic queue after turns bus journal fresh (omega arith),
            same,
            drain_queues,
          )
          (ap
              (λ queues.
                drain_queues publishes (keys after) size (turns - length queue)
                  (with_queues bus queues) (with_calls journal (queue_calls handlers queue)))
              (sym moved)
            ∙ rest
            ∙ ap
                (λ queues. (
                  false,
                  (
                    with_queues bus queues,
                    with_calls (with_calls journal (queue_calls handlers queue))
                        (pending_calls bus.handlers after),
                  ),
                ))
                (append_assoc before ((topic, []) ∷ []) (emptied after))
            ∙ ap
                (λ called.
                  (false, (with_queues bus (before ++ (topic, []) ∷ emptied after), called)))
                (with_both journal (queue_calls handlers queue) (pending_calls bus.handlers after)))

    -- Where handlers publish nothing on the bus, a drain with time for as many turns as events are
    -- queued does not raise, empties every queue, keeps the rest of the bus, calls every handler
    -- with every event queued on its topic, in order, and writes no row.
    pub drain_lem :
        (turns : ℕ) (bus : EventBus T E H) (journal : Journal T E H)
        → Distinct bus.queues
        → queued bus.queues ≤ turns
        → drain publishes turns bus journal ≡ (
          false,
          (
            record bus { queues = map_values (λ topic queue. []) bus.queues },
            record journal { called = journal.called ++ pending_calls bus.handlers bus.queues },
          ),
        )
    unfolding drain
    drain_lem turns bus journal apart enough =
        drain_queues_lem [] bus.queues (length bus.queues) turns bus journal apart refl enough
