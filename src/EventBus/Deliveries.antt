-- ===== src/EventBus/Deliveries.antt =====
-- What a turn of the consumer of the event bus calls and writes.
use mathlib.Core.List.{append-nil, append_assoc}
use tag_pulse.Prelude.{
  Bool, Option, none, some, List, [], ◌∷◌, ◌++◌, map, take, if◌then◌else◌, Eq, ==_refl, ◌≡◌, refl,
  sym, ap, ◌∙◌, arith, Option-cases, Bool-cases, inl, inr,
}
use tag_pulse.Wire.Epc.{Text}
use tag_pulse.Dict.{lookup}
use tag_pulse.Dict.Laws.{lookup-insert}
use tag_pulse.EventBus.{
  EventBus, Journal, DeadLetter, queue_of, or_default, persist_dead_letter, call_handlers,
  consume_next,
}

module _ {E H : Type 0} where
  abbrev pub every_call : List H → E → List (H × E)
  every_call handlers event = map (λ handler. (handler, event)) handlers

module _ {T E H : Type 0} ⦃e : Eq T⦄ (raised : H → E → Option Text) (stored : H → E → Bool) where
  -- The rows for the handlers that raise, where there is a factory.
  unfoldable pub letters : List H → T → E → List (DeadLetter T E)
  letters [] topic event = []
  letters (handler ∷ handlers) topic event =
      let rest = letters handlers topic event in
      elim (raised handler event) [
        | none ↦ rest
        | some error_tb ↦
            if stored handler event
            then record { topic = topic; payload = event; error_message = take 4000 error_tb }
              ∷ rest
            else rest
      ]

  persist_called :
      (handler : H) (topic : T) (event : E) (error_tb : Text) (journal : Journal T E H)
      → (persist_dead_letter raised stored handler topic event error_tb journal).called
        ≡ journal.called
  unfolding persist_dead_letter
  persist_called handler topic event error_tb journal = elim (Bool-cases (stored handler event)) [
    | inl kept ↦ rw (kept, persist_dead_letter) refl
    | inr lost ↦ rw (lost, persist_dead_letter) refl
  ]

  persist_dead :
      (handler : H) (topic : T) (event : E) (error_tb : Text) (journal : Journal T E H)
      (more : List (DeadLetter T E))
      → (persist_dead_letter raised stored handler topic event error_tb journal).dead ++ more
        ≡ journal.dead
          ++ (if stored handler event
              then record { topic = topic; payload = event; error_message = take 4000 error_tb }
                ∷ more
              else more)
  unfolding persist_dead_letter
  persist_dead handler topic event error_tb journal more =
      elim (Bool-cases (stored handler event)) [
        | inl kept ↦ rw (kept, persist_dead_letter) (append_assoc journal.dead _ more)
        | inr lost ↦ rw (lost, persist_dead_letter) refl
      ]

  called-call_handlers :
      (handlers : List H) (topic : T) (event : E) (journal : Journal T E H)
      → (call_handlers raised stored handlers topic event journal).called
        ≡ journal.called ++ every_call handlers event
  unfolding call_handlers persist_dead_letter
  called-call_handlers [] topic event journal = sym (append-nil journal.called)
  called-call_handlers (handler ∷ handlers) topic event journal =
      elim (Option-cases (raised handler event)) [
        | inl fine ↦
            rw (fine, call_handlers)
              (called-call_handlers handlers topic event _
                ∙ append_assoc journal.called ((handler, event) ∷ []) (every_call handlers event))
        | inr (error_tb, failed) ↦
            rw (failed, call_handlers)
              (called-call_handlers handlers topic event _
                ∙ ap (λ calls. calls ++ every_call handlers event)
                    (persist_called handler topic event error_tb _)
                ∙ append_assoc journal.called ((handler, event) ∷ []) (every_call handlers event))
      ]

  dead-call_handlers :
      (handlers : List H) (topic : T) (event : E) (journal : Journal T E H)
      → (call_handlers raised stored handlers topic event journal).dead
        ≡ journal.dead ++ letters handlers topic event
  unfolding call_handlers persist_dead_letter letters
  dead-call_handlers [] topic event journal = sym (append-nil journal.dead)
  dead-call_handlers (handler ∷ handlers) topic event journal =
      elim (Option-cases (raised handler event)) [
        | inl fine ↦ rw (fine, call_handlers, letters) (dead-call_handlers handlers topic event _)
        | inr (error_tb, failed) ↦
            rw (failed, call_handlers, letters)
              (dead-call_handlers handlers topic event _
                ∙ persist_dead handler topic event error_tb _ _)
      ]

  -- A turn of the consumer on a topic that has an event takes the oldest one and calls every
  -- handler of the topic with it, in order, whichever of them raise; the rows it writes are those
  -- of the handlers that raise, in the same order.
  pub consume_next_lem :
      (topic : T) (event : E) (rest : List E) (bus : EventBus T E H) (journal : Journal T E H)
      → queue_of topic bus ≡ event ∷ rest
      → (queue_of topic (consume_next raised stored topic bus journal).0 ≡ rest)
        × ((consume_next raised stored topic bus journal).1.called
            ≡ journal.called ++ every_call (or_default [] (lookup topic bus.handlers)) event)
        × ((consume_next raised stored topic bus journal).1.dead
            ≡ journal.dead ++ letters (or_default [] (lookup topic bus.handlers)) topic event)
  unfolding consume_next
  consume_next_lem topic event rest bus journal line =
      rw (line, consume_next)
        (
          ground (arith, lookup-insert topic topic rest bus.queues, ==_refl topic),
          called-call_handlers (or_default [] (lookup topic bus.handlers)) topic event journal,
          dead-call_handlers (or_default [] (lookup topic bus.handlers)) topic event journal,
        )
