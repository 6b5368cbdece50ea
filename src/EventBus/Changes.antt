-- ===== src/EventBus/Changes.antt =====
-- What publishing and consuming do to one topic of the event bus.

use tag_pulse.Prelude.{
  ◌+◌, Bool, true, false, Option, List, [], ◌∷◌, ◌++◌, drop, if◌then◌else◌, ok, Eq, ◌==◌, ==_iff,
  ==_refl, ◌≡◌, refl, sym, ap, ◌∙◌, arith, inl, inr, Bool-cases,
}
use tag_pulse.Wire.Epc.{Text}
use tag_pulse.Dict.Laws.{lookup-insert}
use tag_pulse.EventBus.{
  EventBus, Overflow, drop_oldest, drop_newest, raise, other, Journal, is_full, without_oldest,
  queue_of, drops_of, publish_full, publish_on, consume_next,
}
use tag_pulse.EventBus.Sublists.{split}

module _ {T E H : Type 0} ⦃e : Eq T⦄ (topic : T) where
  -- The three ways a publish changes the topic.
  pub data Change (event : E) (bus next : EventBus T E H) : Type 0 where
    appended :
        is_full bus.capacity (queue_of topic bus) ≡ false
        → queue_of topic next ≡ queue_of topic bus ++ event ∷ []
        → drops_of topic next ≡ drops_of topic bus
        → Change event bus next
    displaced :
        (oldest : E) (rest : List E)
        → queue_of topic bus ≡ oldest ∷ rest
        → queue_of topic next ≡ rest ++ event ∷ []
        → drops_of topic next ≡ drops_of topic bus + 1
        → Change event bus next
    refused :
        queue_of topic next ≡ queue_of topic bus
        → drops_of topic next ≡ drops_of topic bus + 1
        → Change event bus next

  abbrev pub Unchanged : EventBus T E H → EventBus T E H → Type 0
  Unchanged bus next =
      (queue_of topic next ≡ queue_of topic bus) × (drops_of topic next ≡ drops_of topic bus)

  pub full_elsewhere :
      (o : Overflow) (at : T) (event : E) (bus next : EventBus T E H)
      → at == topic ≡ false
      → publish_full o at event bus ≡ ok next
      → Unchanged bus next
  unfolding publish_full
  full_elsewhere drop_oldest at event bus next apart r = ground (
    arith,
    lookup-insert topic at (drops_of at bus + 1) bus.drop_count,
    lookup-insert topic at (without_oldest (queue_of at bus) ++ event ∷ []) bus.queues,
  )
  full_elsewhere drop_newest at event bus next apart r =
      ground (arith, lookup-insert topic at (drops_of at bus + 1) bus.drop_count)
  full_elsewhere raise at event bus next apart r = ground arith
  full_elsewhere other at event bus next apart r = ground arith

  pub publish_elsewhere :
      (at : T) (event : E) (bus next : EventBus T E H)
      → at == topic ≡ false
      → publish_on at event bus ≡ ok next
      → Unchanged bus next
  unfolding publish_on
  publish_elsewhere at event bus next apart returned =
      elim (Bool-cases (is_full bus.capacity (queue_of at bus))) [
        | inl full ↦
            full_elsewhere bus.overflow at event bus next apart (sym (rw full refl) ∙ returned)
        | inr room ↦
            ground (arith, lookup-insert topic at (queue_of at bus ++ event ∷ []) bus.queues)
      ]

  pub full_here :
      (o : Overflow) (event : E) (bus next : EventBus T E H)
      → is_full bus.capacity (queue_of topic bus) ≡ true
      → publish_full o topic event bus ≡ ok next
      → Change event bus next
  unfolding publish_full is_full without_oldest
  full_here drop_oldest event bus next full r = elim (split (queue_of topic bus)) [
    | inl empty ↦ ground arith
    | inr (oldest, rest, line) ↦
        displaced oldest rest line ground
          (
            arith,
            lookup-insert topic topic (without_oldest (queue_of topic bus) ++ event ∷ [])
                bus.queues,
            ==_refl topic,
          )
          ground
          (arith, lookup-insert topic topic (drops_of topic bus + 1) bus.drop_count, ==_refl topic)
  ]
  full_here drop_newest event bus next full r = refused (ground arith) (
      ground
        (arith, lookup-insert topic topic (drops_of topic bus + 1) bus.drop_count, ==_refl topic))
  full_here raise event bus next full r = ground arith
  full_here other event bus next full r = ground arith

  pub publish_here :
      (event : E) (bus next : EventBus T E H)
      → publish_on topic event bus ≡ ok next
      → Change event bus next
  unfolding publish_on
  publish_here event bus next returned =
      elim (Bool-cases (is_full bus.capacity (queue_of topic bus))) [
        | inl full ↦ full_here bus.overflow event bus next full (sym (rw full refl) ∙ returned)
        | inr room ↦
            appended room
              (ground (
                arith,
                lookup-insert topic topic (queue_of topic bus ++ event ∷ []) bus.queues,
                ==_refl topic,
              ))
              (ground arith)
      ]

  pub publish_capacity :
      (at : T) (event : E) (bus next : EventBus T E H)
      → publish_on at event bus ≡ ok next
      → next.capacity ≡ bus.capacity
  unfolding publish_on publish_full
  publish_capacity at event bus next returned =
      elim (Bool-cases (is_full bus.capacity (queue_of at bus))) [
        | inl full ↦ on_full bus.overflow (sym (rw full refl) ∙ returned)
        | inr room ↦ ground arith
      ]
    where
      on_full :
          (o : Overflow) → publish_full o at event bus ≡ ok next → next.capacity ≡ bus.capacity
      on_full drop_oldest r = ground arith
      on_full drop_newest r = ground arith
      on_full raise r = ground arith
      on_full other r = ground arith

module _ {T E H : Type 0} ⦃e : Eq T⦄ (raised : H → E → Option Text) (stored : H → E → Bool)
    (topic : T) where
  pub consume_queue :
      (at : T) (bus : EventBus T E H) (journal : Journal T E H)
      → queue_of topic (consume_next raised stored at bus journal).0
        ≡ (if at == topic then drop 1 (queue_of topic bus) else queue_of topic bus)
  unfolding consume_next
  consume_queue at bus journal = elim (split (queue_of at bus)) [
    | inl empty ↦
        rw (empty, consume_next)
          (elim (Bool-cases (at == topic)) [
            | inl here ↦ rw here (rw (sym ((==_iff at topic).0 here)) (rw empty refl))
            | inr apart ↦ rw apart refl
          ])
    | inr (event, rest, line) ↦
        rw (line, consume_next)
          (elim (Bool-cases (at == topic)) [
            | inl here ↦ rw here (
                ground (
                  arith,
                  lookup-insert topic at rest bus.queues,
                  ap (drop 1) line,
                  ap (λ t. queue_of t bus) ((==_iff at topic).0 here),
                ))
            | inr apart ↦ rw apart (ground (arith, lookup-insert topic at rest bus.queues))
          ])
  ]

  pub consume_rest :
      (at : T) (bus : EventBus T E H) (journal : Journal T E H)
      → ((consume_next raised stored at bus journal).0.capacity ≡ bus.capacity)
        × (drops_of topic (consume_next raised stored at bus journal).0 ≡ drops_of topic bus)
  unfolding consume_next
  consume_rest at bus journal = ground arith
