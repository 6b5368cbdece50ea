-- ===== src/EventBus/Overflows.antt =====
-- What a burst of events leaves in a queue of the event bus that nobody consumes from.
use mathlib.Core.List.{append-nil, append_assoc}
use tag_pulse.Prelude.{
  ℕ, zero, suc, ◌+◌, ◌-◌, ◌≤◌, ◌<◌, List, [], ◌∷◌, ◌++◌, leb, length, take, drop, length-append,
  Result, ok, ◌>>=◌, Eq, ==_refl, ◌≡◌, refl, sym, ap, ◌∙◌, subst, arith, inl, inr, Bool-cases, ◌⊎◌,
  leb→le,
}
use tag_pulse.Dict.Laws.{lookup-insert}
use tag_pulse.EventBus.{
  EventBus, BusError, Overflow, drop_oldest, drop_newest, is_full, without_oldest, queue_of,
  drops_of, publish_full, publish_on, put_nowait, count_drop,
}

module _ {A : Type 0} where
  -- What the overflow mode leaves of a line of events.
  unfoldable pub survivors : Overflow → ℕ → List A → List A
  survivors drop_oldest capacity line = drop (length line - capacity) line
  survivors _ capacity line = take capacity line

  drop_same : {m n : ℕ} {xs ys : List A} → m ≡ n → xs ≡ ys → drop m xs ≡ drop n ys
  drop_same p q = cc

  take-all : (xs : List A) {n : ℕ} → length xs ≤ n → take n (xs ++ []) ≡ xs
  take-all [] {n = zero} long = refl
  take-all [] {n = suc n} long = refl
  take-all (x ∷ xs) {n = zero} long = ground arith
  take-all (x ∷ xs) {n = suc n} long = ap (◌∷◌ x) (take-all xs (omega arith))

  take-exactly : (xs ys zs : List A) {n : ℕ} → length xs ≡ n → take n (xs ++ ys) ≡ take n (xs ++ zs)
  take-exactly [] ys zs {n = zero} long = refl
  take-exactly [] ys zs {n = suc n} long = ground arith
  take-exactly (x ∷ xs) ys zs {n = zero} long = ground arith
  take-exactly (x ∷ xs) ys zs {n = suc n} long = ap (◌∷◌ x) (take-exactly xs ys zs (omega arith))

  drop_front :
      (x : A) {m n : ℕ} {xs ys : List A} → suc m ≡ n → xs ≡ ys → drop m xs ≡ drop n (x ∷ ys)
  drop_front x p q = rw (sym p) (ap (drop _) q)

module _ {T E H : Type 0} ⦃e : Eq T⦄ (topic : T) where
  -- Each event published in turn, up to the first exception.
  unfoldable pub publish_all : List E → EventBus T E H → Result BusError (EventBus T E H)
  publish_all [] bus = ok bus
  publish_all (event ∷ events) bus = publish_on topic event bus >>= publish_all events

  queue_of-put_nowait :
      (queue : List E) (event : E) (bus : EventBus T E H)
      → queue_of topic (put_nowait topic queue event bus) ≡ queue ++ event ∷ []
  queue_of-put_nowait queue event bus =
      ground (arith, lookup-insert topic topic (queue ++ event ∷ []) bus.queues, ==_refl topic)

  drops_of-count_drop :
      (bus : EventBus T E H) → drops_of topic (count_drop topic bus) ≡ drops_of topic bus + 1
  drops_of-count_drop bus =
      ground
        (arith, lookup-insert topic topic (drops_of topic bus + 1) bus.drop_count, ==_refl topic)

  publish_on_full :
      (event : E) (bus : EventBus T E H)
      → 1 ≤ bus.capacity
      → bus.capacity ≤ length (queue_of topic bus)
      → publish_on topic event bus ≡ publish_full bus.overflow topic event bus
  unfolding publish_on is_full
  publish_on_full event bus positive full = ground arith

  publish_on_room :
      (event : E) (bus : EventBus T E H)
      → length (queue_of topic bus) < bus.capacity
      → publish_on topic event bus ≡ ok (put_nowait topic (queue_of topic bus) event bus)
  unfolding publish_on is_full
  publish_on_room event bus room = ground arith

  -- What a burst leaves: the line and the number of drops.
  Leaves : EventBus T E H → List E → List E → ℕ → Type 0
  Leaves bus events line dropped =
      (next : EventBus T E H) × (publish_all events bus ≡ ok next)
      × (queue_of topic next ≡ line)
      × (drops_of topic next ≡ drops_of topic bus + dropped)

  run_later :
      (event : E) (events : List E) (bus next : EventBus T E H) (line other_line : List E)
      (before after dropped : ℕ)
      → publish_on topic event bus ≡ ok next
      → drops_of topic next ≡ drops_of topic bus + before
      → Leaves next events line after
      → line ≡ other_line
      → before + after ≡ dropped
      → Leaves bus (event ∷ events) other_line dropped
  unfolding publish_all Leaves
  run_later event events bus next line other_line before after dropped ran dropped_one
        (last, all, queue, drops) same sum =
      (last, rw ran all, queue ∙ same, omega (arith, drops, dropped_one, sum))

  run_oldest :
      (events q : List E) (bus : EventBus T E H)
      → bus.overflow ≡ drop_oldest
      → queue_of topic bus ≡ q
      → 1 ≤ bus.capacity
      → length q ≤ bus.capacity
      → Leaves bus events
          (drop (length q + length events - bus.capacity) (q ++ events))
          (length q + length events - bus.capacity)
  unfolding publish_full without_oldest publish_all Leaves
  run_oldest [] q bus mode holds positive bounded =
      (bus, refl, holds ∙ rw (none_over) (sym (append-nil q)), omega arith)
    where
      none_over : length q + 0 - bus.capacity ≡ 0
      none_over = omega arith
  run_oldest (event ∷ events) [] bus mode holds positive bounded =
      run_later event events bus (put_nowait topic (queue_of topic bus) event bus) _ _ 0 _ _
        (publish_on_room event bus (rw holds positive)) (omega arith)
        (run_oldest events ([] ++ event ∷ []) (put_nowait topic (queue_of topic bus) event bus) mode
          (queue_of-put_nowait (queue_of topic bus) event bus
            ∙ ap (λ line. line ++ event ∷ []) holds)
          positive (ground (arith, length-append ([]) (event ∷ []))))
        (drop_same (omega (arith, length-append ([]) (event ∷ [])))
          (append_assoc ([]) (event ∷ []) events))
        (omega (arith, length-append ([]) (event ∷ [])))
  run_oldest (event ∷ events) (x ∷ rest) bus mode holds positive bounded =
      elim (Bool-cases (leb bus.capacity (length (x ∷ rest)))) [
        | inl full ↦
            run_later event events bus (put_nowait topic rest event (count_drop topic bus)) _ _ 1 _
              _
              (publish_on_full event bus positive
                  (subst (λ line. bus.capacity ≤ length line) (sym holds) (leb→le _ _ full))
                ∙ rw mode (rw holds refl))
              (drops_of-count_drop bus)
              (run_oldest events (rest ++ event ∷ [])
                (put_nowait topic rest event (count_drop topic bus)) mode
                (queue_of-put_nowait rest event (count_drop topic bus)) positive
                (omega (arith, length-append rest (event ∷ []))))
              (drop_front x (omega (arith, leb→le _ _ full, length-append rest (event ∷ [])))
                (append_assoc rest (event ∷ []) events))
              (omega (arith, leb→le _ _ full, length-append rest (event ∷ [])))
        | inr room ↦
            run_later event events bus (put_nowait topic (queue_of topic bus) event bus) _ _ 0 _ _
              (publish_on_room event bus (rw holds (ground arith))) (omega arith)
              (run_oldest events ((x ∷ rest) ++ event ∷ [])
                (put_nowait topic (queue_of topic bus) event bus) mode
                (queue_of-put_nowait (queue_of topic bus) event bus
                  ∙ ap (λ line. line ++ event ∷ []) holds)
                positive (ground (arith, length-append ((x ∷ rest)) (event ∷ []))))
              (drop_same (omega (arith, length-append ((x ∷ rest)) (event ∷ [])))
                (append_assoc ((x ∷ rest)) (event ∷ []) events))
              (omega (arith, length-append ((x ∷ rest)) (event ∷ [])))
      ]

  run_newest :
      (events q : List E) (bus : EventBus T E H)
      → bus.overflow ≡ drop_newest
      → queue_of topic bus ≡ q
      → 1 ≤ bus.capacity
      → length q ≤ bus.capacity
      → Leaves bus events
          (take bus.capacity (q ++ events))
          (length q + length events - bus.capacity)
  unfolding publish_full publish_all Leaves
  run_newest [] q bus mode holds positive bounded =
      (bus, refl, holds ∙ sym (take-all q bounded), omega arith)
  run_newest (event ∷ events) q bus mode holds positive bounded =
      elim (Bool-cases (leb bus.capacity (length q))) [
        | inl full ↦
            run_later event events bus (count_drop topic bus) _ _ 1 _ _
              (publish_on_full event bus positive
                  (subst (λ line. bus.capacity ≤ length line) (sym holds) (leb→le _ _ full))
                ∙ rw mode refl)
              (drops_of-count_drop bus)
              (run_newest events q (count_drop topic bus) mode holds positive bounded)
              (take-exactly q events (event ∷ events) (omega (arith, leb→le _ _ full)))
              (omega (arith, leb→le _ _ full))
        | inr room ↦
            run_later event events bus (put_nowait topic (queue_of topic bus) event bus) _ _ 0 _ _
              (publish_on_room event bus (rw holds (ground arith))) (omega arith)
              (run_newest events (q ++ event ∷ []) (put_nowait topic (queue_of topic bus) event bus)
                mode
                (queue_of-put_nowait (queue_of topic bus) event bus
                  ∙ ap (λ line. line ++ event ∷ []) holds)
                positive (ground (arith, length-append q (event ∷ []))))
              (ap (take bus.capacity) (append_assoc q (event ∷ []) events))
              (omega (arith, length-append q (event ∷ [])))
      ]

  -- A burst of events on one topic, where the queue has a bound and nothing is consumed: with
  -- drop_oldest or drop_newest no publish raises, the queue is left with the last or with the first
  -- events that it holds, and every other one is counted as dropped.
  pub publish_all_lem :
      (events : List E) (bus : EventBus T E H)
      → (bus.overflow ≡ drop_oldest) ⊎ (bus.overflow ≡ drop_newest)
      → 1 ≤ bus.capacity
      → length (queue_of topic bus) ≤ bus.capacity
      → (next : EventBus T E H) × (publish_all events bus ≡ ok next)
        × (queue_of topic next ≡ survivors bus.overflow bus.capacity (queue_of topic bus ++ events))
        × (drops_of topic next
            ≡ drops_of topic bus + (length (queue_of topic bus) + length events - bus.capacity))
  unfolding Leaves survivors
  publish_all_lem events bus (inl mode) positive bounded =
      let (next, ran, queue, drops) =
        run_oldest events (queue_of topic bus) bus mode refl positive bounded in
      (next, ran, queue ∙ rw mode (rw (length-append (queue_of topic bus) events) refl), drops)
  publish_all_lem events bus (inr mode) positive bounded =
      let (next, ran, queue, drops) =
        run_newest events (queue_of topic bus) bus mode refl positive bounded in
      (next, ran, queue ∙ rw mode refl, drops)
