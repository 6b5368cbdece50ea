-- ===== src/EventBus/Accounting.antt =====
-- Every run of the event bus, seen at one topic: the order of what is consumed, and the sum of what
-- is consumed, queued and dropped.
use mathlib.Core.List.{append_assoc}
use tag_pulse.Prelude.{
  ◌+◌, ◌≤◌, Bool, Option, List, [], ◌∷◌, ◌++◌, length, take, drop, take-append-drop, length-drop,
  length-append, if◌then◌else◌, ok, Eq, ◌==◌, ==_iff, ◌≡◌, refl, sym, ap, ◌∙◌, subst, arith, inl,
  inr, Bool-cases, ◌⊎◌,
}
use tag_pulse.Wire.Epc.{Text}
use tag_pulse.Dict.{lookup}
use tag_pulse.EventBus.{
  EventBus, Journal, is_full, queue_of, drops_of, publish_on, consume_next, or_default,
}
use tag_pulse.EventBus.Sublists.{
  Sublist, done, Sublist_snoc, Sublist_later, Sublist_trans, Sublist_middle,
}
use tag_pulse.EventBus.Changes.{
  Change, appended, displaced, refused, Unchanged, publish_elsewhere, publish_here,
  publish_capacity, consume_queue, consume_rest,
}

module _ {T E H : Type 0} ⦃e : Eq T⦄ (raised : H → E → Option Text) (stored : H → E → Bool)
    (topic : T) where
  -- The states that a bus reaches, with what was published on the topic, where a publish that
  -- raises counts as none, and what was consumed from it.
  pub data Runs (start : EventBus T E H) : List E → List E → EventBus T E H → Type 0 where
    begun : Runs start [] [] start
    published :
        (at : T) (event : E) (bus next : EventBus T E H) (sent taken : List E)
        → Runs start sent taken bus
        → publish_on at event bus ≡ ok next
        → Runs start (if at == topic then sent ++ event ∷ [] else sent) taken next
    consumed :
        (at : T) (bus : EventBus T E H) (journal : Journal T E H) (sent taken : List E)
        → Runs start sent taken bus
        → Runs start sent
            (if at == topic then taken ++ take 1 (queue_of topic bus) else taken)
            (consume_next raised stored at bus journal).0

  -- What is consumed and then queued was published in that order, the count is right, and the
  -- bound holds.
  pub record IsAccounted (sent taken : List E) (bus : EventBus T E H) : Type 0 where
    pub in_order : Sublist (taken ++ queue_of topic bus) sent
    pub counted : length taken + length (queue_of topic bus) + drops_of topic bus ≡ length sent
    pub bounded : (bus.capacity ≡ 0) ⊎ (length (queue_of topic bus) ≤ bus.capacity)

  changed-IsAccounted :
      (sent taken : List E) (event : E) (bus next : EventBus T E H)
      → next.capacity ≡ bus.capacity
      → Change topic event bus next
      → IsAccounted sent taken bus
      → IsAccounted (sent ++ event ∷ []) taken next
  unfolding is_full
  changed-IsAccounted sent taken event bus next same (appended room queue drops) a = record {
    in_order = rw queue (
        rw (sym (append_assoc taken (queue_of topic bus) (event ∷ [])))
          (Sublist_snoc event a.in_order));
    counted = omega (
      arith,
      a.counted,
      drops,
      length-append sent (event ∷ []),
      ap length queue,
      length-append (queue_of topic bus) (event ∷ []),
    );
    bounded =
        ground (arith, a.bounded, ap length queue, length-append (queue_of topic bus) (event ∷ []));
  }
  changed-IsAccounted sent taken event bus next same (displaced oldest rest line queue drops) a =
      record {
        in_order = rw queue (
            rw (sym (append_assoc taken rest (event ∷ []))) (
              Sublist_snoc event (
                Sublist_trans (subst (λ q. Sublist (taken ++ q) sent) line a.in_order)
                  (Sublist_middle taken oldest rest))));
        counted = omega (
          arith,
          a.counted,
          drops,
          length-append sent (event ∷ []),
          ap length queue,
          ap length line,
          length-append rest (event ∷ []),
        );
        bounded =
            ground
              (arith, a.bounded, ap length queue, ap length line, length-append rest (event ∷ []));
      }
  changed-IsAccounted sent taken event bus next same (refused queue drops) a = record {
    in_order = rw queue (Sublist_later event a.in_order);
    counted = omega (arith, a.counted, drops, length-append sent (event ∷ []), ap length queue);
    bounded = ground (arith, a.bounded, ap length queue);
  }

  Unchanged-IsAccounted :
      (sent taken : List E) (bus next : EventBus T E H)
      → next.capacity ≡ bus.capacity
      → Unchanged topic bus next
      → IsAccounted sent taken bus
      → IsAccounted sent taken next
  Unchanged-IsAccounted sent taken bus next same (queue, drops) a = record {
    in_order = rw queue a.in_order;
    counted = rw queue (rw drops a.counted);
    bounded = rw queue (rw same a.bounded);
  }

  publish-IsAccounted :
      (at : T) (event : E) (bus next : EventBus T E H) (sent taken : List E)
      → publish_on at event bus ≡ ok next
      → IsAccounted sent taken bus
      → IsAccounted (if at == topic then sent ++ event ∷ [] else sent) taken next
  publish-IsAccounted at event bus next sent taken returned a =
      let same = publish_capacity topic at event bus next returned in
      elim (Bool-cases (at == topic)) [
        | inl here ↦ rw here (
            changed-IsAccounted sent taken event bus next same
              (publish_here topic event bus next
                (subst (λ t. publish_on t event bus ≡ ok next) ((==_iff at topic).0 here) returned))
              a)
        | inr apart ↦ rw apart (
            Unchanged-IsAccounted sent taken bus next same
              (publish_elsewhere topic at event bus next apart returned) a)
      ]

  taken_one :
      (sent taken : List E) (bus next : EventBus T E H)
      → queue_of topic next ≡ drop 1 (queue_of topic bus)
      → (next.capacity ≡ bus.capacity) × (drops_of topic next ≡ drops_of topic bus)
      → IsAccounted sent taken bus
      → IsAccounted sent (taken ++ take 1 (queue_of topic bus)) next
  taken_one sent taken bus next queue (same, drops) a =
      let whole = take-append-drop 1 (queue_of topic bus) in
      record {
        in_order = rw queue (
            rw (append_assoc taken (take 1 (queue_of topic bus)) (drop 1 (queue_of topic bus)))
              (rw whole a.in_order));
        counted = omega (
          arith,
          a.counted,
          drops,
          ap length queue,
          ap length whole,
          length-append taken (take 1 (queue_of topic bus)),
          length-append (take 1 (queue_of topic bus)) (drop 1 (queue_of topic bus)),
        );
        bounded = ground (arith, a.bounded, ap length queue, length-drop 1 (queue_of topic bus));
      }

  consume-IsAccounted :
      (at : T) (bus : EventBus T E H) (journal : Journal T E H) (sent taken : List E)
      → IsAccounted sent taken bus
      → IsAccounted sent
          (if at == topic then taken ++ take 1 (queue_of topic bus) else taken)
          (consume_next raised stored at bus journal).0
  consume-IsAccounted at bus journal sent taken a =
      let next = (consume_next raised stored at bus journal).0 in
      let (same, drops) = consume_rest raised stored topic at bus journal in
      elim (Bool-cases (at == topic)) [
        | inl here ↦ rw here (
            taken_one sent taken bus next
              (consume_queue raised stored topic at bus journal ∙ rw here refl) (same, drops) a)
        | inr apart ↦ rw apart (
            Unchanged-IsAccounted sent taken bus next same
              (consume_queue raised stored topic at bus journal ∙ rw apart refl, drops) a)
      ]

  -- Whatever is published and consumed on a new bus, in any order and on any topics: what is
  -- consumed from a topic and then queued is what was published on it without some events, in
  -- order; as many are left out as are counted as dropped; and a bounded queue stays in its bound.
  pub Runs-IsAccounted :
      (start : EventBus T E H)
      → start.queues ≡ []
      → start.drop_count ≡ []
      → (sent taken : List E) (bus : EventBus T E H) → Runs start sent taken bus
      → IsAccounted sent taken bus
  unfolding lookup
  Runs-IsAccounted start q d sent taken bus begun = record {
    in_order = subst (λ queues. Sublist (or_default [] (lookup topic queues)) []) (sym q) done;
    counted = rw (q, d) refl;
    bounded = inr (rw q (omega arith));
  }
  Runs-IsAccounted start q d sent taken bus (published at event before next s t runs returned) =
      publish-IsAccounted at event before bus s t returned
        (Runs-IsAccounted start q d s t before runs)
  Runs-IsAccounted start q d sent taken bus (consumed at before journal s t runs) =
      consume-IsAccounted at before journal s t (Runs-IsAccounted start q d s t before runs)
