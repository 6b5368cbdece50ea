-- ===== src/ImportLimit/Window.antt =====
-- The limiter decides as a count over everything that it ever accepted would.
use tag_pulse.Prelude.{
  ℕ, ◌≤◌, ltb, ℤ, pos, negsuc, leb_ℤ, ltb_ℤ, ◌≡◌, ◌∙◌, refl, subst, sym, Bool, true, false, List,
  [], ◌∷◌, ◌++◌, ◌==◌, ==_iff, nat_eq, length, if◌then◌else◌, arith, inl, inr, Bool-cases,
}
use tag_pulse.Dict.{lookup, insert}
use tag_pulse.Dict.Laws.{lookup-insert}
use tag_pulse.ImportLimit.{Events, prune, bucket_of, check_and_record, remaining}
use tag_pulse.ImportLimit.Recent.{
  recent, Ascending, Ascending-later, Ascending-append, prune-recent, prune-Ascending,
  recent-recent, recent-append, times, times-append, append-[],
}

-- A call: tenant, limit and instant.
abbrev pub Call : Type 0
Call = ℕ × ℤ × ℕ

-- Fewer than the limit are in the log of the tenant's trailing hour.
unfoldable pub allowed : List (ℕ × ℕ) → Call → Bool
allowed log (tenant, max_per_hour, ts) =
    ltb_ℤ (pos (length (recent ts (times tenant log)))) max_per_hour

-- The log after a call.
abbrev pub logged : List (ℕ × ℕ) → Call → List (ℕ × ℕ)
logged log (tenant, max_per_hour, ts) =
    if allowed log (tenant, max_per_hour, ts) then log ++ (tenant, ts) ∷ [] else log

-- The decisions by a log that is never pruned.
unfoldable pub reference : List Call → List (ℕ × ℕ) → List Bool
reference [] log = []
reference (call ∷ calls) log = allowed log call ∷ reference calls (logged log call)

-- The decisions of the limiter.
unfoldable pub decisions : List Call → Events → List Bool
decisions [] events = []
decisions ((tenant, max_per_hour, ts) ∷ calls) events =
    let done = check_and_record tenant max_per_hour ts events in done.0 ∷ decisions calls done.1

-- The clock does not run backwards.
abbrev pub InOrder : ℕ → List Call → Type 0
InOrder now [] = Unit
InOrder now ((tenant, max_per_hour, ts) ∷ calls) = (now ≤ ts) × InOrder ts calls

-- The buckets hold what still counts of the log.
record Counts (log : List (ℕ × ℕ)) (now : ℕ) (events : Events) : Type 0 where
  ordered : (tenant : ℕ) → Ascending 0 now (bucket_of (lookup tenant events))
  counted :
      (tenant later : ℕ)
      → now ≤ later
      → recent later (bucket_of (lookup tenant events)) ≡ recent later (times tenant log)

module _ (log : List (ℕ × ℕ)) (now : ℕ) (events : Events) (c : Counts log now events) (tenant : ℕ)
    (max_per_hour : ℤ) (ts : ℕ) (h : now ≤ ts) where
  abbrev pruned : List ℕ
  pruned = prune ts (bucket_of (lookup tenant events))

  pruned_lem : pruned ≡ recent ts (times tenant log)
  pruned_lem =
      prune-recent ts 0 now (bucket_of (lookup tenant events)) (c.ordered tenant)
      ∙ c.counted tenant ts h

  check-allowed :
      (check_and_record tenant max_per_hour ts events).0 ≡ allowed log (tenant, max_per_hour, ts)
  unfolding check_and_record allowed
  check-allowed = ground (arith, pruned_lem)

  unchanged-Counts : Counts log ts events
  unchanged-Counts = record {
    ordered =
        λ other. Ascending-later 0 now ts (bucket_of (lookup other events)) h (c.ordered other);
    counted = λ other later g. c.counted other later (omega arith);
  }

  pruned-Ascending : Ascending 0 ts pruned
  pruned-Ascending =
      Ascending-later 0 now ts pruned h
        (prune-Ascending ts 0 now (bucket_of (lookup tenant events)) (c.ordered tenant))

  -- A bucket is replaced, and the log grows by what the tenant is allowed.
  replaced-Counts :
      (bucket : List ℕ) (more : List (ℕ × ℕ))
      → Ascending 0 ts bucket
      → ((later : ℕ) → ts ≤ later → recent later bucket ≡ recent later (times tenant (log ++ more)))
      → ((other : ℕ) → tenant == other ≡ false → times other more ≡ [])
      → Counts (log ++ more) ts (insert tenant bucket events)
  replaced-Counts bucket more a same others = record {
    ordered = λ other. elim (Bool-cases (tenant == other)) [
      | inl mine ↦ rw (lookup-insert other tenant bucket events, mine) a
      | inr theirs ↦
          rw (lookup-insert other tenant bucket events, theirs) (unchanged-Counts.ordered other)
    ];
    counted = λ other later g. elim (Bool-cases (tenant == other)) [
      | inl mine ↦
          rw (lookup-insert other tenant bucket events, mine)
            (subst (λ t. recent later bucket ≡ recent later (times t (log ++ more)))
              ((==_iff tenant other).0 mine) (same later g))
      | inr theirs ↦
          rw (lookup-insert other tenant bucket events, theirs)
            (ground (
              arith,
              unchanged-Counts.counted other later g,
              times-append other log more,
              others other,
              recent-append later (times other log) (times other more),
              append-[] (recent later (times other log)),
            ))
    ];
  }

  kept-Counts : Counts (log ++ []) ts (insert tenant pruned events)
  kept-Counts =
      replaced-Counts pruned [] pruned-Ascending
        (λ later g. rw (pruned_lem, append-[] log) (recent-recent ts later (times tenant log) g))
        (λ other o. refl)

  added-Counts : Counts (log ++ (tenant, ts) ∷ []) ts (insert tenant (pruned ++ ts ∷ []) events)
  added-Counts =
      replaced-Counts (pruned ++ ts ∷ []) ((tenant, ts) ∷ [])
        (Ascending-append 0 ts ts pruned pruned-Ascending (omega arith))
        (λ later g. ground (
          arith,
          pruned_lem,
          recent-append later pruned (ts ∷ []),
          recent-recent ts later (times tenant log) g,
          times-append tenant log ((tenant, ts) ∷ []),
          recent-append later (times tenant log) (ts ∷ []),
          ==_iff tenant tenant,
        ))
        (λ other o. ground arith)

  -- From the two logs' equation to the outcome of the call.
  Counts-at :
      (log' more : List (ℕ × ℕ)) (events' after : Events)
      → log' ≡ log ++ more
      → events' ≡ after
      → Counts (log ++ more) ts after
      → Counts log' ts events'
  Counts-at log' more events' after e f d =
      subst (λ l. Counts l ts events') (sym e) (subst (Counts (log ++ more) ts) (sym f) d)

  check-events :
      (allowed log (tenant, max_per_hour, ts) ≡ true
        → (check_and_record tenant max_per_hour ts events).1
          ≡ insert tenant (pruned ++ ts ∷ []) events)
      × (leb_ℤ max_per_hour (pos 0) ≡ true
          → (check_and_record tenant max_per_hour ts events).1 ≡ events)
      × (allowed log (tenant, max_per_hour, ts) ≡ false
          → leb_ℤ max_per_hour (pos 0) ≡ false
          → (check_and_record tenant max_per_hour ts events).1 ≡ insert tenant pruned events)
  unfolding check_and_record allowed
  check-events = (
    λ within. ground (arith, pruned_lem, within),
    λ off. ground (arith, off),
    λ over on. ground (arith, pruned_lem, over, on),
  )

  check-Counts :
      Counts
        (logged log (tenant, max_per_hour, ts))
        ts
        (check_and_record tenant max_per_hour ts events).1
  check-Counts = elim (Bool-cases (allowed log (tenant, max_per_hour, ts))) [
    | inl within ↦
        Counts-at _ ((tenant, ts) ∷ []) _ (insert tenant (pruned ++ ts ∷ []) events)
          (ground (arith, within)) (ground (arith, check-events.0 within)) added-Counts
    | inr over ↦ elim (Bool-cases (leb_ℤ max_per_hour (pos 0))) [
      | inl off ↦
          Counts-at _ [] _ events (ground (arith, over, append-[] log))
            (ground (arith, check-events.1 off))
            (subst (λ l. Counts l ts events) (sym (append-[] log)) unchanged-Counts)
      | inr on ↦
          Counts-at _ [] _ (insert tenant pruned events) (ground (arith, over, append-[] log))
            (ground (arith, check-events.2 over on)) kept-Counts
    ]
  ]

decisions-reference :
    (calls : List Call) (log : List (ℕ × ℕ)) (now : ℕ) (events : Events)
    → Counts log now events
    → InOrder now calls
    → decisions calls events ≡ reference calls log
unfolding decisions reference
decisions-reference [] log now events c o = refl
decisions-reference ((tenant, max_per_hour, ts) ∷ calls) log now events c o = ground (
  arith,
  check-allowed log now events c tenant max_per_hour ts o.0,
  decisions-reference calls (logged log (tenant, max_per_hour, ts)) ts
      (check_and_record tenant max_per_hour ts events).1
      (check-Counts log now events c tenant max_per_hour ts o.0) o.1,
)

-- However the calls of the tenants are interleaved and whatever limits they come with, as long as
-- the clock does not run backwards, the limiter allows a call exactly if fewer than its limit of the
-- tenant's accepted calls lie in the trailing hour: the pruning forgets nothing that counts, and one
-- tenant's calls never weigh on another's.
pub decisions_lem : (calls : List Call) → InOrder 0 calls → decisions calls [] ≡ reference calls []
unfolding lookup
decisions_lem calls o =
    decisions-reference calls [] 0 []
      (record { ordered = λ tenant. omega arith; counted = λ tenant later g. refl }) o

-- What `remaining` reports is positive exactly if a call at the same instant is allowed.
pub check-remaining :
    (tenant : ℕ) (max_per_hour : ℤ) (ts : ℕ) (events : Events)
    → (check_and_record tenant max_per_hour ts events).0
      ≡ ltb 0 (remaining tenant max_per_hour ts events).0
unfolding check_and_record remaining prune
check-remaining tenant (pos limit) ts events = ground arith
check-remaining tenant (negsuc n) ts events = ground arith
