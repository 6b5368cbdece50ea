-- ===== src/RateLimit/Grants.antt =====
-- How many requests the limiter lets through.
use tag_pulse.Prelude.{
  ℕ, ◌+◌, ◌-◌, ◌*◌, ◌≤◌, ℤ, ◌≡◌, refl, sym, ap, ◌∙◌, subst, Option, none, some, List, [], ◌∷◌, ◌==◌,
  ==_iff, ==_refl, nat_eq, pair_eq, if◌then◌else◌, arith, inl, inr, Bool-cases,
}
use tag_pulse.Dict.{Dict, lookup, Distinct}
use tag_pulse.Dict.Laws.{lookup-erase}
use tag_pulse.RateLimit.{
  RouteClass, route_eq, Bucket, token_parts, Limits, RateLimiter, resolve_limit, check,
  found_bucket, invalidate,
}
use tag_pulse.RateLimit.Tokens.{
  count, IsCapped, Metered, Metered-spent, Metered-later, Metered-bound, found_bucket-IsCapped,
  consume_bucket-IsCapped,
}
use tag_pulse.RateLimit.Resolved.{
  effective, spent, IsFetched, resolve_limit-effective, check-spent, check-elsewhere,
  check-IsFetched, check-Distinct,
}

-- A request: tenant and class, the instant at which the limit is looked up, the bucket's instant.
abbrev pub Request : Type 0
Request = (ℕ × RouteClass) × ℕ × ℕ

-- The buckets' clock does not run backwards, from one instant to another.
abbrev pub InOrder : ℕ → ℕ → List Request → Type 0
InOrder now last [] = now ≤ last
InOrder now last ((key, asked, at) ∷ requests) = (now ≤ at) × InOrder at last requests

-- What came before: requests under whatever settings and stored overrides held then.
pub record Past : Type 0 where
  pub settings : Limits
  pub fetch : ℕ → Option (Dict RouteClass (Option ℤ))
  pub key : ℕ × RouteClass
  pub asked : ℕ
  pub at : ℕ

abbrev pub PastInOrder : ℕ → ℕ → List Past → Type 0
PastInOrder now last [] = now ≤ last
PastInOrder now last (past ∷ history) = (now ≤ past.at) × PastInOrder past.at last history

unfoldable pub run_history : List Past → RateLimiter → RateLimiter
run_history [] r = r
run_history (past ∷ history) r =
    run_history history
      (check past.settings past.fetch past.key.0 past.key.1 past.asked past.at r).1

-- Every bucket is dated no later than now and holds no more than its capacity, and a tenant has one
-- entry of cached overrides.
record AreCapped (now : ℕ) (r : RateLimiter) : Type 0 where
  each : (key : ℕ × RouteClass) (b : Bucket) → lookup key r.buckets ≡ some b → IsCapped now b
  single : Distinct r.overrides

check-AreCapped :
    (past : Past) (now : ℕ) (r : RateLimiter)
    → AreCapped now r
    → now ≤ past.at
    → AreCapped past.at
        (check past.settings past.fetch past.key.0 past.key.1 past.asked past.at r).1
check-AreCapped past now r capped later = record {
  each = λ key b held. elim (Bool-cases (past.key == key)) [
    | inl same ↦
        let known = check-spent past.settings past.fetch past.key past.asked past.at r in
        let limit = (resolve_limit past.settings past.fetch past.key.0 past.key.1 past.asked r).0 in
        let found = found_bucket limit past.at (lookup past.key r.buckets) in
        let after : (spent past.settings past.fetch limit past.at (lookup past.key r.buckets)).1
            ≡ b =
          ground (arith, known.1, held, (==_iff past.key key).0 same) in
        subst (IsCapped past.at) after (
          consume_bucket-IsCapped past.at limit found (
            found_bucket-IsCapped limit past.at (lookup past.key r.buckets)
              (λ o e. let old = capped.each past.key o e in (omega (arith, old.0), old.1))))
    | inr other ↦
        let old = capped.each key b (
          sym (check-elsewhere past.settings past.fetch key past.key past.asked past.at r other)
          ∙ held) in
        (omega (arith, old.0), old.1)
  ];
  single = check-Distinct past.settings past.fetch past.key past.asked past.at r capped.single;
}

run_history-AreCapped :
    (history : List Past) (now last : ℕ) (r : RateLimiter)
    → AreCapped now r
    → PastInOrder now last history
    → AreCapped last (run_history history r)
unfolding run_history
run_history-AreCapped [] now last r capped o = record {
  each = λ key b held. let old = capped.each key b held in (omega (arith, old.0), old.1);
  single = capped.single;
}
run_history-AreCapped (past ∷ history) now last r capped o =
    run_history-AreCapped history past.at last _ (check-AreCapped past now r capped o.0) o.1

known_at_start :
    (limit start : ℕ) (o : Option Bucket)
    → ((b : Bucket) → o ≡ some b → IsCapped start b)
    → Metered limit start start 0 o
known_at_start limit start none h = (omega arith, refl)
known_at_start limit start (some b) h = (omega arith, h b refl, inl refl)

module _ (settings : Limits) (fetch : ℕ → Option (Dict RouteClass (Option ℤ))) where
  -- How many of the requests of one tenant and class pass.
  unfoldable pub grants : ℕ × RouteClass → List Request → RateLimiter → ℕ
  grants key [] r = 0
  grants key ((of, asked, at) ∷ requests) r =
      let done = check settings fetch of.0 of.1 asked at r in
      let rest = grants key requests done.1 in if of == key then count done.0.0 + rest else rest

  check_same :
      (key of : ℕ × RouteClass) (asked at : ℕ) (r : RateLimiter)
      → IsFetched settings fetch key.0 r
      → of ≡ key
      → ((check settings fetch of.0 of.1 asked at r).0.0
          ≡ (spent settings fetch (effective settings fetch key) at (lookup key r.buckets)).0)
        × (lookup key (check settings fetch of.0 of.1 asked at r).1.buckets
            ≡ some
                (spent settings fetch (effective settings fetch key) at (lookup key r.buckets)).1)
  check_same key of asked at r c e =
      subst
        (λ k.
          ((check settings fetch k.0 k.1 asked at r).0.0
            ≡ (spent settings fetch (effective settings fetch key) at (lookup key r.buckets)).0)
          × (lookup key (check settings fetch k.0 k.1 asked at r).1.buckets
              ≡ some
                  (spent settings fetch (effective settings fetch key) at
                    (lookup key r.buckets)).1))
        (sym e)
        (let known = check-spent settings fetch key asked at r in
          let limit = resolve_limit-effective settings fetch key.0 key.1 asked r c in
          (
            known.0 ∙ ap (λ n. (spent settings fetch n at (lookup key r.buckets)).0) limit,
            known.1 ∙ ap (λ n. some (spent settings fetch n at (lookup key r.buckets)).1) limit,
          ))

  grants_from :
      (key : ℕ × RouteClass) (requests : List Request) (start now last granted : ℕ)
      (r : RateLimiter)
      → IsFetched settings fetch key.0 r
      → Metered (effective settings fetch key) start now granted (lookup key r.buckets)
      → InOrder now last requests
      → (grants key requests r + granted) * token_parts
        ≤ effective settings fetch key * token_parts + (last - start) * effective settings fetch key
  unfolding grants
  grants_from key [] start now last granted r c m o = ground (
    arith,
    Metered-bound (effective settings fetch key) start now last granted (lookup key r.buckets) m o,
  )
  grants_from key ((of, asked, at) ∷ requests) start now last granted r c m o =
      let limit = effective settings fetch key in
      let next = (check settings fetch of.0 of.1 asked at r).1 in
      let fetched = check-IsFetched settings fetch key.0 of asked at r c in
      elim (Bool-cases (of == key)) [
        | inl same ↦
            let known = check_same key of asked at r c ((==_iff of key).0 same) in
            let after = Metered-spent limit start now at granted (lookup key r.buckets) m o.0 in
            let ih =
              grants_from key requests start at last
                (count (spent settings fetch limit at (lookup key r.buckets)).0 + granted) next
                fetched (subst (Metered limit start at _) (sym known.1) after) o.1 in
            ground (arith, ih, known.0, same)
        | inr other ↦
            let ih =
              grants_from key requests start at last granted next fetched
                (subst (Metered limit start at granted)
                  (sym (check-elsewhere settings fetch key of asked at r other))
                  (Metered-later limit start now at granted (lookup key r.buckets) m o.0))
                o.1 in
            ground (arith, ih, other)
      ]

  -- Whatever requests came before on a limiter that was new, under whatever settings and stored
  -- overrides, and however the requests of the tenants are then interleaved: from the moment that the
  -- tenant's cached overrides are dropped, as long as the buckets' clock does not run backwards and the
  -- stored overrides stay the same, the requests of one tenant and class that pass between an instant
  -- and another are, in tokens, at most a full bucket and what flows in between the two, at the stored
  -- limit per minute if that is a whole number above 0, or else at the limit of the settings.
  pub grants_bound :
      (key : ℕ × RouteClass) (history : List Past) (requests : List Request) (begin start last : ℕ)
      → PastInOrder begin start history
      → InOrder start last requests
      → grants key requests
            (invalidate key.0 (run_history history (record { buckets = []; overrides = [] })))
          * token_parts
        ≤ effective settings fetch key * token_parts + (last - start) * effective settings fetch key
  unfolding lookup invalidate
  grants_bound key history requests begin start last before o =
      let new : RateLimiter = record { buckets = []; overrides = [] } in
      let r = run_history history new in
      let capped =
        run_history-AreCapped history begin start new
          (record { each = λ k b held. ground arith; single = tt }) before in
      omega (
        arith,
        grants_from key requests start start last 0 (invalidate key.0 r)
            (record {
              cached = λ entry found.
                  ground (arith, lookup-erase key.0 key.0 r.overrides capped.single, ==_refl key.0);
            })
            (known_at_start (effective settings fetch key) start (lookup key r.buckets)
              (capped.each key))
            o,
      )
