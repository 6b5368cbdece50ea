-- ===== src/RateLimit/Resolved.antt =====
-- What a check of the limiter resolves and which bucket it changes.
use tag_pulse.Prelude.{
  ℕ, ℤ, pos, negsuc, ◌≡◌, refl, ap, ◌∙◌, Bool, false, Option, none, some, ◌++◌, ◌==◌, ==_iff,
  ==_refl, nat_eq, pair_eq, if◌then◌else◌, arith, inl, inr, Option-cases,
}
use tag_pulse.Dict.{Dict, lookup, Distinct}
use tag_pulse.Dict.Laws.{lookup-insert, insert-Distinct}
use tag_pulse.RateLimit.{
  RouteClass, ingest, read, write, admin, route_eq, Bucket, consume_bucket, found_bucket, Limits,
  global_limit, Overrides, override_map, positive_int, or_default, RateLimiter, resolve_limit,
  check,
}

-- The stored value, if it is a whole number above 0, or else the limit of the settings.
abbrev pub stored_or : ℕ → Option (Option (Option ℤ)) → ℕ
stored_or limit (some (some (some (pos n)))) = if nat_eq.beq n 0 then limit else n
stored_or limit _ = limit

abbrev pub stored_of : RouteClass → Option (Dict RouteClass (Option ℤ)) → Option (Option (Option ℤ))
stored_of route_class none = none
stored_of route_class (some row) = some (lookup route_class row)

abbrev pub effective : Limits → (ℕ → Option (Dict RouteClass (Option ℤ))) → ℕ × RouteClass → ℕ
effective settings fetch key =
    stored_or (global_limit settings key.1) (stored_of key.1 (fetch key.0))

lookup-positive_int :
    (key route_class : RouteClass) (value : Option (Option ℤ)) (rest : Overrides) (limit : ℕ)
    → or_default limit (lookup key (positive_int route_class value ++ rest)) ≡ (
        if route_class == key
        then stored_or (or_default limit (lookup key rest)) (some value)
        else or_default limit (lookup key rest))
unfolding lookup
lookup-positive_int key route_class none rest limit = ground arith
lookup-positive_int key route_class (some none) rest limit = ground arith
lookup-positive_int key route_class (some (some (negsuc n))) rest limit = ground arith
lookup-positive_int key route_class (some (some (pos n))) rest limit = ground arith

lookup-last :
    (key route_class : RouteClass) (value : Option (Option ℤ)) (limit : ℕ)
    → or_default limit (lookup key (positive_int route_class value))
      ≡ (if route_class == key then stored_or limit (some value) else limit)
unfolding lookup
lookup-last key route_class none limit = ground arith
lookup-last key route_class (some none) limit = ground arith
lookup-last key route_class (some (some (negsuc n))) limit = ground arith
lookup-last key route_class (some (some (pos n))) limit = ground arith

-- The four tests in turn, of which one holds.
by_class :
    (limit : ℕ) (key : RouteClass) (row : Dict RouteClass (Option ℤ)) (second third fourth : ℕ)
    → second ≡ (if read == key then stored_or third (some (lookup read row)) else third)
    → third ≡ (if write == key then stored_or fourth (some (lookup write row)) else fourth)
    → fourth ≡ (if admin == key then stored_or limit (some (lookup admin row)) else limit)
    → (if ingest == key then stored_or second (some (lookup ingest row)) else second)
      ≡ stored_or limit (some (lookup key row))
by_class limit ingest row second third fourth p q r =
    ap (λ n. stored_or n (some (lookup ingest row))) (p ∙ q ∙ r)
by_class limit read row second third fourth p q r =
    p ∙ ap (λ n. stored_or n (some (lookup read row))) (q ∙ r)
by_class limit write row second third fourth p q r =
    p ∙ q ∙ ap (λ n. stored_or n (some (lookup write row))) r
by_class limit admin row second third fourth p q r = p ∙ q ∙ r

-- The overrides that are kept hold exactly the stored values that count.
or_default-override_map :
    (limit : ℕ) (route_class : RouteClass) (row : Option (Dict RouteClass (Option ℤ)))
    → or_default limit (lookup route_class (override_map row))
      ≡ stored_or limit (stored_of route_class row)
unfolding override_map lookup
or_default-override_map limit route_class none = refl
or_default-override_map limit route_class (some row) =
    let fourth = positive_int admin (lookup admin row) in
    let third = positive_int write (lookup write row) ++ fourth in
    let second = positive_int read (lookup read row) ++ third in
    lookup-positive_int route_class ingest (lookup ingest row) second limit
    ∙ by_class limit route_class row _ _ _
        (lookup-positive_int route_class read (lookup read row) third limit)
        (lookup-positive_int route_class write (lookup write row) fourth limit)
        (lookup-last route_class admin (lookup admin row) limit)

module _ (settings : Limits) (fetch : ℕ → Option (Dict RouteClass (Option ℤ))) where
  pub resolve_limit-buckets :
      (tenant : ℕ) (route_class : RouteClass) (asked : ℕ) (r : RateLimiter)
      → (resolve_limit settings fetch tenant route_class asked r).1.buckets ≡ r.buckets
  unfolding resolve_limit
  resolve_limit-buckets tenant route_class asked r = ground arith

  -- What is cached of a tenant is what is fetched.
  pub record IsFetched (tenant : ℕ) (r : RateLimiter) : Type 0 where
    pub cached :
        (entry : ℕ × Overrides)
        → lookup tenant r.overrides ≡ some entry
        → entry.1 ≡ override_map (fetch tenant)

  pub resolve_limit-IsFetched :
      (of tenant : ℕ) (route_class : RouteClass) (asked : ℕ) (r : RateLimiter)
      → IsFetched of r
      → IsFetched of (resolve_limit settings fetch tenant route_class asked r).1
  unfolding resolve_limit
  resolve_limit-IsFetched of tenant route_class asked r c = record {
    cached = λ entry found. ground (
      arith,
      c.cached entry,
      lookup-insert of tenant (asked, override_map (fetch tenant)) r.overrides,
      ==_iff tenant of,
    );
  }

  pub resolve_limit-effective :
      (tenant : ℕ) (route_class : RouteClass) (asked : ℕ) (r : RateLimiter)
      → IsFetched tenant r
      → (resolve_limit settings fetch tenant route_class asked r).0
        ≡ effective settings fetch (tenant, route_class)
  unfolding resolve_limit
  resolve_limit-effective tenant route_class asked r c =
      kept ∙ or_default-override_map (global_limit settings route_class) route_class (fetch tenant)
    where
      kept :
          (resolve_limit settings fetch tenant route_class asked r).0
          ≡ or_default
              (global_limit settings route_class)
              (lookup route_class (override_map (fetch tenant)))
      kept = elim (Option-cases (lookup tenant r.overrides)) [
        | inl e ↦ ground arith
        | inr (entry, e) ↦ ground (arith, c.cached entry e)
      ]

  -- What a check makes of the bucket of its key, at a limit.
  abbrev pub spent : ℕ → ℕ → Option Bucket → Bool × Bucket
  spent limit at o = consume_bucket at limit (found_bucket limit at o)

  pub check-spent :
      (of : ℕ × RouteClass) (asked at : ℕ) (r : RateLimiter)
      → ((check settings fetch of.0 of.1 asked at r).0.0
          ≡ (spent (resolve_limit settings fetch of.0 of.1 asked r).0 at (lookup of r.buckets)).0)
        × (lookup of (check settings fetch of.0 of.1 asked at r).1.buckets
            ≡ some
                (spent
                  (resolve_limit settings fetch of.0 of.1 asked r).0
                  at
                  (lookup of r.buckets)).1)
  unfolding check
  check-spent of asked at r =
      let limit = (resolve_limit settings fetch of.0 of.1 asked r).0 in
      let resolved = (resolve_limit settings fetch of.0 of.1 asked r).1 in
      let same = resolve_limit-buckets of.0 of.1 asked r in
      (
        ap (λ buckets. (spent limit at (lookup of buckets)).0) same,
        ground (
          arith,
          lookup-insert of of (spent limit at (lookup of resolved.buckets)).1 resolved.buckets,
          ==_refl of,
        )
            ∙ ap (λ buckets. some (spent limit at (lookup of buckets)).1) same,
      )

  pub check-elsewhere :
      (key of : ℕ × RouteClass) (asked at : ℕ) (r : RateLimiter)
      → of == key ≡ false
      → lookup key (check settings fetch of.0 of.1 asked at r).1.buckets ≡ lookup key r.buckets
  unfolding check
  check-elsewhere key of asked at r apart =
      let limit = (resolve_limit settings fetch of.0 of.1 asked r).0 in
      let resolved = (resolve_limit settings fetch of.0 of.1 asked r).1 in
      lookup-insert key of (spent limit at (lookup of resolved.buckets)).1 resolved.buckets
      ∙ (rw apart (ap (lookup key) (resolve_limit-buckets of.0 of.1 asked r)))

  pub check-IsFetched :
      (tenant : ℕ) (of : ℕ × RouteClass) (asked at : ℕ) (r : RateLimiter)
      → IsFetched tenant r
      → IsFetched tenant (check settings fetch of.0 of.1 asked at r).1
  unfolding check
  check-IsFetched tenant of asked at r c = record {
    cached = (resolve_limit-IsFetched tenant of.0 of.1 asked r c).cached;
  }

  pub check-Distinct :
      (of : ℕ × RouteClass) (asked at : ℕ) (r : RateLimiter)
      → Distinct r.overrides
      → Distinct (check settings fetch of.0 of.1 asked at r).1.overrides
  unfolding check resolve_limit
  check-Distinct of asked at r d =
      ground (arith, insert-Distinct of.0 (asked, override_map (fetch of.0)) r.overrides d)
