-- ===== src/Cache/Freshness.antt =====
-- Every run of the cache against an unbounded map without expiry.
use tag_pulse.Prelude.{
  ℕ, ◌+◌, ◌≤◌, ◌<◌, leb, ◌≡◌, refl, Option, none, some, List, [], ◌∷◌, Eq, ◌==◌, ==_iff, nat_eq,
  length, if◌then◌else◌, arith, inl, inr, ◌⊎◌, Option-cases,
}
use tag_pulse.Dict.{Dict, lookup, has_key, Distinct}
use tag_pulse.Dict.Laws.{
  lookup-insert, lookup-erase, insert-Distinct, erase-Distinct, length-insert, length-erase,
}
use tag_pulse.Cache.{TtlCache, get, set, drop_oldest, invalidate, clear, size}

-- The calls on a cache, each with the instant that it reads.
pub data Call (K V : Type 0) : Type 0 where
  getting : K → ℕ → Call K V
  setting : K → V → ℕ → Call K V
  invalidating : K → Call K V
  clearing : Call K V

-- No key stands twice, and there is room as configured.
pub record IsBounded {K V : Type 0} ⦃e : Eq K⦄ (c : TtlCache K V) : Type 0 where
  pub distinct : Distinct c.data_of
  pub bounded : size c ≤ c.maxsize
  pub positive : 1 ≤ c.maxsize

module _ {K V : Type 0} ⦃e : Eq K⦄ where
  unfoldable pub perform : Call K V → TtlCache K V → TtlCache K V
  perform (getting key now) c = (get key now c).1
  perform (setting key value now) c = set key value now c
  perform (invalidating key) c = invalidate key c
  perform clearing c = clear c

  unfoldable pub perform_all : List (Call K V) → TtlCache K V → TtlCache K V
  perform_all [] c = c
  perform_all (call ∷ calls) c = perform_all calls (perform call c)

  -- What was set last under a key and when, and not dropped since by the caller.
  unfoldable pub recorded : List (Call K V) → K → Option (V × ℕ) → Option (V × ℕ)
  recorded [] k before = before
  recorded (getting key now ∷ calls) k before = recorded calls k before
  recorded (setting key value now ∷ calls) k before =
      recorded calls k (if key == k then some (value, now) else before)
  recorded (invalidating key ∷ calls) k before =
      recorded calls k (if key == k then none else before)
  recorded (clearing ∷ calls) k before = recorded calls k none

  drop_oldest-Distinct : (d : Dict K (V × ℕ)) → Distinct d → Distinct (drop_oldest d)
  unfolding drop_oldest
  drop_oldest-Distinct [] h = h
  drop_oldest-Distinct ((k, v) ∷ d) h = erase-Distinct k ((k, v) ∷ d) h

  lookup-drop_oldest :
      (j : K) (d : Dict K (V × ℕ))
      → Distinct d
      → (lookup j (drop_oldest d) ≡ none) ⊎ (lookup j (drop_oldest d) ≡ lookup j d)
  unfolding drop_oldest lookup
  lookup-drop_oldest j [] h = inl refl
  lookup-drop_oldest j ((k, v) ∷ d) h = ground (arith, lookup-erase j k ((k, v) ∷ d) h)

  length-drop_oldest : (d : Dict K (V × ℕ)) → 1 ≤ length d → length (drop_oldest d) + 1 ≡ length d
  unfolding drop_oldest has_key
  length-drop_oldest [] h = ground arith
  length-drop_oldest ((k, v) ∷ d) h = ground (arith, length-erase k ((k, v) ∷ d), ==_iff k k)

  pub perform-IsBounded :
      (call : Call K V) (c : TtlCache K V) → IsBounded c → IsBounded (perform call c)
  unfolding perform get set invalidate clear
  perform-IsBounded (getting key now) c b = record {
    distinct = ground (arith, erase-Distinct key c.data_of b.distinct);
    bounded = ground (arith, length-erase key c.data_of);
    positive = ground arith;
  }
  perform-IsBounded (setting key value now) c b = record {
    distinct = ground (
      arith,
      insert-Distinct key (value, now) c.data_of b.distinct,
      insert-Distinct key (value, now) (drop_oldest c.data_of)
          (drop_oldest-Distinct c.data_of b.distinct),
    );
    bounded = ground (
      arith,
      length-insert key (value, now) c.data_of,
      length-insert key (value, now) (drop_oldest c.data_of),
      length-drop_oldest c.data_of,
    );
    positive = b.positive;
  }
  perform-IsBounded (invalidating key) c b = record {
    distinct = erase-Distinct key c.data_of b.distinct;
    bounded = ground (arith, length-erase key c.data_of);
    positive = b.positive;
  }
  perform-IsBounded clearing c b = record {
    distinct = tt;
    bounded = ground arith;
    positive = b.positive;
  }

  -- Whatever calls are made, in whatever order, the cache has no key twice and at most `maxsize`
  -- entries, if it started so.
  pub perform_all-IsBounded :
      (calls : List (Call K V)) (c : TtlCache K V) → IsBounded c → IsBounded (perform_all calls c)
  unfolding perform_all
  perform_all-IsBounded [] c b = b
  perform_all-IsBounded (call ∷ calls) c b =
      perform_all-IsBounded calls (perform call c) (perform-IsBounded call c b)

  -- What the cache holds under a key is what was recorded, or nothing.
  abbrev Held : K → TtlCache K V → Option (V × ℕ) → Type 0
  Held k c before = (lookup k c.data_of ≡ none) ⊎ (lookup k c.data_of ≡ before)

  Held-set :
      (key : K) (value : V) (now : ℕ) (c : TtlCache K V) (k : K) (before : Option (V × ℕ))
      → IsBounded c
      → Held k c before
      → Held k (set key value now c) (if key == k then some (value, now) else before)
  unfolding set
  Held-set key value now c k before b h = ground (
    arith,
    lookup-insert k key (value, now) c.data_of,
    lookup-insert k key (value, now) (drop_oldest c.data_of),
    lookup-drop_oldest k c.data_of b.distinct,
  )

  Held-get :
      (key : K) (now : ℕ) (c : TtlCache K V) (k : K) (before : Option (V × ℕ))
      → IsBounded c
      → Held k c before
      → Held k (get key now c).1 before
  unfolding get
  Held-get key now c k before b h = ground (arith, lookup-erase k key c.data_of b.distinct)

  Held-invalidate :
      (key : K) (c : TtlCache K V) (k : K) (before : Option (V × ℕ))
      → IsBounded c
      → Held k c before
      → Held k (invalidate key c) (if key == k then none else before)
  unfolding invalidate
  Held-invalidate key c k before b h = ground (arith, lookup-erase k key c.data_of b.distinct)

  Held-perform_all :
      (calls : List (Call K V)) (c : TtlCache K V) (k : K) (before : Option (V × ℕ))
      → IsBounded c
      → Held k c before
      → Held k (perform_all calls c) (recorded calls k before)
  unfolding perform_all recorded perform clear lookup
  Held-perform_all [] c k before b h = h
  Held-perform_all (getting key now ∷ calls) c k before b h =
      Held-perform_all calls (perform (getting key now) c) k before
        (perform-IsBounded (getting key now) c b) (Held-get key now c k before b h)
  Held-perform_all (setting key value now ∷ calls) c k before b h =
      Held-perform_all calls (perform (setting key value now) c) k _
        (perform-IsBounded (setting key value now) c b) (Held-set key value now c k before b h)
  Held-perform_all (invalidating key ∷ calls) c k before b h =
      Held-perform_all calls (perform (invalidating key) c) k _
        (perform-IsBounded (invalidating key) c b) (Held-invalidate key c k before b h)
  Held-perform_all (clearing ∷ calls) c k before b h =
      Held-perform_all calls (perform clearing c) k none (perform-IsBounded clearing c b) (inl refl)

  get-some :
      (key : K) (now : ℕ) (c : TtlCache K V) (value : V)
      → (get key now c).0 ≡ some value
      → (at : ℕ) × (lookup key c.data_of ≡ some (value, at)) × (now < at + c.ttl)
  unfolding get
  get-some key now c value h = elim (Option-cases (lookup key c.data_of)) [
    | inl n ↦ ground arith
    | inr (entry, n) ↦ (entry.1, ground arith, ground arith)
  ]

  ttl-perform_all : (calls : List (Call K V)) (c : TtlCache K V) → (perform_all calls c).ttl ≡ c.ttl
  unfolding perform_all perform get set invalidate clear
  ttl-perform_all [] c = refl
  ttl-perform_all (getting key now ∷ calls) c =
      ground (arith, ttl-perform_all calls (perform (getting key now) c))
  ttl-perform_all (setting key value now ∷ calls) c = ttl-perform_all calls (set key value now c)
  ttl-perform_all (invalidating key ∷ calls) c = ttl-perform_all calls (invalidate key c)
  ttl-perform_all (clearing ∷ calls) c = ttl-perform_all calls (clear c)

  -- After any calls on an empty cache, a hit is what was set last under the key, it has been neither
  -- invalidated nor cleared since, and less than the time to live has passed: a cache that forgets
  -- early never answers with a stale or a foreign value.
  pub get-perform_all :
      (calls : List (Call K V)) (c : TtlCache K V) (key : K) (now : ℕ) (value : V)
      → IsBounded c
      → c.data_of ≡ []
      → (get key now (perform_all calls c)).0 ≡ some value
      → (at : ℕ) × (recorded calls key none ≡ some (value, at)) × (now < at + c.ttl)
  unfolding lookup
  get-perform_all calls c key now value b empty h =
      let (at, found, fresh) = get-some key now (perform_all calls c) value h in
      let start : Held key c none = inl (rw empty refl) in
      (
        at,
        ground (arith, Held-perform_all calls c key none b start),
        ground (arith, ttl-perform_all calls c),
      )

  -- A value that has just been set is answered until the time to live has passed, and not from then
  -- on, however full the cache was.
  pub get-set :
      (key : K) (value : V) (now later : ℕ) (c : TtlCache K V)
      → (get key later (set key value now c)).0
        ≡ (if leb (now + c.ttl) later then none else some value)
  unfolding get set
  get-set key value now later c = ground (
    arith,
    lookup-insert key key (value, now) c.data_of,
    lookup-insert key key (value, now) (drop_oldest c.data_of),
    ==_iff key key,
  )
