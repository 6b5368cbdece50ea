-- ===== src/RateLimit/Tokens.antt =====
-- The tokens of one bucket, over its calls.
use native.Mathlib.Nat.{add-mul, mul-le-mul_right}
use tag_pulse.Prelude.{
  ℕ, ◌+◌, ◌-◌, ◌*◌, ◌≤◌, ◌≡◌, sym, ap, ◌∙◌, subst, Bool, true, false, Option, none, some, nat_eq,
  pair_eq, arith, inl, inr, ◌⊎◌,
}
use tag_pulse.RateLimit.{route_eq, Bucket, token_parts, refill, consume_bucket, found_bucket}

abbrev pub count : Bool → ℕ
count true = 1
count false = 0

-- A bucket's tokens and grants against what it held and what flowed in, and against its capacity.
consume_bucket-tokens :
    (now rate : ℕ) (b : Bucket)
    → b.last_refill ≤ now
    → (count (consume_bucket now rate b).0 * token_parts + (consume_bucket now rate b).1.tokens
        ≤ b.tokens + (now - b.last_refill) * rate)
      × ((consume_bucket now rate b).1.last_refill ≡ now)
      × ((consume_bucket now rate b).1.capacity ≡ b.capacity)
unfolding consume_bucket refill
consume_bucket-tokens now rate b h = ground arith

consume_bucket-capped :
    (now rate : ℕ) (b : Bucket)
    → b.tokens ≤ b.capacity * token_parts
    → count (consume_bucket now rate b).0 * token_parts + (consume_bucket now rate b).1.tokens
      ≤ b.capacity * token_parts
unfolding consume_bucket refill
consume_bucket-capped now rate b h = ground arith

elapsed_add :
    (start last now rate : ℕ)
    → start ≤ last
    → last ≤ now
    → (last - start) * rate + (now - last) * rate ≡ (now - start) * rate
elapsed_add start last now rate g h =
    let whole : (last - start) + (now - last) ≡ now - start = omega arith in
    sym (add-mul (last - start) (now - last) rate) ∙ ap (λ n. n * rate) whole

-- A bucket is dated no later than now and holds no more than its capacity.
abbrev pub IsCapped : ℕ → Bucket → Type 0
IsCapped now b = (b.last_refill ≤ now) × (b.tokens ≤ b.capacity * token_parts)

-- Where requests have passed since `start`, how their number, the tokens and the limit agree.
abbrev Passed : ℕ → ℕ → ℕ → Bucket → Type 0
Passed limit start granted b =
    (b.capacity ≡ limit)
    × (start ≤ b.last_refill)
    × (granted * token_parts + b.tokens ≤ limit * token_parts + (b.last_refill - start) * limit)

-- What is known of a key's bucket when `granted` requests have passed since `start`.
abbrev pub Metered : ℕ → ℕ → ℕ → ℕ → Option Bucket → Type 0
Metered limit start now granted none = (start ≤ now) × (granted ≡ 0)
Metered limit start now granted (some b) =
    (start ≤ now) × IsCapped now b × ((granted ≡ 0) ⊎ Passed limit start granted b)

found_bucket-capacity :
    (limit now : ℕ) (o : Option Bucket) → (found_bucket limit now o).capacity ≡ limit
unfolding found_bucket
found_bucket-capacity limit now none = ground arith
found_bucket-capacity limit now (some b) = ground arith

pub found_bucket-IsCapped :
    (limit now : ℕ) (o : Option Bucket)
    → ((b : Bucket) → o ≡ some b → IsCapped now b)
    → IsCapped now (found_bucket limit now o)
unfolding found_bucket
found_bucket-IsCapped limit now none h = ground arith
found_bucket-IsCapped limit now (some b) h = ground (arith, h b)

pub consume_bucket-IsCapped :
    (now rate : ℕ) (b : Bucket) → IsCapped now b → IsCapped now (consume_bucket now rate b).1
consume_bucket-IsCapped now rate b h =
    let step = consume_bucket-tokens now rate b h.0 in
    let cap = consume_bucket-capped now rate b h.1 in
    (ground (arith, step.1), ground (arith, cap, step.2))

consumed-Passed :
    (limit start now granted : ℕ) (b : Bucket)
    → b.capacity ≡ limit
    → Metered limit start now granted (some b)
    → (count (consume_bucket now limit b).0 + granted) * token_parts
        + (consume_bucket now limit b).1.tokens
      ≤ limit * token_parts + (now - start) * limit
consumed-Passed limit start now granted b same (started, capped, inl fresh) =
    ground (arith, consume_bucket-capped now limit b capped.1)
consumed-Passed limit start now granted b same (started, capped, inr passed) =
    let step = consume_bucket-tokens now limit b capped.0 in
    ground (
      arith,
      step.0,
      passed.2,
      add-mul (count (consume_bucket now limit b).0) granted token_parts,
      elapsed_add start b.last_refill now limit passed.1 capped.0,
    )

Metered-bucket :
    (limit start now granted : ℕ) (b : Bucket)
    → b.capacity ≡ limit
    → Metered limit start now granted (some b)
    → Metered limit start now
        (count (consume_bucket now limit b).0 + granted)
        (some (consume_bucket now limit b).1)
Metered-bucket limit start now granted b same m =
    let step = consume_bucket-tokens now limit b m.1.0 in
    let after = consume_bucket now limit b in
    (
      m.0,
      consume_bucket-IsCapped now limit b m.1,
      inr (
        ground (arith, step.2),
        ground (arith, step.1, m.0),
        subst
            (λ at.
              (count after.0 + granted) * token_parts + after.1.tokens
              ≤ limit * token_parts + (at - start) * limit)
            (sym step.1) (consumed-Passed limit start now granted b same m),
      ),
    )

pub Metered-later :
    (limit start now at granted : ℕ) (o : Option Bucket)
    → Metered limit start now granted o
    → now ≤ at
    → Metered limit start at granted o
Metered-later limit start now at granted none m h = ground arith
Metered-later limit start now at granted (some b) m h =
    (omega (arith, m.0), (omega (arith, m.1.0), m.1.1), m.2)

Metered-found_bucket :
    (limit start now granted : ℕ) (o : Option Bucket)
    → Metered limit start now granted o
    → Metered limit start now granted (some (found_bucket limit now o))
unfolding found_bucket
Metered-found_bucket limit start now granted none m = (m.0, ground arith, inl m.1)
Metered-found_bucket limit start now granted (some b) (started, capped, inl fresh) =
    (started, ground arith, inl fresh)
Metered-found_bucket limit start now granted (some b) (started, capped, inr passed) =
    ground (arith, passed.0, passed.1, passed.2)

-- One check of the key.
pub Metered-spent :
    (limit start now at granted : ℕ) (o : Option Bucket)
    → Metered limit start now granted o
    → now ≤ at
    → Metered limit start at
        (count (consume_bucket at limit (found_bucket limit at o)).0 + granted)
        (some (consume_bucket at limit (found_bucket limit at o)).1)
Metered-spent limit start now at granted o m h =
    Metered-bucket limit start at granted (found_bucket limit at o)
      (found_bucket-capacity limit at o)
      (Metered-found_bucket limit start at granted o
        (Metered-later limit start now at granted o m h))

pub Metered-bound :
    (limit start now last granted : ℕ) (o : Option Bucket)
    → Metered limit start now granted o
    → now ≤ last
    → granted * token_parts ≤ limit * token_parts + (last - start) * limit
Metered-bound limit start now last granted none m h = ground arith
Metered-bound limit start now last granted (some b) (started, capped, inl fresh) h = ground arith
Metered-bound limit start now last granted (some b) (started, capped, inr passed) h = ground (
  arith,
  passed.2,
  mul-le-mul_right {m = b.last_refill - start} {n = last - start} limit (ground arith),
)
