-- ===== src/RateLimit.antt =====
-- The per-tenant token buckets (src/tagpulse/core/rate_limit.py). Instants are milliseconds of the
-- monotonic clock; a token is 60000 parts, so that a limit per minute refills `limit` parts in a
-- millisecond. What the query for the overrides returns is a parameter.
pub mod Tokens
pub mod Resolved
pub mod Grants
use tag_pulse.Prelude.{
  ℕ, ◌+◌, ◌-◌, ◌*◌, leb, ltb, ℤ, pos, negsuc, Bool, true, false, ◌&&◌, ◌||◌, not, Option, none,
  some, List, [], ◌∷◌, ◌++◌, String, Eq, ◌==◌, nat_eq, pair_eq, length, if◌then◌else◌, ◌≡◌, refl,
  arith, ◌↔◌,
}
use tag_pulse.Dict.{Dict, lookup, has_key, insert, erase}

pub data RouteClass : Type 0 where
  ingest read write admin : RouteClass

abbrev pub route_beq : RouteClass → RouteClass → Bool
route_beq ingest ingest = true
route_beq read read = true
route_beq write write = true
route_beq admin admin = true
route_beq _ _ = false

pub route_beq_iff : (a b : RouteClass) → (route_beq a b ≡ true) ↔ (a ≡ b)
route_beq_iff a b = ground arith

instance abbrev pub route_eq : Eq RouteClass
route_eq = record { beq = route_beq; beq_iff = route_beq_iff }

abbrev pub token_parts : ℕ
token_parts = 60000

abbrev pub override_ttl_ms : ℕ
override_ttl_ms = 30000

pub record Bucket : Type 0 where
  pub tokens : ℕ
  pub last_refill : ℕ
  pub capacity : ℕ

abbrev pub min : ℕ → ℕ → ℕ
min a b = if leb a b then a else b

-- The refill of `consume`; `rate` is parts per millisecond.
unfoldable pub refill : ℕ → ℕ → Bucket → Bucket
refill now rate b =
    if ltb b.last_refill now
    then record b {
      tokens = min (b.capacity * token_parts) (b.tokens + (now - b.last_refill) * rate);
      last_refill = now;
    }
    else b

unfoldable pub consume_bucket : ℕ → ℕ → Bucket → Bool × Bucket
consume_bucket now rate b =
    let b' = refill now rate b in
    if leb token_parts b'.tokens
    then (true, record b' { tokens = b'.tokens - token_parts })
    else (false, b')

-- The bucket that a check finds: a full one if there is none, a capped one if the limit changed.
unfoldable pub found_bucket : ℕ → ℕ → Option Bucket → Bucket
found_bucket limit now none = record {
  tokens = limit * token_parts;
  last_refill = now;
  capacity = limit;
}
found_bucket limit now (some b) =
    if nat_eq.beq b.capacity limit
    then b
    else record b { capacity = limit; tokens = min b.tokens (limit * token_parts) }

pub record Limits : Type 0 where
  pub ingest_per_min : ℕ
  pub admin_per_min : ℕ
  pub write_per_min : ℕ
  pub read_per_min : ℕ

abbrev pub global_limit : Limits → RouteClass → ℕ
global_limit settings ingest = settings.ingest_per_min
global_limit settings admin = settings.admin_per_min
global_limit settings write = settings.write_per_min
global_limit settings read = settings.read_per_min

abbrev pub Overrides : Type 0
Overrides = Dict RouteClass ℕ

pub record RateLimiter : Type 0 where
  pub buckets : Dict (ℕ × RouteClass) Bucket
  pub overrides : Dict ℕ (ℕ × Overrides)

-- A stored value counts if it is a positive integer; `none` is a value of another type.
abbrev pub positive_int : RouteClass → Option (Option ℤ) → Overrides
positive_int key (some (some (pos n))) = if nat_eq.beq n 0 then [] else (key, n) ∷ []
positive_int key _ = []

-- `none` stands for a failed query and for a row that is no dict.
unfoldable pub override_map : Option (Dict RouteClass (Option ℤ)) → Overrides
override_map none = []
override_map (some row) =
    positive_int ingest (lookup ingest row)
    ++ (positive_int read (lookup read row)
        ++ (positive_int write (lookup write row) ++ positive_int admin (lookup admin row)))

-- `now - cached[0] > ttl`
abbrev pub is_stale : ℕ → Option (ℕ × Overrides) → Bool
is_stale now none = true
is_stale now (some cached) = ltb (cached.0 + override_ttl_ms) now

abbrev pub overrides_of : Option (ℕ × Overrides) → Overrides
overrides_of none = []
overrides_of (some cached) = cached.1

abbrev pub or_default : ℕ → Option ℕ → ℕ
or_default limit none = limit
or_default limit (some n) = n

module _ (settings : Limits) (fetch : ℕ → Option (Dict RouteClass (Option ℤ))) where
  unfoldable pub resolve_limit : ℕ → RouteClass → ℕ → RateLimiter → ℕ × RateLimiter
  resolve_limit tenant route_class now r =
      let cached = lookup tenant r.overrides in
      let fresh = override_map (fetch tenant) in
      if is_stale now cached
      then (
        or_default (global_limit settings route_class) (lookup route_class fresh),
        record r { overrides = insert tenant (now, fresh) r.overrides },
      )
      else (
        or_default (global_limit settings route_class) (lookup route_class (overrides_of cached)),
        r,
      )

  -- `asked` is the instant at which the limit is looked up, `now` the one of the bucket.
  unfoldable pub check : ℕ → RouteClass → ℕ → ℕ → RateLimiter → (Bool × ℕ) × RateLimiter
  check tenant route_class asked now r =
      let resolved = resolve_limit tenant route_class asked r in
      let limit = resolved.0 in
      let done =
        consume_bucket now limit
          (found_bucket limit now (lookup (tenant, route_class) resolved.1.buckets)) in
      (
        (done.0, limit),
        record resolved.1 { buckets = insert (tenant, route_class) done.1 resolved.1.buckets },
      )

unfoldable pub invalidate : ℕ → RateLimiter → RateLimiter
invalidate tenant r = record r { overrides = erase tenant r.overrides }

unfoldable pub reset : RateLimiter → RateLimiter
reset r = record { buckets = []; overrides = [] }
