-- ===== src/Cache.antt =====
-- The per-process cache with a time to live (src/tagpulse/core/ttl_cache.py). An instant is a number
-- of ticks of the monotonic clock; a method that reads the clock takes its instant. No key is None.
pub mod Freshness
use tag_pulse.Prelude.{
  ℕ, ◌+◌, leb, Bool, true, false, ◌&&◌, not, Option, none, some, List, [], ◌∷◌, Eq, ◌==◌, nat_eq,
  length, if◌then◌else◌, Result, ok, err, ◌>>=◌, ◌>>◌, guard,
}
use tag_pulse.Dict.{Dict, lookup, has_key, insert, erase}

pub data CacheError : Type 0 where
  ttl_not_positive maxsize_not_positive : CacheError

pub record TtlCache (K V : Type 0) : Type 0 where
  pub ttl : ℕ
  pub maxsize : ℕ
  pub data_of : Dict K (V × ℕ)

abbrev pub new_cache : {K V : Type 0} → ℕ → ℕ → Result CacheError (TtlCache K V)
new_cache ttl maxsize = do
  guard (not (ttl == 0)) ttl_not_positive
  guard (not (maxsize == 0)) maxsize_not_positive
  ok (record { ttl = ttl; maxsize = maxsize; data_of = [] })

module _ {K V : Type 0} ⦃e : Eq K⦄ where
  -- `clock() - inserted_at >= ttl`
  unfoldable pub get : K → ℕ → TtlCache K V → Option V × TtlCache K V
  get key now c = elim (lookup key c.data_of) [
    | none ↦ (none, c)
    | some entry ↦
        if leb (entry.1 + c.ttl) now
        then (none, record c { data_of = erase key c.data_of })
        else (some entry.0, c)
  ]

  -- next(iter(data)), popped
  unfoldable pub drop_oldest : Dict K (V × ℕ) → Dict K (V × ℕ)
  drop_oldest [] = []
  drop_oldest ((oldest, entry) ∷ d) = erase oldest ((oldest, entry) ∷ d)

  unfoldable pub set : K → V → ℕ → TtlCache K V → TtlCache K V
  set key value now c =
      let room =
        if not (has_key key c.data_of) && leb c.maxsize (length c.data_of)
        then drop_oldest c.data_of
        else c.data_of in
      record c { data_of = insert key (value, now) room }

  unfoldable pub invalidate : K → TtlCache K V → TtlCache K V
  invalidate key c = record c { data_of = erase key c.data_of }

  unfoldable pub clear : TtlCache K V → TtlCache K V
  clear c = record c { data_of = [] }

abbrev pub size : {K V : Type 0} → TtlCache K V → ℕ
size c = length c.data_of
