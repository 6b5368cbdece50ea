-- ===== src/Tests/Limits.antt =====
-- Runs of the cache and of the two limiters.
use tag_pulse.Prelude.{
  ℕ, ◌+◌, ◌-◌, ◌*◌, ◌≤◌, ◌<◌, ℤ, pos, ◌≡◌, refl, arith, Option, none, some, List, [], ◌∷◌, String,
  string_eq, nat_eq, if◌then◌else◌,
}
use tag_pulse.Dict.{Dict, lookup, insert, has_key, erase}
use tag_pulse.Cache.{TtlCache, get, set, drop_oldest}
use tag_pulse.Cache.Freshness.{
  Call, getting, setting, IsBounded, perform, perform_all, recorded, perform_all-IsBounded,
  get-perform_all,
}
use tag_pulse.ImportLimit.Window.{decisions, reference, decisions_lem}
use tag_pulse.RateLimit.{RouteClass, ingest, write, token_parts, Limits, invalidate}
use tag_pulse.RateLimit.Resolved.{effective}
use tag_pulse.RateLimit.Grants.{Request, Past, run_history, grants, grants_bound}

abbrev cache : TtlCache String ℕ
cache = record { ttl = 30; maxsize = 1; data_of = [] }

cache-IsBounded : IsBounded cache
cache-IsBounded = record { distinct = tt; bounded = omega arith; positive = omega arith }

abbrev calls : List (Call String ℕ)
calls = setting "a" 1 5 ∷ setting "b" 2 10 ∷ getting "a" 12 ∷ []

perform_all-IsBounded_example : IsBounded (perform_all calls cache)
perform_all-IsBounded_example = perform_all-IsBounded calls cache cache-IsBounded

hit_run : (get "b" 39 (perform_all calls cache)).0 ≡ some 2
unfolding get lookup perform_all perform set insert has_key drop_oldest erase
hit_run = refl

get-perform_all_example :
    (at : ℕ) × (recorded calls "b" none ≡ some (2, at)) × (39 < at + cache.ttl)
get-perform_all_example = get-perform_all calls cache "b" 39 2 cache-IsBounded refl hit_run

abbrev imports : List (ℕ × ℤ × ℕ)
imports = (1, pos 1, 0) ∷ (2, pos 1, 5) ∷ (1, pos 1, 3600) ∷ (1, pos 1, 3601) ∷ []

decisions_lem_example : decisions imports [] ≡ reference imports []
decisions_lem_example =
    decisions_lem imports (omega arith, (omega arith, (omega arith, (omega arith, tt))))

abbrev settings : Limits
settings = record { ingest_per_min = 2; admin_per_min = 1; write_per_min = 1; read_per_min = 1 }

-- One tenant has an override of its ingest limit, no other has.
abbrev stored : ℕ → Option (Dict RouteClass (Option ℤ))
stored tenant = if nat_eq.beq tenant 1 then some ((ingest, some (pos 3)) ∷ []) else none

abbrev requests : List Request
requests = ((1, ingest), 0, 10) ∷ ((2, write), 0, 10) ∷ ((1, ingest), 15, 20) ∷ []

-- Before, while the tenant had no override and a higher limit, one request passed.
abbrev generous : Limits
generous = record { ingest_per_min = 9; admin_per_min = 1; write_per_min = 1; read_per_min = 1 }

abbrev history : List Past
history =
    record { settings = generous; fetch = λ tenant. none; key = (1, ingest); asked = 0; at = 5 }
    ∷ []

grants_bound_example :
    grants settings stored
        (1, ingest)
        requests
        (invalidate 1 (run_history history (record { buckets = []; overrides = [] })))
      * token_parts
    ≤ effective settings stored (1, ingest) * token_parts
      + (20 - 10) * effective settings stored (1, ingest)
grants_bound_example =
    grants_bound settings stored (1, ingest) history requests 0 10 20 (omega arith, omega arith)
      (omega arith, (omega arith, (omega arith, omega arith)))
