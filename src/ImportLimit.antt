-- ===== src/ImportLimit.antt =====
-- The hourly limit on tag imports (src/tagpulse/core/tag_import_rate_limit.py). Tenants are numbers,
-- an instant is a number of seconds of the monotonic clock, which never runs backwards.
pub mod Recent
pub mod Window
use tag_pulse.Prelude.{
  ℕ, ◌+◌, ◌-◌, ltb, ℤ, pos, leb_ℤ, Bool, true, false, ◌&&◌, not, Option, none, some, List, [], ◌∷◌,
  ◌++◌, nat_eq, length, if◌then◌else◌,
}
use tag_pulse.Dict.{Dict, lookup, insert}

abbrev pub window_seconds : ℕ
window_seconds = 3600

abbrev pub Events : Type 0
Events = Dict ℕ (List ℕ)

-- The loop that drops from the left what is older than the window.
unfoldable pub prune : ℕ → List ℕ → List ℕ
prune ts [] = []
prune ts (at ∷ bucket) =
    let rest = prune ts bucket in if ltb (at + window_seconds) ts then rest else at ∷ bucket

-- events.setdefault(tenant_id, deque())
abbrev pub bucket_of : Option (List ℕ) → List ℕ
bucket_of none = []
bucket_of (some bucket) = bucket

unfoldable pub check_and_record : ℕ → ℤ → ℕ → Events → Bool × Events
check_and_record tenant max_per_hour ts events =
    let bucket = prune ts (bucket_of (lookup tenant events)) in
    if leb_ℤ max_per_hour (pos 0)
    then (false, events)
    else if leb_ℤ max_per_hour (pos (length bucket))
    then (false, insert tenant bucket events)
    else (true, insert tenant (bucket ++ ts ∷ []) events)

-- max(0, max_per_hour - len(bucket))
abbrev pub left_over : ℤ → ℕ → ℕ
left_over (pos n) used = n - used
left_over _ used = 0

unfoldable pub remaining : ℕ → ℤ → ℕ → Events → ℕ × Events
remaining tenant max_per_hour ts events =
    if leb_ℤ max_per_hour (pos 0) then (0, events) else elim (lookup tenant events) [
      | none ↦ (left_over max_per_hour 0, events)
      | some bucket ↦ (
        left_over max_per_hour (length (prune ts bucket)),
        insert tenant (prune ts bucket) events,
      )
    ]

unfoldable pub reset : Events → Events
reset events = []
