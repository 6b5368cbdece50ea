-- ===== src/Edge/Dedup.antt =====
-- The edge's tracker of what its antennas see (clients/pi/tagpulse_edge/dedup.py). An instant is a
-- number of ticks of the monotonic clock, a signal strength a whole number of thousandths. The
-- events of `tick` are all consumed.
pub mod Ticks
pub mod Alternation
use tag_pulse.Prelude.{
  ℕ, ◌+◌, leb, ℤ, Bool, true, false, not, Option, none, some, List, [], ◌∷◌, map, String, Eq, ◌==◌,
  pair_eq, string_eq, nat_eq, if◌then◌else◌, Result, ok, err, ◌>>=◌, ◌>>◌, guard, length,
}
use tag_pulse.Dict.{Dict, lookup, insert, erase, keys, keep_entries}

-- (tag_id, antenna)
abbrev pub TagKey : Type 0
TagKey = String × String

pub data Transition : Type 0 where
  enter exit : Transition

pub record PresenceEvent : Type 0 where
  pub key : TagKey
  pub transition : Transition
  pub monotonic_s : ℕ
  pub signal_strength : Option ℤ

pub record Presence : Type 0 where
  pub last_seen_mono : ℕ
  pub last_signal : Option ℤ

pub record PresenceTracker : Type 0 where
  pub dedup_window_s : ℕ
  pub exit_timeout_s : ℕ
  pub present : Dict TagKey Presence

pub data TrackerError : Type 0 where
  exit_timeout_not_positive : TrackerError

-- A negative window cannot be written here.
abbrev pub new_tracker : ℕ → ℕ → Result TrackerError PresenceTracker
new_tracker window timeout = do
  guard (not (timeout == 0)) exit_timeout_not_positive
  ok (record { dedup_window_s = window; exit_timeout_s = timeout; present = [] })

abbrev pub set_present : TagKey → ℕ → Option ℤ → PresenceTracker → PresenceTracker
set_present key at signal t = record t {
  present = insert key (record { last_seen_mono = at; last_signal = signal }) t.present;
}

unfoldable pub observe :
    TagKey → ℕ → Option ℤ → PresenceTracker → Option PresenceEvent × PresenceTracker
observe key at signal t = elim (lookup key t.present) [
  | none ↦ (
    some (record { key = key; transition = enter; monotonic_s = at; signal_strength = signal }),
    set_present key at signal t,
  )
  | some existing ↦
      if leb (existing.last_seen_mono + t.dedup_window_s) at
      then (none, set_present key at signal t)
      else (none, t)
]

abbrev pub is_expired : ℕ → ℕ → TagKey → Presence → Bool
is_expired timeout at key p = leb (p.last_seen_mono + timeout) at

abbrev pub exit_event : ℕ → TagKey → PresenceEvent
exit_event at key = record {
  key = key;
  transition = exit;
  monotonic_s = at;
  signal_strength = none;
}

-- `del self._present[key]` for every expired key, in their order.
unfoldable pub delete_all : List TagKey → Dict TagKey Presence → Dict TagKey Presence
delete_all [] present = present
delete_all (key ∷ expired) present = delete_all expired (erase key present)

unfoldable pub tick : ℕ → PresenceTracker → List PresenceEvent × PresenceTracker
tick at t =
    let expired = keys (keep_entries (is_expired t.exit_timeout_s at) t.present) in
    (map (exit_event at) expired, record t { present = delete_all expired t.present })

abbrev pub present_count : PresenceTracker → ℕ
present_count t = length t.present
