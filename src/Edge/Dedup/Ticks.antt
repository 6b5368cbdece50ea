-- ===== src/Edge/Dedup/Ticks.antt =====
-- What a tick ends, and what a reading refreshes.

use tag_pulse.Prelude.{
  ℕ, ◌+◌, ◌≤◌, ◌<◌, leb, ℤ, ◌≡◌, refl, ◌∙◌, true, false, Bool, ◌&&◌, ◌||◌, ◌==◌, nat_beq, not,
  Option, none, some, List, [], ◌∷◌, map, ==_refl, pair_eq, string_eq, nat_eq, if◌then◌else◌, arith,
  is_some, contains, pair_beq_iff,
}
use tag_pulse.Dict.{Dict, lookup, erase, keys, keep_entries, Distinct}
use tag_pulse.Dict.Laws.{
  lookup-insert, lookup-erase, lookup-keep_entries, insert-Distinct, erase-Distinct, contains-keys,
  has_key-lookup, only_if,
}
use tag_pulse.Edge.Dedup.{
  TagKey, Presence, PresenceTracker, PresenceEvent, enter, exit, observe, set_present, tick,
  is_expired, exit_event, delete_all,
}

pub delete_all-Distinct :
    (expired : List TagKey) (present : Dict TagKey Presence)
    → Distinct present
    → Distinct (delete_all expired present)
unfolding delete_all
delete_all-Distinct [] present d = d
delete_all-Distinct (key ∷ expired) present d =
    delete_all-Distinct expired (erase key present) (erase-Distinct key present d)

lookup-delete_all :
    (key : TagKey) (expired : List TagKey) (present : Dict TagKey Presence)
    → Distinct present
    → lookup key (delete_all expired present)
      ≡ (if contains key expired then none else lookup key present)
unfolding delete_all
lookup-delete_all key [] present d = refl
lookup-delete_all key (k ∷ expired) present d = ground (
  arith,
  lookup-delete_all key expired (erase k present) (erase-Distinct k present d),
  lookup-erase key k present d,
  pair_beq_iff k key,
  pair_beq_iff key k,
)

-- What remains after a tick: what has not been absent for the timeout.
pub lookup-tick :
    (at : ℕ) (t : PresenceTracker) (key : TagKey)
    → Distinct t.present
    → lookup key (tick at t).1.present
      ≡ only_if (λ p. not (is_expired t.exit_timeout_s at key p)) (lookup key t.present)
unfolding tick
lookup-tick at t key d =
    let gone = keep_entries (is_expired t.exit_timeout_s at) t.present in
    ground (
      arith,
      lookup-delete_all key (keys gone) t.present d,
      contains-keys key gone,
      has_key-lookup key gone,
      lookup-keep_entries (is_expired t.exit_timeout_s at) key t.present d,
    )

pub contains-expired :
    (key : TagKey) (at : ℕ) (t : PresenceTracker)
    → Distinct t.present
    → contains key (keys (keep_entries (is_expired t.exit_timeout_s at) t.present))
      ≡ is_some (only_if (is_expired t.exit_timeout_s at key) (lookup key t.present))
contains-expired key at t d =
    let gone = keep_entries (is_expired t.exit_timeout_s at) t.present in
    ground (
      arith,
      contains-keys key gone,
      has_key-lookup key gone,
      lookup-keep_entries (is_expired t.exit_timeout_s at) key t.present d,
    )

abbrev pub is_exit_at : ℕ → PresenceEvent → Bool
is_exit_at at event = elim event.transition [ enter ↦ false | exit ↦ nat_beq event.monotonic_s at ]

-- Whether the events have an exit of the key at the instant.
unfoldable pub reports_exit : TagKey → ℕ → List PresenceEvent → Bool
reports_exit key at [] = false
reports_exit key at (event ∷ events) =
    (event.key == key && is_exit_at at event) || reports_exit key at events

unfoldable pub only_exits : ℕ → List PresenceEvent → Bool
only_exits at [] = true
only_exits at (event ∷ events) = is_exit_at at event && only_exits at events

-- A tick reports, at its instant, the exit of what was last marked as seen at least the timeout ago,
-- and of nothing else, and it reports nothing but such exits.
pub tick-exits :
    (key : TagKey) (at : ℕ) (t : PresenceTracker)
    → Distinct t.present
    → (reports_exit key at (tick at t).0
        ≡ is_some
            (only_if (λ p. leb (p.last_seen_mono + t.exit_timeout_s) at) (lookup key t.present)))
      × (only_exits at (tick at t).0 ≡ true)
unfolding tick reports_exit only_exits
tick-exits key at t d = (
  exits_of (keys (keep_entries (is_expired t.exit_timeout_s at) t.present))
      ∙ contains-expired key at t d,
  exits_only (keys (keep_entries (is_expired t.exit_timeout_s at) t.present)),
)
  where
    exits_of : (ks : List TagKey) → reports_exit key at (map (exit_event at) ks) ≡ contains key ks
    exits_of [] = refl
    exits_of (k ∷ ks) = ground (arith, exits_of ks, pair_beq_iff k key, pair_beq_iff key k)

    exits_only : (ks : List TagKey) → only_exits at (map (exit_event at) ks) ≡ true
    exits_only [] = refl
    exits_only (k ∷ ks) = ground (arith, exits_only ks)

observe_new :
    (key : TagKey) (at : ℕ) (s : Option ℤ) (t : PresenceTracker)
    → lookup key t.present ≡ none
    → (observe key at s t).1 ≡ set_present key at s t
unfolding observe
observe_new key at s t n = ground arith

observe_within :
    (key : TagKey) (at : ℕ) (s : Option ℤ) (t : PresenceTracker) (p : Presence)
    → lookup key t.present ≡ some p
    → at < p.last_seen_mono + t.dedup_window_s
    → (observe key at s t).1 ≡ t
unfolding observe
observe_within key at s t p h w = ground arith

-- A reading inside the window does not refresh the instant: a tag that the tracker did not hold, read
-- at `first` and again less than the window later, is reported as gone by a tick at the timeout after
-- `first`, however recently it was read again.
pub tick_unrefreshed :
    (key : TagKey) (first again at : ℕ) (s s' : Option ℤ) (t : PresenceTracker)
    → Distinct t.present
    → lookup key t.present ≡ none
    → again < first + t.dedup_window_s
    → first + t.exit_timeout_s ≤ at
    → reports_exit key at (tick at (observe key again s' (observe key first s t).1).1).0 ≡ true
tick_unrefreshed key first again at s s' t d n w x =
    let p : Presence = record { last_seen_mono = first; last_signal = s } in
    let entered = set_present key first s t in
    let held : lookup key entered.present ≡ some p =
      ground (arith, lookup-insert key key p t.present, ==_refl key) in
    rw (observe_new key first s t n, observe_within key again s' entered p held w)
      (ground (arith, (tick-exits key at entered (insert-Distinct key p t.present d)).0, held))
