-- ===== src/Presence/Transitions.antt =====
-- What a snap does to the table and to the events.
pub mod Delta
use mathlib.Core.Option
use tag_pulse.Prelude.{
  ℕ, ℤ, ◌≡◌, refl, Bool, true, false, ◌&&◌, ◌||◌, not, Option, none, some, List, [], ◌∷◌, ◌++◌, map,
  arith, Result, ok, err, ltb_ℤ, if◌then◌else◌, contains, dedup, Unique, Eq, ◌==◌, pair_eq, list_eq,
  nat_eq, list_beq_iff, pair_beq_iff, Bool-cases, Option-cases, inl, inr, ◌⊎◌, contains-dedup,
  keep-Unique, dedup-Unique, sorted-Unique, keep, nat_ord, list_ord,
}
use tag_pulse.Dict.{Dict, Distinct, keys, lookup}
use tag_pulse.Dict.Laws.{
  contains-keys, keys-Unique, insert-Distinct, map_values-Distinct, lookup-map_values,
}
use tag_pulse.Wire.Epc.{Text}
use tag_pulse.Wire.Message.{Entry, Envelope}
use tag_pulse.Presence.{
  Scope, PresenceKey, Row, Status, present, gone, PresenceEvent, Source, from_snap, from_delta,
  Topic, tag_appeared, tag_disappeared, Db, PresenceError, max_ts_ms, ts_to_datetime, emit,
  select_present, upsert_all, upsert, mark_gone, collapse_snap_entries, collapse_entry, difference,
  settle_snap, settle_appeared, settle_disappeared, settle_by_status, is_transition, publish,
  set_row, prior_status,
}
use tag_pulse.Presence.View.{
  is_present, shows, is_present-upsert, is_present-upsert_all, is_present-mark_gone,
  contains-select_present, epcs_in, has_key-collapse_snap_entries, contains-difference,
  upsert-Distinct, upsert_all-Distinct, mark_gone-Distinct, collapse_snap_entries-Distinct,
}
use tag_pulse.Presence.Events.{replay, resume, follow, replay-append, replay-emit}

-- The unique index holds, and whoever reads the events from the start knows, of every key,
-- whether the table shows it as present.
pub record IsConsistent (db : Db) : Type 0 where
  pub distinct : Distinct db.table
  pub replayed :
      (key : PresenceKey) → replay false db.published key ≡ some (is_present db.table key)

difference-Unique : (a b : List Text) → Unique a → Unique (difference a b)
difference-Unique a b u =
    sorted-Unique (keep (λ e. not (contains e b)) a) (keep-Unique (λ e. not (contains e b)) a u)

-- The lists that a snap reports, beside the table before it.
module _ (scope : Scope) (entries : List Entry) (table : Dict PresenceKey Row) where
  abbrev pub snap_epcs : List Text
  snap_epcs = keys (collapse_snap_entries entries)

  abbrev pub present_epcs : List Text
  present_epcs = dedup (select_present scope table)

  contains-snap_epcs : (e : Text) → contains e snap_epcs ≡ contains e (epcs_in entries)
  contains-snap_epcs e = ground (
    arith,
    contains-keys e (collapse_snap_entries entries),
    has_key-collapse_snap_entries e entries,
  )

  contains-present_epcs :
      (e : Text) → Distinct table → contains e present_epcs ≡ is_present table (scope, e)
  contains-present_epcs e d = ground (
    arith,
    contains-dedup e (select_present scope table),
    contains-select_present scope table e d,
  )

  -- An EPC appears if it is in the snap and was not present; it goes if it was present and is not
  -- in the snap.
  contains-appeared :
      (e : Text)
      → Distinct table
      → contains e (difference snap_epcs present_epcs)
        ≡ contains e (epcs_in entries) && not (is_present table (scope, e))
  contains-appeared e d = ground (
    arith,
    contains-difference e snap_epcs present_epcs,
    contains-snap_epcs e,
    contains-present_epcs e d,
  )

  contains-gone :
      (e : Text)
      → Distinct table
      → contains e (difference present_epcs snap_epcs)
        ≡ is_present table (scope, e) && not (contains e (epcs_in entries))
  contains-gone e d = ground (
    arith,
    contains-difference e present_epcs snap_epcs,
    contains-snap_epcs e,
    contains-present_epcs e d,
  )

  -- The table after a snap: of the scope's keys just those of the snap are shown.
  is_present-snap :
      (at : ℤ) (key : PresenceKey)
      → Distinct table
      → is_present
          (mark_gone scope at
            (difference present_epcs snap_epcs)
            (upsert_all scope at (collapse_snap_entries entries) table))
          key
        ≡ (if scope == key.0 then contains key.1 (epcs_in entries) else is_present table key)
  is_present-snap at key d = ground (
    arith,
    is_present-mark_gone scope at (difference present_epcs snap_epcs)
        (upsert_all scope at (collapse_snap_entries entries) table) key,
    is_present-upsert_all scope at (collapse_snap_entries entries) table key,
    has_key-collapse_snap_entries key.1 entries,
    contains-gone key.1 d,
    pair_beq_iff scope key.0,
    pair_beq_iff key.0 scope,
  )

  -- The events of a snap take every key from what the table showed before to what it shows after.
  replay-snap :
      (at : ℤ) (key : PresenceKey)
      → Distinct table
      → replay
          (is_present table key)
          (map (emit tag_appeared scope at from_snap) (difference snap_epcs present_epcs)
            ++ map (emit tag_disappeared scope at from_snap) (difference present_epcs snap_epcs))
          key
        ≡ some (if scope == key.0 then contains key.1 (epcs_in entries) else is_present table key)
  replay-snap at key d = ground (
    arith,
    replay-append (is_present table key)
        (map (emit tag_appeared scope at from_snap) (difference snap_epcs present_epcs))
        (map (emit tag_disappeared scope at from_snap) (difference present_epcs snap_epcs)) key,
    replay-emit tag_appeared scope at from_snap (difference snap_epcs present_epcs)
        (is_present table key) key
        (difference-Unique snap_epcs present_epcs
          (keys-Unique (collapse_snap_entries entries) (collapse_snap_entries-Distinct entries))),
    replay-emit tag_disappeared scope at from_snap (difference present_epcs snap_epcs) true key
        (difference-Unique present_epcs snap_epcs (dedup-Unique (select_present scope table))),
    replay-emit tag_disappeared scope at from_snap (difference present_epcs snap_epcs) false key
        (difference-Unique present_epcs snap_epcs (dedup-Unique (select_present scope table))),
    contains-appeared key.1 d,
    contains-gone key.1 d,
    pair_beq_iff scope key.0,
  )

-- What an operation of one message leaves: a consistent table that shows what is expected.
pub record Applied (db : Db) (expected : PresenceKey → Bool) : Type 0 where
  pub consistent : IsConsistent db
  pub shown : (key : PresenceKey) → is_present db.table key ≡ expected key

-- A snap, where table and events agreed before it: of the device's EPCs the table shows exactly those
-- of the snap, and of every other device what it showed; table and events agree again.
pub settle_snap_lem :
    (scope : Scope) (at : ℤ) (entries : List Entry) (db : Db)
    → IsConsistent db
    → Applied (settle_snap scope at entries db).0 (λ key.
      if scope == key.0 then contains key.1 (epcs_in entries) else is_present db.table key)
unfolding settle_snap
settle_snap_lem scope at entries db c =
    let appeared =
      difference (snap_epcs scope entries db.table) (present_epcs scope entries db.table) in
    let gone_epcs =
      difference (present_epcs scope entries db.table) (snap_epcs scope entries db.table) in
    record {
      consistent = record {
        distinct =
            mark_gone-Distinct scope at gone_epcs
              (upsert_all scope at (collapse_snap_entries entries) db.table)
              (upsert_all-Distinct scope at (collapse_snap_entries entries) db.table c.distinct);
        replayed = λ key. ground (
          arith,
          replay-append false db.published
              (map (emit tag_appeared scope at from_snap) appeared
                ++ map (emit tag_disappeared scope at from_snap) gone_epcs)
              key,
          c.replayed key,
          replay-snap scope entries db.table at key c.distinct,
          is_present-snap scope entries db.table at key c.distinct,
        );
      };
      shown = λ key. is_present-snap scope entries db.table at key c.distinct;
    }

-- The two lists that a snap reports are the EPCs that it holds and the table did not show, and those
-- that the table showed and it does not hold.
pub settle_snap_reports :
    (scope : Scope) (at : ℤ) (entries : List Entry) (db : Db) (e : Text)
    → IsConsistent db
    → (contains e (settle_snap scope at entries db).1
        ≡ contains e (epcs_in entries) && not (is_present db.table (scope, e)))
      × (contains e (settle_snap scope at entries db).2
          ≡ is_present db.table (scope, e) && not (contains e (epcs_in entries)))
unfolding settle_snap
settle_snap_reports scope at entries db e c = (
  contains-appeared scope entries db.table e c.distinct,
  contains-gone scope entries db.table e c.distinct,
)
