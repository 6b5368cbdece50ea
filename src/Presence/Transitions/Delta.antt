-- ===== src/Presence/Transitions/Delta.antt =====
-- What the appearance and the disappearance of one EPC do to the table and to the events.
use mathlib.Core.Option
use tag_pulse.Prelude.{
  ℤ, ◌≡◌, refl, Bool, true, false, ◌&&◌, ◌||◌, not, Option, none, some, [], ◌∷◌, arith,
  if◌then◌else◌, ◌==◌, pair_eq, list_eq, nat_eq, pair_beq_iff, Bool-cases, Option-cases, inl, inr,
  ◌⊎◌, nat_ord, list_ord,
}
use tag_pulse.Dict.{Dict, Distinct, lookup}
use tag_pulse.Dict.Laws.{map_values-Distinct, lookup-map_values}
use tag_pulse.Wire.Epc.{Text}
use tag_pulse.Wire.Message.{Entry}
use tag_pulse.Presence.{
  Scope, PresenceKey, Row, Status, present, gone, Source, from_delta, Topic, tag_appeared,
  tag_disappeared, Db, emit, upsert, settle_appeared, settle_disappeared, settle_by_status,
  is_transition, publish, set_row, prior_status,
}
use tag_pulse.Presence.View.{is_present, shows, is_present-upsert, upsert-Distinct}
use tag_pulse.Presence.Events.{replay, follow, replay-append}
use tag_pulse.Presence.Transitions.{IsConsistent, Applied}

is_transition-prior :
    (scope : Scope) (epc : Text) (db : Db)
    → is_transition (prior_status scope epc db) ≡ not (is_present db.table (scope, epc))
unfolding is_present prior_status
is_transition-prior scope epc db = ground arith

-- One event about one key, at the end of the log.
replay-publish :
    (topic : Topic) (scope : Scope) (at : ℤ) (source : Source) (epc : Text) (known : Bool)
    (key : PresenceKey)
    → replay known (emit topic scope at source epc ∷ []) key
      ≡ (if (scope, epc) == key then follow topic known else some known)
unfolding replay
replay-publish topic scope at source epc known key = ground arith

abbrev shown_by : Topic → Bool
shown_by tag_appeared = true
shown_by tag_disappeared = false

-- A write to the row of one key, with an event if what it shows changes.
module _ (scope : Scope) (at : ℤ) (epc : Text) (db : Db) (table : Dict PresenceKey Row) where
  silent-IsConsistent :
      IsConsistent db
      → Distinct table
      → ((key : PresenceKey) → is_present table key ≡ is_present db.table key)
      → IsConsistent (record db { table = table })
  silent-IsConsistent c d same = record {
    distinct = d;
    replayed = λ key. ground (arith, c.replayed key, same key);
  }

  publish-IsConsistent :
      (topic : Topic)
      → IsConsistent db
      → Distinct table
      → ((key : PresenceKey)
          → is_present table key
            ≡ (if (scope, epc) == key then shown_by topic else is_present db.table key))
      → is_present db.table (scope, epc) ≡ not (shown_by topic)
      → IsConsistent (publish (emit topic scope at from_delta epc) (record db { table = table }))
  publish-IsConsistent topic c d shown before = record {
    distinct = d;
    replayed = λ key. ground (
      arith,
      replay-append false db.published (emit topic scope at from_delta epc ∷ []) key,
      c.replayed key,
      replay-publish topic scope at from_delta epc (is_present db.table key) key,
      shown key,
      pair_beq_iff (scope, epc) key,
    );
  }

-- A `t=1`, where table and events agreed before it: its EPC is shown, nothing else changes in what
-- the table shows, and they agree again.
pub settle_appeared_lem :
    (scope : Scope) (at : ℤ) (entry : Entry) (db : Db)
    → IsConsistent db
    → Applied
        (settle_appeared scope at entry db).0
        (λ key. (scope, entry.epc) == key || is_present db.table key)
unfolding settle_appeared
settle_appeared_lem scope at entry db c =
    let written = upsert scope at entry.epc entry.rssi entry.an db.table in
    let d = upsert-Distinct scope at entry.epc entry.rssi entry.an db.table c.distinct in
    let shown = is_present-upsert scope at entry.epc entry.rssi entry.an db.table in
    elim (Bool-cases (is_present db.table (scope, entry.epc))) [
      | inl old ↦
          rw (is_transition-prior scope entry.epc db, old)
            (record {
              consistent =
                  silent-IsConsistent scope at entry.epc db written c d
                    (λ key. ground (arith, shown key, pair_beq_iff (scope, entry.epc) key));
              shown = shown;
            })
      | inr new ↦
          rw (is_transition-prior scope entry.epc db, new)
            (record {
              consistent =
                  publish-IsConsistent scope at entry.epc db written tag_appeared c d
                    (λ key. ground (arith, shown key)) new;
              shown = shown;
            })
    ]

-- A t=2 is told apart by the status before: no row, a row that is shown, a row that is not.
prior_status-cases :
    (scope : Scope) (epc : Text) (db : Db)
    → ((prior_status scope epc db ≡ none) × (is_present db.table (scope, epc) ≡ false))
      ⊎ ((prior_status scope epc db ≡ some present) × (is_present db.table (scope, epc) ≡ true))
      ⊎ ((prior_status scope epc db ≡ some gone) × (is_present db.table (scope, epc) ≡ false))
unfolding is_present prior_status
prior_status-cases scope epc db = elim (Option-cases (lookup (scope, epc) db.table)) [
  | inl e ↦ inl (ground arith)
  | inr (row, e) ↦ by_status row row.status refl e
]
  where
    by_status :
        (row : Row) (status : Status)
        → row.status ≡ status
        → lookup (scope, epc) db.table ≡ some row
        → ((prior_status scope epc db ≡ none) × (is_present db.table (scope, epc) ≡ false))
          ⊎ ((prior_status scope epc db ≡ some present) × (is_present db.table (scope, epc) ≡ true))
          ⊎ ((prior_status scope epc db ≡ some gone) × (is_present db.table (scope, epc) ≡ false))
    by_status row present s e = inr (inl (ground arith))
    by_status row gone s e = inr (inr (ground arith))

-- An update of one row that sets `shows` to `after`, where there is a row.
is_present-set_row :
    (scope : Scope) (epc : Text) (f : Row → Row) (after : Bool) (db : Db) (key : PresenceKey)
    → ((row : Row) → shows (some (f row)) ≡ (if after then shows (some row) else false))
    → is_present (set_row scope epc f db).table key ≡ (
        if (scope, epc) == key
        then (if after then is_present db.table key else false)
        else is_present db.table key)
unfolding is_present
is_present-set_row scope epc f after db key h =
    rw (lookup-map_values (λ k row. if k == (scope, epc) then f row else row) key db.table)
      (by_row (lookup key db.table))
  where
    by_row :
        (o : Option Row)
        → shows (Option.map (λ row. if key == (scope, epc) then f row else row) o)
          ≡ (if (scope, epc) == key then (if after then shows o else false) else shows o)
    by_row none = ground arith
    by_row (some row) =
        ground (arith, h row, pair_beq_iff key (scope, epc), pair_beq_iff (scope, epc) key)

-- A `t=2`, where table and events agreed before it: its EPC is not shown, nothing else changes in
-- what the table shows, and they agree again.
pub settle_disappeared_lem :
    (scope : Scope) (at : ℤ) (epc : Text) (db : Db)
    → IsConsistent db
    → Applied
        (settle_disappeared scope at epc db).0
        (λ key. not ((scope, epc) == key) && is_present db.table key)
unfolding settle_disappeared settle_by_status
settle_disappeared_lem scope at epc db c = elim (prior_status-cases scope epc db) [
  | inl (e, n) ↦
      rw e
        (record { consistent = c; shown = λ key. ground (arith, n, pair_beq_iff (scope, epc) key) })
  | inr (inl (e, n)) ↦ rw e (
      let shown = λ (key : PresenceKey).
        is_present-set_row scope epc (λ row. record row { status = gone; last_seen = at }) false db
          key (λ row. refl) in
      record {
        consistent =
            publish-IsConsistent scope at epc db
              (set_row scope epc (λ row. record row { status = gone; last_seen = at }) db).table
              tag_disappeared c (map_values-Distinct _ db.table c.distinct)
              (λ key. ground (arith, shown key)) n;
        shown = λ key. ground (arith, shown key);
      })
  | inr (inr (e, n)) ↦ rw e (
      let shown = λ (key : PresenceKey).
        is_present-set_row scope epc (λ row. record row { last_seen = at }) true db key
          (λ row. refl) in
      record {
        consistent =
            silent-IsConsistent scope at epc db
              (set_row scope epc (λ row. record row { last_seen = at }) db).table c
              (map_values-Distinct _ db.table c.distinct) (λ key. ground (arith, shown key));
        shown = λ key. ground (arith, shown key, n, pair_beq_iff (scope, epc) key);
      })
]
