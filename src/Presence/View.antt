-- ===== src/Presence/View.antt =====
-- What the presence table shows of one key, and how each statement on it changes that.
use mathlib.Core.List.{foldl}
use tag_pulse.Prelude.{
  ℤ, ◌≡◌, refl, Bool, false, ◌&&◌, ◌||◌, not, Option, none, some, List, [], ◌∷◌, map, arith, keep,
  contains, ◌==◌, pair_eq, list_eq, nat_eq, list_beq_iff, pair_beq_iff, contains-sorted,
  contains-keep, nat_ord, list_ord,
}
use tag_pulse.Dict.{Dict, lookup, has_key, Distinct}
use tag_pulse.Dict.Laws.{
  lookup-insert, lookup-map_values, insert-Distinct, map_values-Distinct, has_key-insert,
  has_key-lookup,
}
use tag_pulse.Wire.Epc.{Text}
use tag_pulse.Wire.Message.{Entry}
use tag_pulse.Presence.{
  Scope, PresenceKey, Row, is_present_status, select_present, upsert, upserted, upsert_all,
  mark_gone, gone_if_listed, collapse_entry, collapse_snap_entries, difference,
}

abbrev pub shows : Option Row → Bool
shows none = false
shows (some row) = is_present_status row.status

-- Whether the table holds the key as present.
unfoldable pub is_present : Dict PresenceKey Row → PresenceKey → Bool
is_present table key = shows (lookup key table)

pub is_present-upsert :
    (scope : Scope) (at : ℤ) (epc : Text) (rssi an : ℤ) (table : Dict PresenceKey Row)
    (key : PresenceKey)
    → is_present (upsert scope at epc rssi an table) key
      ≡ ((scope, epc) == key || is_present table key)
unfolding is_present upsert
is_present-upsert scope at epc rssi an table key =
    rw (lookup-insert key (scope, epc) (upserted at rssi an (lookup (scope, epc) table)) table)
      (ground (arith))

pub is_present-upsert_all :
    (scope : Scope) (at : ℤ) (snap : Dict Text (ℤ × ℤ)) (table : Dict PresenceKey Row)
    (key : PresenceKey)
    → is_present (upsert_all scope at snap table) key
      ≡ (scope == key.0 && has_key key.1 snap || is_present table key)
unfolding upsert_all has_key
is_present-upsert_all scope at [] table key = ground arith
is_present-upsert_all scope at ((epc, r) ∷ snap) table key = ground (
  arith,
  is_present-upsert_all scope at snap (upsert scope at epc r.0 r.1 table) key,
  is_present-upsert scope at epc r.0 r.1 table key,
)

pub is_present-mark_gone :
    (scope : Scope) (at : ℤ) (epcs : List Text) (table : Dict PresenceKey Row) (key : PresenceKey)
    → is_present (mark_gone scope at epcs table) key
      ≡ is_present table key && not (key.0 == scope && contains key.1 epcs)
unfolding is_present mark_gone
is_present-mark_gone scope at epcs table key =
    ground (arith, lookup-map_values (gone_if_listed scope at epcs) key table)

pub contains-select_present :
    (scope : Scope) (table : Dict PresenceKey Row) (epc : Text)
    → Distinct table
    → contains epc (select_present scope table) ≡ is_present table (scope, epc)
unfolding select_present is_present lookup
contains-select_present scope [] epc h = refl
contains-select_present scope ((key, row) ∷ table) epc h = ground (
  arith,
  contains-select_present scope table epc,
  has_key-lookup key table,
  pair_beq_iff key (scope, epc),
  pair_beq_iff key.0 scope,
  list_beq_iff epc key.1,
)

pub has_key-collapse_entry :
    (epc : Text) (out : Dict Text (ℤ × ℤ)) (entry : Entry)
    → has_key epc (collapse_entry out entry) ≡ (entry.epc == epc || has_key epc out)
unfolding collapse_entry
has_key-collapse_entry epc out entry = ground (
  arith,
  has_key-insert epc entry.epc (entry.rssi, entry.an) out,
  has_key-lookup entry.epc out,
  list_beq_iff entry.epc epc,
)

abbrev pub epcs_in : List Entry → List Text
epcs_in = map (λ x. x.epc)

has_key-foldl :
    (epc : Text) (entries : List Entry) (out : Dict Text (ℤ × ℤ))
    → has_key epc (foldl collapse_entry out entries)
      ≡ (contains epc (epcs_in entries) || has_key epc out)
has_key-foldl epc [] out = refl
has_key-foldl epc (x ∷ entries) out = ground (
  arith,
  has_key-foldl epc entries (collapse_entry out x),
  has_key-collapse_entry epc out x,
  list_beq_iff x.epc epc,
  list_beq_iff epc x.epc,
)

pub has_key-collapse_snap_entries :
    (epc : Text) (entries : List Entry)
    → has_key epc (collapse_snap_entries entries) ≡ contains epc (epcs_in entries)
unfolding collapse_snap_entries has_key
has_key-collapse_snap_entries epc entries = ground (arith, has_key-foldl epc entries [])

pub contains-difference :
    (e : Text) (a b : List Text) → contains e (difference a b) ≡ contains e a && not (contains e b)
contains-difference e a b = ground (
  arith,
  contains-sorted e (keep (λ x. not (contains x b)) a),
  contains-keep (λ x. not (contains x b)) e a,
)

pub upsert-Distinct :
    (scope : Scope) (at : ℤ) (epc : Text) (rssi an : ℤ) (table : Dict PresenceKey Row)
    → Distinct table
    → Distinct (upsert scope at epc rssi an table)
unfolding upsert
upsert-Distinct scope at epc rssi an table h =
    insert-Distinct (scope, epc) (upserted at rssi an (lookup (scope, epc) table)) table h

pub upsert_all-Distinct :
    (scope : Scope) (at : ℤ) (snap : Dict Text (ℤ × ℤ)) (table : Dict PresenceKey Row)
    → Distinct table
    → Distinct (upsert_all scope at snap table)
unfolding upsert_all
upsert_all-Distinct scope at [] table h = h
upsert_all-Distinct scope at ((epc, r) ∷ snap) table h =
    upsert_all-Distinct scope at snap (upsert scope at epc r.0 r.1 table)
      (upsert-Distinct scope at epc r.0 r.1 table h)

pub mark_gone-Distinct :
    (scope : Scope) (at : ℤ) (epcs : List Text) (table : Dict PresenceKey Row)
    → Distinct table
    → Distinct (mark_gone scope at epcs table)
unfolding mark_gone
mark_gone-Distinct scope at epcs table h =
    map_values-Distinct (gone_if_listed scope at epcs) table h

collapse_entry-Distinct :
    (out : Dict Text (ℤ × ℤ)) (x : Entry) → Distinct out → Distinct (collapse_entry out x)
unfolding collapse_entry
collapse_entry-Distinct out x h = ground (arith, insert-Distinct x.epc (x.rssi, x.an) out h)

foldl-Distinct :
    (entries : List Entry) (out : Dict Text (ℤ × ℤ))
    → Distinct out
    → Distinct (foldl collapse_entry out entries)
foldl-Distinct [] out h = h
foldl-Distinct (x ∷ entries) out h =
    foldl-Distinct entries (collapse_entry out x) (collapse_entry-Distinct out x h)

pub collapse_snap_entries-Distinct :
    (entries : List Entry) → Distinct (collapse_snap_entries entries)
unfolding collapse_snap_entries
collapse_snap_entries-Distinct entries = foldl-Distinct entries [] tt
