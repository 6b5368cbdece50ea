-- ===== src/Presence.antt =====
-- The presence table and its reconciler (src/tagpulse/ingestion/presence_reconciler.py). The table
-- is keyed by its unique index, (tenant, device) and EPC; an instant is in milliseconds since the
-- epoch. Published events are a log, in the order of publication.
pub mod View
pub mod Events
pub mod Transitions
use mathlib.Core.List.{foldl}
use tag_pulse.Prelude.{
  ℕ, ◌+◌, ℤ, pos, Bool, true, false, ◌&&◌, not, Option, none, some, List, [], ◌∷◌, ◌++◌, map,
  Result, ok, err, ◌>>=◌, ◌>>◌, guard, ltb_ℤ, if◌then◌else◌, keep, contains, dedup, sorted, Eq,
  ◌==◌, pair_eq, list_eq, nat_eq, nat_ord, list_ord,
}
use tag_pulse.Dict.{Dict, insert, lookup, keys, map_values}
use tag_pulse.Wire.Epc.{Text}
use tag_pulse.Wire.Message.{Entry, Envelope}

-- (tenant, device)
abbrev pub Scope : Type 0
Scope = ℕ × ℕ

abbrev pub PresenceKey : Type 0
PresenceKey = Scope × Text

pub data Status : Type 0 where
  present gone : Status

pub record Row : Type 0 where
  pub first_seen : ℤ
  pub last_seen : ℤ
  pub status : Status
  pub last_rssi : ℤ
  pub last_antenna : ℤ

pub data Topic : Type 0 where
  tag_appeared tag_disappeared : Topic

pub data Source : Type 0 where
  from_delta from_snap : Source

pub record PresenceEvent : Type 0 where
  pub topic : Topic
  pub scope : Scope
  pub epc : Text
  pub observed_at : ℤ
  pub source : Source

pub record Db : Type 0 where
  pub table : Dict PresenceKey Row
  pub published : List PresenceEvent

pub data PresenceError : Type 0 where
  timestamp_outside : PresenceError

-- The first instant that `datetime` cannot hold, 10000-01-01T00:00:00Z.
abbrev pub max_ts_ms : ℤ
max_ts_ms = pos 253402300800000

unfoldable pub ts_to_datetime : ℤ → Result PresenceError ℤ
ts_to_datetime ts = do guard (ltb_ℤ ts max_ts_ms) timestamp_outside; ok ts

abbrev pub is_present_status : Status → Bool
is_present_status present = true
is_present_status gone = false

abbrev pub emit : Topic → Scope → ℤ → Source → Text → PresenceEvent
emit topic scope at source epc = record {
  topic = topic;
  scope = scope;
  epc = epc;
  observed_at = at;
  source = source;
}

-- One round of the loop: the entry with the strongest signal stays.
unfoldable pub collapse_entry : Dict Text (ℤ × ℤ) → Entry → Dict Text (ℤ × ℤ)
collapse_entry out entry = elim (lookup entry.epc out) [
  | none ↦ insert entry.epc (entry.rssi, entry.an) out
  | some existing ↦
      if ltb_ℤ existing.0 entry.rssi then insert entry.epc (entry.rssi, entry.an) out else out
]

unfoldable pub collapse_snap_entries : List Entry → Dict Text (ℤ × ℤ)
collapse_snap_entries = foldl collapse_entry []

-- SELECT epc … WHERE status = 'present'
abbrev pub is_present_in : Scope → PresenceKey → Row → Bool
is_present_in scope key row = key.0 == scope && is_present_status row.status

unfoldable pub select_present : Scope → Dict PresenceKey Row → List Text
select_present scope [] = []
select_present scope ((key, row) ∷ table) =
    let rest = select_present scope table in
    if is_present_in scope key row then key.1 ∷ rest else rest

-- INSERT … ON CONFLICT DO UPDATE: `first_seen` is set by the insert alone.
abbrev pub upserted : ℤ → ℤ → ℤ → Option Row → Row
upserted at rssi an none = record {
  first_seen = at;
  last_seen = at;
  status = present;
  last_rssi = rssi;
  last_antenna = an;
}
upserted at rssi an (some row) = record row {
  last_seen = at;
  status = present;
  last_rssi = rssi;
  last_antenna = an;
}

unfoldable pub upsert : Scope → ℤ → Text → ℤ → ℤ → Dict PresenceKey Row → Dict PresenceKey Row
upsert scope at epc rssi an table =
    insert (scope, epc) (upserted at rssi an (lookup (scope, epc) table)) table

unfoldable pub upsert_all :
    Scope → ℤ → Dict Text (ℤ × ℤ) → Dict PresenceKey Row → Dict PresenceKey Row
upsert_all scope at [] table = table
upsert_all scope at ((epc, reading) ∷ snap) table =
    upsert_all scope at snap (upsert scope at epc reading.0 reading.1 table)

-- UPDATE … SET status = 'gone' WHERE epc IN (…) AND status = 'present'
abbrev pub gone_if_listed : Scope → ℤ → List Text → PresenceKey → Row → Row
gone_if_listed scope at epcs key row =
    if is_present_in scope key row && contains key.1 epcs
    then record row { status = gone; last_seen = at }
    else row

unfoldable pub mark_gone : Scope → ℤ → List Text → Dict PresenceKey Row → Dict PresenceKey Row
mark_gone scope at epcs table = map_values (gone_if_listed scope at epcs) table

-- sorted(a - b)
abbrev pub difference : List Text → List Text → List Text
difference a b = sorted (keep (λ e. not (contains e b)) a)

-- The body of a snap, at the instant of its message: the new state, the EPCs that appeared and
-- those that disappeared.
unfoldable pub settle_snap : Scope → ℤ → List Entry → Db → Db × List Text × List Text
settle_snap scope at entries db =
    let snap_state = collapse_snap_entries entries in
    let present_epcs = dedup (select_present scope db.table) in
    let gone_epcs = difference present_epcs (keys snap_state) in
    let appeared_epcs = difference (keys snap_state) present_epcs in
    (
      record {
        table = mark_gone scope at gone_epcs (upsert_all scope at snap_state db.table);
        published =
            db.published
            ++ (map (emit tag_appeared scope at from_snap) appeared_epcs
                ++ map (emit tag_disappeared scope at from_snap) gone_epcs);
      },
      appeared_epcs,
      gone_epcs,
    )

unfoldable pub reconcile_snap :
    Scope → Envelope → List Entry → Db → Result PresenceError (Db × List Text × List Text)
reconcile_snap scope env entries db = do
  at ← ts_to_datetime env.ts
  ok (settle_snap scope at entries db)

-- The status of the row, if there is one.
unfoldable pub prior_status : Scope → Text → Db → Option Status
prior_status scope epc db = elim (lookup (scope, epc) db.table) [
  | none ↦ none
  | some row ↦ some row.status
]

abbrev pub publish : PresenceEvent → Db → Db
publish event db = record db { published = db.published ++ event ∷ [] }

abbrev pub is_transition : Option Status → Bool
is_transition none = true
is_transition (some present) = false
is_transition (some gone) = true

unfoldable pub settle_appeared : Scope → ℤ → Entry → Db → Db × Bool
settle_appeared scope at entry db =
    let written : Db = record db {
      table = upsert scope at entry.epc entry.rssi entry.an db.table;
    } in
    if is_transition (prior_status scope entry.epc db)
    then (publish (emit tag_appeared scope at from_delta entry.epc) written, true)
    else (written, false)

unfoldable pub apply_appeared : Scope → Envelope → Entry → Db → Result PresenceError (Db × Bool)
apply_appeared scope env entry db = do
  at ← ts_to_datetime env.ts
  ok (settle_appeared scope at entry db)

-- `UPDATE` of the row of one EPC.
abbrev pub set_row : Scope → Text → (Row → Row) → Db → Db
set_row scope epc f db = record db {
  table = map_values (λ key row. if key == (scope, epc) then f row else row) db.table;
}

-- Never seen: nothing. Already gone: `last_seen` alone. Present: the transition.
unfoldable pub settle_by_status : Option Status → Scope → ℤ → Text → Db → Db × Bool
settle_by_status none scope at epc db = (db, false)
settle_by_status (some gone) scope at epc db =
    (set_row scope epc (λ row. record row { last_seen = at }) db, false)
settle_by_status (some present) scope at epc db = (
  publish (emit tag_disappeared scope at from_delta epc)
      (set_row scope epc (λ row. record row { status = gone; last_seen = at }) db),
  true,
)

unfoldable pub settle_disappeared : Scope → ℤ → Text → Db → Db × Bool
settle_disappeared scope at epc db = settle_by_status (prior_status scope epc db) scope at epc db

unfoldable pub apply_disappeared : Scope → Envelope → Text → Db → Result PresenceError (Db × Bool)
apply_disappeared scope env epc db = do
  at ← ts_to_datetime env.ts
  ok (settle_disappeared scope at epc db)
