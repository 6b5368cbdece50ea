-- ===== src/Usage.antt =====
-- `UsageMeter` of src/tagpulse/core/usage_meter.py: counts in a buffer, flushed to the table
-- tenant_usage_detail. A flush awaits the database, so it is two steps, and other calls run between
-- them. Tenants and days are numbers.
pub mod Conservation
use tag_pulse.Prelude.{
  ℕ, ◌+◌, Bool, Option, none, some, List, [], ◌∷◌, String, string_eq, nat_eq, pair_eq, ◌==◌,
  if◌then◌else◌, leb, Eq,
}
use tag_pulse.Dict.{Dict, lookup, insert}

-- (tenant_id, dimension, unit)
abbrev pub BufferKey : Type 0
BufferKey = ℕ × (String × String)

-- (tenant_id, usage_date, dimension), the table's unique index
abbrev pub RowKey : Type 0
RowKey = ℕ × (ℕ × String)

pub record UsageRow : Type 0 where
  pub quantity : ℕ
  pub unit : String

-- `in_flight` is the snapshot of a flush that awaits the database.
pub record UsageMeter : Type 0 where
  pub buffer : Dict BufferKey ℕ
  pub in_flight : Option (Dict BufferKey ℕ)
  pub detail : Dict RowKey UsageRow

-- buffer[key] += count, of a defaultdict
unfoldable pub add_count : BufferKey → ℕ → Dict BufferKey ℕ → Dict BufferKey ℕ
add_count key count [] = (key, count) ∷ []
add_count key count ((k, n) ∷ buffer) =
    let rest = add_count key count buffer in
    if k == key then (k, n + count) ∷ buffer else (k, n) ∷ rest

unfoldable pub put_back : Dict BufferKey ℕ → Dict BufferKey ℕ → Dict BufferKey ℕ
put_back [] buffer = buffer
put_back ((key, count) ∷ snapshot) buffer = put_back snapshot (add_count key count buffer)

-- INSERT … ON CONFLICT DO UPDATE SET quantity = quantity + :qty
unfoldable pub add_row : RowKey → ℕ → String → Dict RowKey UsageRow → Dict RowKey UsageRow
add_row key count unit [] = (key, record { quantity = count; unit = unit }) ∷ []
add_row key count unit ((k, row) ∷ detail) =
    let rest = add_row key count unit detail in
    if k == key
    then (k, record row { quantity = row.quantity + count }) ∷ detail
    else (k, row) ∷ rest

unfoldable pub store_counts : ℕ → Dict BufferKey ℕ → Dict RowKey UsageRow → Dict RowKey UsageRow
store_counts day [] detail = detail
store_counts day ((key, count) ∷ snapshot) detail =
    store_counts day snapshot (add_row (key.0, (day, key.1.0)) count key.1.1 detail)

unfoldable pub record_usage : BufferKey → ℕ → UsageMeter → UsageMeter
record_usage key count meter = record meter { buffer = add_count key count meter.buffer }

-- INSERT … ON CONFLICT DO UPDATE SET quantity = :qty, unit = :unit; a failure changes nothing.
unfoldable pub record_snapshot : Bool → RowKey → UsageRow → UsageMeter → UsageMeter
record_snapshot stored key row meter =
    if stored then record meter { detail = insert key row meter.detail } else meter

-- _flush up to its first await; nothing where the buffer is empty, or where a flush runs, since only
-- one does.
unfoldable pub begin_flush : UsageMeter → UsageMeter
begin_flush meter = elim meter.in_flight [
  | some snapshot ↦ meter
  | none ↦ elim meter.buffer [
    | [] ↦ meter
    | entry ∷ buffer ↦ record meter { buffer = []; in_flight = some (entry ∷ buffer) }
  ]
]

-- The rest of _flush, in one transaction: it is stored, or an exception puts the counts back.
unfoldable pub end_flush : Bool → ℕ → UsageMeter → UsageMeter
end_flush stored day meter = elim meter.in_flight [
  | none ↦ meter
  | some snapshot ↦
      if stored
      then record meter { in_flight = none; detail = store_counts day snapshot meter.detail }
      else record meter { in_flight = none; buffer = put_back snapshot meter.buffer }
]

-- The calls and the steps of flushes, in the order in which they run; a flush is not cancelled.
pub data Action : Type 0 where
  counting : BufferKey → ℕ → Action
  gauging : Bool → RowKey → UsageRow → Action
  starting : Action
  ending : Bool → ℕ → Action

unfoldable pub perform : Action → UsageMeter → UsageMeter
perform (counting key count) meter = record_usage key count meter
perform (gauging stored key row) meter = record_snapshot stored key row meter
perform starting meter = begin_flush meter
perform (ending stored day) meter = end_flush stored day meter

unfoldable pub perform_all : List Action → UsageMeter → UsageMeter
perform_all [] meter = meter
perform_all (action ∷ actions) meter = perform_all actions (perform action meter)
