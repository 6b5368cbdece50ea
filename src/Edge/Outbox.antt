-- ===== src/Edge/Outbox.antt =====
-- `Outbox` of clients/pi/tagpulse_edge/buffer.py. The table is the list of its rows by id, which
-- AUTOINCREMENT never gives twice; instants are ticks of the monotonic clock and a payload is its
-- JSON text. Every method holds the lock, so that calls follow one another.
pub mod Order
pub mod Acknowledged
use tag_pulse.Prelude.{
  ℕ, ◌+◌, ◌-◌, ◌≤◌, Bool, true, false, ◌&&◌, ◌||◌, not, List, [], ◌∷◌, ◌++◌, ltb, nat_beq,
  if◌then◌else◌, length, take, drop, keep, any, map, String, string_eq, ◌==◌,
}

pub record Row : Type 0 where
  pub id : ℕ
  pub kind : String
  pub topic : String
  pub payload_json : String
  pub enqueued_at : ℕ

-- The table with the next id. The constructor refuses a max_rows of 0; a max_age of 0 is no limit.
pub record Outbox : Type 0 where
  pub rows : List Row
  pub next_id : ℕ
  pub max_rows : ℕ
  pub max_age : ℕ

pub record OutboundEvent : Type 0 where
  pub kind : String
  pub topic : String
  pub payload : String
  pub enqueued_at : ℕ
  pub rowid : ℕ

-- DELETE … WHERE enqueued_at < now - max_age
unfoldable pub evict_aged : ℕ → ℕ → List Row → List Row
evict_aged max_age now rows =
    if ltb 0 max_age then keep (λ row. not (ltb (row.enqueued_at + max_age) now)) rows else rows

-- DELETE of the `count - max_rows` lowest ids
unfoldable pub evict_overflow : ℕ → List Row → List Row
evict_overflow max_rows rows =
    if ltb max_rows (length rows) then drop (length rows - max_rows) rows else rows

abbrev pub new_row : String → String → String → ℕ → Outbox → Row
new_row kind topic payload enqueued_at outbox = record {
  id = outbox.next_id;
  kind = kind;
  topic = topic;
  payload_json = payload;
  enqueued_at = enqueued_at;
}

unfoldable pub put : String → String → String → ℕ → ℕ → Outbox → Outbox
put kind topic payload enqueued_at now outbox = record {
  rows = evict_overflow outbox.max_rows (
      evict_aged outbox.max_age now
        (outbox.rows ++ new_row kind topic payload enqueued_at outbox ∷ []));
  next_id = outbox.next_id + 1;
  max_rows = outbox.max_rows;
  max_age = outbox.max_age;
}

-- The number of rows deleted, and the table: one DELETE for each id.
unfoldable pub ack : List ℕ → Outbox → ℕ × Outbox
ack [] outbox = (0, outbox)
ack (rowid ∷ rowids) outbox =
    let left = keep (λ row. not (nat_beq row.id rowid)) outbox.rows in
    let (deleted, done) = ack rowids (record outbox { rows = left }) in
    (length outbox.rows - length left + deleted, done)

-- `_validate_kind`: an unknown kind reads as "events".
unfoldable pub validate_kind : String → String
validate_kind value =
    if any (λ kind. kind == value)
      ("tag-reads" ∷ "telemetry" ∷ "location" ∷ "status" ∷ "events" ∷ [])
    then value
    else "events"

abbrev pub outbound : Row → OutboundEvent
outbound row = record {
  kind = validate_kind row.kind;
  topic = row.topic;
  payload = row.payload_json;
  enqueued_at = row.enqueued_at;
  rowid = row.id;
}

unfoldable pub peek : ℕ → Outbox → List OutboundEvent
peek limit outbox = map outbound (take limit outbox.rows)

unfoldable pub depth : Outbox → ℕ
depth outbox = length outbox.rows
