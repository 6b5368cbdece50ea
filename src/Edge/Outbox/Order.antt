-- ===== src/Edge/Outbox/Order.antt =====
-- Every run of the outbox of clients/pi/tagpulse_edge/buffer.py: order, bound, and what was
-- acknowledged.
use tag_pulse.Prelude.{
  ℕ, zero, suc, ◌+◌, ◌-◌, ◌≤◌, Bool, true, not, List, [], ◌∷◌, ◌++◌, ltb, nat_beq, length,
  length-append, length-drop, length-keep-le, drop, keep, nat_eq, String, ◌≡◌, refl, ap, ◌∙◌, arith,
  inl, inr, ◌⊎◌, Bool-cases,
}
use tag_pulse.Edge.Outbox.{Row, Outbox, evict_aged, evict_overflow, new_row, put, ack}

-- The calls that change an outbox, with the instant that an eviction reads.
pub data Call : Type 0 where
  putting : String → String → String → ℕ → ℕ → Call
  acking : List ℕ → Call

unfoldable pub perform : Call → Outbox → Outbox
perform (putting kind topic payload enqueued_at now) outbox =
    put kind topic payload enqueued_at now outbox
perform (acking rowids) outbox = (ack rowids outbox).1

unfoldable pub perform_all : List Call → Outbox → Outbox
perform_all [] outbox = outbox
perform_all (call ∷ calls) outbox = perform_all calls (perform call outbox)

-- The ids ascend, from `low` on, below `high`.
pub data Ascending : ℕ → ℕ → List Row → Type 0 where
  ended : {low high : ℕ} → low ≤ high → Ascending low high []
  next :
      {low high : ℕ} (row : Row) {rows : List Row}
      → low ≤ row.id
      → Ascending (row.id + 1) high rows
      → Ascending low high (row ∷ rows)

lower :
    {low other high : ℕ} {rows : List Row}
    → other ≤ low
    → Ascending low high rows
    → Ascending other high rows
lower h (ended g) = ended (omega arith)
lower h (next row g rest) = next row (omega arith) rest

keep-Ascending :
    (p : Row → Bool) {low high : ℕ} {rows : List Row}
    → Ascending low high rows
    → Ascending low high (keep p rows)
keep-Ascending p (ended g) = ended g
keep-Ascending p (next row g rest) = elim (Bool-cases (p row)) [
  | inl kept ↦ rw kept (next row g (keep-Ascending p rest))
  | inr out ↦ rw out (lower (omega arith) (keep-Ascending p rest))
]

drop-Ascending :
    (n : ℕ) {low high : ℕ} {rows : List Row}
    → Ascending low high rows
    → Ascending low high (drop n rows)
drop-Ascending zero a = a
drop-Ascending (suc n) (ended g) = ended g
drop-Ascending (suc n) (next row g rest) = lower (omega arith) (drop-Ascending n rest)

snoc-Ascending :
    {low high : ℕ} {rows : List Row} (row : Row)
    → row.id ≡ high
    → Ascending low high rows
    → Ascending low (high + 1) (rows ++ row ∷ [])
snoc-Ascending row same (ended g) = next row (omega arith) (ended (omega arith))
snoc-Ascending row same (next first g rest) = next first g (snoc-Ascending row same rest)

-- The rows stand by ascending id, all ids have been given out, and no more rows than allowed.
pub record IsSound (outbox : Outbox) : Type 0 where
  pub ordered : Ascending 0 outbox.next_id outbox.rows
  pub bounded : length outbox.rows ≤ outbox.max_rows
  pub positive : 1 ≤ outbox.max_rows

evict_aged-Ascending :
    (max_age now : ℕ) {high : ℕ} (rows : List Row)
    → Ascending 0 high rows
    → Ascending 0 high (evict_aged max_age now rows)
unfolding evict_aged
evict_aged-Ascending max_age now rows a = elim (Bool-cases (ltb 0 max_age)) [
  | inl aged ↦ rw aged (keep-Ascending _ a)
  | inr ageless ↦ rw ageless a
]

evict_overflow-Ascending :
    (max_rows : ℕ) {high : ℕ} (rows : List Row)
    → Ascending 0 high rows
    → Ascending 0 high (evict_overflow max_rows rows)
unfolding evict_overflow
evict_overflow-Ascending max_rows rows a = elim (Bool-cases (ltb max_rows (length rows))) [
  | inl over ↦ rw over (drop-Ascending _ a)
  | inr within ↦ rw within a
]

length-evict_overflow-le :
    (max_rows : ℕ) (rows : List Row) → length (evict_overflow max_rows rows) ≤ max_rows
unfolding evict_overflow
length-evict_overflow-le max_rows rows = ground (arith, length-drop (length rows - max_rows) rows)

ack-IsSound : (rowids : List ℕ) (outbox : Outbox) → IsSound outbox → IsSound (ack rowids outbox).1
unfolding ack
ack-IsSound [] outbox s = s
ack-IsSound (rowid ∷ rowids) outbox s =
    ack-IsSound rowids
      (record outbox { rows = keep (λ row. not (nat_beq row.id rowid)) outbox.rows })
      (record {
        ordered = keep-Ascending _ s.ordered;
        bounded =
            omega
              (arith, s.bounded, length-keep-le (λ row. not (nat_beq row.id rowid)) outbox.rows);
        positive = s.positive;
      })

perform-IsSound : (call : Call) (outbox : Outbox) → IsSound outbox → IsSound (perform call outbox)
unfolding perform put
perform-IsSound (putting kind topic payload enqueued_at now) outbox s = record {
  ordered = evict_overflow-Ascending outbox.max_rows _ (
      evict_aged-Ascending outbox.max_age now _
        (snoc-Ascending (new_row kind topic payload enqueued_at outbox) refl s.ordered));
  bounded = length-evict_overflow-le outbox.max_rows _;
  positive = s.positive;
}
perform-IsSound (acking rowids) outbox s = ack-IsSound rowids outbox s

-- Whatever is put and acknowledged, the rows stay in the order in which they were put and no more
-- than max_rows of them are kept.
pub perform_all-IsSound :
    (calls : List Call) (outbox : Outbox) → IsSound outbox → IsSound (perform_all calls outbox)
unfolding perform_all
perform_all-IsSound [] outbox s = s
perform_all-IsSound (call ∷ calls) outbox s =
    perform_all-IsSound calls (perform call outbox) (perform-IsSound call outbox s)

drop_snoc :
    (n : ℕ) (rows : List Row) (row : Row)
    → n ≤ length rows
    → drop n (rows ++ row ∷ []) ≡ drop n rows ++ row ∷ []
drop_snoc zero rows row h = refl
drop_snoc (suc n) [] row h = ground arith
drop_snoc (suc n) (first ∷ rows) row h = drop_snoc n rows row (omega arith)

keep_snoc :
    (p : Row → Bool) (rows : List Row) (row : Row)
    → p row ≡ true
    → keep p (rows ++ row ∷ []) ≡ keep p rows ++ row ∷ []
keep_snoc p [] row h = rw h refl
keep_snoc p (first ∷ rows) row h = ground (arith, keep_snoc p rows row)

overflow_last :
    (max_rows : ℕ) (rows : List Row) (row : Row)
    → 1 ≤ max_rows
    → (front : List Row) × (evict_overflow max_rows (rows ++ row ∷ []) ≡ front ++ row ∷ [])
unfolding evict_overflow
overflow_last max_rows rows row positive =
    elim (Bool-cases (ltb max_rows (length (rows ++ row ∷ [])))) [
      | inl over ↦ (
        drop (length (rows ++ row ∷ []) - max_rows) rows,
        rw over (drop_snoc _ rows row (omega (arith, length-append rows (row ∷ [])))),
      )
      | inr within ↦ (rows, rw within refl)
    ]

aged_last :
    (max_age now : ℕ) (rows : List Row) (row : Row)
    → (max_age ≡ 0) ⊎ (now ≤ row.enqueued_at + max_age)
    → (front : List Row) × (evict_aged max_age now (rows ++ row ∷ []) ≡ front ++ row ∷ [])
unfolding evict_aged
aged_last max_age now rows row young = elim (Bool-cases (ltb 0 max_age)) [
  | inl aged ↦ (
    keep (λ r. not (ltb (r.enqueued_at + max_age) now)) rows,
    rw aged (keep_snoc _ rows row (ground arith)),
  )
  | inr ageless ↦ (rows, rw ageless refl)
]

-- An event that is not too old when it is put becomes the last row: its put never evicts it, however
-- full the outbox is.
pub rows-put :
    (kind topic payload : String) (enqueued_at now : ℕ) (outbox : Outbox)
    → 1 ≤ outbox.max_rows
    → (outbox.max_age ≡ 0) ⊎ (now ≤ enqueued_at + outbox.max_age)
    → (front : List Row) × ((put kind topic payload enqueued_at now outbox).rows
        ≡ front ++ new_row kind topic payload enqueued_at outbox ∷ [])
unfolding put
rows-put kind topic payload enqueued_at now outbox positive young =
    let row = new_row kind topic payload enqueued_at outbox in
    let (aged, same) = aged_last outbox.max_age now outbox.rows row young in
    let (front, last) = overflow_last outbox.max_rows aged row positive in
    (front, ap (evict_overflow outbox.max_rows) same ∙ last)
