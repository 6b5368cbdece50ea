-- ===== src/Edge/Outbox/Acknowledged.antt =====
-- What the outbox of clients/pi/tagpulse_edge/buffer.py sends after an acknowledgement.
use tag_pulse.Prelude.{
  ℕ, zero, suc, ◌<◌, Bool, true, not, List, [], ◌∷◌, ◌++◌, ltb, nat_beq, length, take, drop, keep,
  all, contains, nat_eq, map, String, ◌≡◌, refl, sym, arith, all-keep, nat_beq_iff, subst, inl, inr,
  Bool-cases,
}
use tag_pulse.Edge.Outbox.{
  Row, Outbox, evict_aged, evict_overflow, new_row, put, ack, peek, outbound,
}
use tag_pulse.Edge.Outbox.Order.{Call, putting, acking, perform, perform_all}

-- No row has the id.
abbrev pub is_gone : ℕ → Outbox → Bool
is_gone rowid outbox = all (λ row. not (nat_beq row.id rowid)) outbox.rows

all-keep-le : (p q : Row → Bool) (rows : List Row) → all p rows ≡ true → all p (keep q rows) ≡ true
all-keep-le p q [] h = refl
all-keep-le p q (row ∷ rows) h = ground (arith, all-keep-le p q rows)

all-drop :
    (p : Row → Bool) (n : ℕ) (rows : List Row) → all p rows ≡ true → all p (drop n rows) ≡ true
all-drop p zero rows h = h
all-drop p (suc n) [] h = refl
all-drop p (suc n) (row ∷ rows) h = all-drop p n rows (ground arith)

all_snoc :
    (p : Row → Bool) (rows : List Row) (row : Row)
    → all p rows ≡ true
    → p row ≡ true
    → all p (rows ++ row ∷ []) ≡ true
all_snoc p [] row h g = ground arith
all_snoc p (first ∷ rows) row h g = ground (arith, all_snoc p rows row)

all-evict_aged :
    (p : Row → Bool) (max_age now : ℕ) (rows : List Row)
    → all p rows ≡ true
    → all p (evict_aged max_age now rows) ≡ true
unfolding evict_aged
all-evict_aged p max_age now rows h = elim (Bool-cases (ltb 0 max_age)) [
  | inl aged ↦ rw aged (all-keep-le p _ rows h)
  | inr ageless ↦ rw ageless h
]

all-evict_overflow :
    (p : Row → Bool) (max_rows : ℕ) (rows : List Row)
    → all p rows ≡ true
    → all p (evict_overflow max_rows rows) ≡ true
unfolding evict_overflow
all-evict_overflow p max_rows rows h = elim (Bool-cases (ltb max_rows (length rows))) [
  | inl over ↦ rw over (all-drop p _ rows h)
  | inr within ↦ rw within h
]

put_gone :
    (rowid : ℕ) (kind topic payload : String) (enqueued_at now : ℕ) (outbox : Outbox)
    → rowid < outbox.next_id
    → is_gone rowid outbox ≡ true
    → is_gone rowid (put kind topic payload enqueued_at now outbox) ≡ true
unfolding put
put_gone rowid kind topic payload enqueued_at now outbox given gone =
    all-evict_overflow _ outbox.max_rows _ (
      all-evict_aged _ outbox.max_age now _ (
        all_snoc _ outbox.rows (new_row kind topic payload enqueued_at outbox) gone (ground arith)))

ack_keeps_gone :
    (rowid : ℕ) (rowids : List ℕ) (outbox : Outbox)
    → is_gone rowid outbox ≡ true
    → (is_gone rowid (ack rowids outbox).1 ≡ true)
      × ((ack rowids outbox).1.next_id ≡ outbox.next_id)
unfolding ack
ack_keeps_gone rowid [] outbox gone = (gone, refl)
ack_keeps_gone rowid (other ∷ rowids) outbox gone =
    ack_keeps_gone rowid rowids _ (all-keep-le _ _ outbox.rows gone)

ack_gone :
    (rowid : ℕ) (rowids : List ℕ) (outbox : Outbox)
    → contains rowid rowids ≡ true
    → is_gone rowid (ack rowids outbox).1 ≡ true
unfolding ack
ack_gone rowid [] outbox member = ground arith
ack_gone rowid (first ∷ rowids) outbox member = elim (Bool-cases (nat_beq rowid first)) [
  | inl same ↦
      (ack_keeps_gone rowid rowids _ (
        subst
          (λ i.
            all (λ row. not (nat_beq row.id i))
              (keep (λ row. not (nat_beq row.id first)) outbox.rows)
            ≡ true)
          (sym ((nat_beq_iff rowid first).0 same))
          (all-keep (λ row. not (nat_beq row.id first)) outbox.rows))).0
  | inr apart ↦ ack_gone rowid rowids _ (ground arith)
]

next_after :
    (rowid : ℕ) (kind topic payload : String) (enqueued_at now : ℕ) (outbox : Outbox)
    → rowid < outbox.next_id
    → rowid < (put kind topic payload enqueued_at now outbox).next_id
unfolding put
next_after rowid kind topic payload enqueued_at now outbox given = omega arith

perform_all_gone :
    (rowid : ℕ) (calls : List Call) (outbox : Outbox)
    → rowid < outbox.next_id
    → is_gone rowid outbox ≡ true
    → is_gone rowid (perform_all calls outbox) ≡ true
unfolding perform_all perform
perform_all_gone rowid [] outbox given gone = gone
perform_all_gone rowid (putting kind topic payload enqueued_at now ∷ calls) outbox given gone =
    perform_all_gone rowid calls (put kind topic payload enqueued_at now outbox)
      (next_after rowid kind topic payload enqueued_at now outbox given)
      (put_gone rowid kind topic payload enqueued_at now outbox given gone)
perform_all_gone rowid (acking rowids ∷ calls) outbox given gone =
    let (still, same) = ack_keeps_gone rowid rowids outbox gone in
    perform_all_gone rowid calls (ack rowids outbox).1 (omega arith) still

next_ack :
    (rowid : ℕ) (rowids : List ℕ) (outbox : Outbox)
    → rowid < outbox.next_id
    → rowid < (ack rowids outbox).1.next_id
unfolding ack
next_ack rowid [] outbox given = given
next_ack rowid (first ∷ rowids) outbox given = next_ack rowid rowids _ given

all-outbound :
    (rowid limit : ℕ) (rows : List Row)
    → all (λ row. not (nat_beq row.id rowid)) rows ≡ true
    → all (λ event. not (nat_beq event.rowid rowid)) (map outbound (take limit rows)) ≡ true
all-outbound rowid zero rows h = refl
all-outbound rowid (suc limit) [] h = refl
all-outbound rowid (suc limit) (row ∷ rows) h = ground (arith, all-outbound rowid limit rows)

-- What has been acknowledged, of the ids given out so far, is never sent again, whatever is put and
-- acknowledged after it.
pub peek-ack :
    (rowid limit : ℕ) (rowids : List ℕ) (calls : List Call) (outbox : Outbox)
    → contains rowid rowids ≡ true
    → rowid < outbox.next_id
    → all
        (λ event. not (nat_beq event.rowid rowid))
        (peek limit (perform_all calls (ack rowids outbox).1))
      ≡ true
unfolding peek
peek-ack rowid limit rowids calls outbox member given = all-outbound rowid limit _ (
    perform_all_gone rowid calls (ack rowids outbox).1 (next_ack rowid rowids outbox given)
      (ack_gone rowid rowids outbox member))
