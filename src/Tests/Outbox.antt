-- ===== src/Tests/Outbox.antt =====
-- Runs of the outbox.
use tag_pulse.Prelude.{true, not, List, [], ◌∷◌, ◌++◌, nat_beq, nat_eq, all, ◌≡◌, refl, arith, inr}
use tag_pulse.Edge.Outbox.{Row, Outbox, new_row, put, ack, peek}
use tag_pulse.Edge.Outbox.Order.{
  Call, putting, acking, perform, perform_all, ended, IsSound, perform_all-IsSound, rows-put,
}
use tag_pulse.Edge.Outbox.Acknowledged.{peek-ack}

abbrev empty : Outbox
empty = record { rows = []; next_id = 1; max_rows = 2; max_age = 60 }

empty-IsSound : IsSound empty
empty-IsSound = record {
  ordered = ended (omega arith);
  bounded = omega arith;
  positive = omega arith;
}

abbrev calls : List Call
calls =
    putting "status" "a" "{}" 5 5
    ∷ putting "status" "b" "{}" 6 6
    ∷ putting "status" "c" "{}" 7 7
    ∷ acking (2 ∷ [])
    ∷ putting "status" "d" "{}" 70 70
    ∷ []

perform_all-IsSound_example : IsSound (perform_all calls empty)
perform_all-IsSound_example = perform_all-IsSound calls empty empty-IsSound

abbrev three : Outbox
three = record empty { next_id = 4 }

peek-ack_example :
    all
      (λ event. not (nat_beq event.rowid 2))
      (peek 10 (perform_all calls (ack (2 ∷ 3 ∷ []) three).1))
    ≡ true
peek-ack_example = peek-ack 2 10 (2 ∷ 3 ∷ []) calls three refl (omega arith)

rows-put_example :
    (front : List Row) × ((put "status" "e" "{}" 7 7 (perform_all calls empty)).rows
      ≡ front ++ new_row "status" "e" "{}" 7 (perform_all calls empty) ∷ [])
unfolding perform_all perform put ack
rows-put_example =
    rows-put "status" "e" "{}" 7 7 (perform_all calls empty) (omega arith) (inr (omega arith))
