-- ===== src/Usage/Conservation.antt =====
-- No count is lost or counted twice: what the buffer, a running flush and the table hold together.
use tag_pulse.Prelude.{
  ℕ, ◌+◌, Bool, true, false, Option, none, some, List, [], ◌∷◌, String, string_eq, nat_eq, pair_eq,
  ◌==◌, ==_iff, ◌&&◌, if◌then◌else◌, ◌≡◌, refl, sym, ◌∙◌, arith, inl, inr, Bool-cases, subst, not,
}
use tag_pulse.Dict.{Dict, insert}
use tag_pulse.Usage.{
  BufferKey, RowKey, UsageRow, UsageMeter, add_count, put_back, add_row, store_counts, record_usage,
  begin_flush, end_flush, record_snapshot, Action, counting, gauging, starting, ending, perform,
  perform_all,
}

module _ (tenant : ℕ) (dimension : String) where
  -- The counts of the dimension, over all units.
  unfoldable pub buffered : Dict BufferKey ℕ → ℕ
  buffered [] = 0
  buffered ((key, n) ∷ buffer) =
      if key.0 == tenant && key.1.0 == dimension then n + buffered buffer else buffered buffer

  -- The quantities of the dimension, over all days.
  unfoldable pub stored : Dict RowKey UsageRow → ℕ
  stored [] = 0
  stored ((key, row) ∷ detail) =
      if key.0 == tenant && key.1.1 == dimension
      then row.quantity + stored detail
      else stored detail

  unfoldable pub flying : Option (Dict BufferKey ℕ) → ℕ
  flying none = 0
  flying (some snapshot) = buffered snapshot

  abbrev pub held : UsageMeter → ℕ
  held meter = buffered meter.buffer + flying meter.in_flight + stored meter.detail

  abbrev pub share : ℕ → String → ℕ → ℕ
  share t d n = if t == tenant && d == dimension then n else 0

  buffered-add_count :
      (key : BufferKey) (count : ℕ) (buffer : Dict BufferKey ℕ)
      → buffered (add_count key count buffer) ≡ buffered buffer + share key.0 key.1.0 count
  unfolding buffered add_count
  buffered-add_count key count [] = ground arith
  buffered-add_count key count ((k, n) ∷ buffer) = elim (Bool-cases (k == key)) [
    | inl same ↦ rw same (
        subst
          (λ j.
            buffered ((j, n + count) ∷ buffer)
            ≡ buffered ((j, n) ∷ buffer) + share key.0 key.1.0 count)
          (sym ((==_iff k key).0 same)) (ground arith))
    | inr other ↦ rw other (ground (arith, buffered-add_count key count buffer))
  ]

  buffered-put_back :
      (snapshot buffer : Dict BufferKey ℕ)
      → buffered (put_back snapshot buffer) ≡ buffered buffer + buffered snapshot
  unfolding buffered put_back
  buffered-put_back [] buffer = omega arith
  buffered-put_back ((key, n) ∷ snapshot) buffer =
      buffered-put_back snapshot (add_count key n buffer)
      ∙ ground (arith, buffered-add_count key n buffer)

  stored-add_row :
      (key : RowKey) (count : ℕ) (unit : String) (detail : Dict RowKey UsageRow)
      → stored (add_row key count unit detail) ≡ stored detail + share key.0 key.1.1 count
  unfolding stored add_row
  stored-add_row key count unit [] = ground arith
  stored-add_row key count unit ((k, row) ∷ detail) = elim (Bool-cases (k == key)) [
    | inl same ↦ rw same (
        subst
          (λ j.
            stored ((j, record row { quantity = row.quantity + count }) ∷ detail)
            ≡ stored ((j, row) ∷ detail) + share key.0 key.1.1 count)
          (sym ((==_iff k key).0 same)) (ground arith))
    | inr other ↦ rw other (ground (arith, stored-add_row key count unit detail))
  ]

  stored-store_counts :
      (day : ℕ) (snapshot : Dict BufferKey ℕ) (detail : Dict RowKey UsageRow)
      → stored (store_counts day snapshot detail) ≡ stored detail + buffered snapshot
  unfolding buffered store_counts
  stored-store_counts day [] detail = omega arith
  stored-store_counts day ((key, n) ∷ snapshot) detail =
      stored-store_counts day snapshot (add_row (key.0, (day, key.1.0)) n key.1.1 detail)
      ∙ ground (arith, stored-add_row (key.0, (day, key.1.0)) n key.1.1 detail)

  stored-insert :
      (key : RowKey) (row : UsageRow) (detail : Dict RowKey UsageRow)
      → key.0 == tenant && key.1.1 == dimension ≡ false
      → stored (insert key row detail) ≡ stored detail
  unfolding stored insert
  stored-insert key row [] apart = rw apart refl
  stored-insert key row ((k, old) ∷ detail) apart = elim (Bool-cases (k == key)) [
    | inl same ↦ rw same (
        subst (λ j. stored ((j, row) ∷ detail) ≡ stored ((j, old) ∷ detail))
          (sym ((==_iff k key).0 same)) (ground arith))
    | inr other ↦ rw other (ground (arith, stored-insert key row detail apart))
  ]

  -- What a call adds.
  unfoldable pub added : Action → ℕ
  added (counting key count) = share key.0 key.1.0 count
  added (gauging stored key row) = 0
  added starting = 0
  added (ending stored day) = 0

  unfoldable pub added_all : List Action → ℕ
  added_all [] = 0
  added_all (action ∷ actions) = added action + added_all actions

  -- No call of record_snapshot replaces a quantity of the dimension.
  unfoldable pub spares : Action → Bool
  spares (counting key count) = true
  spares (gauging stored key row) = not (key.0 == tenant && key.1.1 == dimension)
  spares starting = true
  spares (ending stored day) = true

  unfoldable pub spares_all : List Action → Bool
  spares_all [] = true
  spares_all (action ∷ actions) = spares action && spares_all actions

  abbrev meter_of : Dict BufferKey ℕ → Option (Dict BufferKey ℕ) → Dict RowKey UsageRow → UsageMeter
  meter_of buffer in_flight detail = record {
    buffer = buffer;
    in_flight = in_flight;
    detail = detail;
  }

  held-begin_flush :
      (buffer : Dict BufferKey ℕ) (in_flight : Option (Dict BufferKey ℕ))
      (detail : Dict RowKey UsageRow)
      → held (begin_flush (meter_of buffer in_flight detail))
        ≡ held (meter_of buffer in_flight detail)
  unfolding begin_flush flying buffered
  held-begin_flush buffer (some snapshot) detail = refl
  held-begin_flush [] none detail = refl
  held-begin_flush (entry ∷ buffer) none detail = omega arith

  held-end_flush :
      (ok : Bool) (day : ℕ) (buffer : Dict BufferKey ℕ) (in_flight : Option (Dict BufferKey ℕ))
      (detail : Dict RowKey UsageRow)
      → held (end_flush ok day (meter_of buffer in_flight detail))
        ≡ held (meter_of buffer in_flight detail)
  unfolding end_flush flying
  held-end_flush ok day buffer none detail = refl
  held-end_flush true day buffer (some snapshot) detail =
      omega (arith, stored-store_counts day snapshot detail)
  held-end_flush false day buffer (some snapshot) detail =
      omega (arith, buffered-put_back snapshot buffer)

  held-perform :
      (action : Action) (meter : UsageMeter)
      → spares action ≡ true
      → held (perform action meter) ≡ held meter + added action
  unfolding perform spares added record_usage record_snapshot
  held-perform (counting key count) meter spared =
      omega (arith, buffered-add_count key count meter.buffer)
  held-perform (gauging true key row) meter spared =
      omega (arith, stored-insert key row meter.detail (ground (arith, spared)))
  held-perform (gauging false key row) meter spared = omega arith
  held-perform starting meter spared =
      held-begin_flush meter.buffer meter.in_flight meter.detail ∙ omega arith
  held-perform (ending ok day) meter spared =
      held-end_flush ok day meter.buffer meter.in_flight meter.detail ∙ omega arith

  -- Whatever is counted while flushes begin, are stored or fail, in any order: as long as
  -- record_snapshot does not write the dimension, what the buffer, a flush that runs and all days of
  -- the table hold of a tenant's dimension, over all units, is what they held plus what was counted.
  pub held-perform_all :
      (actions : List Action) (meter : UsageMeter)
      → spares_all actions ≡ true
      → held (perform_all actions meter) ≡ held meter + added_all actions
  unfolding perform_all spares_all added_all
  held-perform_all [] meter spared = omega arith
  held-perform_all (action ∷ actions) meter spared =
      held-perform_all actions (perform action meter) (ground (arith, spared))
      ∙ omega (arith, held-perform action meter (ground (arith, spared)))
