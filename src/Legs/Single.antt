-- ===== src/Legs/Single.antt =====
-- Every run of the leg tracker of src/tagpulse/workers/leg_tracker.py: how many legs of an asset are
-- open.
use tag_pulse.Prelude.{
  ℕ, ◌+◌, ◌≤◌, Bool, true, false, ◌&&◌, Option, none, some, List, [], ◌∷◌, ◌++◌, nat_beq,
  if◌then◌else◌, string_eq, ◌==◌, ◌≡◌, refl, ap, ◌∙◌, arith, inl, inr, Bool-cases, Option-cases,
}
use tag_pulse.Legs.Summary.{SlaConfig}
use tag_pulse.Legs.Tracker.{
  Leg, StateRow, CustodyChange, is_facility, is_open_of, close_stale, open_leg, departed_leg,
  last_departure, close_at, close_leg, on_custody_changed,
}

module _ (tenant asset : ℕ) where
  unfoldable pub open_count : List Leg → ℕ
  open_count [] = 0
  open_count (leg ∷ legs) =
      let rest = open_count legs in if is_open_of tenant asset leg then rest + 1 else rest

  abbrev pub is_of : CustodyChange → Bool
  is_of event = nat_beq event.tenant_id tenant && nat_beq event.asset_id asset

  -- What an event makes of the number: a departure 1, an arrival 0, any other event nothing.
  unfoldable pub counted : CustodyChange → ℕ → ℕ
  counted event before =
      if is_of event
      then (if event.to_frame == "geo" && is_facility event.from_frame
          then 1
          else if is_facility event.to_frame
          then 0
          else before)
      else before

  unfoldable pub counted_all : List CustodyChange → ℕ → ℕ
  counted_all [] before = before
  counted_all (event ∷ events) before = counted_all events (counted event before)

  open_count_snoc :
      (legs : List Leg) (leg : Leg)
      → open_count (legs ++ leg ∷ [])
        ≡ (if is_open_of tenant asset leg then open_count legs + 1 else open_count legs)
  unfolding open_count
  open_count_snoc [] leg = refl
  open_count_snoc (first ∷ legs) leg = ground (arith, open_count_snoc legs leg)

  stale_own :
      (t a at : ℕ) (legs : List Leg)
      → t ≡ tenant
      → a ≡ asset
      → open_count (close_stale t a at legs) ≡ 0
  unfolding open_count close_stale is_open_of
  stale_own t a at [] p q = refl
  stale_own t a at (leg ∷ legs) p q = ground (arith, stale_own t a at legs)

  stale_other :
      (t a at : ℕ) (legs : List Leg)
      → nat_beq t tenant && nat_beq a asset ≡ false
      → open_count (close_stale t a at legs) ≡ open_count legs
  unfolding open_count close_stale is_open_of
  stale_other t a at [] apart = refl
  stale_other t a at (leg ∷ legs) apart = ground (arith, stale_other t a at legs)

  close_other :
      (history : List StateRow) (sla : Option SlaConfig) (event : CustodyChange) (departed : ℕ)
      (legs : List Leg)
      → is_of event ≡ false
      → open_count (close_at history sla event departed legs) ≡ open_count legs
  unfolding open_count close_at is_open_of
  close_other history sla event departed [] apart = refl
  close_other history sla event departed (leg ∷ legs) apart =
      ground (arith, close_other history sla event departed legs)

  none_open :
      (t a : ℕ) (legs : List Leg)
      → t ≡ tenant
      → a ≡ asset
      → last_departure t a legs ≡ none
      → open_count legs ≡ 0
  unfolding open_count last_departure is_open_of
  none_open t a [] p q nothing = refl
  none_open t a (leg ∷ legs) p q nothing = ground (arith, none_open t a legs)

  close_own :
      (history : List StateRow) (sla : Option SlaConfig) (event : CustodyChange) (departed : ℕ)
      (legs : List Leg)
      → event.tenant_id ≡ tenant
      → event.asset_id ≡ asset
      → last_departure event.tenant_id event.asset_id legs ≡ some departed
      → open_count (close_at history sla event departed legs) + 1 ≡ open_count legs
  unfolding open_count close_at last_departure is_open_of
  close_own history sla event departed [] t a found = ground arith
  close_own history sla event departed (leg ∷ legs) t a found =
      ground (arith, close_own history sla event departed legs t a)

  same_ids :
      (event : CustodyChange)
      → is_of event ≡ true
      → (event.tenant_id ≡ tenant) × (event.asset_id ≡ asset)
  same_ids event here = ground arith

  open_leg_count :
      (event : CustodyChange) (legs : List Leg)
      → open_count (open_leg event legs) ≡ (if is_of event then 1 else open_count legs)
  unfolding open_leg is_open_of
  open_leg_count event legs = elim (Bool-cases (is_of event)) [
    | inl here ↦
        let (t, a) = same_ids event here in
        rw here (
          open_count_snoc (close_stale event.tenant_id event.asset_id event.timestamp legs)
            (departed_leg event)
          ∙ ground (arith, stale_own event.tenant_id event.asset_id event.timestamp legs t a))
    | inr apart ↦ rw apart (
        open_count_snoc (close_stale event.tenant_id event.asset_id event.timestamp legs)
          (departed_leg event)
        ∙ ground (arith, stale_other event.tenant_id event.asset_id event.timestamp legs apart))
  ]

  close_leg_count :
      (history : List StateRow) (sla : Option SlaConfig) (event : CustodyChange) (legs : List Leg)
      → open_count legs ≤ 1
      → open_count (close_leg history sla event legs) ≡ (if is_of event then 0 else open_count legs)
  unfolding close_leg
  close_leg_count history sla event legs single =
      elim (Option-cases (last_departure event.tenant_id event.asset_id legs)) [
        | inl nothing ↦
            rw (nothing, close_leg)
              (elim (Bool-cases (is_of event)) [
                | inl here ↦
                    let (t, a) = same_ids event here in
                    rw here (none_open event.tenant_id event.asset_id legs t a nothing)
                | inr apart ↦ rw apart refl
              ])
        | inr (departed, found) ↦
            rw (found, close_leg)
              (elim (Bool-cases (is_of event)) [
                | inl here ↦
                    let (t, a) = same_ids event here in
                    rw here (omega (arith, close_own history sla event departed legs t a found))
                | inr apart ↦ rw apart (close_other history sla event departed legs apart)
              ])
      ]

  custody_count :
      (history : List StateRow) (sla : Option SlaConfig) (event : CustodyChange) (legs : List Leg)
      → open_count legs ≤ 1
      → open_count (on_custody_changed history sla event legs) ≡ counted event (open_count legs)
  unfolding on_custody_changed counted
  custody_count history sla event legs single =
      elim (Bool-cases (event.to_frame == "geo" && is_facility event.from_frame)) [
        | inl leaves ↦ rw leaves (open_leg_count event legs)
        | inr stays ↦ rw stays (elim (Bool-cases (is_facility event.to_frame)) [
          | inl arrives ↦ rw arrives (close_leg_count history sla event legs single)
          | inr elsewhere ↦ rw elsewhere (ground arith)
        ])
      ]

  counted-le : (event : CustodyChange) (before : ℕ) → before ≤ 1 → counted event before ≤ 1
  unfolding counted
  counted-le event before h = ground arith

-- Each event with what it finds in the other tables.
abbrev pub Custody : Type 0
Custody = List StateRow × Option SlaConfig × CustodyChange

unfoldable pub track_all : List Custody → List Leg → List Leg
track_all [] legs = legs
track_all ((history, sla, event) ∷ events) legs =
    track_all events (on_custody_changed history sla event legs)

unfoldable pub changes : List Custody → List CustodyChange
changes [] = []
changes ((history, sla, event) ∷ events) = event ∷ changes events

-- Whatever custody events are handled, where an asset has at most one open leg, it has at most one
-- afterwards, and it has one exactly if the last of its events that is a departure from a facility
-- or an arrival at one is a departure, or if there is none and it had one.
pub open_count-track_all :
    (tenant asset : ℕ) (events : List Custody) (legs : List Leg)
    → open_count tenant asset legs ≤ 1
    → (open_count tenant asset (track_all events legs) ≤ 1)
      × (open_count tenant asset (track_all events legs)
          ≡ counted_all tenant asset (changes events) (open_count tenant asset legs))
unfolding track_all changes counted_all
open_count-track_all tenant asset [] legs single = (single, refl)
open_count-track_all tenant asset ((history, sla, event) ∷ events) legs single =
    let count = custody_count tenant asset history sla event legs single in
    let (one, same) =
      open_count-track_all tenant asset events (on_custody_changed history sla event legs) (
        omega
          (arith, count, counted-le tenant asset event (open_count tenant asset legs) single)) in
    (one, same ∙ ap (counted_all tenant asset (changes events)) count)
