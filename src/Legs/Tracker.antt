-- ===== src/Legs/Tracker.antt =====
-- `AssetLegTracker` of src/tagpulse/workers/leg_tracker.py on the table asset_legs. Ids are numbers,
-- frames texts; a row of asset_state_history is a sample of an asset. A commit is taken to succeed.
use tag_pulse.Prelude.{
  ℕ, ltb, leb, Bool, true, false, ◌&&◌, ◌||◌, Option, none, some, List, [], ◌∷◌, ◌++◌, map, keep,
  nat_beq, if◌then◌else◌, String, string_eq, ◌==◌,
}
use tag_pulse.Legs.Summary.{EnvSample, SlaConfig, LegEnvSummary, summarize_leg_env}

-- A row of asset_legs; `summary` is none until an arrival closes the leg.
pub record Leg : Type 0 where
  pub tenant_id : ℕ
  pub asset_id : ℕ
  pub is_open : Bool
  pub origin_zone_id : Option ℕ
  pub origin_site_id : Option ℕ
  pub departed_at : ℕ
  pub dest_zone_id : Option ℕ
  pub dest_site_id : Option ℕ
  pub arrived_at : Option ℕ
  pub summary : Option LegEnvSummary

pub record StateRow : Type 0 where
  pub tenant_id : ℕ
  pub asset_id : ℕ
  pub sample : EnvSample

-- The payload of an event, with its ids and its time read.
pub record CustodyChange : Type 0 where
  pub tenant_id : ℕ
  pub asset_id : ℕ
  pub from_frame : String
  pub to_frame : String
  pub from_zone_id : Option ℕ
  pub from_site_id : Option ℕ
  pub zone_id : Option ℕ
  pub site_id : Option ℕ
  pub timestamp : ℕ

unfoldable pub is_facility : String → Bool
is_facility frame = frame == "reader" || frame == "floor"

unfoldable pub is_open_of : ℕ → ℕ → Leg → Bool
is_open_of tenant asset leg =
    nat_beq leg.tenant_id tenant && nat_beq leg.asset_id asset && leg.is_open

-- UPDATE … SET status='closed', arrived_at=:t WHERE … AND status='open'
unfoldable pub close_stale : ℕ → ℕ → ℕ → List Leg → List Leg
close_stale tenant asset at [] = []
close_stale tenant asset at (leg ∷ legs) =
    let rest = close_stale tenant asset at legs in
    (if is_open_of tenant asset leg
      then record leg { is_open = false; arrived_at = some at }
      else leg)
    ∷ rest

abbrev pub departed_leg : CustodyChange → Leg
departed_leg event = record {
  tenant_id = event.tenant_id;
  asset_id = event.asset_id;
  is_open = true;
  origin_zone_id = event.from_zone_id;
  origin_site_id = event.from_site_id;
  departed_at = event.timestamp;
  dest_zone_id = none;
  dest_site_id = none;
  arrived_at = none;
  summary = none;
}

unfoldable pub open_leg : CustodyChange → List Leg → List Leg
open_leg event legs =
    close_stale event.tenant_id event.asset_id event.timestamp legs ++ departed_leg event ∷ []

-- The samples of the asset from departure to arrival, both included.
unfoldable pub leg_samples : List StateRow → ℕ → ℕ → ℕ → ℕ → List EnvSample
leg_samples history tenant asset departed arrived =
    map (λ row. row.sample)
      (keep
        (λ row.
          nat_beq row.tenant_id tenant
          && nat_beq row.asset_id asset
          && leb departed row.sample.time
          && leb row.sample.time arrived)
        history)

-- departed_at of the open leg that departed last, ORDER BY departed_at DESC LIMIT 1
unfoldable pub last_departure : ℕ → ℕ → List Leg → Option ℕ
last_departure tenant asset [] = none
last_departure tenant asset (leg ∷ legs) =
    let rest = last_departure tenant asset legs in
    if is_open_of tenant asset leg
    then elim rest [
      | none ↦ some leg.departed_at
      | some d ↦ some (if ltb leg.departed_at d then d else leg.departed_at)
    ]
    else rest

abbrev pub closed_leg : List StateRow → Option SlaConfig → CustodyChange → Leg → Leg
closed_leg history sla event leg = record leg {
  is_open = false;
  dest_zone_id = event.zone_id;
  dest_site_id = event.site_id;
  arrived_at = some event.timestamp;
  summary = some (
      summarize_leg_env
        (leg_samples history event.tenant_id event.asset_id leg.departed_at event.timestamp) sla);
}

-- The first open leg that departed then.
unfoldable pub close_at : List StateRow → Option SlaConfig → CustodyChange → ℕ → List Leg → List Leg
close_at history sla event departed [] = []
close_at history sla event departed (leg ∷ legs) =
    let rest = close_at history sla event departed legs in
    if is_open_of event.tenant_id event.asset_id leg && nat_beq leg.departed_at departed
    then closed_leg history sla event leg ∷ legs
    else leg ∷ rest

unfoldable pub close_leg : List StateRow → Option SlaConfig → CustodyChange → List Leg → List Leg
close_leg history sla event legs = elim (last_departure event.tenant_id event.asset_id legs) [
  | none ↦ legs
  | some departed ↦ close_at history sla event departed legs
]

-- `history` and `sla` are what the event finds in the other tables.
unfoldable pub on_custody_changed :
    List StateRow → Option SlaConfig → CustodyChange → List Leg → List Leg
on_custody_changed history sla event legs =
    if event.to_frame == "geo" && is_facility event.from_frame
    then open_leg event legs
    else if is_facility event.to_frame
    then close_leg history sla event legs
    else legs
