-- ===== src/Tests/Legs.antt =====
-- Runs of the leg tracker.
use tag_pulse.Prelude.{
  ℕ, ◌/◌, ◌*◌, String, ◌≤◌, ltb, true, none, some, List, [], ◌∷◌, any, ◌≡◌, refl, arith, pos,
}
use tag_pulse.Legs.Summary.{
  EnvSample, SlaConfig, Verdict, by_time, place, is_in_range, longest_from, sla_bounded, verdict_on,
  summarize_leg_env,
}
use tag_pulse.Legs.Tracker.{
  CustodyChange, on_custody_changed, is_facility, open_leg, close_stale, close_leg, last_departure,
  is_open_of, close_at,
}
use tag_pulse.Legs.Single.{
  open_count, Custody, track_all, changes, counted_all, open_count-track_all,
}
use tag_pulse.Legs.Excursion.{longest_span, blocks, span, summarize_leg_env_lem}

-- At most 8 degrees, for at most 60 seconds.
abbrev cold_chain : SlaConfig
cold_chain = record {
  temp_min_c = none;
  temp_max_c = some (pos 8000000);
  humidity_max = none;
  excursion_tolerance_s = 60;
}

abbrev reading : ℕ → ℕ → EnvSample
reading time degrees = record {
  time = time * 1000000;
  temperature_c = some (pos (degrees * 1000000));
  humidity_pct = none;
}

abbrev moved : String → String → ℕ → CustodyChange
moved from_frame to_frame timestamp = record {
  tenant_id = 1;
  asset_id = 7;
  from_frame = from_frame;
  to_frame = to_frame;
  from_zone_id = some 3;
  from_site_id = none;
  zone_id = some 4;
  site_id = none;
  timestamp = timestamp;
}

-- Two departures without an arrival between them, an arrival, a third departure.
abbrev journeys : List Custody
journeys =
    ([], none, moved "floor" "geo" 10)
    ∷ ([], none, moved "reader" "geo" 20)
    ∷ ([], some cold_chain, moved "geo" "floor" 30)
    ∷ ([], none, moved "floor" "none" 35)
    ∷ ([], none, moved "floor" "geo" 40)
    ∷ []

none_open_first : open_count 1 7 [] ≤ 1
unfolding open_count
none_open_first = omega arith

open_count-track_all_example :
    (open_count 1 7 (track_all journeys []) ≤ 1)
    × (open_count 1 7 (track_all journeys [])
        ≡ counted_all 1 7 (changes journeys) (open_count 1 7 []))
open_count-track_all_example = open_count-track_all 1 7 journeys [] none_open_first

one_open : open_count 1 7 (track_all journeys []) ≡ 1
unfolding open_count track_all on_custody_changed is_facility open_leg close_stale close_leg
    last_departure is_open_of close_at
one_open = refl

-- Too warm from 100 to 180 and at 300.
abbrev samples : List EnvSample
samples = reading 180 9 ∷ reading 100 9 ∷ reading 200 5 ∷ reading 300 9 ∷ []

cold_chain_bounded : sla_bounded cold_chain ≡ true
unfolding sla_bounded
cold_chain_bounded = refl

summarize_leg_env_lem_example :
    (v : Verdict) × ((summarize_leg_env (reading 0 5 ∷ samples) (some cold_chain)).verdict ≡ some v)
    × (v.excursion_s ≡ longest_span (blocks cold_chain (by_time (reading 0 5 ∷ samples))) / 1000000)
    × (v.sla_breached
        ≡ any
            (λ block. ltb 60 (span block / 1000000))
            (blocks cold_chain (by_time (reading 0 5 ∷ samples))))
summarize_leg_env_lem_example =
    summarize_leg_env_lem (reading 0 5) samples cold_chain cold_chain_bounded

-- The excursion lasts eighty seconds.
longest_excursion :
    verdict_on cold_chain (by_time (reading 0 5 ∷ samples))
    ≡ record { excursion_s = 80; in_range_count = 2; sample_count = 5; sla_breached = true }
unfolding by_time place longest_from is_in_range
longest_excursion = refl
