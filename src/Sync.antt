-- ===== src/Sync.antt =====
-- The edge and the backend together: one cycle of a producer, delivered to the subscriber.
pub mod Delivery
pub mod Difference
use mathlib.Core.List.{flat_map}
use tag_pulse.Prelude.{
  ℕ, ◌+◌, ℤ, pos, ◌≡◌, refl, sym, subst, Bool, true, false, ◌&&◌, ◌||◌, not, Option, none, some,
  List, [], ◌∷◌, ◌++◌, map, arith, Result, ok, err, ◌>>=◌, >>=-eq-ok, guard, leb_ℤ, ltb_ℤ,
  if◌then◌else◌, contains, keep, sorted, All, Eq, ◌==◌, pair_eq, list_eq, nat_eq, int_eq,
  list_beq_iff, pair_beq_iff, Bool-cases, Option-cases, inl, inr, ◌⊎◌, contains-sorted,
  contains-keep, All-contains, any-sorted, nat_ord, int_ord, list_ord, pair_ord,
}
use tag_pulse.Dict.{Dict, lookup, has_key, keys, values}
use tag_pulse.Dict.Laws.{contains-keys}
use tag_pulse.Wire.Epc.{Text}
use tag_pulse.Wire.Message.{Entry, RawMessage, normalize_epc, lat_min, lat_max, lon_min, lon_max}
use tag_pulse.Edge.Producer.{
  Producer, Observation, CycleKey, materialize, snap_triggered, begin_session, emit_snap,
  emit_delta, emit_cycle, add_keys, sub_epcs, epcs_of, appeared_for, disappeared_for, entry_dict,
  validate_lat_lon, check_optional, lat_outside, lon_outside,
}
use tag_pulse.Edge.Producer.Laws.{
  as_entry, IsEntry, EntriesOk, IsCycle, has_epc, names, materialize-IsCycle, contains-epcs_of,
  guard-eq-ok,
}
use tag_pulse.Presence.{Scope, PresenceKey, Db, max_ts_ms}
use tag_pulse.Presence.View.{is_present, epcs_in}
use tag_pulse.Presence.Transitions.{IsConsistent, Applied, settle_snap_lem}
use tag_pulse.Subscriber.{handle_all}
use tag_pulse.Sync.Delivery.{
  IsEnvelope, any_epc, delivered, delivered-appeared, delivered-disappeared, delivered-cons,
  delivered-nil, handle-snap, Applied-rule, handle_all-append, nullable_lem,
}
use tag_pulse.Sync.Difference.{
  epcs_in-values, any_epc-add_keys, contains-sub_epcs, add_keys-known, sub_epcs-canonical,
}

-- The producer's last cycle is what the table shows of the device, unless the next cycle is a
-- snap anyway.
pub record InSync (scope : Scope) (p : Producer) (db : Db) : Type 0 where
  pub cycle : IsCycle p.last_cycle
  pub consistent : IsConsistent db
  pub agree :
      (p.force_snap_next ≡ true)
      ⊎ ((epc : Text) → is_present db.table (scope, epc) ≡ has_epc epc p.last_cycle)

-- The inversion of an accepted cycle.
record Emitted (p : Producer) (ts : ℤ) (lat lon : Option ℤ) (cycle : List Observation)
    (out : Producer × List RawMessage) : Type 0 where
  from : leb_ℤ (pos 0) ts ≡ true
  located : validate_lat_lon lat lon ≡ ok tt
  current : Dict CycleKey Observation
  accepted : materialize [] cycle ≡ ok current
  emitted : out ≡ (
      if snap_triggered p ts
      then emit_snap p ts lat lon current
      else emit_delta p ts lat lon current)

emit_cycle-Emitted :
    (p : Producer) (ts : ℤ) (lat lon : Option ℤ) (cycle : List Observation)
    (out : Producer × List RawMessage)
    → emit_cycle p ts lat lon cycle ≡ ok out
    → Emitted p ts lat lon cycle out
unfolding emit_cycle
emit_cycle-Emitted p ts lat lon cycle out h =
    let (_, g, h1) = >>=-eq-ok (guard (leb_ℤ (pos 0) ts) _) _ h in
    let (_, l, h2) = >>=-eq-ok (validate_lat_lon lat lon) _ h1 in
    let (current, m, h3) = >>=-eq-ok (materialize [] cycle) _ h2 in
    record {
      from = guard-eq-ok _ _ g;
      located = l;
      current = current;
      accepted = m;
      emitted = ground arith;
    }

module _ (ingest : List Entry → Bool) (ingested : (reads : List Entry) → ingest reads ≡ true)
    (scope : Scope) (p : Producer) (ts : ℤ) (lat lon : Option ℤ) (v : IsEnvelope p.sn ts lat lon)
    (current : Dict CycleKey Observation) (c : IsCycle current) (db : Db)
    (s : InSync scope p db) where
  -- What the table shows when a cycle has been delivered.
  abbrev after_cycle : PresenceKey → Bool
  after_cycle key = if scope == key.0 then has_epc key.1 current else is_present db.table key

  snap-delivered :
      Applied (handle_all ingest scope (emit_snap p ts lat lon current).1 db) after_cycle
  unfolding emit_snap
  snap-delivered =
      let next = settle_snap_lem scope ts (map as_entry (values current)) db s.consistent in
      delivered-cons ingest ingested scope p ts lat lon v _ [] db _ after_cycle
        (handle-snap ingest ingested scope p ts lat lon v current db c.entries)
        (Applied-rule _ _ after_cycle
          (delivered-nil ingest ingested scope p ts lat lon v _ next.consistent)
          (λ key. ground (arith, next.shown key, epcs_in-values key.1 current c.entries)))

  delta-delivered :
      ((epc : Text) → is_present db.table (scope, epc) ≡ has_epc epc p.last_cycle)
      → Applied (handle_all ingest scope (emit_delta p ts lat lon current).1 db) after_cycle
  unfolding emit_delta
  delta-delivered agree =
      let adds = add_keys p.last_cycle current in
      let subs = sub_epcs p.last_cycle current in
      let first =
        delivered-appeared ingest ingested scope p ts lat lon v current adds db c.entries
          (add_keys-known p.last_cycle current) s.consistent in
      let second =
        delivered-disappeared ingest ingested scope p ts lat lon v subs
          (handle_all ingest scope (flat_map (appeared_for p ts lat lon current) adds) db)
          (sub_epcs-canonical p.last_cycle current s.cycle.entries) first.consistent in
      rw
        (handle_all-append ingest ingested scope p ts lat lon v
          (flat_map (appeared_for p ts lat lon current) adds) (map (disappeared_for p ts) subs) db)
        (Applied-rule _ _ after_cycle second (λ key. ground (
          arith,
          first.shown key,
          contains-sub_epcs p.last_cycle current key.1,
          any_epc-add_keys p.last_cycle current key.1,
          agree key.1,
          pair_beq_iff scope key.0,
        )))

Emitted-IsEnvelope :
    (sn ts : ℤ) (lat lon : Option ℤ)
    → leb_ℤ (pos 0) sn ≡ true
    → leb_ℤ (pos 0) ts ≡ true
    → ltb_ℤ ts max_ts_ms ≡ true
    → validate_lat_lon lat lon ≡ ok tt
    → IsEnvelope sn ts lat lon
unfolding validate_lat_lon
Emitted-IsEnvelope sn ts lat lon n f u h =
    let (_, a, b) = >>=-eq-ok (check_optional lat_min lat_max lat_outside lat) _ h in
    record {
      serial = n;
      from = f;
      until = u;
      latitude = nullable_lem lat_min lat_max lat_outside lat a;
      longitude = nullable_lem lon_min lon_max lon_outside lon b;
    }

-- A cycle has been delivered: what the theorem below says of the new producer and its messages.
abbrev Delivered :
    (ingest : List Entry → Bool) (scope : Scope) (cycle : List Observation) (db : Db)
    → Producer × List RawMessage
    → Type 0
Delivered ingest scope cycle db out =
    InSync scope out.0 (handle_all ingest scope out.1 db)
    × ((key : PresenceKey)
        → is_present (handle_all ingest scope out.1 db).table key
          ≡ (if scope == key.0 then names key.1 cycle else is_present db.table key))

Applied-Delivered :
    (ingest : List Entry → Bool) (scope : Scope) (cycle : List Observation) (db : Db)
    (out : Producer × List RawMessage) (current : Dict CycleKey Observation)
    → IsCycle current
    → out.0.last_cycle ≡ current
    → Applied
        (handle_all ingest scope out.1 db)
        (λ key. if scope == key.0 then has_epc key.1 current else is_present db.table key)
    → ((epc : Text) → has_epc epc current ≡ names epc cycle)
    → Delivered ingest scope cycle db out
Applied-Delivered ingest scope cycle db out current c e a same = (
  record {
    cycle = subst IsCycle (sym e) c;
    consistent = a.consistent;
    agree = inr (λ epc.
        subst
          (λ d. is_present (handle_all ingest scope out.1 db).table (scope, epc) ≡ has_epc epc d)
          (sym e) (ground (arith, a.shown (scope, epc), pair_beq_iff scope scope)));
  },
  λ key. ground (arith, a.shown key, same key.1),
)

snap_if_forced : (p : Producer) (ts : ℤ) → p.force_snap_next ≡ true → snap_triggered p ts ≡ true
unfolding snap_triggered
snap_if_forced p ts h = rw h

-- A cycle that the producer accepts, delivered in full and in order to a subscriber whose
-- ingestion succeeds, at an instant that a datetime holds and from a serial number of at least 0:
-- if the two were in sync they are again; the table then shows, of the device, exactly the EPCs of
-- the cycle's observations in capitals, and of every other device what it showed.
pub emit_cycle-InSync :
    (ingest : List Entry → Bool) (scope : Scope) (p q : Producer) (ts : ℤ) (lat lon : Option ℤ)
    (cycle : List Observation) (msgs : List RawMessage) (db : Db)
    → ((reads : List Entry) → ingest reads ≡ true)
    → leb_ℤ (pos 0) p.sn ≡ true
    → ltb_ℤ ts max_ts_ms ≡ true
    → InSync scope p db
    → emit_cycle p ts lat lon cycle ≡ ok (q, msgs)
    → InSync scope q (handle_all ingest scope msgs db)
      × ((key : PresenceKey)
          → is_present (handle_all ingest scope msgs db).table key
            ≡ (if scope == key.0 then names key.1 cycle else is_present db.table key))
unfolding emit_snap emit_delta
emit_cycle-InSync ingest scope p q ts lat lon cycle msgs db ingested n u s h =
    let e = emit_cycle-Emitted p ts lat lon cycle (q, msgs) h in
    let v = Emitted-IsEnvelope p.sn ts lat lon n e.from u e.located in
    let m =
      materialize-IsCycle [] cycle e.current (record { distinct = tt; entries = tt }) e.accepted in
    elim (Bool-cases (snap_triggered p ts)) [
      | inl forced ↦ subst (Delivered ingest scope cycle db) (sym (rw forced at e.emitted)) (
          Applied-Delivered ingest scope cycle db (emit_snap p ts lat lon e.current) e.current m.0
            refl (snap-delivered ingest ingested scope p ts lat lon v e.current m.0 db s)
            (λ epc. ground (arith, m.1 epc)))
      | inr quiet ↦ subst (Delivered ingest scope cycle db) (sym (rw quiet at e.emitted)) (
          Applied-Delivered ingest scope cycle db (emit_delta p ts lat lon e.current) e.current m.0
            refl
            (delta-delivered ingest ingested scope p ts lat lon v e.current m.0 db s (elim s.agree [
              | inl forced ↦ absurd (ground (arith, snap_if_forced p ts forced))
              | inr agree ↦ agree
            ]))
            (λ epc. ground (arith, m.1 epc)))
    ]

-- After a reconnect, whatever the table shows of the device: where table and events agree, the serial
-- number is not negative, the cycle's instant is one that a datetime holds and ingestion succeeds,
-- once the next cycle is accepted and delivered, the table shows of the device exactly that cycle's
-- EPCs in capitals, and producer and table are in sync.
pub begin_session-resync :
    (ingest : List Entry → Bool) (scope : Scope) (p q : Producer) (ts : ℤ) (lat lon : Option ℤ)
    (cycle : List Observation) (msgs : List RawMessage) (db : Db)
    → ((reads : List Entry) → ingest reads ≡ true)
    → leb_ℤ (pos 0) p.sn ≡ true
    → ltb_ℤ ts max_ts_ms ≡ true
    → IsConsistent db
    → emit_cycle (begin_session p) ts lat lon cycle ≡ ok (q, msgs)
    → InSync scope q (handle_all ingest scope msgs db)
      × ((epc : Text)
          → is_present (handle_all ingest scope msgs db).table (scope, epc) ≡ names epc cycle)
unfolding begin_session
begin_session-resync ingest scope p q ts lat lon cycle msgs db ingested n u c h =
    let start : Producer = begin_session p in
    let out =
      emit_cycle-InSync ingest scope start q ts lat lon cycle msgs db ingested n u
        (record {
          cycle = record { distinct = tt; entries = tt };
          consistent = c;
          agree = inl refl;
        })
        h in
    (out.0, λ epc. ground (arith, out.1 (scope, epc), pair_beq_iff scope scope))
