-- ===== src/Sync/Delivery.antt =====
-- What the subscriber makes of each message that a producer emits.
use mathlib.Core.List.{flat_map}
use tag_pulse.Prelude.{
  ℤ, pos, ◌≡◌, refl, sym, subst, Bool, true, ◌&&◌, ◌||◌, not, Option, none, some, List, [], ◌∷◌,
  ◌++◌, map, arith, ok, map_ok, between, leb_ℤ, ltb_ℤ, contains, any, All, ◌==◌, pair_eq, list_eq,
  nat_eq, int_eq, list_beq_iff, Bool-cases, Option-cases, inl, inr,
}
use tag_pulse.Dict.{Dict, lookup, has_key, values}
use tag_pulse.Dict.Laws.{has_key-lookup}
use tag_pulse.Wire.Epc.{Text}
use tag_pulse.Wire.Message.{
  Entry, Envelope, WmMessage, RawMessage, snap, appeared, validate_entry, nullable, in_range,
  normalize_epc, validate_message, validate_envelope, optional, lat_min, lat_max, lon_min, lon_max,
}
use tag_pulse.Edge.Producer.{
  Producer, Observation, CycleKey, ProducerError, entry_dict, or_null, appeared_for,
  disappeared_for, check_optional,
}
use tag_pulse.Edge.Producer.Laws.{as_entry, IsEntry, EntriesOk, lookup-IsEntry}
use tag_pulse.Presence.{
  Scope, PresenceKey, Db, max_ts_ms, ts_to_datetime, settle_snap, settle_appeared,
  settle_disappeared, reconcile_snap, apply_appeared, apply_disappeared,
}
use tag_pulse.Presence.View.{is_present}
use tag_pulse.Presence.Transitions.{IsConsistent, Applied}
use tag_pulse.Presence.Transitions.Delta.{settle_appeared_lem, settle_disappeared_lem}
use tag_pulse.Subscriber.{committed, reconcile, apply_message, handle_wm_v2_message, handle_all}

-- The envelope of a cycle: a serial number and an instant that both sides take, and a location in
-- range, or none.
pub record IsEnvelope (sn ts : ℤ) (lat lon : Option ℤ) : Type 0 where
  pub serial : leb_ℤ (pos 0) sn ≡ true
  pub from : leb_ℤ (pos 0) ts ≡ true
  pub until : ltb_ℤ ts max_ts_ms ≡ true
  pub latitude : nullable lat_min lat_max (or_null lat) ≡ ok lat
  pub longitude : nullable lon_min lon_max (or_null lon) ≡ ok lon

pub nullable_lem :
    (lo hi : ℤ) (e : ProducerError) (o : Option ℤ)
    → check_optional lo hi e o ≡ ok tt
    → nullable lo hi (or_null o) ≡ ok o
unfolding nullable in_range
nullable_lem lo hi e none h = refl
nullable_lem lo hi e (some n) h = elim (Bool-cases (between lo hi n)) [
  | inl b ↦ rw b
  | inr b ↦ absurd (cc (rw b at h))
]

-- `Applied` says what is shown; a rule is changed to one that shows the same.
pub Applied-rule :
    (db : Db) (f g : PresenceKey → Bool)
    → Applied db f
    → ((key : PresenceKey) → f key ≡ g key)
    → Applied db g
Applied-rule db f g a same = record {
  consistent = a.consistent;
  shown = λ key. ground (arith, a.shown key, same key);
}

-- The antenna plays no part in what the table shows.
abbrev pub any_epc : Text → List CycleKey → Bool
any_epc epc = any (λ k. k.1 == epc)

module _ (ingest : List Entry → Bool) (ingested : (reads : List Entry) → ingest reads ≡ true)
    (scope : Scope) (p : Producer) (ts : ℤ) (lat lon : Option ℤ)
    (v : IsEnvelope p.sn ts lat lon) where
  validate_entries :
      (d : Dict CycleKey Observation)
      → EntriesOk d
      → map_ok validate_entry (map entry_dict (values d)) ≡ ok (map as_entry (values d))
  validate_entries [] h = refl
  validate_entries ((key, obs) ∷ d) h = rw (h.0.accepted, validate_entries d h.1)

  abbrev env : Envelope
  env = record { sn = p.sn; ts = ts; lat = lat; lon = lon }

  envelope_valid : validate_envelope nullable p.sn ts (or_null lat) (or_null lon) ≡ ok env
  unfolding validate_envelope
  envelope_valid = ground (arith, v.serial, v.from, v.latitude, v.longitude)

  instant_valid : ts_to_datetime ts ≡ ok ts
  unfolding ts_to_datetime
  instant_valid = rw v.until

  handle_lem :
      (raw : RawMessage) (msg : WmMessage) (after db : Db) (reads : List Entry)
      → validate_message raw ≡ ok msg
      → reconcile scope msg db ≡ ok (after, reads)
      → handle_wm_v2_message ingest scope raw db ≡ (committed, after)
  unfolding handle_wm_v2_message apply_message
  handle_lem raw msg after db reads e r = ground (arith, ingested reads)

  pub handle-snap :
      (d : Dict CycleKey Observation) (db : Db)
      → EntriesOk d
      → handle_wm_v2_message ingest scope
          (snap p.sn ts (or_null lat) (or_null lon) (map entry_dict (values d)))
          db
        ≡ (committed, (settle_snap scope ts (map as_entry (values d)) db).0)
  unfolding validate_message reconcile reconcile_snap
  handle-snap d db h =
      handle_lem _ (WmMessage.snap env (map as_entry (values d))) _ db (map as_entry (values d))
        (rw (envelope_valid, validate_entries d h)) (rw instant_valid)

  handle-appeared :
      (key : CycleKey) (obs : Observation) (db : Db)
      → IsEntry key obs
      → handle_wm_v2_message ingest scope
          (appeared p.sn ts (or_null lat) (or_null lon) (entry_dict obs))
          db
        ≡ (committed, (settle_appeared scope ts (as_entry obs) db).0)
  unfolding validate_message reconcile apply_appeared
  handle-appeared key obs db h =
      handle_lem _ (WmMessage.appeared env (as_entry obs)) _ db (as_entry obs ∷ [])
        (rw (envelope_valid, h.accepted)) (rw instant_valid)

  handle-disappeared :
      (epc : Text) (db : Db)
      → normalize_epc epc ≡ ok epc
      → handle_wm_v2_message ingest scope (disappeared_for p ts epc) db
        ≡ (committed, (settle_disappeared scope ts epc db).0)
  unfolding validate_message reconcile apply_disappeared disappeared_for validate_envelope optional
  handle-disappeared epc db h =
      handle_lem _ (WmMessage.disappeared (record env { lat = none; lon = none }) none epc) _ db []
        (ground (arith, v.serial, v.from)) (rw instant_valid)

  abbrev pub delivered : List RawMessage → Db → Db
  delivered = handle_all ingest scope

  pub handle_all-append :
      (first second : List RawMessage) (db : Db)
      → delivered (first ++ second) db ≡ delivered second (delivered first db)
  unfolding handle_all
  handle_all-append [] second db = refl
  handle_all-append (raw ∷ first) second db =
      handle_all-append first second (handle_wm_v2_message ingest scope raw db).1

  pub delivered-cons :
      (raw : RawMessage) (rest : List RawMessage) (db after : Db) (f : PresenceKey → Bool)
      → handle_wm_v2_message ingest scope raw db ≡ (committed, after)
      → Applied (delivered rest after) f
      → Applied (delivered (raw ∷ rest) db) f
  unfolding handle_all
  delivered-cons raw rest db after f e a = subst (λ out. Applied (delivered rest out.1) f) (sym e) a

  pub delivered-nil : (db : Db) → IsConsistent db → Applied (delivered [] db) (is_present db.table)
  unfolding handle_all
  delivered-nil db c = record { consistent = c; shown = λ key. refl }

  appeared_for_lem :
      (current : Dict CycleKey Observation) (k : CycleKey)
      → EntriesOk current
      → has_key k current ≡ true
      → (obs : Observation) × (appeared_for p ts lat lon current k
          ≡ appeared p.sn ts (or_null lat) (or_null lon) (entry_dict obs) ∷ [])
        × IsEntry k obs
  unfolding appeared_for
  appeared_for_lem current k h a = elim (Option-cases (lookup k current)) [
    | inl e ↦ absurd (ground (arith, has_key-lookup k current))
    | inr (obs, e) ↦ (obs, ground arith, lookup-IsEntry k obs current h e)
  ]

  -- The `t=1` messages: every EPC among their keys is shown.
  pub delivered-appeared :
      (current : Dict CycleKey Observation) (ks : List CycleKey) (db : Db)
      → EntriesOk current
      → All (λ k. has_key k current ≡ true) ks
      → IsConsistent db
      → Applied
          (delivered (flat_map (appeared_for p ts lat lon current) ks) db)
          (λ key. scope == key.0 && any_epc key.1 ks || is_present db.table key)
  unfolding flat_map
  delivered-appeared current [] db h a c =
      Applied-rule (delivered [] db) (is_present db.table) _ (delivered-nil db c)
        (λ key. ground arith)
  delivered-appeared current (k ∷ ks) db h a c =
      let (obs, e, i) = appeared_for_lem current k h a.0 in
      let next = settle_appeared_lem scope ts (as_entry obs) db c in
      let rest =
        delivered-appeared current ks (settle_appeared scope ts (as_entry obs) db).0 h a.1
          next.consistent in
      rw e (
        delivered-cons _ _ db _ _ (handle-appeared k obs db i) (
          Applied-rule _ _ _ rest (λ key.
            ground (
              arith,
              next.shown key,
              i.keyed,
              list_beq_iff obs.epc key.1,
              list_beq_iff k.1 key.1,
            ))))

  -- The `t=2` messages: none of their EPCs is shown.
  pub delivered-disappeared :
      (es : List Text) (db : Db)
      → All (λ e. normalize_epc e ≡ ok e) es
      → IsConsistent db
      → Applied
          (delivered (map (disappeared_for p ts) es) db)
          (λ key. not (scope == key.0 && contains key.1 es) && is_present db.table key)
  delivered-disappeared [] db a c =
      Applied-rule (delivered [] db) (is_present db.table) _ (delivered-nil db c)
        (λ key. ground arith)
  delivered-disappeared (e ∷ es) db a c =
      let next = settle_disappeared_lem scope ts e db c in
      let rest =
        delivered-disappeared es (settle_disappeared scope ts e db).0 a.1 next.consistent in
      delivered-cons _ _ db _ _ (handle-disappeared e db a.0) (
        Applied-rule _ _ _ rest
          (λ key. ground (arith, next.shown key, list_beq_iff e key.1, list_beq_iff key.1 e)))
