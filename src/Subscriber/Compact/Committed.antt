-- ===== src/Subscriber/Compact/Committed.antt =====
-- A compact message that is parsed, with finite strengths, is applied.
use tag_pulse.Prelude.{
  ℤ, pos, leb_ℤ, ltb_ℤ, ◌≡◌, refl, sym, subst, Bool, true, Option, none, some, List, [], ◌∷◌, map,
  arith, ok, All,
}
use tag_pulse.Wire.Epc.{Text}
use tag_pulse.Wire.Message.{
  omitted, Envelope, RawMessage, WmMessage, validate_envelope, validate_message, optional,
}
use tag_pulse.Wire.Compact.{
  Kind, snap, add, delete, CompactEntry, CompactMessage, RawCompact, parse_wm_v2,
}
use tag_pulse.Presence.{
  Scope, Db, max_ts_ms, ts_to_datetime, reconcile_snap, apply_appeared, apply_disappeared,
}
use tag_pulse.Subscriber.{reconcile}
use tag_pulse.Subscriber.Compact.{
  or_null, committed, to_snap_model, to_appeared_model, to_disappeared_model, apply_model,
  apply_each, models, reads_of, after_apply, after_parse, handle_wm_v2_compact_message,
}
use tag_pulse.Subscriber.Compact.Lowered.{
  Parsed, IsCanonical, keyed, IsFinite, lowered, lowered_entry_lem, lowered_all_lem,
  validate_entry-lowered, validate_envelope-lowered, map_ok-lowered, parse_wm_v2-Parsed,
}

abbrev envelope_in : WmMessage → Envelope
envelope_in (WmMessage.snap env es) = env
envelope_in (WmMessage.appeared env e) = env
envelope_in (WmMessage.disappeared env an epc) = env

-- Every keyed message at an instant that a datetime holds is reconciled.
reconcile_applies :
    (scope : Scope) (db : Db) (raw : RawMessage) (msg : WmMessage) (env : Envelope)
    → validate_message raw ≡ ok msg
    → envelope_in msg ≡ env
    → ltb_ℤ env.ts max_ts_ms ≡ true
    → (apply_model scope (some raw) db).0 ≡ true
unfolding apply_model reconcile reconcile_snap apply_appeared apply_disappeared ts_to_datetime
reconcile_applies scope db raw (WmMessage.snap e es) env v same u = rw v (ground (arith, u, same))
reconcile_applies scope db raw (WmMessage.appeared e x) env v same u =
    rw v (ground (arith, u, same))
reconcile_applies scope db raw (WmMessage.disappeared e an x) env v same u =
    rw v (ground (arith, u, same))

module _ (scope : Scope) (msg : CompactMessage) (p : Parsed msg)
    (from : leb_ℤ (pos 0) msg.ts ≡ true) (until : ltb_ℤ msg.ts max_ts_ms ≡ true) where
  snap-applies :
      All IsFinite msg.entries → (db : Db) → (apply_model scope (to_snap_model msg) db).0 ≡ true
  unfolding to_snap_model validate_message
  snap-applies finite_all db =
      rw (lowered_all_lem msg msg.entries finite_all, to_snap_model)
        (reconcile_applies scope db
          (RawMessage.snap (pos 0) msg.ts (or_null msg.lat) (or_null msg.lon)
            (map (lowered msg) msg.entries))
          (WmMessage.snap (record { sn = pos 0; ts = msg.ts; lat = msg.lat; lon = msg.lon })
            (map (keyed msg) msg.entries))
          (record { sn = pos 0; ts = msg.ts; lat = msg.lat; lon = msg.lon })
          (rw (validate_envelope-lowered msg p from, map_ok-lowered msg msg.entries p p.canonical)
            refl)
          refl until)

  appeared-applies :
      (e : CompactEntry)
      → IsCanonical e
      → IsFinite e
      → (db : Db) → (apply_model scope (to_appeared_model msg e) db).0 ≡ true
  unfolding to_appeared_model validate_message
  appeared-applies e c f db =
      rw (lowered_entry_lem msg e f, to_appeared_model)
        (reconcile_applies scope db
          (RawMessage.appeared (pos 0) msg.ts (or_null msg.lat) (or_null msg.lon) (lowered msg e))
          (WmMessage.appeared (record { sn = pos 0; ts = msg.ts; lat = msg.lat; lon = msg.lon })
            (keyed msg e))
          (record { sn = pos 0; ts = msg.ts; lat = msg.lat; lon = msg.lon })
          (rw (validate_envelope-lowered msg p from, validate_entry-lowered msg e p c) refl) refl
          until)

  disappeared-applies :
      (e : CompactEntry)
      → IsCanonical e
      → IsFinite e
      → (db : Db) → (apply_model scope (to_disappeared_model msg e) db).0 ≡ true
  unfolding to_disappeared_model validate_message validate_envelope optional
  disappeared-applies e c f db =
      reconcile_applies scope db
        (RawMessage.disappeared (pos 0) msg.ts omitted omitted omitted e.epc)
        (WmMessage.disappeared (record { sn = pos 0; ts = msg.ts; lat = none; lon = none }) none
          e.epc)
        (record { sn = pos 0; ts = msg.ts; lat = none; lon = none }) (rw (from, c) refl) refl until

  -- The loop goes through if each of its calls does.
  each-applies :
      (model : CompactEntry → Option RawMessage) (es : List CompactEntry) (db : Db)
      → ((e : CompactEntry)
          → IsCanonical e
          → IsFinite e
          → (db : Db) → (apply_model scope (model e) db).0 ≡ true)
      → All IsCanonical es
      → All IsFinite es
      → (apply_each scope (map model es) db).0 ≡ true
  unfolding apply_each
  each-applies model [] db one c f = refl
  each-applies model (e ∷ es) db one c f =
      rw (one e c.0 f.0 db) (each-applies model es (apply_model scope (model e) db).1 one c.1 f.1)

  models-apply :
      (t : Kind) (db : Db)
      → All IsFinite msg.entries
      → (apply_each scope (models t msg) db).0 ≡ true
  unfolding apply_each
  models-apply snap db f = rw (snap-applies f db) refl
  models-apply add db f =
      each-applies (to_appeared_model msg) msg.entries db appeared-applies p.canonical f
  models-apply delete db f =
      each-applies (to_disappeared_model msg) msg.entries db disappeared-applies p.canonical f

-- A compact message that is parsed, at an instant from 1970 on that a datetime holds and with no
-- infinite strength, is committed where ingestion succeeds: with whatever finite strengths, and
-- whatever counts and sensor values, it lowers to keyed models that validation never refuses.
pub handle_wm_v2_compact_message_commits :
    (fromisoformat : Text → Option ℤ) (ingest : CompactMessage → List CompactEntry → Bool)
    (scope : Scope) (raw : RawCompact) (msg : CompactMessage) (db : Db)
    → parse_wm_v2 fromisoformat raw ≡ ok msg
    → leb_ℤ (pos 0) msg.ts ≡ true
    → ltb_ℤ msg.ts max_ts_ms ≡ true
    → All IsFinite msg.entries
    → ((reads : List CompactEntry) → ingest msg reads ≡ true)
    → (handle_wm_v2_compact_message fromisoformat ingest scope raw db).0 ≡ committed
unfolding handle_wm_v2_compact_message
handle_wm_v2_compact_message_commits fromisoformat ingest scope raw msg db h from until f ingested =
    let went =
      models-apply scope msg (parse_wm_v2-Parsed fromisoformat raw msg h) from until msg.t db f in
    subst (λ r. (after_parse fromisoformat ingest scope db r).0 ≡ committed) (sym h)
      (subst
        (λ b.
          (after_apply fromisoformat ingest msg db
            (b, (apply_each scope (models msg.t msg) db).1)).0
          ≡ committed)
        (sym went) (rw (ingested (reads_of msg.t msg)) refl))
