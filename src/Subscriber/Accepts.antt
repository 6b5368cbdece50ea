-- ===== src/Subscriber/Accepts.antt =====
-- Events and table agree, whatever messages arrive from whatever devices.
use tag_pulse.Prelude.{
  ◌≡◌, sym, subst, >>=-eq-ok, Result-cases, Bool, true, List, [], ◌∷◌, arith, ok, inl, inr,
}
use tag_pulse.Wire.Message.{Entry, RawMessage, WmMessage, validate_message}
use tag_pulse.Presence.{
  Scope, Db, ts_to_datetime, settle_snap, settle_appeared, settle_disappeared, reconcile_snap,
  apply_appeared, apply_disappeared,
}
use tag_pulse.Presence.Transitions.{IsConsistent, settle_snap_lem}
use tag_pulse.Presence.Transitions.Delta.{settle_appeared_lem, settle_disappeared_lem}
use tag_pulse.Subscriber.{
  after_reconcile, after_validation, handle_stream, reconcile, apply_message, handle_wm_v2_message,
}

-- A message that is applied leaves a consistent table.
pub reconcile-IsConsistent :
    (scope : Scope) (msg : WmMessage) (db after : Db) (reads : List Entry)
    → IsConsistent db
    → reconcile scope msg db ≡ ok (after, reads)
    → IsConsistent after
unfolding reconcile reconcile_snap apply_appeared apply_disappeared
reconcile-IsConsistent scope (WmMessage.snap env entries) db after reads c h =
    let (out, r, e) = >>=-eq-ok (reconcile_snap scope env entries db) _ h in
    let (at, t, f) = >>=-eq-ok (ts_to_datetime env.ts) _ r in
    subst IsConsistent {x = (settle_snap scope at entries db).0} (ground arith)
      (settle_snap_lem scope at entries db c).consistent
reconcile-IsConsistent scope (WmMessage.appeared env entry) db after reads c h =
    let (out, r, e) = >>=-eq-ok (apply_appeared scope env entry db) _ h in
    let (at, t, f) = >>=-eq-ok (ts_to_datetime env.ts) _ r in
    subst IsConsistent {x = (settle_appeared scope at entry db).0} (ground arith)
      (settle_appeared_lem scope at entry db c).consistent
reconcile-IsConsistent scope (WmMessage.disappeared env an epc) db after reads c h =
    let (out, r, e) = >>=-eq-ok (apply_disappeared scope env epc db) _ h in
    let (at, t, f) = >>=-eq-ok (ts_to_datetime env.ts) _ r in
    subst IsConsistent {x = (settle_disappeared scope at epc db).0} (ground arith)
      (settle_disappeared_lem scope at epc db c).consistent

-- The same of a message as the handler applies it.
apply_message-IsConsistent :
    (ingest : List Entry → Bool) (scope : Scope) (msg : WmMessage) (db : Db)
    → ((reads : List Entry) → ingest reads ≡ true)
    → IsConsistent db
    → IsConsistent (apply_message ingest scope msg db).1
unfolding apply_message
apply_message-IsConsistent ingest scope msg db ingested c =
    elim (Result-cases (reconcile scope msg db)) [
      | inl ((after, reads), e) ↦
          subst (λ r. IsConsistent (after_reconcile ingest db r).1) (sym e)
            (rw (ingested reads) (reconcile-IsConsistent scope msg db after reads c e))
      | inr (x, e) ↦ subst (λ r. IsConsistent (after_reconcile ingest db r).1) (sym e) c
    ]

-- Whatever payload arrives from whatever device, events and table agree after it if they did before
-- and ingestion succeeds: a payload that is refused, or whose instant no datetime holds, included.
pub handle_wm_v2_message-IsConsistent :
    (ingest : List Entry → Bool) (scope : Scope) (raw : RawMessage) (db : Db)
    → ((reads : List Entry) → ingest reads ≡ true)
    → IsConsistent db
    → IsConsistent (handle_wm_v2_message ingest scope raw db).1
unfolding handle_wm_v2_message
handle_wm_v2_message-IsConsistent ingest scope raw db ingested c =
    elim (Result-cases (validate_message raw)) [
      | inl (msg, e) ↦
          subst (λ r. IsConsistent (after_validation ingest scope db r).1) (sym e)
            (apply_message-IsConsistent ingest scope msg db ingested c)
      | inr (x, e) ↦ subst (λ r. IsConsistent (after_validation ingest scope db r).1) (sym e) c
    ]

-- Any sequence of payloads from any devices keeps them in agreement.
pub handle_stream-IsConsistent :
    (ingest : List Entry → Bool) (arrivals : List (Scope × RawMessage)) (db : Db)
    → ((reads : List Entry) → ingest reads ≡ true)
    → IsConsistent db
    → IsConsistent (handle_stream ingest arrivals db)
unfolding handle_stream
handle_stream-IsConsistent ingest [] db ingested c = c
handle_stream-IsConsistent ingest ((scope, raw) ∷ arrivals) db ingested c =
    handle_stream-IsConsistent ingest arrivals (handle_wm_v2_message ingest scope raw db).1 ingested
      (handle_wm_v2_message-IsConsistent ingest scope raw db ingested c)
