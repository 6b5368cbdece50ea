-- ===== src/Subscriber/Compact/Applied.antt =====
-- What a compact message does to table and events.
use tag_pulse.Prelude.{
  ℤ, ◌≡◌, ◌≢◌, ◌⊎◌, refl, sym, subst, Bool, true, false, Option, none, some, List, [], ◌∷◌, arith,
  Result-cases, err, inl, inr, Bool-cases,
}
use tag_pulse.Wire.Epc.{Text}
use tag_pulse.Wire.Message.{RawMessage, validate_message}
use tag_pulse.Wire.Compact.{
  Reason, overflow_error, CompactEntry, CompactMessage, RawCompact, parse_wm_v2,
}
use tag_pulse.Presence.{Scope, Db}
use tag_pulse.Presence.Transitions.{IsConsistent}
use tag_pulse.Subscriber.{reconcile}
use tag_pulse.Subscriber.Accepts.{reconcile-IsConsistent}
use tag_pulse.Subscriber.Compact.{
  CompactOutcome, committed, after_lowered, after_model, apply_model, apply_each, models, reads_of,
  after_apply, after_parse, handle_wm_v2_compact_message,
}

apply_model-IsConsistent :
    (scope : Scope) (model : Option RawMessage) (db : Db)
    → IsConsistent db
    → IsConsistent (apply_model scope model db).1
unfolding apply_model
apply_model-IsConsistent scope none db c = c
apply_model-IsConsistent scope (some raw) db c = elim (Result-cases (validate_message raw)) [
  | inl (msg, e) ↦
      subst (λ r. IsConsistent (after_model scope db r).1) (sym e)
        (elim (Result-cases (reconcile scope msg db)) [
          | inl ((after, reads), f) ↦
              subst (λ r. IsConsistent (after_lowered db r).1) (sym f)
                (reconcile-IsConsistent scope msg db after reads c f)
          | inr (x, f) ↦ subst (λ r. IsConsistent (after_lowered db r).1) (sym f) c
        ])
  | inr (x, e) ↦ subst (λ r. IsConsistent (after_model scope db r).1) (sym e) c
]

apply_each-IsConsistent :
    (scope : Scope) (raws : List (Option RawMessage)) (db : Db)
    → IsConsistent db
    → IsConsistent (apply_each scope raws db).1
unfolding apply_each
apply_each-IsConsistent scope [] db c = c
apply_each-IsConsistent scope (raw ∷ raws) db c =
    let step = apply_model-IsConsistent scope raw db c in
    let after = apply_each-IsConsistent scope raws (apply_model scope raw db).1 step in
    elim (Bool-cases (apply_model scope raw db).0) [
      | inl went ↦ rw went after
      | inr raised ↦ rw raised step
    ]

abbrev Settled : Db → CompactOutcome × Db → Type 0
Settled db out =
    ((out.0 ≢ committed) × (out.1.table ≡ db.table)) ⊎ ((out.0 ≡ committed) × IsConsistent out.1)

after_apply-Settled :
    (fromisoformat : Text → Option ℤ) (ingest : CompactMessage → List CompactEntry → Bool)
    (msg : CompactMessage) (db : Db) (went : Bool) (after : Db)
    → IsConsistent after
    → Settled db (after_apply fromisoformat ingest msg db (went, after))
after_apply-Settled fromisoformat ingest msg db false after c = inl (λ same. ground arith, refl)
after_apply-Settled fromisoformat ingest msg db true after c =
    elim (Bool-cases (ingest msg (reads_of msg.t msg))) [
      | inl kept ↦ rw kept (inr (refl, c))
      | inr lost ↦ rw lost (inl (λ same. ground arith, refl))
    ]

unparsed :
    (fromisoformat : Text → Option ℤ) (ingest : CompactMessage → List CompactEntry → Bool)
    (scope : Scope) (db : Db) (reason : Reason)
    → Settled db (after_parse fromisoformat ingest scope db (err reason))
unparsed fromisoformat ingest scope db overflow_error = inl (λ same. ground arith, refl)
unparsed fromisoformat ingest scope db _ = inl (λ same. ground arith, refl)

-- A compact message that is committed, of whatever type and with whatever entries, leaves events and
-- table in agreement if they were; one that is not leaves the table as it was.
pub handle_wm_v2_compact_message-IsConsistent :
    (fromisoformat : Text → Option ℤ) (ingest : CompactMessage → List CompactEntry → Bool)
    (scope : Scope) (raw : RawCompact) (db : Db)
    → IsConsistent db
    → (((handle_wm_v2_compact_message fromisoformat ingest scope raw db).0 ≢ committed)
        × ((handle_wm_v2_compact_message fromisoformat ingest scope raw db).1.table ≡ db.table))
      ⊎ (((handle_wm_v2_compact_message fromisoformat ingest scope raw db).0 ≡ committed)
          × IsConsistent (handle_wm_v2_compact_message fromisoformat ingest scope raw db).1)
unfolding handle_wm_v2_compact_message
handle_wm_v2_compact_message-IsConsistent fromisoformat ingest scope raw db c =
    elim (Result-cases (parse_wm_v2 fromisoformat raw)) [
      | inl (msg, e) ↦
          subst (λ r. Settled db (after_parse fromisoformat ingest scope db r)) (sym e)
            (after_apply-Settled fromisoformat ingest msg db
              (apply_each scope (models msg.t msg) db).0 (apply_each scope (models msg.t msg) db).1
              (apply_each-IsConsistent scope (models msg.t msg) db c))
      | inr (reason, e) ↦
          subst (λ r. Settled db (after_parse fromisoformat ingest scope db r)) (sym e)
            (unparsed fromisoformat ingest scope db reason)
    ]
