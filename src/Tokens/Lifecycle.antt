-- ===== src/Tokens/Lifecycle.antt =====
-- A token confirms the operation that it was made for, once, and no other.
use mathlib.Core.Logic.{◌↔◌}
use tag_pulse.Prelude.{
  ℕ, ◌+◌, ◌≤◌, ◌≡◌, refl, ◌&&◌, none, some, List, [], ◌∷◌, String, ◌==◌, ==_iff, nat_eq, string_eq,
  option_eq, if◌then◌else◌, ok, arith, inl, inr, Option-cases, option_beq_iff,
}
use tag_pulse.Dict.{lookup, Distinct}
use tag_pulse.Dict.Laws.{lookup-insert, lookup-erase, erase-Distinct}
use tag_pulse.Tokens.{
  Outcome, ok_token, not_found, Binding, Entry, Store, purge_expired, mint, verdict, drops, consume,
}

-- The verdict is the success exactly if the token has not expired and every part of what was asked
-- is what the token is bound to.
pub verdict-ok_iff :
    (entry : Entry) (asked : Binding) (ts : ℕ)
    → (verdict entry asked ts ≡ ok_token) ↔ ((entry.bound ≡ asked) × (ts ≤ entry.expires_at))
unfolding verdict
verdict-ok_iff entry asked ts = ground (
  arith,
  option_beq_iff entry.bound.user_id asked.user_id,
  ==_iff entry.bound.operation asked.operation,
  ==_iff entry.bound.content_hash asked.content_hash,
)

consume_known :
    (token : String) (asked : Binding) (ts : ℕ) (s : Store) (entry : Entry)
    → lookup token s ≡ some entry
    → (consume token asked ts s).0 ≡ verdict entry asked ts
unfolding consume
consume_known token asked ts s entry h = ground arith

-- A token that has just been made confirms what it is bound to at any instant up to its expiry,
-- and nothing else: asked for another tenant, user, operation or content it does not succeed, and
-- past the expiry it does not either.
pub consume-mint :
    (token : String) (bound asked : Binding) (ttl ts now : ℕ) (s s' : Store)
    → mint token bound ttl ts s ≡ ok (s', token, ttl)
    → ((consume token asked now s').0 ≡ ok_token) ↔ ((bound ≡ asked) × (now ≤ ts + ttl))
unfolding mint
consume-mint token bound asked ttl ts now s s' h =
    let fresh : Entry = record { bound = bound; expires_at = ts + ttl } in
    let there : lookup token s' ≡ some fresh =
      ground (arith, lookup-insert token token fresh (purge_expired ts s), ==_iff token token) in
    rw (consume_known token asked now s' fresh there) (verdict-ok_iff fresh asked now)

-- What `consume` leaves under a key: nothing under the token if it was spent or had expired, and
-- all else as it was.
pub lookup-consume :
    (token other : String) (asked : Binding) (ts : ℕ) (s : Store)
    → Distinct s
    → lookup other (consume token asked ts s).1
      ≡ (if token == other && drops (consume token asked ts s).0 then none else lookup other s)
unfolding consume
lookup-consume token other asked ts s d = elim (Option-cases (lookup token s)) [
  | inl e ↦ ground arith
  | inr (entry, e) ↦ ground (arith, lookup-erase other token s d)
]

pub consume-Distinct :
    (token : String) (asked : Binding) (ts : ℕ) (s : Store)
    → Distinct s
    → Distinct (consume token asked ts s).1
unfolding consume
consume-Distinct token asked ts s d = ground (arith, erase-Distinct token s d)

consume_absent :
    (token : String) (asked : Binding) (ts : ℕ) (s : Store)
    → lookup token s ≡ none
    → consume token asked ts s ≡ (not_found, s)
unfolding consume
consume_absent token asked ts s h = ground arith

-- Attempts at confirmation, each with what is asked and its instant; how many succeed.
abbrev pub is_ok : Outcome → ℕ
is_ok ok_token = 1
is_ok _ = 0

unfoldable pub attempts : String → List (Binding × ℕ) → Store → ℕ
attempts token [] s = 0
attempts token ((asked, ts) ∷ rest) s =
    is_ok (consume token asked ts s).0 + attempts token rest (consume token asked ts s).1

attempts_absent :
    (token : String) (tries : List (Binding × ℕ)) (s : Store)
    → lookup token s ≡ none
    → attempts token tries s ≡ 0
unfolding attempts
attempts_absent token [] s h = refl
attempts_absent token ((asked, ts) ∷ rest) s h =
    rw (consume_absent token asked ts s h) (ground (arith, attempts_absent token rest s h))

-- However often a token is presented, and with whatever is asked, it succeeds at most once.
pub attempts_single_use :
    (token : String) (tries : List (Binding × ℕ)) (s : Store)
    → Distinct s
    → attempts token tries s ≤ 1
unfolding attempts
attempts_single_use token [] s d = omega arith
attempts_single_use token ((asked, ts) ∷ rest) s d = by_outcome (consume token asked ts s).0 refl (
    attempts_single_use token rest (consume token asked ts s).1
      (consume-Distinct token asked ts s d))
  where
    by_outcome :
        (o : Outcome)
        → (consume token asked ts s).0 ≡ o
        → attempts token rest (consume token asked ts s).1 ≤ 1
        → is_ok (consume token asked ts s).0 + attempts token rest (consume token asked ts s).1 ≤ 1
    by_outcome ok_token e ih = ground (
      arith,
      attempts_absent token rest (consume token asked ts s).1
          (ground (arith, lookup-consume token token asked ts s d, ==_iff token token)),
    )
    by_outcome _ e ih = ground arith
