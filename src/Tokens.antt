-- ===== src/Tokens.antt =====
-- The single-use confirmation tokens of bulk operations
-- (src/tagpulse/core/bulk_confirmation_tokens.py). Tenants and users are numbers, texts are strings,
-- an instant is a number of ticks of the monotonic clock. The text of a fresh token comes from
-- `secrets.token_urlsafe` and is an argument of `mint`.
pub mod Lifecycle
use tag_pulse.Prelude.{
  ℕ, ◌+◌, ltb, Bool, true, false, ◌&&◌, not, Option, none, some, List, [], String, Eq, ◌==◌, nat_eq,
  string_eq, option_eq, if◌then◌else◌, Result, ok, err,
}
use tag_pulse.Dict.{Dict, lookup, insert, erase, keep_entries}

abbrev pub default_ttl_seconds : ℕ
default_ttl_seconds = 900

pub data Outcome : Type 0 where
  ok_token not_found expired content_mismatch tenant_mismatch user_mismatch operation_mismatch :
      Outcome

-- What a token is bound to.
pub record Binding : Type 0 where
  pub tenant_id : ℕ
  pub user_id : Option ℕ
  pub operation : String
  pub content_hash : String

pub record Entry : Type 0 where
  pub bound : Binding
  pub expires_at : ℕ

pub data TokenError : Type 0 where
  ttl_not_positive : TokenError

abbrev pub Store : Type 0
Store = Dict String Entry

-- Entries past their expiry are dropped.
unfoldable pub purge_expired : ℕ → Store → Store
purge_expired ts entries = keep_entries (λ token e. not (ltb e.expires_at ts)) entries

-- Seconds are ticks here: `ttl_seconds` is added to the instant.
unfoldable pub mint : String → Binding → ℕ → ℕ → Store → Result TokenError (Store × String × ℕ)
mint token bound ttl_seconds ts entries =
    if nat_eq.beq ttl_seconds 0
    then err ttl_not_positive
    else ok (
      insert token (record { bound = bound; expires_at = ts + ttl_seconds })
          (purge_expired ts entries),
      token,
      ttl_seconds,
    )

-- The checks on a token that is there, in their order.
unfoldable pub verdict : Entry → Binding → ℕ → Outcome
verdict entry asked ts =
    if ltb entry.expires_at ts
    then expired
    else if not (entry.bound.tenant_id == asked.tenant_id)
    then tenant_mismatch
    else if not (entry.bound.user_id == asked.user_id)
    then user_mismatch
    else if not (entry.bound.operation == asked.operation)
    then operation_mismatch
    else if not (entry.bound.content_hash == asked.content_hash)
    then content_mismatch
    else ok_token

-- A token is dropped once it has expired or is spent; a mismatch leaves it.
abbrev pub drops : Outcome → Bool
drops expired = true
drops ok_token = true
drops _ = false

unfoldable pub consume : String → Binding → ℕ → Store → Outcome × Store
consume token asked ts entries = elim (lookup token entries) [
  | none ↦ (not_found, entries)
  | some entry ↦ (
    verdict entry asked ts,
    if drops (verdict entry asked ts) then erase token entries else entries,
  )
]

unfoldable pub reset : Store → Store
reset entries = []
