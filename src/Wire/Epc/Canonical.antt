-- ===== src/Wire/Epc/Canonical.antt =====
-- What an accepted EPC looks like, and that acceptance is stable under the canonical form.
use tag_pulse.Prelude.{
  ℕ, suc, ◌%◌, ◌≤◌, ◌≡◌, refl, ap, Bool, true, false, ◌||◌, [], ◌∷◌, arith, all, nat_beq, length,
  ok,
}
use tag_pulse.Wire.Epc.{
  Text, is_space, is_hex, to_upper, upper, all_space, digits_from, digits_start, after_prefix,
  unprefixed, unsigned, int_base16, validate_epc, epc_min_hex_chars, epc_max_hex_chars,
}

is_hex-to_upper : (c : ℕ) → is_hex (to_upper c) ≡ is_hex c
unfolding is_hex to_upper
is_hex-to_upper c = ground arith

is_space-to_upper : (c : ℕ) → is_space (to_upper c) ≡ is_space c
unfolding is_space to_upper
is_space-to_upper c = ground arith

-- The marks that `int` looks for stand for themselves, but for the `x` of the prefix.
to_upper_marks :
    (c : ℕ)
    → (nat_beq (to_upper c) b'_' ≡ nat_beq c b'_')
      × (nat_beq (to_upper c) b'+' ≡ nat_beq c b'+')
      × (nat_beq (to_upper c) b'-' ≡ nat_beq c b'-')
      × (nat_beq (to_upper c) b'0' ≡ nat_beq c b'0')
      × ((nat_beq (to_upper c) b'x' || nat_beq (to_upper c) b'X')
          ≡ (nat_beq c b'x' || nat_beq c b'X'))
unfolding to_upper
to_upper_marks c = ground arith

all_space-upper : (s : Text) → all_space (upper s) ≡ all_space s
unfolding all_space upper
all_space-upper [] = refl
all_space-upper (c ∷ s) = ground (arith, is_space-to_upper c, all_space-upper s)

digits_from-upper : (after : Bool) (s : Text) → digits_from after (upper s) ≡ digits_from after s
unfolding digits_from upper
digits_from-upper after [] = refl
digits_from-upper after (c ∷ s) = ground (
  arith,
  is_hex-to_upper c,
  is_space-to_upper c,
  (to_upper_marks c).0,
  all_space-upper s,
  digits_from-upper true s,
  digits_from-upper false s,
)

digits_start-upper : (s : Text) → digits_start (upper s) ≡ digits_start s
unfolding digits_start upper
digits_start-upper [] = refl
digits_start-upper (c ∷ s) = ground (arith, is_hex-to_upper c, digits_from-upper false s)

after_prefix-upper : (s : Text) → after_prefix (upper s) ≡ after_prefix s
unfolding after_prefix upper
after_prefix-upper [] = refl
after_prefix-upper (c ∷ s) =
    ground (arith, (to_upper_marks c).0, digits_start-upper s, digits_start-upper (c ∷ s))

unprefixed-upper : (s : Text) → unprefixed (upper s) ≡ unprefixed s
unfolding unprefixed upper
unprefixed-upper [] = refl
unprefixed-upper (c ∷ []) = digits_start-upper (c ∷ [])
unprefixed-upper (c ∷ d ∷ s) =
    rw ((to_upper_marks c).3, (to_upper_marks d).4, after_prefix-upper s)
      (ground (arith, digits_start-upper (c ∷ d ∷ s)))

unsigned-upper : (s : Text) → unsigned (upper s) ≡ unsigned s
unfolding unsigned upper
unsigned-upper [] = refl
unsigned-upper (c ∷ s) = ground (
  arith,
  (to_upper_marks c).1,
  (to_upper_marks c).2,
  unprefixed-upper s,
  unprefixed-upper (c ∷ s),
)

int_base16-upper : (s : Text) → int_base16 (upper s) ≡ int_base16 s
unfolding int_base16 upper
int_base16-upper [] = refl
int_base16-upper (c ∷ s) =
    ground (arith, is_space-to_upper c, int_base16-upper s, unsigned-upper (c ∷ s))

length-upper : (s : Text) → length (upper s) ≡ length s
unfolding upper
length-upper [] = refl
length-upper (c ∷ s) = ap suc (length-upper s)

to_upper_idem : (c : ℕ) → to_upper (to_upper c) ≡ to_upper c
unfolding to_upper
to_upper_idem c = ground arith

upper_idem : (s : Text) → upper (upper s) ≡ upper s
unfolding upper
upper_idem [] = refl
upper_idem (c ∷ s) = ground (arith, to_upper_idem c, upper_idem s)

-- An accepted EPC comes back in capitals, with an even number of characters between 8 and 124, and
-- it is itself accepted, unchanged: what the edge canonicalises, the backend takes as it is.
pub validate_epc_canonical :
    (value epc : Text)
    → validate_epc value ≡ ok epc
    → (epc ≡ upper value)
      × (epc_min_hex_chars ≤ length epc)
      × (length epc ≤ epc_max_hex_chars)
      × (length epc % 2 ≡ 0)
      × (validate_epc epc ≡ ok epc)
unfolding validate_epc
validate_epc_canonical value epc h =
    ground (arith, length-upper value, int_base16-upper value, upper_idem value)

digits_from-all :
    (after : Bool) (c : ℕ) (s : Text) → all is_hex (c ∷ s) ≡ true → digits_from after (c ∷ s) ≡ true
unfolding digits_from
digits_from-all after c [] h = ground arith
digits_from-all after c (d ∷ s) h = ground (arith, digits_from-all false d s)

digits_start-all : (c : ℕ) (s : Text) → all is_hex (c ∷ s) ≡ true → digits_start (c ∷ s) ≡ true
unfolding digits_start digits_from
digits_start-all c s h = ground (arith, digits_from-all false c s)

is_hex_marks :
    (c : ℕ)
    → is_hex c ≡ true
    → (is_space c ≡ false)
      × (nat_beq c b'_' ≡ false)
      × (nat_beq c b'+' ≡ false)
      × (nat_beq c b'-' ≡ false)
      × (nat_beq c b'x' || nat_beq c b'X' ≡ false)
unfolding is_hex is_space
is_hex_marks c h = ground arith

int_base16_plain :
    (c d : ℕ) (s : Text) → all is_hex (c ∷ d ∷ s) ≡ true → int_base16 (c ∷ d ∷ s) ≡ true
unfolding int_base16 unsigned unprefixed
int_base16_plain c d s h =
    ground (arith, is_hex_marks c, is_hex_marks d, digits_start-all c (d ∷ s))

int_base16_prefixed :
    (c : ℕ) (s : Text) → all is_hex (c ∷ s) ≡ true → int_base16 (b'0' ∷ b'x' ∷ c ∷ s) ≡ true
unfolding int_base16 unsigned unprefixed after_prefix is_space
int_base16_prefixed c s h = ground (arith, is_hex_marks c, digits_start-all c s)

-- Hexadecimal digits, an even number of them between 8 and 124, are accepted and come back in
-- capitals.
pub validate_epc_accepts :
    (s : Text)
    → all is_hex s ≡ true
    → length s % 2 ≡ 0
    → 8 ≤ length s
    → length s ≤ 124
    → validate_epc s ≡ ok (upper s)
unfolding validate_epc upper to_upper
validate_epc_accepts [] h e low high = ground arith
validate_epc_accepts (c ∷ []) h e low high = ground arith
validate_epc_accepts (c ∷ d ∷ s) h e low high = ground (arith, int_base16_plain c d s)

-- A text of six to 122 hexadecimal digits, an even number of them, is accepted behind `0x`, too, and
-- the prefix stays in the canonical form.
pub validate_epc_prefixed :
    (s : Text)
    → all is_hex s ≡ true
    → length s % 2 ≡ 0
    → 6 ≤ length s
    → length s ≤ 122
    → validate_epc (b'0' ∷ b'x' ∷ s) ≡ ok (b'0' ∷ b'X' ∷ upper s)
unfolding validate_epc upper to_upper
validate_epc_prefixed [] h e low high = ground arith
validate_epc_prefixed (c ∷ s) h e low high = ground (arith, int_base16_prefixed c s)
