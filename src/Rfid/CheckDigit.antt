-- ===== src/Rfid/CheckDigit.antt =====
-- The numbers that `gtin14_from_decoded` of src/tagpulse/rfid/epc.py returns.
use tag_pulse.Prelude.{
  ℕ, suc, ◌+◌, ◌%◌, ◌<◌, Bool, true, ◌≡◌, ap, [], ◌∷◌, ◌++◌, length, all, Option, none, some, arith,
  length-append, subst, string_eq,
}
use tag_pulse.Wire.Epc.{Text}
use tag_pulse.Rfid.Texts.{str, decimal_onto}
use tag_pulse.Rfid.Decode.{Decoded}
use tag_pulse.Rfid.Gtin.{
  text_of, is_digit, weighted_total, check_digit, with_check, gtin14_of, gtin14_from_decoded,
}

-- A valid GTIN-14: fourteen digits whose weighted sum, with weights 3, 1, 3, … from the left, is a
-- multiple of ten.
pub record IsGtin14 (s : Text) : Type 0 where
  pub fourteen : length s ≡ 14
  pub digits : all is_digit s ≡ true
  pub balanced : weighted_total 0 s % 10 ≡ 0

start : (i : ℕ) → i + 0 ≡ i
start i = omega arith

next : (i n : ℕ) → i + 1 + n ≡ i + suc n
next i n = omega arith

weighted_total-append :
    (i : ℕ) (xs ys : Text)
    → weighted_total i (xs ++ ys) ≡ weighted_total i xs + weighted_total (i + length xs) ys
unfolding weighted_total
weighted_total-append i [] ys = omega (arith, ap (λ j. weighted_total j ys) (start i))
weighted_total-append i (x ∷ xs) ys =
    omega (
      arith,
      weighted_total-append (i + 1) xs ys,
      ap (λ j. weighted_total j ys) (next i (length xs)),
    )

all-append :
    (p : ℕ → Bool) (xs ys : Text) → all p xs ≡ true → all p ys ≡ true → all p (xs ++ ys) ≡ true
all-append p [] ys a b = b
all-append p (x ∷ xs) ys a b = ground (arith, all-append p xs ys)

str_digit : (n : ℕ) → n < 10 → str n ≡ (b'0' + n) ∷ []
unfolding str decimal_onto
str_digit n small = ground arith

check_digit-lt : (body : Text) → check_digit body < 10
unfolding check_digit
check_digit-lt body = omega arith

balanced_by_check :
    (body : Text)
    → length body ≡ 13
    → weighted_total 0 (body ++ (b'0' + check_digit body) ∷ []) % 10 ≡ 0
unfolding check_digit weighted_total
balanced_by_check body long =
    rw (weighted_total-append 0 body ((b'0' + check_digit body) ∷ [])) (rw long (omega arith))

digit_shown : (n : ℕ) → n < 10 → all is_digit ((b'0' + n) ∷ []) ≡ true
unfolding is_digit
digit_shown n small = ground arith

with_check-IsGtin14 : (body s : Text) → with_check body ≡ some s → IsGtin14 s
unfolding with_check
with_check-IsGtin14 body s returned =
    let (long, (numeric, shown)) = accepted returned in
    subst IsGtin14 shown (record {
      fourteen = omega (arith, long, length-append body ((b'0' + check_digit body) ∷ []));
      digits =
          all-append is_digit body _ numeric (digit_shown (check_digit body) (check_digit-lt body));
      balanced = balanced_by_check body long;
    })
  where
    accepted :
        with_check body ≡ some s
        → (length body ≡ 13)
          × ((all is_digit body ≡ true) × (body ++ (b'0' + check_digit body) ∷ [] ≡ s))
    accepted r = ground (arith, str_digit (check_digit body) (check_digit-lt body))

gtin14_of-IsGtin14 : (cp item : Option Text) (s : Text) → gtin14_of cp item ≡ some s → IsGtin14 s
unfolding gtin14_of
gtin14_of-IsGtin14 none item s returned = ground arith
gtin14_of-IsGtin14 (some cp) none s returned = ground arith
gtin14_of-IsGtin14 (some cp) (some []) s returned = ground arith
gtin14_of-IsGtin14 (some cp) (some (indicator ∷ item_ref)) s returned =
    with_check-IsGtin14 ((indicator ∷ []) ++ cp ++ item_ref) s returned

-- What is returned as a GTIN-14 is one.
pub gtin14_from_decoded-IsGtin14 :
    (decoded : Decoded) (s : Text) → gtin14_from_decoded decoded ≡ some s → IsGtin14 s
unfolding gtin14_from_decoded
gtin14_from_decoded-IsGtin14 decoded s returned =
    ground
      (arith, gtin14_of-IsGtin14 (text_of "company_prefix" decoded) (text_of "item_ref" decoded) s)
