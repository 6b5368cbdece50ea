-- ===== src/Rfid/Packing.antt =====
-- The reader of src/tagpulse/rfid/epc.py against bit strings: a buffer that packs a bit string
-- gives back, field by field, the numbers whose bits it packs.
use tag_pulse.Prelude.{
  ℕ, zero, suc, ◌+◌, ◌*◌, ◌/◌, ◌%◌, ◌^◌, ◌<◌, ◌≡◌, refl, ap, ◌∙◌, List, [], ◌∷◌, ◌++◌, length, All,
  arith, length-append,
}
use native.Mathlib.Nat.{pow-suc}
use tag_pulse.Rfid.Reader.{byte_at, bit_at}

-- The `n` bits of a number, the highest first.
unfoldable pub bits_of : ℕ → ℕ → List ℕ
bits_of zero v = []
bits_of (suc n) v = bits_of n (v / 2) ++ v % 2 ∷ []

-- Eight bits to a byte, the highest first.
unfoldable pub pack : List ℕ → List ℕ
pack (a ∷ b ∷ c ∷ d ∷ e ∷ f ∷ g ∷ h ∷ rest) =
    (((((((a * 2 + b) * 2 + c) * 2 + d) * 2 + e) * 2 + f) * 2 + g) * 2 + h) ∷ pack rest
pack _ = []

unfoldable pub unpack : List ℕ → List ℕ
unpack [] = []
unpack (b ∷ bytes) =
    b / 128 % 2
    ∷ b / 64 % 2
    ∷ b / 32 % 2
    ∷ b / 16 % 2
    ∷ b / 8 % 2
    ∷ b / 4 % 2
    ∷ b / 2 % 2
    ∷ b % 2
    ∷ unpack bytes

unfoldable pub value_of : ℕ → List ℕ → ℕ
value_of acc [] = acc
value_of acc (b ∷ bs) = value_of (acc * 2 + b) bs

abbrev pub AreBits : List ℕ → Type 0
AreBits bs = All (λ b. b < 2) bs

abbrev eight_more : ℕ → ℕ
eight_more i = suc (suc (suc (suc (suc (suc (suc (suc i)))))))

later_byte : (i : ℕ) → eight_more i / 8 ≡ suc (i / 8)
later_byte i = omega arith

later_bit : (i : ℕ) → eight_more i % 8 ≡ i % 8
later_bit i = omega arith

bit_at_later : (b : ℕ) (bytes : List ℕ) (i : ℕ) → bit_at (b ∷ bytes) (eight_more i) ≡ bit_at bytes i
unfolding bit_at byte_at
bit_at_later b bytes i = rw (later_byte i) (rw (later_bit i) refl)

pub bit_at-unpack : (bytes : List ℕ) (i : ℕ) → bit_at bytes i ≡ byte_at (unpack bytes) i
unfolding bit_at byte_at unpack
bit_at-unpack [] i = omega arith
bit_at-unpack (b ∷ bytes) zero = refl
bit_at-unpack (b ∷ bytes) (suc zero) = refl
bit_at-unpack (b ∷ bytes) (suc (suc zero)) = refl
bit_at-unpack (b ∷ bytes) (suc (suc (suc zero))) = refl
bit_at-unpack (b ∷ bytes) (suc (suc (suc (suc zero)))) = refl
bit_at-unpack (b ∷ bytes) (suc (suc (suc (suc (suc zero))))) = refl
bit_at-unpack (b ∷ bytes) (suc (suc (suc (suc (suc (suc zero)))))) = refl
bit_at-unpack (b ∷ bytes) (suc (suc (suc (suc (suc (suc (suc zero))))))) = ground arith
bit_at-unpack (b ∷ bytes) (suc (suc (suc (suc (suc (suc (suc (suc i)))))))) =
    bit_at_later b bytes i ∙ bit_at-unpack bytes i

pub unpack-pack : (k : ℕ) (bs : List ℕ) → length bs ≡ 8 * k → AreBits bs → unpack (pack bs) ≡ bs
unfolding pack unpack
unpack-pack zero [] long bits = refl
unpack-pack zero (b ∷ bs) long bits = ground arith
unpack-pack (suc k) (a ∷ b ∷ c ∷ d ∷ e ∷ f ∷ g ∷ h ∷ rest) long
      (p, (q, (r, (s, (t, (u, (v, (w, bits)))))))) =
    ground (arith, unpack-pack k rest)
unpack-pack (suc k) [] long bits = ground arith
unpack-pack (suc k) (a ∷ []) long bits = ground arith
unpack-pack (suc k) (a ∷ b ∷ []) long bits = ground arith
unpack-pack (suc k) (a ∷ b ∷ c ∷ []) long bits = ground arith
unpack-pack (suc k) (a ∷ b ∷ c ∷ d ∷ []) long bits = ground arith
unpack-pack (suc k) (a ∷ b ∷ c ∷ d ∷ e ∷ []) long bits = ground arith
unpack-pack (suc k) (a ∷ b ∷ c ∷ d ∷ e ∷ f ∷ []) long bits = ground arith
unpack-pack (suc k) (a ∷ b ∷ c ∷ d ∷ e ∷ f ∷ g ∷ []) long bits = ground arith

length-unpack : (bytes : List ℕ) → length (unpack bytes) ≡ 8 * length bytes
unfolding unpack
length-unpack [] = refl
length-unpack (b ∷ bytes) = omega (arith, length-unpack bytes)

pub length-pack : (k : ℕ) (bs : List ℕ) → length bs ≡ 8 * k → AreBits bs → length (pack bs) ≡ k
length-pack k bs long bits =
    omega (arith, length-unpack (pack bs), ap length (unpack-pack k bs long bits))

pub length-bits_of : (n v : ℕ) → length (bits_of n v) ≡ n
unfolding bits_of
length-bits_of zero v = refl
length-bits_of (suc n) v =
    omega (arith, length-append (bits_of n (v / 2)) (v % 2 ∷ []), length-bits_of n (v / 2))

value_of_snoc : (acc b : ℕ) (bs : List ℕ) → value_of acc (bs ++ b ∷ []) ≡ value_of acc bs * 2 + b
unfolding value_of
value_of_snoc acc b [] = refl
value_of_snoc acc b (c ∷ bs) = value_of_snoc (acc * 2 + c) b bs

pub value_of-bits_of : (n v : ℕ) → v < 2 ^ n → value_of 0 (bits_of n v) ≡ v
unfolding bits_of value_of
value_of-bits_of zero v small = omega arith
value_of-bits_of (suc n) v small = omega (
  arith,
  value_of_snoc 0 (v % 2) (bits_of n (v / 2)),
  value_of-bits_of n (v / 2) (omega (arith, pow-suc 2 n)),
)
