-- ===== src/Rfid/Hex.antt =====
-- `decode_epc_hex` of src/tagpulse/rfid/epc.py on the hexadecimal text of a tag's memory.
use tag_pulse.Prelude.{
  ℕ, ◌+◌, ◌-◌, ◌/◌, ◌%◌, ◌<◌, ltb, nat_beq, Bool, true, ◌&&◌, not, ◌≡◌, refl, ap, ◌∙◌, List, [],
  ◌∷◌, ◌++◌, All, all, keep, some, arith, if◌then◌else◌,
}
use tag_pulse.Wire.Epc.{Text, is_space, is_hex}
use tag_pulse.Rfid.Texts.{is_blank, strip_start, strip_end, cleaned, hex_value, fromhex}
use tag_pulse.Rfid.Decode.{decode_epc_hex}
use tag_pulse.Rfid.Packing.{AreBits, bits_of, pack}
use tag_pulse.Rfid.Tags.{Tag, memory, IsEncodable, described, header_of, tail_bits}
use tag_pulse.Rfid.RoundTrip.{decode_bytes-memory, tail_bits-AreBits, field-AreBits}

unfoldable pub hex_digit : ℕ → ℕ
hex_digit n = if ltb n 10 then b'0' + n else b'A' + n - 10

unfoldable pub to_hex : List ℕ → Text
to_hex [] = []
to_hex (b ∷ bytes) = hex_digit (b / 16) ∷ hex_digit (b % 16) ∷ to_hex bytes

abbrev AreBytes : List ℕ → Type 0
AreBytes bytes = All (λ b. b < 256) bytes

-- What `cleaned` leaves alone, and `fromhex` takes for a digit.
unfoldable is_plain : ℕ → Bool
is_plain c = is_hex c && not (is_blank c) && not (nat_beq c b' ')

hex_digit_plain : (n : ℕ) → n < 16 → is_plain (hex_digit n) ≡ true
unfolding is_plain hex_digit is_hex is_blank is_space
hex_digit_plain n small = ground arith

hex_value-hex_digit : (n : ℕ) → n < 16 → hex_value (hex_digit n) ≡ n
unfolding hex_value hex_digit
hex_value-hex_digit n small = ground arith

to_hex_plain : (bytes : List ℕ) → AreBytes bytes → all is_plain (to_hex bytes) ≡ true
unfolding to_hex
to_hex_plain [] small = refl
to_hex_plain (b ∷ bytes) (small, rest) = ground (
  arith,
  to_hex_plain bytes rest,
  hex_digit_plain (b / 16) (omega arith),
  hex_digit_plain (b % 16) (omega arith),
)

strip_start_plain : (s : Text) → all is_plain s ≡ true → strip_start s ≡ s
unfolding strip_start is_plain
strip_start_plain [] plain = refl
strip_start_plain (c ∷ s) plain = ground arith

strip_end_plain : (s : Text) → all is_plain s ≡ true → strip_end s ≡ s
unfolding strip_end is_plain
strip_end_plain [] plain = refl
strip_end_plain (c ∷ []) plain = ground arith
strip_end_plain (c ∷ d ∷ s) plain = ground (arith, strip_end_plain (d ∷ s))

keep_plain : (s : Text) → all is_plain s ≡ true → keep (λ c. not (nat_beq c b' ')) s ≡ s
unfolding is_plain
keep_plain [] plain = refl
keep_plain (c ∷ s) plain = ground (arith, keep_plain s)

cleaned_plain : (s : Text) → all is_plain s ≡ true → cleaned s ≡ s
unfolding cleaned
cleaned_plain s plain =
    rw (strip_start_plain s plain) (rw (strip_end_plain s plain) (keep_plain s plain))

fromhex-to_hex : (bytes : List ℕ) → AreBytes bytes → fromhex (to_hex bytes) ≡ some bytes
unfolding fromhex to_hex is_plain is_blank
fromhex-to_hex [] small = refl
fromhex-to_hex (b ∷ bytes) (small, rest) = ground (
  arith,
  fromhex-to_hex bytes rest,
  hex_value-hex_digit (b / 16) (omega arith),
  hex_value-hex_digit (b % 16) (omega arith),
  hex_digit_plain (b / 16) (omega arith),
  hex_digit_plain (b % 16) (omega arith),
)

pack-AreBytes : (bs : List ℕ) → AreBits bs → AreBytes (pack bs)
unfolding pack
pack-AreBytes (a ∷ b ∷ c ∷ d ∷ e ∷ f ∷ g ∷ h ∷ rest) (p, (q, (r, (s, (t, (u, (v, (w, bits)))))))) =
    (omega arith, pack-AreBytes rest bits)
pack-AreBytes _ bits = tt

memory-AreBytes : (t : Tag) → AreBytes (memory t)
unfolding memory
memory-AreBytes t =
    pack-AreBytes (bits_of 8 (header_of t.scheme) ++ tail_bits t)
      (field-AreBits 8 (header_of t.scheme) (tail_bits t) (tail_bits-AreBits t))

-- The hexadecimal text of the memory of a tag of the schemes SGTIN-96, SSCC-96, GIAI-96 and GRAI-96
-- whose numbers fit their fields is decoded to that scheme and exactly those numbers, for every row
-- of the partition table.
pub decode_epc_hex-to_hex :
    (t : Tag) → IsEncodable t → decode_epc_hex (to_hex (memory t)) ≡ described t
unfolding decode_epc_hex
decode_epc_hex-to_hex t fits = rw (parsed, decode_epc_hex) (decode_bytes-memory t fits)
  where
    parsed : fromhex (cleaned (to_hex (memory t))) ≡ some (memory t)
    parsed =
        ap fromhex (cleaned_plain (to_hex (memory t)) (to_hex_plain (memory t) (memory-AreBytes t)))
        ∙ fromhex-to_hex (memory t) (memory-AreBytes t)
