-- ===== src/Rfid/Texts.antt =====
-- The texts that src/tagpulse/rfid/epc.py reads and writes: hexadecimal in, decimal out. A text is
-- the list of its code points, on ASCII.
use tag_pulse.Prelude.{
  ℕ, zero, suc, ◌+◌, ◌-◌, ◌*◌, ◌/◌, ◌%◌, Bool, ◌&&◌, ◌||◌, not, Option, none, some, List, [], ◌∷◌,
  ◌++◌, ltb, leb, nat_beq, if◌then◌else◌, length, keep,
}
use tag_pulse.Wire.Epc.{Text, is_space, is_hex}
use Prim.Native.Char.{code}
use Prim.Native.String.{String}

-- The code points of a literal.
abbrev pub codes : String → Text
codes String.[] = []
codes (String.◌∷◌ c s) = code c ∷ codes s

-- What `strip` takes off: `is_space` and the four separators 28 to 31.
unfoldable pub is_blank : ℕ → Bool
is_blank c = is_space c || (leb 28 c && leb c 31)

unfoldable pub strip_start : Text → Text
strip_start [] = []
strip_start (c ∷ s) = let rest = strip_start s in if is_blank c then rest else c ∷ s

unfoldable pub strip_end : Text → Text
strip_end [] = []
strip_end (c ∷ s) = elim (strip_end s) [
  | [] ↦ if is_blank c then [] else c ∷ []
  | d ∷ rest ↦ c ∷ d ∷ rest
]

-- hex_str.strip().replace(" ", ""); the lower() changes no digit's value.
unfoldable pub cleaned : Text → Text
cleaned s = keep (λ c. not (nat_beq c b' ')) (strip_end (strip_start s))

unfoldable pub hex_value : ℕ → ℕ
hex_value c = if leb c b'9' then c - b'0' else if leb c b'F' then c - b'A' + 10 else c - b'a' + 10

-- bytes.fromhex: pairs of digits, with whitespace between the pairs.
unfoldable pub fromhex : Text → Option (List ℕ)
fromhex [] = some []
fromhex (c ∷ []) = if is_space c then some [] else none
fromhex (c ∷ d ∷ s) =
    let spaced = fromhex (d ∷ s) in
    let paired = fromhex s in
    if is_space c
    then spaced
    else if is_hex c && is_hex d
    then elim paired [ none ↦ none | some bytes ↦ some ((hex_value c * 16 + hex_value d) ∷ bytes) ]
    else none

abbrev digit : ℕ → ℕ
digit n = b'0' + n % 10

-- The digits of a number before those of `after`; a number below 10 ^ fuel has at most `fuel`.
unfoldable pub decimal_onto : ℕ → ℕ → Text → Text
decimal_onto zero n after = after
decimal_onto (suc fuel) n after =
    let rest = decimal_onto fuel (n / 10) (digit n ∷ after) in
    if ltb n 10 then digit n ∷ after else rest

-- str(n)
unfoldable pub str : ℕ → Text
str n = decimal_onto (suc n) n []

unfoldable pub zeros : ℕ → Text
zeros zero = []
zeros (suc n) = b'0' ∷ zeros n

-- s.zfill(width), of a text without a sign
unfoldable pub zfill : ℕ → Text → Text
zfill width s = zeros (width - length s) ++ s
