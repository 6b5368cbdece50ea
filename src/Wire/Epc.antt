-- ===== src/Wire/Epc.antt =====
-- `_validate_epc`, which the backend (src/tagpulse/ingestion/wm_wire_format.py) and the edge
-- (clients/pi/tagpulse_edge/wm_v2_producer.py) hold in two equal copies. A text is the list of its
-- code points; `int(_, 16)` and `upper` are modelled on ASCII, the domain of the model.
pub mod Canonical
use tag_pulse.Prelude.{
  ℕ, ◌+◌, ◌-◌, ◌%◌, Bool, true, false, ◌&&◌, ◌||◌, not, List, [], ◌∷◌, map, leb, ltb, nat_beq,
  if◌then◌else◌, length, Result, ok, err,
}

abbrev pub Text : Type 0
Text = List ℕ

abbrev pub epc_min_hex_chars : ℕ
epc_min_hex_chars = 8

abbrev pub epc_max_hex_chars : ℕ
epc_max_hex_chars = 124

pub data EpcError : Type 0 where
  length_outside length_odd not_hexadecimal : EpcError

-- The whitespace that `int` skips.
unfoldable pub is_space : ℕ → Bool
is_space c = nat_beq c 32 || (leb 9 c && leb c 13)

unfoldable pub is_hex : ℕ → Bool
is_hex c = (leb b'0' c && leb c b'9') || (leb b'a' c && leb c b'f') || (leb b'A' c && leb c b'F')

unfoldable pub to_upper : ℕ → ℕ
to_upper c = if leb b'a' c && leb c b'z' then c - 32 else c

-- value.upper()
unfoldable pub upper : Text → Text
upper [] = []
upper (c ∷ s) = to_upper c ∷ upper s

unfoldable pub all_space : Text → Bool
all_space [] = true
all_space (c ∷ s) = is_space c && all_space s

-- Digits with single underscores between them, then whitespace; `after` is "the last one was `_`".
unfoldable pub digits_from : Bool → Text → Bool
digits_from after [] = not after
digits_from after (c ∷ s) =
    let on_digit = digits_from false s in
    let on_underscore = digits_from true s in
    if is_hex c
    then on_digit
    else if nat_beq c b'_'
    then (if after then false else on_underscore)
    else not after && (is_space c && all_space s)

unfoldable pub digits_start : Text → Bool
digits_start [] = false
digits_start (c ∷ s) = is_hex c && digits_from false s

-- The prefix may be followed by one underscore.
unfoldable pub after_prefix : Text → Bool
after_prefix [] = false
after_prefix (c ∷ s) = if nat_beq c b'_' then digits_start s else digits_start (c ∷ s)

unfoldable pub unprefixed : Text → Bool
unprefixed (c ∷ d ∷ s) =
    if nat_beq c b'0' && (nat_beq d b'x' || nat_beq d b'X')
    then after_prefix s
    else digits_start (c ∷ d ∷ s)
unprefixed (c ∷ []) = digits_start (c ∷ [])
unprefixed [] = false

unfoldable pub unsigned : Text → Bool
unsigned [] = false
unsigned (c ∷ s) = if nat_beq c b'+' || nat_beq c b'-' then unprefixed s else unprefixed (c ∷ s)

-- Whether int(value, 16) returns.
unfoldable pub int_base16 : Text → Bool
int_base16 [] = false
int_base16 (c ∷ s) = let rest = int_base16 s in if is_space c then rest else unsigned (c ∷ s)

unfoldable pub validate_epc : Text → Result EpcError Text
validate_epc value =
    if ltb (length value) epc_min_hex_chars || ltb epc_max_hex_chars (length value)
    then err length_outside
    else if not (nat_beq (length value % 2) 0)
    then err length_odd
    else if int_base16 value
    then ok (upper value)
    else err not_hexadecimal
