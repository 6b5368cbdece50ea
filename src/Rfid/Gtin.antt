-- ===== src/Rfid/Gtin.antt =====
-- `gtin14_from_decoded` of src/tagpulse/rfid/epc.py.
use tag_pulse.Prelude.{
  ℕ, ◌+◌, ◌-◌, ◌*◌, ◌%◌, Bool, true, false, ◌&&◌, ◌||◌, not, Option, none, some, [], ◌∷◌, ◌++◌,
  String, leb, nat_beq, if◌then◌else◌, length, all, string_eq,
}
use tag_pulse.Dict.{lookup}
use tag_pulse.Wire.Epc.{Text}
use tag_pulse.Rfid.Texts.{codes, str}
use tag_pulse.Rfid.Decode.{Decoded, written}

-- decoded.get(key), where it is a text
unfoldable pub text_of : String → Decoded → Option Text
text_of key decoded = elim (lookup key decoded) [ some (written s) ↦ some s | _ ↦ none ]

unfoldable pub starts_with : Text → Text → Bool
starts_with [] s = true
starts_with (c ∷ prefix) [] = false
starts_with (c ∷ prefix) (d ∷ s) = nat_beq c d && starts_with prefix s

unfoldable pub is_digit : ℕ → Bool
is_digit c = leb b'0' c && leb c b'9'

-- The loop from place i on; int(ch) is the distance from '0'.
unfoldable pub weighted_total : ℕ → Text → ℕ
weighted_total i [] = 0
weighted_total i (ch ∷ body) =
    (ch - b'0') * (if nat_beq ((13 - i) % 2) 1 then 3 else 1) + weighted_total (i + 1) body

unfoldable pub check_digit : Text → ℕ
check_digit body = (10 - weighted_total 0 body % 10) % 10

unfoldable pub with_check : Text → Option Text
with_check body =
    if not (nat_beq (length body) 13) || not (all is_digit body)
    then none
    else some (body ++ str (check_digit body))

unfoldable pub gtin14_of : Option Text → Option Text → Option Text
gtin14_of (some cp) (some (indicator ∷ item_ref)) = with_check ((indicator ∷ []) ++ cp ++ item_ref)
gtin14_of _ _ = none

-- Of a decoded dict; None gives what the empty one does.
unfoldable pub gtin14_from_decoded : Decoded → Option Text
gtin14_from_decoded decoded = elim (text_of "scheme" decoded) [
  | none ↦ none
  | some scheme ↦
      if starts_with (codes "sgtin") scheme
      then gtin14_of (text_of "company_prefix" decoded) (text_of "item_ref" decoded)
      else none
]
