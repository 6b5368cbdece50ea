-- ===== src/Rfid/Reader.antt =====
-- `_BitReader` of src/tagpulse/rfid/epc.py.
use tag_pulse.Prelude.{
  ℕ, zero, suc, ◌+◌, ◌-◌, ◌*◌, ◌/◌, ◌%◌, ◌^◌, List, [], ◌∷◌, ltb, if◌then◌else◌, length, Result, ok,
  err,
}

-- The exceptions that `decode_epc_hex` catches, from a read or a table.
pub data DecodeError : Type 0 where
  index_error value_error : DecodeError

pub record BitReader : Type 0 where
  pub buffer : List ℕ
  pub pos : ℕ
  pub limit : ℕ

abbrev min_of : ℕ → ℕ → ℕ
min_of a b = if ltb b a then b else a

-- _BitReader(data, max_bits)
unfoldable pub bit_reader : List ℕ → ℕ → BitReader
bit_reader bytes max_bits = record {
  buffer = bytes;
  pos = 0;
  limit = min_of max_bits (length bytes * 8);
}

-- data[i], which is asked for below the length only.
unfoldable pub byte_at : List ℕ → ℕ → ℕ
byte_at [] i = 0
byte_at (b ∷ bytes) zero = b
byte_at (b ∷ bytes) (suc i) = byte_at bytes i

-- (byte >> (7 - pos % 8)) & 1
unfoldable pub bit_at : List ℕ → ℕ → ℕ
bit_at bytes pos = byte_at bytes (pos / 8) / 2 ^ (7 - pos % 8) % 2

-- The loop of `read`: (value << 1) | bit is value * 2 + bit, as the bit is 0 or 1.
unfoldable pub read_loop : List ℕ → ℕ → ℕ → ℕ → ℕ
read_loop bytes zero pos value = value
read_loop bytes (suc n) pos value = read_loop bytes n (pos + 1) (value * 2 + bit_at bytes pos)

unfoldable pub read : ℕ → BitReader → Result DecodeError (ℕ × BitReader)
read n bits =
    if ltb bits.limit (bits.pos + n)
    then err index_error
    else ok (
      read_loop bits.buffer n bits.pos 0,
      record { buffer = bits.buffer; pos = bits.pos + n; limit = bits.limit },
    )

-- `_read_7bit_string`: the characters up to a NUL, the end of the buffer or the bound.
unfoldable pub read_7bit_string : ℕ → BitReader → List ℕ
read_7bit_string zero bits = []
read_7bit_string (suc max_chars) bits = elim (read 7 bits) [
  | err _ ↦ []
  | ok (zero, _) ↦ []
  | ok (suc c, later) ↦ suc c ∷ read_7bit_string max_chars later
]
