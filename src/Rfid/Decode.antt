-- ===== src/Rfid/Decode.antt =====
-- `decode_epc_hex` and the decoders of the seven schemes of src/tagpulse/rfid/epc.py.
use tag_pulse.Prelude.{
  ℕ, zero, suc, ◌-◌, none, some, List, [], ◌∷◌, ◌++◌, String, Result, ok, err, ◌>>=◌, nat_eq,
}
use tag_pulse.Dict.{Dict, lookup}
use tag_pulse.Wire.Epc.{Text}
use tag_pulse.Rfid.Reader.{DecodeError, index_error, BitReader, bit_reader, read, read_7bit_string}
use tag_pulse.Rfid.Texts.{codes, cleaned, fromhex, str, zfill}

pub data Scheme : Type 0 where
  raw sgtin_96 sgtin_198 sscc_96 giai_96 giai_202 grai_96 grai_170 : Scheme

-- A value of the decoded dict: `filter` is a number, the others are texts.
pub data Part : Type 0 where
  number : ℕ → Part
  written : Text → Part

abbrev pub Decoded : Type 0
Decoded = Dict String Part

-- cp_bits, item_bits, cp_digits, item_digits
pub record Partition : Type 0 where
  pub cp_bits : ℕ
  pub item_bits : ℕ
  pub cp_digits : ℕ
  pub item_digits : ℕ

abbrev pub widths : ℕ → ℕ → ℕ → ℕ → Partition
widths c i m n = record { cp_bits = c; item_bits = i; cp_digits = m; item_digits = n }

abbrev pub headers : Dict ℕ (Scheme × ℕ)
headers =
    (48, (sgtin_96, 96))
    ∷ (54, (sgtin_198, 198))
    ∷ (49, (sscc_96, 96))
    ∷ (52, (giai_96, 96))
    ∷ (56, (giai_202, 202))
    ∷ (51, (grai_96, 96))
    ∷ (55, (grai_170, 170))
    ∷ []

abbrev pub sgtin_partitions : List Partition
sgtin_partitions =
    widths 40 4 12 1
    ∷ widths 37 7 11 2
    ∷ widths 34 10 10 3
    ∷ widths 30 14 9 4
    ∷ widths 27 17 8 5
    ∷ widths 24 20 7 6
    ∷ widths 20 24 6 7
    ∷ []

abbrev pub sscc_partitions : List Partition
sscc_partitions =
    widths 40 18 12 5
    ∷ widths 37 21 11 6
    ∷ widths 34 24 10 7
    ∷ widths 30 28 9 8
    ∷ widths 27 31 8 9
    ∷ widths 24 34 7 10
    ∷ widths 20 38 6 11
    ∷ []

abbrev pub giai_96_partitions : List Partition
giai_96_partitions =
    widths 40 42 12 13
    ∷ widths 37 45 11 14
    ∷ widths 34 48 10 15
    ∷ widths 30 52 9 17
    ∷ widths 27 55 8 18
    ∷ widths 24 58 7 19
    ∷ widths 20 62 6 20
    ∷ []

abbrev pub giai_202_partitions : List Partition
giai_202_partitions =
    widths 40 148 12 18
    ∷ widths 37 151 11 18
    ∷ widths 34 154 10 18
    ∷ widths 30 158 9 18
    ∷ widths 27 161 8 18
    ∷ widths 24 164 7 18
    ∷ widths 20 168 6 18
    ∷ []

-- table[partition]
unfoldable pub entry_of : List Partition → ℕ → Result DecodeError Partition
entry_of [] i = err index_error
entry_of (p ∷ table) zero = ok p
entry_of (p ∷ table) (suc i) = entry_of table i

-- `_read_partition`: filter, entry, company prefix, item, and the reader after them.
unfoldable pub read_partition :
    List Partition → BitReader → Result DecodeError (ℕ × Partition × ℕ × ℕ × BitReader)
read_partition table bits = do
  (filter, bits) ← read 3 bits
  (partition, bits) ← read 3 bits
  p ← entry_of table partition
  (cp, bits) ← read p.cp_bits bits
  (item, bits) ← read p.item_bits bits
  ok (filter, p, cp, item, bits)

abbrev pub sgtin_parts : String → ℕ → Partition → ℕ → ℕ → Text → Decoded
sgtin_parts scheme filter p cp indicator_item serial =
    let company_prefix = zfill p.cp_digits (str cp) in
    let item_ref = zfill p.item_digits (str indicator_item) in
    ("scheme", written (codes scheme))
    ∷ ("filter", number filter)
    ∷ ("company_prefix", written company_prefix)
    ∷ ("item_ref", written item_ref)
    ∷ ("serial", written serial)
    ∷ (
      "uri",
      written (
          codes "urn:epc:id:sgtin:"
          ++ company_prefix
          ++ codes "."
          ++ item_ref
          ++ codes "."
          ++ serial),
    )
    ∷ []

unfoldable pub decode_sgtin_96 : BitReader → Result DecodeError Decoded
decode_sgtin_96 bits = do
  (filter, p, cp, indicator_item, bits) ← read_partition sgtin_partitions bits
  (serial, bits) ← read 38 bits
  ok (sgtin_parts "sgtin-96" filter p cp indicator_item (str serial))

unfoldable pub decode_sgtin_198 : BitReader → Result DecodeError Decoded
decode_sgtin_198 bits = do
  (filter, p, cp, indicator_item, bits) ← read_partition sgtin_partitions bits
  ok (sgtin_parts "sgtin-198" filter p cp indicator_item (read_7bit_string 20 bits))

abbrev pub sscc_parts : ℕ → Partition → ℕ → ℕ → Decoded
sscc_parts filter p cp serial_ref =
    let company_prefix = zfill p.cp_digits (str cp) in
    let serial = zfill p.item_digits (str serial_ref) in
    ("scheme", written (codes "sscc-96"))
    ∷ ("filter", number filter)
    ∷ ("company_prefix", written company_prefix)
    ∷ ("serial_reference", written serial)
    ∷ ("uri", written (codes "urn:epc:id:sscc:" ++ company_prefix ++ codes "." ++ serial))
    ∷ []

unfoldable pub decode_sscc_96 : BitReader → Result DecodeError Decoded
decode_sscc_96 bits = do
  (filter, p, cp, serial_ref, bits) ← read_partition sscc_partitions bits
  (reserved, bits) ← read 24 bits
  ok (sscc_parts filter p cp serial_ref)

abbrev pub giai_parts : String → ℕ → Partition → ℕ → Text → Decoded
giai_parts scheme filter p cp asset =
    let company_prefix = zfill p.cp_digits (str cp) in
    ("scheme", written (codes scheme))
    ∷ ("filter", number filter)
    ∷ ("company_prefix", written company_prefix)
    ∷ ("asset_reference", written asset)
    ∷ ("uri", written (codes "urn:epc:id:giai:" ++ company_prefix ++ codes "." ++ asset))
    ∷ []

unfoldable pub decode_giai_96 : BitReader → Result DecodeError Decoded
decode_giai_96 bits = do
  (filter, p, cp, asset, bits) ← read_partition giai_96_partitions bits
  ok (giai_parts "giai-96" filter p cp (str asset))

unfoldable pub decode_giai_202 : BitReader → Result DecodeError Decoded
decode_giai_202 bits = do
  (filter, bits) ← read 3 bits
  (partition, bits) ← read 3 bits
  p ← entry_of giai_202_partitions partition
  (cp, bits) ← read p.cp_bits bits
  ok (giai_parts "giai-202" filter p cp (read_7bit_string 18 bits))

abbrev pub grai_parts : String → ℕ → Partition → ℕ → ℕ → Text → Decoded
grai_parts scheme filter p cp asset_type serial =
    let company_prefix = zfill p.cp_digits (str cp) in
    let asset_type_str = str asset_type in
    ("scheme", written (codes scheme))
    ∷ ("filter", number filter)
    ∷ ("company_prefix", written company_prefix)
    ∷ ("asset_type", written asset_type_str)
    ∷ ("serial", written serial)
    ∷ (
      "uri",
      written (
          codes "urn:epc:id:grai:"
          ++ company_prefix
          ++ codes "."
          ++ asset_type_str
          ++ codes "."
          ++ serial),
    )
    ∷ []

-- The lines that the two GRAI decoders share: filter, entry, company prefix and asset type.
unfoldable pub read_grai : BitReader → Result DecodeError (ℕ × Partition × ℕ × ℕ × BitReader)
read_grai bits = do
  (filter, bits) ← read 3 bits
  (partition, bits) ← read 3 bits
  p ← entry_of sgtin_partitions partition
  (cp, bits) ← read p.cp_bits bits
  (asset_type, bits) ← read (44 - p.cp_bits) bits
  ok (filter, p, cp, asset_type, bits)

unfoldable pub decode_grai_96 : BitReader → Result DecodeError Decoded
decode_grai_96 bits = do
  (filter, p, cp, asset_type, bits) ← read_grai bits
  (serial, bits) ← read 38 bits
  ok (grai_parts "grai-96" filter p cp asset_type (str serial))

unfoldable pub decode_grai_170 : BitReader → Result DecodeError Decoded
decode_grai_170 bits = do
  (filter, p, cp, asset_type, bits) ← read_grai bits
  ok (grai_parts "grai-170" filter p cp asset_type (read_7bit_string 16 bits))

unfoldable pub decode_scheme : Scheme → BitReader → Result DecodeError Decoded
decode_scheme sgtin_96 bits = decode_sgtin_96 bits
decode_scheme sgtin_198 bits = decode_sgtin_198 bits
decode_scheme sscc_96 bits = decode_sscc_96 bits
decode_scheme giai_96 bits = decode_giai_96 bits
decode_scheme giai_202 bits = decode_giai_202 bits
decode_scheme grai_96 bits = decode_grai_96 bits
decode_scheme grai_170 bits = decode_grai_170 bits
decode_scheme raw bits = ok []

-- The first byte is looked up; where its read is cut short nothing catches it, but `limit` is at
-- least 8, so `read 8` returns.
unfoldable pub decode_bytes : List ℕ → Scheme × Decoded
decode_bytes [] = (raw, [])
decode_bytes (header ∷ rest) = elim (lookup header headers) [
  | none ↦ (raw, [])
  | some (scheme, total_bits) ↦
      elim (do
        (consumed, bits) ← read 8 (bit_reader (header ∷ rest) total_bits)
        decode_scheme scheme bits) [ ok parts ↦ (scheme, parts) | err _ ↦ (raw, []) ]
]

unfoldable pub decode_epc_hex : Text → Scheme × Decoded
decode_epc_hex hex_str = elim (fromhex (cleaned hex_str)) [
  | none ↦ (raw, [])
  | some bytes ↦ decode_bytes bytes
]
