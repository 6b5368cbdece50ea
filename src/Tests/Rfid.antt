-- ===== src/Tests/Rfid.antt =====
-- Runs of the EPC decoder.
use tag_pulse.Prelude.{◌≡◌, refl, arith, some, nat_eq, string_eq}
use tag_pulse.Wire.Epc.{is_space, is_hex}
use tag_pulse.Dict.{lookup}
use tag_pulse.Rfid.Reader.{read, read_loop, bit_at, byte_at, bit_reader}
use tag_pulse.Rfid.Texts.{
  codes, cleaned, strip_start, strip_end, is_blank, fromhex, hex_value, str, decimal_onto, zeros,
  zfill,
}
use tag_pulse.Rfid.Decode.{
  raw, widths, entry_of, decode_epc_hex, decode_bytes, decode_scheme, decode_sgtin_96,
  read_partition,
}
use tag_pulse.Rfid.Gtin.{
  gtin14_from_decoded, gtin14_of, with_check, text_of, starts_with, is_digit, weighted_total,
  check_digit,
}
use tag_pulse.Rfid.Tags.{Tag, sgtin, described, memory, IsEncodable, parts_of, table_of, last_bits}
use tag_pulse.Rfid.Hex.{to_hex, decode_epc_hex-to_hex}
use tag_pulse.Rfid.CheckDigit.{IsGtin14, gtin14_from_decoded-IsGtin14}

abbrev tag : Tag
tag = record {
  scheme = sgtin;
  filter = 3;
  partition = 5;
  row = widths 24 20 7 6;
  company = 614141;
  item = 812345;
  last = 6789;
}

tag-IsEncodable : IsEncodable tag
unfolding entry_of table_of last_bits
tag-IsEncodable = record {
  filter_fits = omega arith;
  partition_fits = omega arith;
  row_named = refl;
  company_fits = omega arith;
  item_fits = omega arith;
  last_fits = omega arith;
}

decode_epc_hex-to_hex_example : decode_epc_hex (to_hex (memory tag)) ≡ described tag
decode_epc_hex-to_hex_example = decode_epc_hex-to_hex tag tag-IsEncodable

-- The text that a reader sends for this tag, in small letters and with blanks.
uri_run :
    text_of "uri" (decode_epc_hex (codes " 3074257bf7 194e4000001a85 ")).1
    ≡ some (codes "urn:epc:id:sgtin:0614141.812345.6789")
unfolding decode_epc_hex fromhex cleaned strip_end strip_start is_blank is_space is_hex decode_bytes
    lookup hex_value read bit_reader decode_scheme decode_sgtin_96 read_partition entry_of read_loop
    bit_at byte_at decimal_onto str zeros zfill text_of
uri_run = refl

-- Seven partitions only.
partition_run : (decode_epc_hex (codes "301C00000000000000000000")).0 ≡ raw
unfolding decode_epc_hex fromhex cleaned strip_end strip_start is_blank is_space is_hex decode_bytes
    lookup hex_value read bit_reader decode_scheme decode_sgtin_96 read_partition entry_of read_loop
    bit_at byte_at decimal_onto str zeros zfill text_of
partition_run = refl

truncated_run : (decode_epc_hex (codes "3074257BF7194E40000")).0 ≡ raw
unfolding decode_epc_hex fromhex cleaned strip_end strip_start is_blank is_space is_hex
truncated_run = refl

gtin_run : gtin14_from_decoded (described tag).1 ≡ some (codes "80614141123458")
unfolding gtin14_from_decoded text_of lookup described parts_of starts_with gtin14_of zfill zeros
    str decimal_onto with_check is_digit check_digit weighted_total
gtin_run = refl

gtin14_from_decoded-IsGtin14_example : IsGtin14 (codes "80614141123458")
gtin14_from_decoded-IsGtin14_example =
    gtin14_from_decoded-IsGtin14 (described tag).1 (codes "80614141123458") gtin_run
