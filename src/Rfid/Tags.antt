-- ===== src/Rfid/Tags.antt =====
-- A tag of one of the 96-bit schemes of src/tagpulse/rfid/epc.py: its numbers, its memory, and the
-- decoded form that they have.
use tag_pulse.Prelude.{ℕ, ◌^◌, ◌<◌, ◌≡◌, List, [], ◌++◌, ok, nat_eq}
use tag_pulse.Rfid.Texts.{str}
use tag_pulse.Rfid.Decode.{
  Scheme, sgtin_96, sscc_96, giai_96, grai_96, Decoded, Partition, entry_of, sgtin_partitions,
  sscc_partitions, giai_96_partitions, sgtin_parts, sscc_parts, giai_parts, grai_parts,
}
use tag_pulse.Rfid.Packing.{bits_of, pack}

pub data Scheme96 : Type 0 where
  sgtin sscc giai grai : Scheme96

-- The row is the one of the partition table that `partition` indexes.
pub record Tag : Type 0 where
  pub scheme : Scheme96
  pub filter : ℕ
  pub partition : ℕ
  pub row : Partition
  pub company : ℕ
  pub item : ℕ
  pub last : ℕ

unfoldable pub header_of : Scheme96 → ℕ
header_of sgtin = 0x30
header_of sscc = 0x31
header_of giai = 0x34
header_of grai = 0x33

unfoldable pub table_of : Scheme96 → List Partition
table_of sgtin = sgtin_partitions
table_of sscc = sscc_partitions
table_of giai = giai_96_partitions
table_of grai = sgtin_partitions

-- What stands after the item: a serial number, the reserved bits, or nothing.
unfoldable pub last_bits : Scheme96 → ℕ
last_bits sgtin = 38
last_bits sscc = 24
last_bits giai = 0
last_bits grai = 38

unfoldable pub fields_of : Scheme96 → ℕ → ℕ → Partition → ℕ → ℕ → ℕ → List ℕ
fields_of s filter partition row company item last =
    bits_of 3 filter
    ++ (bits_of 3 partition
        ++ (bits_of row.cp_bits company
            ++ (bits_of row.item_bits item ++ (bits_of (last_bits s) last ++ []))))

unfoldable pub tail_bits : Tag → List ℕ
tail_bits t = fields_of t.scheme t.filter t.partition t.row t.company t.item t.last

unfoldable pub memory : Tag → List ℕ
memory t = pack (bits_of 8 (header_of t.scheme) ++ tail_bits t)

-- Every number has the width of its field.
pub record IsEncodable (t : Tag) : Type 0 where
  pub filter_fits : t.filter < 8
  pub partition_fits : t.partition < 8
  pub row_named : entry_of (table_of t.scheme) t.partition ≡ ok t.row
  pub company_fits : t.company < 2 ^ t.row.cp_bits
  pub item_fits : t.item < 2 ^ t.row.item_bits
  pub last_fits : t.last < 2 ^ last_bits t.scheme

unfoldable pub scheme_of : Scheme96 → Scheme
scheme_of sgtin = sgtin_96
scheme_of sscc = sscc_96
scheme_of giai = giai_96
scheme_of grai = grai_96

unfoldable pub parts_of : Scheme96 → ℕ → Partition → ℕ → ℕ → ℕ → Decoded
parts_of sgtin filter row company item last =
    sgtin_parts "sgtin-96" filter row company item (str last)
parts_of sscc filter row company item last = sscc_parts filter row company item
parts_of giai filter row company item last = giai_parts "giai-96" filter row company (str item)
parts_of grai filter row company item last = grai_parts "grai-96" filter row company item (str last)

unfoldable pub described : Tag → Scheme × Decoded
described t = (scheme_of t.scheme, parts_of t.scheme t.filter t.row t.company t.item t.last)
