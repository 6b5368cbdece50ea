-- ===== src/Rfid/RoundTrip.antt =====
-- The decoders of src/tagpulse/rfid/epc.py on the memory of a tag.
use tag_pulse.Prelude.{
  ℕ, zero, suc, ◌+◌, ◌/◌, ◌%◌, ◌^◌, ◌<◌, ◌≡◌, refl, subst, List, [], ◌∷◌, ◌++◌, length, All, ok,
  arith, length-append, some, nat_eq,
}
use tag_pulse.Dict.{lookup}
use tag_pulse.Rfid.Reader.{BitReader, bit_reader, read}
use tag_pulse.Rfid.Decode.{
  Scheme, Decoded, Partition, entry_of, sgtin_partitions, sscc_partitions, giai_96_partitions,
  decode_sgtin_96, decode_sscc_96, decode_giai_96, decode_grai_96, decode_scheme, decode_bytes,
  headers,
}
use tag_pulse.Rfid.Packing.{bits_of, pack, unpack-pack, AreBits, length-bits_of, length-pack}
use tag_pulse.Rfid.Fields.{IsAt, Ahead, read_field, read_partition_lem, read_grai_lem}
use tag_pulse.Rfid.Tags.{
  Scheme96, sgtin, sscc, giai, grai, Tag, header_of, table_of, last_bits, fields_of, tail_bits,
  memory, IsEncodable, scheme_of, parts_of, described,
}

-- What every row of a table has, an indexed row has.
entry_of-All :
    (bits : ℕ) (table : List Partition) (i : ℕ) (p : Partition)
    → All (λ row. row.cp_bits + row.item_bits + bits ≡ 82) table
    → entry_of table i ≡ ok p
    → p.cp_bits + p.item_bits + bits ≡ 82
unfolding entry_of
entry_of-All bits [] i p (a) named = ground arith
entry_of-All bits (row ∷ table) zero p (a, rest) named = ground arith
entry_of-All bits (row ∷ table) (suc i) p (a, rest) named = entry_of-All bits table i p rest named

sgtin_rows : All (λ row. row.cp_bits + row.item_bits + 38 ≡ 82) sgtin_partitions
sgtin_rows = (refl, (refl, (refl, (refl, (refl, (refl, (refl, tt)))))))

-- With header, filter and partition, 96 bits.
entry_of_widths :
    (s : Scheme96) (i : ℕ) (p : Partition)
    → entry_of (table_of s) i ≡ ok p
    → p.cp_bits + p.item_bits + last_bits s ≡ 82
unfolding table_of last_bits
entry_of_widths sgtin i p named = entry_of-All 38 sgtin_partitions i p sgtin_rows named
entry_of_widths sscc i p named = entry_of-All 24 sscc_partitions i p rows named
  where
    rows : All (λ row. row.cp_bits + row.item_bits + 24 ≡ 82) sscc_partitions
    rows = (refl, (refl, (refl, (refl, (refl, (refl, (refl, tt)))))))
entry_of_widths giai i p named = entry_of-All 0 giai_96_partitions i p rows named
  where
    rows : All (λ row. row.cp_bits + row.item_bits + 0 ≡ 82) giai_96_partitions
    rows = (refl, (refl, (refl, (refl, (refl, (refl, (refl, tt)))))))
entry_of_widths grai i p named = entry_of-All 38 sgtin_partitions i p sgtin_rows named

append-AreBits : (xs ys : List ℕ) → AreBits xs → AreBits ys → AreBits (xs ++ ys)
append-AreBits [] ys a b = b
append-AreBits (x ∷ xs) ys (p, a) b = (p, append-AreBits xs ys a b)

bits_of-AreBits : (n v : ℕ) → AreBits (bits_of n v)
unfolding bits_of
bits_of-AreBits zero v = tt
bits_of-AreBits (suc n) v =
    append-AreBits (bits_of n (v / 2)) (v % 2 ∷ []) (bits_of-AreBits n (v / 2)) (omega arith, tt)

pub field-AreBits : (n v : ℕ) (rest : List ℕ) → AreBits rest → AreBits (bits_of n v ++ rest)
field-AreBits n v rest bits = append-AreBits (bits_of n v) rest (bits_of-AreBits n v) bits

length_field : (n v : ℕ) (rest : List ℕ) → length (bits_of n v ++ rest) ≡ n + length rest
length_field n v rest = omega (arith, length-append (bits_of n v) rest, length-bits_of n v)

pub tail_bits-AreBits : (t : Tag) → AreBits (tail_bits t)
unfolding tail_bits fields_of
tail_bits-AreBits t = field-AreBits 3 t.filter _ (
    field-AreBits 3 t.partition _ (
      field-AreBits t.row.cp_bits t.company _
        (field-AreBits t.row.item_bits t.item _ (field-AreBits (last_bits t.scheme) t.last [] tt))))

length-tail_bits : (t : Tag) → IsEncodable t → length (tail_bits t) ≡ 88
unfolding tail_bits fields_of
length-tail_bits t fits = rw (length_field 3 t.filter) (
    rw (length_field 3 t.partition) (
      rw (length_field t.row.cp_bits t.company) (
        rw (length_field t.row.item_bits t.item) (
          rw (length_field (last_bits t.scheme) t.last [])
            (omega (arith, entry_of_widths t.scheme t.partition t.row fits.row_named))))))

packed_IsAt : (bs : List ℕ) → length bs ≡ 96 → AreBits bs → IsAt (bit_reader (pack bs) 96) [] bs
unfolding bit_reader
packed_IsAt bs long bits = record {
  content = unpack-pack 12 bs long bits;
  place = refl;
  end = ground (arith, length-pack 12 bs long bits);
}

header_fits : (s : Scheme96) → header_of s < 2 ^ 8
unfolding header_of
header_fits sgtin = omega arith
header_fits sscc = omega arith
header_fits giai = omega arith
header_fits grai = omega arith

memory_starts :
    (s : Scheme96) (rest : List ℕ)
    → pack (bits_of 8 (header_of s) ++ rest) ≡ header_of s ∷ pack rest
unfolding header_of bits_of pack
memory_starts sgtin rest = refl
memory_starts sscc rest = refl
memory_starts giai rest = refl
memory_starts grai rest = refl

header_known : (s : Scheme96) → lookup (header_of s) headers ≡ some (scheme_of s, 96)
unfolding header_of lookup scheme_of
header_known sgtin = refl
header_known sscc = refl
header_known giai = refl
header_known grai = refl

decode_scheme_lem :
    (s : Scheme96) (filter partition company item last : ℕ) (row : Partition) (bits : BitReader)
    → filter < 8
    → partition < 8
    → entry_of (table_of s) partition ≡ ok row
    → company < 2 ^ row.cp_bits
    → item < 2 ^ row.item_bits
    → last < 2 ^ last_bits s
    → Ahead bits (fields_of s filter partition row company item last)
    → decode_scheme (scheme_of s) bits ≡ ok (parts_of s filter row company item last)
unfolding decode_scheme scheme_of parts_of table_of last_bits fields_of decode_sgtin_96
    decode_sscc_96 decode_giai_96 decode_grai_96
decode_scheme_lem sgtin filter partition company item last row bits f p e c i l ahead =
    let (b1, r1, a1) =
      read_partition_lem sgtin_partitions row filter partition company item bits _ f p e c i
        ahead in
    let (b2, r2, a2) = read_field 38 last b1 [] l a1 in rw r1 (rw r2 refl)
decode_scheme_lem sscc filter partition company item last row bits f p e c i l ahead =
    let (b1, r1, a1) =
      read_partition_lem sscc_partitions row filter partition company item bits _ f p e c i ahead in
    let (b2, r2, a2) = read_field 24 last b1 [] l a1 in rw r1 (rw r2 refl)
decode_scheme_lem giai filter partition company item last row bits f p e c i l ahead =
    let (b1, r1, a1) =
      read_partition_lem giai_96_partitions row filter partition company item bits _ f p e c i
        ahead in
    rw r1 refl
decode_scheme_lem grai filter partition company item last row bits f p e c i l ahead =
    let w = entry_of-All 38 sgtin_partitions partition row sgtin_rows e in
    let (b1, r1, a1) =
      read_grai_lem row filter partition company item bits _ f p e (omega arith) c i ahead in
    let (b2, r2, a2) = read_field 38 last b1 [] l a1 in rw r1 (rw r2 refl)

decode_bytes_steps :
    (header : ℕ) (rest : List ℕ) (s : Scheme) (bits : BitReader) (parts : Decoded)
    → lookup header headers ≡ some (s, 96)
    → read 8 (bit_reader (header ∷ rest) 96) ≡ ok (header, bits)
    → decode_scheme s bits ≡ ok parts
    → decode_bytes (header ∷ rest) ≡ (s, parts)
unfolding decode_bytes
decode_bytes_steps header rest s bits parts known consumed decoded =
    rw (known, decode_bytes) (rw (consumed, decode_bytes) (rw (decoded, decode_bytes) refl))

pub decode_bytes-memory : (t : Tag) → IsEncodable t → decode_bytes (memory t) ≡ described t
unfolding decode_bytes memory described tail_bits
decode_bytes-memory t fits =
    let long = length-tail_bits t fits in
    let at =
      packed_IsAt (bits_of 8 (header_of t.scheme) ++ tail_bits t)
        (omega (arith, length_field 8 (header_of t.scheme) (tail_bits t)))
        (field-AreBits 8 (header_of t.scheme) _ (tail_bits-AreBits t)) in
    let (b1, r1, a1) =
      read_field 8 (header_of t.scheme) _ (tail_bits t) (header_fits t.scheme) ([], at) in
    let starts = memory_starts t.scheme (tail_bits t) in
    let consumed =
      subst (λ bytes. read 8 (bit_reader bytes 96) ≡ ok (header_of t.scheme, b1)) starts r1 in
    let decoded =
      decode_scheme_lem t.scheme t.filter t.partition t.company t.item t.last t.row b1
        fits.filter_fits fits.partition_fits fits.row_named fits.company_fits fits.item_fits
        fits.last_fits a1 in
    rw starts (
      decode_bytes_steps (header_of t.scheme) _ (scheme_of t.scheme) b1 _ (header_known t.scheme)
        consumed decoded)
