-- ===== src/Rfid/Fields.antt =====
-- Reading one field of a packed bit string, and where it leaves the reader.
use tag_pulse.Prelude.{
  ℕ, ◌+◌, ◌-◌, ◌*◌, ◌^◌, ◌<◌, ◌≡◌, refl, sym, ap, ◌∙◌, List, [], ◌∷◌, ◌++◌, length, ok, arith,
  length-append, subst,
}
use mathlib.Core.List.{append_assoc}
use tag_pulse.Rfid.Reader.{BitReader, byte_at, bit_at, read_loop, read}
use tag_pulse.Rfid.Decode.{Partition, entry_of, read_partition, sgtin_partitions, read_grai}
use tag_pulse.Rfid.Packing.{
  bits_of, unpack, value_of, bit_at-unpack, length-bits_of, value_of-bits_of,
}

-- The reader has read `done` of its bits, and `rest` is to come.
pub record IsAt (bits : BitReader) (done rest : List ℕ) : Type 0 where
  pub content : unpack bits.buffer ≡ done ++ rest
  pub place : bits.pos ≡ length done
  pub end : bits.limit ≡ length done + length rest

byte_at-append :
    (done : List ℕ) (b : ℕ) (rest : List ℕ) → byte_at (done ++ b ∷ rest) (length done) ≡ b
unfolding byte_at
byte_at-append [] b rest = refl
byte_at-append (c ∷ done) b rest = byte_at-append done b rest

length_snoc : (done : List ℕ) (b : ℕ) → length (done ++ b ∷ []) ≡ length done + 1
length_snoc done b = length-append done (b ∷ [])

next_bit :
    (bytes done : List ℕ) (b : ℕ) (more : List ℕ)
    → unpack bytes ≡ done ++ b ∷ more
    → bit_at bytes (length done) ≡ b
next_bit bytes done b more content =
    bit_at-unpack bytes (length done) ∙ rw content (byte_at-append done b more)

read_loop-value_of :
    (bytes done field rest : List ℕ) (pos acc : ℕ)
    → unpack bytes ≡ done ++ (field ++ rest)
    → pos ≡ length done
    → read_loop bytes (length field) pos acc ≡ value_of acc field
unfolding read_loop value_of
read_loop-value_of bytes done [] rest pos acc content place = refl
read_loop-value_of bytes done (b ∷ field) rest pos acc content place =
    ap (λ bit. read_loop bytes (length field) (pos + 1) (acc * 2 + bit))
      (ap (bit_at bytes) place ∙ next_bit bytes done b (field ++ rest) content)
    ∙ read_loop-value_of bytes (done ++ b ∷ []) field rest (pos + 1) (acc * 2 + b)
        (content ∙ sym (append_assoc done (b ∷ []) (field ++ rest)))
        (omega (arith, length_snoc done b))

read-bits_of :
    (n v : ℕ) (bits : BitReader) (done rest : List ℕ)
    → v < 2 ^ n
    → IsAt bits done (bits_of n v ++ rest)
    → (later : BitReader) × (read n bits ≡ ok (v, later)) × IsAt later (done ++ bits_of n v) rest
unfolding read
read-bits_of n v bits done rest small at = (
  record { buffer = bits.buffer; pos = bits.pos + n; limit = bits.limit },
  reads,
  record {
    content = at.content ∙ sym (append_assoc done (bits_of n v) rest);
    place = omega (arith, length-append done (bits_of n v), length-bits_of n v);
    end = omega (arith, length-append done (bits_of n v), length-append (bits_of n v) rest);
  },
)
  where
    loop : read_loop bits.buffer n bits.pos 0 ≡ v
    loop =
        subst (λ width. read_loop bits.buffer width bits.pos 0 ≡ value_of 0 (bits_of n v))
          (length-bits_of n v)
          (read_loop-value_of bits.buffer done (bits_of n v) rest bits.pos 0 at.content at.place)
        ∙ value_of-bits_of n v small

    reads :
        read n bits
        ≡ ok (v, record { buffer = bits.buffer; pos = bits.pos + n; limit = bits.limit })
    reads = ground (arith, loop, length-append (bits_of n v) rest, length-bits_of n v)

-- The reader has `rest` before it, whatever it has read.
abbrev pub Ahead : BitReader → List ℕ → Type 0
Ahead bits rest = (done : List ℕ) × IsAt bits done rest

pub read_field :
    (n v : ℕ) (bits : BitReader) (rest : List ℕ)
    → v < 2 ^ n
    → Ahead bits (bits_of n v ++ rest)
    → (later : BitReader) × (read n bits ≡ ok (v, later)) × Ahead later rest
read_field n v bits rest small (done, at) =
    let (later, reads, after) = read-bits_of n v bits done rest small at in
    (later, reads, (done ++ bits_of n v, after))

pub read_partition_lem :
    (table : List Partition) (p : Partition) (filter index cp item : ℕ) (bits : BitReader)
    (rest : List ℕ)
    → filter < 8
    → index < 8
    → entry_of table index ≡ ok p
    → cp < 2 ^ p.cp_bits
    → item < 2 ^ p.item_bits
    → Ahead bits (
        bits_of 3 filter
        ++ (bits_of 3 index ++ (bits_of p.cp_bits cp ++ (bits_of p.item_bits item ++ rest))))
    → (later : BitReader) × (read_partition table bits ≡ ok (filter, p, cp, item, later))
      × Ahead later rest
unfolding read_partition
read_partition_lem table p filter index cp item bits rest f i e c t ahead =
    let (b1, r1, a1) = read_field 3 filter bits _ f ahead in
    let (b2, r2, a2) = read_field 3 index b1 _ i a1 in
    let (b3, r3, a3) = read_field p.cp_bits cp b2 _ c a2 in
    let (b4, r4, a4) = read_field p.item_bits item b3 _ t a3 in
    (b4, rw r1 (rw r2 (rw e (rw r3 (rw r4 refl)))), a4)

pub read_grai_lem :
    (p : Partition) (filter index cp item : ℕ) (bits : BitReader) (rest : List ℕ)
    → filter < 8
    → index < 8
    → entry_of sgtin_partitions index ≡ ok p
    → p.item_bits ≡ 44 - p.cp_bits
    → cp < 2 ^ p.cp_bits
    → item < 2 ^ p.item_bits
    → Ahead bits (
        bits_of 3 filter
        ++ (bits_of 3 index ++ (bits_of p.cp_bits cp ++ (bits_of p.item_bits item ++ rest))))
    → (later : BitReader) × (read_grai bits ≡ ok (filter, p, cp, item, later)) × Ahead later rest
unfolding read_grai
read_grai_lem p filter index cp item bits rest f i e w c t ahead =
    let (b1, r1, a1) = read_field 3 filter bits _ f ahead in
    let (b2, r2, a2) = read_field 3 index b1 _ i a1 in
    let (b3, r3, a3) = read_field p.cp_bits cp b2 _ c a2 in
    let (b4, r4, a4) = read_field p.item_bits item b3 _ t a3 in
    (b4, rw r1 (rw r2 (rw e (rw r3 (rw (sym w) (rw r4 refl))))), a4)
