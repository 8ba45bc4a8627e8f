-- ===== src/Ncz.antt =====
-- src/format/ncz.c and include/nexus/ncz.h: the section table of a compressed NCA, and the counter
-- of its cipher. `sections` holds the slots of the array that were written; the others are zero and
-- cover no offset.
pub mod Parsed
pub mod Tiling
pub mod Table
pub mod Counter
pub mod Bounds
mod Tests
use nx_nexus.Base.{
  ℕ, zero, suc, ◌+◌, ◌*◌, ◌/◌, ◌%◌, ◌^◌, Bool, true, false, not, ◌&&◌, ◌||◌, List, [], ◌∷◌, ◌++◌,
  Option, none, some, ltb, leb, ◌==◌, if◌then◌else◌, length, take, Bytes,
}
use nx_nexus.Outcome.{
  Outcome, ok, err, fault, FmtError, truncated, bad_magic, too_large, unsupported, reject, ◌>>=◌,
  ◌>>◌,
}
use nx_nexus.Format.{read, rd_u64, add_overflows, or_overflow}
use nx_nexus.CString.{bytes_eq}

abbrev pub ncz_header_offset : ℕ
ncz_header_offset = 0x4000

abbrev pub section_size : ℕ
section_size = 0x38

abbrev pub max_sections : ℕ
max_sections = 64

abbrev pub preamble_size : ℕ
preamble_size = 16

abbrev pub section_magic : Bytes
section_magic = b'N' ∷ b'C' ∷ b'Z' ∷ b'S' ∷ b'E' ∷ b'C' ∷ b'T' ∷ b'N' ∷ []

abbrev pub block_magic : Bytes
block_magic = b'N' ∷ b'C' ∷ b'Z' ∷ b'B' ∷ b'L' ∷ b'O' ∷ b'C' ∷ b'K' ∷ []

-- `NczCryptoType`.
abbrev pub crypto_xts : ℕ
crypto_xts = 2

abbrev pub crypto_ctr : ℕ
crypto_ctr = 3

abbrev pub crypto_bktr : ℕ
crypto_bktr = 4

pub record NczSection : Type 0 where
  pub offset : ℕ
  pub size : ℕ
  pub crypto_type : ℕ
  pub key : Bytes
  pub counter : Bytes

pub record NczContext : Type 0 where
  pub section_count : ℕ
  pub sections : List NczSection
  pub header_bytes : ℕ
  pub decompressed_size : ℕ
  pub block_compressed : Bool

-- The context after its `memset`.
abbrev pub cleared : NczContext
cleared = record {
  section_count = 0;
  sections = [];
  header_bytes = 0;
  decompressed_size = 0;
  block_compressed = false;
}

-- `memcmp(buf + off, magic, NCZ_MAGIC_SIZE) == 0`.
unfoldable pub has_magic : Bytes → Bytes → ℕ → Outcome Bool
has_magic magic buf off = do bs ← read 8 buf off; ok (bytes_eq bs magic)

-- The table's size, which is 0 for what is no NCZ header.
unfoldable pub header_size_for : Bytes → Outcome ℕ
header_size_for preamble = if ltb (length preamble) preamble_size then ok 0 else do
  magic ← has_magic section_magic preamble 0
  count ← rd_u64 preamble 8
  ok (
      if not magic
      then 0
      else if count == 0 || ltb max_sections count
      then 0
      else preamble_size + count * section_size)

-- The fields of section `i`.
unfoldable pub read_section : Bytes → ℕ → Outcome NczSection
read_section buf i = do
  let p = preamble_size + i * section_size
  offset ← rd_u64 buf (p + 0x00)
  size ← rd_u64 buf (p + 0x08)
  crypto_type ← rd_u64 buf (p + 0x10)
  key ← read 0x10 buf (p + 0x20)
  counter ← read 0x10 buf (p + 0x30)
  ok (record {
    offset = offset;
    size = size;
    crypto_type = crypto_type;
    key = key;
    counter = counter;
  })

-- The checks on section `s` where `expected` is the offset that it must have; the answer is its end.
unfoldable pub check_section : NczSection → ℕ → Outcome ℕ
check_section s expected = do
  reject (not (s.offset == expected)) unsupported
  reject (s.size == 0) unsupported
  end ← or_overflow (add_overflows s.offset s.size)
  reject (s.crypto_type == crypto_xts) unsupported
  ok end

-- What the loop over the table leaves: the end of the last section or the failure, and the sections
-- that were written to the array.
abbrev pub Table : Type 0
Table = Outcome ℕ × List NczSection

abbrev pub and_section : NczSection → Table → Table
and_section s r = (r.0, s ∷ r.1)

-- The loop, with `n` rounds left.
unfoldable pub parse_sections : Bytes → ℕ → ℕ → ℕ → Table
parse_sections buf zero i expected = (ok expected, [])
parse_sections buf (suc n) i expected = elim (read_section buf i) [
  | fault ↦ (fault, [])
  | err e ↦ (err e, [])
  | ok s ↦ elim (check_section s expected) [
    | ok end ↦ and_section s (parse_sections buf n (i + 1) end)
    | err e ↦ (err e, s ∷ [])
    | fault ↦ (fault, s ∷ [])
  ]
]

-- What follows the loop: the sizes, and the refusal of the block variant.
unfoldable pub finish : Bytes → ℕ → NczContext → ℕ → Outcome (Unit {0}) × NczContext
finish buf table ctx end =
    let done : NczContext = record ctx { decompressed_size = end; header_bytes = table } in
    if leb (table + 8) (length buf)
    then elim (has_magic block_magic buf table) [
      | ok true ↦ (err unsupported, record done { block_compressed = true })
      | ok false ↦ (ok tt, done)
      | err e ↦ (err e, done)
      | fault ↦ (fault, done)
    ]
    else (ok tt, done)

unfoldable pub parse_table : Bytes → ℕ → Outcome (Unit {0}) × NczContext
parse_table buf count =
    let table = preamble_size + count * section_size in
    let r = parse_sections buf count 0 ncz_header_offset in
    let ctx : NczContext = record cleared { section_count = count; sections = r.1 } in
    if ltb (length buf) table then (err truncated, cleared) else elim r.0 [
      | ok end ↦ finish buf table ctx end
      | err e ↦ (err e, ctx)
      | fault ↦ (fault, ctx)
    ]

-- The checks before the table, which answer its number of sections.
unfoldable pub section_count : Bytes → Outcome ℕ
section_count buf = do
  reject (ltb (length buf) preamble_size) truncated
  magic ← has_magic section_magic buf 0
  reject (not magic) bad_magic
  count ← rd_u64 buf 8
  reject (count == 0) bad_magic
  reject (ltb max_sections count) too_large
  ok count

unfoldable pub parse_header : Bytes → Outcome (Unit {0}) × NczContext
parse_header buf = elim (section_count buf) [
  | ok count ↦ parse_table buf count
  | err e ↦ (err e, cleared)
  | fault ↦ (fault, cleared)
]

-- `offset < s->offset + s->size`, in the arithmetic of `u64`.
unfoldable pub covers : NczSection → ℕ → Bool
covers s offset = leb s.offset offset && ltb offset ((s.offset + s.size) % 2 ^ 64)

unfoldable pub find_section : List NczSection → ℕ → Option NczSection
unfolding covers
find_section [] offset = none
find_section (s ∷ ss) offset = if covers s offset then some s else find_section ss offset

unfoldable pub section_at : NczContext → ℕ → Option NczSection
section_at ctx offset = find_section ctx.sections offset

unfoldable pub section_is_encrypted : Option NczSection → Bool
section_is_encrypted none = false
section_is_encrypted (some s) = s.crypto_type == crypto_ctr || s.crypto_type == crypto_bktr

-- The shifted bytes `(u8)((block >> (56 - 8 * i)) & 0xFF)` for `i` from 0 to 7.
unfoldable pub block_bytes : ℕ → Bytes
block_bytes block =
    (block / 2 ^ 56 % 256)
    ∷ (block / 2 ^ 48 % 256)
    ∷ (block / 2 ^ 40 % 256)
    ∷ (block / 2 ^ 32 % 256)
    ∷ (block / 2 ^ 24 % 256)
    ∷ (block / 2 ^ 16 % 256)
    ∷ (block / 2 ^ 8 % 256)
    ∷ (block % 256)
    ∷ []

unfoldable pub build_counter : NczSection → ℕ → Bytes
build_counter s offset = take 8 s.counter ++ block_bytes (offset / 2 ^ 4)
