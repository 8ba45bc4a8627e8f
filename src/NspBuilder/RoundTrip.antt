-- ===== src/NspBuilder/RoundTrip.antt =====
-- The header that `nspBuilderFinalize` builds is read back by the parser of partition_fs.c.
use nx_nexus.Base.{
  ℕ, zero, suc, ◌+◌, ◌-◌, ◌*◌, ◌^◌, ◌≤◌, ◌<◌, ◌≡◌, refl, sym, ap, ◌∙◌, List, [], ◌∷◌, ◌++◌,
  append_assoc, append-nil, some, arith, length, drop, take, slice, get_elem?, get_elem?-lt,
  length-append, take-length-append, slice-append, Bytes, true,
}
use nx_nexus.Outcome.{ok}
use nx_nexus.CString.{c_string, c_string-append, has_nul, has_nul-append, memchr_nul}
use nx_nexus.Format.{le_bytes, rd}
use nx_nexus.Format.Words.{length-le_bytes, rd-le_bytes, read_lem}
use nx_nexus.PartitionFs
use nx_nexus.PartitionFs.{
  pfs0_magic, pfs0, PartitionFsContext, check_name, check_names, classify, get_entry, entry_at,
}
use nx_nexus.PartitionFs.Parsed.{context, compute_header_size_lem}
use nx_nexus.NspBuilder.{NspBuilder, NspBuilderEntry, name_table_size}
use nx_nexus.NspBuilder.Image.{zeros, slot, slots, names, placed}
use nx_nexus.NspBuilder.Build.{size_of, start, image, built, length-start}
use nx_nexus.NspBuilder.Pieces.{
  AllAllowed, Part, part, length-slots, length-names, name_table_size-le,
}

pub length-placed : (off : ℕ) (es : List NspBuilderEntry) → length (placed off es) ≡ length es
length-placed off [] = refl
length-placed off (e ∷ es) = ap suc (length-placed (off + e.size) es)

pub length-image : (es : List NspBuilderEntry) → length (image es) ≡ size_of es
length-image es = omega (
  arith,
  length-append (start es) (slots 0 0 es ++ names es),
  length-append (slots 0 0 es) (names es),
  length-start es,
  length-slots 0 0 es,
  length-names es,
)

module _ (es : List NspBuilderEntry) (small : length es ≤ 64) (allowed : AllAllowed es) where
  abbrev table : ℕ
  table = name_table_size es

  table-le : table ≤ 5120
  table-le = omega (arith, name_table_size-le es allowed)

  abbrev body : Bytes
  body = slots 0 0 es ++ names es

  rd_magic : rd 4 (image es) 0x0 ≡ ok pfs0_magic
  rd_magic =
      rw
        (append_assoc (le_bytes 4 pfs0_magic)
          (le_bytes 4 (length es) ++ (le_bytes 4 table ++ zeros 4)) body)
        (rd-le_bytes 4 pfs0_magic 0 [] _ refl (omega arith))

  rd_count : rd 4 (image es) 0x4 ≡ ok (length es)
  rd_count =
      ap (λ h. rd 4 h 0x4) (simp append_assoc)
      ∙ rd-le_bytes 4 (length es) 0x4 (le_bytes 4 pfs0_magic)
          (le_bytes 4 table ++ (zeros 4 ++ body)) (sym (length-le_bytes 4 pfs0_magic)) (omega arith)

  rd_table : rd 4 (image es) 0x8 ≡ ok table
  rd_table =
      ap (λ h. rd 4 h 0x8) (simp append_assoc)
      ∙ rd-le_bytes 4 table 0x8 (le_bytes 4 pfs0_magic ++ le_bytes 4 (length es)) (zeros 4 ++ body)
          (omega (
            arith,
            length-append (le_bytes 4 pfs0_magic) (le_bytes 4 (length es)),
            length-le_bytes 4 pfs0_magic,
            length-le_bytes 4 (length es),
          ))
          (omega (arith, table-le))

  abbrev pub parsed : PartitionFsContext
  parsed = context (image es) (pfs0, 0x18) (length es) table (size_of es)

  module _ (j : ℕ) (lt : j < length es) {e : NspBuilderEntry} (p : Part 0 0 es j e) where
    abbrev before : Bytes
    before = start es ++ p.slots_before

    abbrev after : Bytes
    after = p.slots_after ++ names es

    image_slots : image es ≡ before ++ (slot e.data_offset e.size p.name_at ++ after)
    image_slots = ap (λ s. start es ++ (s ++ names es)) p.slots_are ∙ simp append_assoc

    image_names :
        image es ≡ (start es ++ (slots 0 0 es ++ p.names_before)) ++ (e.name ++ (0 ∷ p.names_after))
    image_names = ap (λ s. start es ++ (slots 0 0 es ++ s)) p.names_are ∙ simp append_assoc

    length-before : length before ≡ 0x10 + j * 0x18
    length-before =
        omega (arith, length-append (start es) p.slots_before, length-start es, p.slot_place)

    names_fit : p.name_at + length e.name < table
    names_fit = omega (
      arith,
      length-names es,
      ap length p.names_are,
      p.name_place,
      length-append p.names_before (e.name ++ (0 ∷ p.names_after)),
      length-append e.name (0 ∷ p.names_after),
    )

    rd_offset :
        e.data_offset < 2 ^ 64 → rd 8 (image es) (entry_at parsed j + 0x0) ≡ ok e.data_offset
    rd_offset h =
        ap (λ x. rd 8 x (entry_at parsed j + 0x0)) (image_slots ∙ simp append_assoc)
        ∙ rd-le_bytes 8 e.data_offset (entry_at parsed j + 0x0) before
            (le_bytes 8 e.size ++ (le_bytes 4 p.name_at ++ (zeros 4 ++ after)))
            (omega (arith, length-before)) h

    rd_size : e.size < 2 ^ 64 → rd 8 (image es) (entry_at parsed j + 0x8) ≡ ok e.size
    rd_size h =
        ap (λ x. rd 8 x (entry_at parsed j + 0x8)) (image_slots ∙ simp append_assoc)
        ∙ rd-le_bytes 8 e.size (entry_at parsed j + 0x8) (before ++ le_bytes 8 e.data_offset)
            (le_bytes 4 p.name_at ++ (zeros 4 ++ after))
            (omega (
              arith,
              length-before,
              length-append before (le_bytes 8 e.data_offset),
              length-le_bytes 8 e.data_offset,
            ))
            h

    rd_name_off : rd 4 (image es) (entry_at parsed j + 0x10) ≡ ok p.name_at
    rd_name_off =
        ap (λ x. rd 4 x (entry_at parsed j + 0x10)) (image_slots ∙ simp append_assoc)
        ∙ rd-le_bytes 4 p.name_at (entry_at parsed j + 0x10)
            (before ++ (le_bytes 8 e.data_offset ++ le_bytes 8 e.size)) (zeros 4 ++ after)
            (omega (
              arith,
              length-before,
              length-append before (le_bytes 8 e.data_offset ++ le_bytes 8 e.size),
              length-append (le_bytes 8 e.data_offset) (le_bytes 8 e.size),
              length-le_bytes 8 e.data_offset,
              length-le_bytes 8 e.size,
            ))
            (omega (arith, names_fit, table-le))

    name_place :
        parsed.name_table_off + p.name_at ≡ length (start es ++ (slots 0 0 es ++ p.names_before))
    name_place = omega (
      arith,
      length-append (start es) (slots 0 0 es ++ p.names_before),
      length-append (slots 0 0 es) p.names_before,
      length-start es,
      length-slots 0 0 es,
      p.name_place,
    )

    name_is : c_string (image es) (parsed.name_table_off + p.name_at) ≡ ok e.name
    name_is =
        ap (λ x. c_string x (parsed.name_table_off + p.name_at)) image_names
        ∙ c_string-append _ e.name p.names_after _ name_place p.allowed.string

    tail_length : length (e.name ++ (0 ∷ p.names_after)) ≡ table - p.name_at
    tail_length = omega (
      arith,
      length-names es,
      ap length p.names_are,
      p.name_place,
      length-append p.names_before (e.name ++ (0 ∷ p.names_after)),
    )

    name_slice :
        slice (parsed.name_table_off + p.name_at) (table - p.name_at) (image es)
        ≡ e.name ++ (0 ∷ p.names_after)
    name_slice =
        ap (slice (parsed.name_table_off + p.name_at) (table - p.name_at)) (
          image_names
          ∙ ap (λ x. (start es ++ (slots 0 0 es ++ p.names_before)) ++ x) (sym (append-nil _)))
        ∙ slice-append _ (e.name ++ (0 ∷ p.names_after)) [] _ _ name_place (sym tail_length)

    bounds : parsed.name_table_off + p.name_at + (table - p.name_at) ≤ length (image es)
    bounds = omega (arith, length-image es, names_fit)

    name_ends :
        memchr_nul (image es) (parsed.name_table_off + p.name_at) (table - p.name_at) ≡ ok true
    unfolding memchr_nul
    name_ends =
        rw (read_lem (table - p.name_at) (parsed.name_table_off + p.name_at) (image es) bounds)
          (ap (λ x. ok (has_nul x)) name_slice ∙ ap ok (has_nul-append e.name p.names_after))

    check_name_ok : check_name parsed j ≡ ok tt
    unfolding check_name
    check_name_ok = ground (arith, rd_name_off, name_ends, names_fit)

    pub get_entry_ok :
        e.data_offset < 2 ^ 64
        → get_entry parsed j ≡ ok (record { name = e.name; offset = e.data_offset; size = e.size })
    unfolding get_entry
    get_entry_ok h = ground (arith, rd_offset h, rd_size p.allowed.sized, rd_name_off, name_is)

  check_names_ok : (n i : ℕ) → i + n ≡ length es → check_names parsed n i ≡ ok tt
  unfolding check_names
  check_names_ok zero i h = refl
  check_names_ok (suc n) i h =
      let (e, g) = get_elem?-lt (placed 0 es) i (omega (arith, length-placed 0 es)) in
      ground
        (arith, check_name_ok i (omega arith) (part 0 0 es i allowed g), check_names_ok n (i + 1))

  pub init-image : PartitionFs.init (image es) ≡ ok parsed
  unfolding PartitionFs.init classify
  init-image = ground (
    arith,
    rd_magic,
    rd_count,
    rd_table,
    table-le,
    length-image es,
    compute_header_size_lem (length es) table 0x18 (omega arith) (omega (arith, table-le))
        (omega arith),
    check_names_ok (length es) 0 (omega arith),
  )

pub take-built : (b : NspBuilder) → take (size_of b.entries) (built b).header ≡ image b.entries
take-built b =
    ap (take (size_of b.entries)) (simp append_assoc)
    ∙ ap (λ n. take n (image b.entries ++ drop (size_of b.entries) b.header))
        (sym (length-image b.entries))
    ∙ take-length-append (image b.entries) (drop (size_of b.entries) b.header)

-- What a client that receives the virtual NSP learns of it: the parse succeeds, with the count and
-- the data offset of the builder, and each index gives the builder's entry of that index.
pub record ReadsBack (b : NspBuilder) (image : Bytes) : Type 0 where
  pub ctx : PartitionFsContext
  pub parses : PartitionFs.init image ≡ ok ctx
  pub count_is : PartitionFs.get_entry_count ctx ≡ length b.entries
  pub data_is : PartitionFs.get_data_offset ctx ≡ b.header_size
  pub entries_are :
      (j : ℕ) (e : NspBuilderEntry)
      → get_elem? b.entries j ≡ some e
      → get_entry ctx j ≡ ok (record { name = e.name; offset = e.data_offset; size = e.size })
