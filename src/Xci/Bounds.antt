-- ===== src/Xci/Bounds.antt =====
-- The header parse stays in the buffer, what it accepts is in range, and a partition is placed
-- without wrapping round.
use native.Mathlib.Decide.{dec_lt}
use nx_nexus.Base.{
  ℕ, ◌+◌, ◌*◌, ◌^◌, ◌≤◌, ◌<◌, ◌≡◌, ◌≢◌, ◌⊎◌, inl, inr, refl, not, ◌||◌, arith, length, Bytes,
  IsBytes, ltb, ◌==◌,
}
use nx_nexus.Outcome.{
  ok, err, fault, truncated, bad_magic, too_large, overflow, reject, reject-ne-fault, >>=-eq-ok,
  >>=-ne-fault,
}
use nx_nexus.Format.{rd_u8, rd_u32, rd_u64, add_overflows, mul_overflows, or_overflow}
use nx_nexus.Format.Words.{
  rd-ne-fault, rd-lt, or_overflow-ne-fault, add_overflows_iff, mul_overflows_iff,
}
use nx_nexus.PartitionFs.{PartitionFsContext, PartitionFsEntry, find_entry, get_data_offset}
use nx_nexus.Xci.{XciHeader, xci_magic, media_unit, parse_header, find_partition}

-- `xciParseHeader` reads inside the buffer, whatever the buffer holds.
pub xci_header-ne-fault : (buf : Bytes) → parse_header buf ≢ fault
unfolding parse_header
xci_header-ne-fault buf =
    >>=-ne-fault (reject (ltb (length buf) 0x200) truncated) _ (reject-ne-fault _ _) λ _ long.
      >>=-ne-fault (rd_u32 buf 0x100) _ (rd-ne-fault 4 0x100 buf (ground arith)) λ magic _.
        >>=-ne-fault (reject (not (magic == xci_magic)) bad_magic) _ (reject-ne-fault _ _) λ _ _.
          >>=-ne-fault (rd_u64 buf 0x130) _ (rd-ne-fault 8 0x130 buf (ground arith)) λ root _.
            >>=-ne-fault (rd_u64 buf 0x138) _ (rd-ne-fault 8 0x138 buf (ground arith)) λ size _.
              >>=-ne-fault (rd_u8 buf 0x10E) _ (rd-ne-fault 1 0x10E buf (ground arith)) λ _ _.
                >>=-ne-fault (rd_u8 buf 0x10F) _ (rd-ne-fault 1 0x10F buf (ground arith)) λ _ _.
                  >>=-ne-fault (rd_u8 buf 0x10D) _ (rd-ne-fault 1 0x10D buf (ground arith)) λ _ _.
                    >>=-ne-fault (rd_u32 buf 0x118) _ (rd-ne-fault 4 0x118 buf (ground arith))
                      λ pages _.
                        >>=-ne-fault (or_overflow (mul_overflows (pages + 1) media_unit)) _
                          (or_overflow-ne-fault _)
                          λ _ _.
                            >>=-ne-fault (reject (ltb root 0x200) truncated) _ (reject-ne-fault _ _)
                              λ _ _.
                                >>=-ne-fault (reject (ltb size 0x10 || ltb 0x100000 size) too_large)
                                  _ (reject-ne-fault _ _)
                                  λ _ _.
                                    >>=-ne-fault (or_overflow (add_overflows root size)) _
                                      (or_overflow-ne-fault _) λ _ _ e. cc

-- What an accepted header is known to satisfy.
pub record IsParsed (buf : Bytes) (hdr : XciHeader) : Type 0 where
  pub pages : ℕ
  pub pages_are : rd_u32 buf 0x118 ≡ ok pages
  pub data_end : hdr.valid_data_end ≡ (pages + 1) * 0x200
  pub behind_header : 0x200 ≤ hdr.root_offset
  pub plausible : (0x10 ≤ hdr.root_header_size) × (hdr.root_header_size ≤ 0x100000)
  pub root_fits : hdr.root_offset + hdr.root_header_size < 2 ^ 64

-- An accepted header puts the root partition behind itself, with a header of plausible size whose end
-- fits a `u64`, and its data end is the exact number of bytes of its media units.
pub parse_header-IsParsed :
    (buf : Bytes) {hdr : XciHeader} → IsBytes buf → parse_header buf ≡ ok hdr → IsParsed buf hdr
unfolding parse_header
parse_header-IsParsed buf {hdr} b h =
    let (_, long, h1) = >>=-eq-ok (reject (ltb (length buf) 0x200) truncated) _ h in
    let (magic, _, h2) = >>=-eq-ok (rd_u32 buf 0x100) _ h1 in
    let (_, _, h3) = >>=-eq-ok (reject (not (magic == xci_magic)) bad_magic) _ h2 in
    let (root, rr, h4) = >>=-eq-ok (rd_u64 buf 0x130) _ h3 in
    let (size, rs, h5) = >>=-eq-ok (rd_u64 buf 0x138) _ h4 in
    let (version, _, h6) = >>=-eq-ok (rd_u8 buf 0x10E) _ h5 in
    let (flags, _, h7) = >>=-eq-ok (rd_u8 buf 0x10F) _ h6 in
    let (rom, _, h8) = >>=-eq-ok (rd_u8 buf 0x10D) _ h7 in
    let (pages, rp, h9) = >>=-eq-ok (rd_u32 buf 0x118) _ h8 in
    let (data_end, rd_end, h10) =
      >>=-eq-ok (or_overflow (mul_overflows (pages + 1) media_unit)) _ h9 in
    let (_, behind, h11) = >>=-eq-ok (reject (ltb root 0x200) truncated) _ h10 in
    let (_, small, h12) = >>=-eq-ok (reject (ltb size 0x10 || ltb 0x100000 size) too_large) _ h11 in
    let (root_end, fits, e) = >>=-eq-ok (or_overflow (add_overflows root size)) _ h12 in
    let lt_root = rd-lt 8 0x130 buf b rr in
    let lt_size = rd-lt 8 0x138 buf b rs in
    let lt_pages = rd-lt 4 0x118 buf b rp in
    let total =
      (mul_overflows_iff (pages + 1) 0x200 ((pages + 1) * 0x200) (omega arith) (omega arith)).1
        (omega arith, refl) in
    record {
      pages = pages;
      pages_are = rp;
      data_end = ground (arith, e, rd_end, total);
      behind_header = ground (arith, e, behind);
      plausible = ground (arith, e, small);
      root_fits = ground (arith, e, fits, (add_overflows_iff root size root_end lt_root lt_size).0);
    }

-- For a partition that the root lists, the answer is its exact place in the image, behind the root's
-- header, where that place ends within a `u64`, and `overflow` where it does not.
pub find_partition_cases :
    (hdr : XciHeader) (root : PartitionFsContext) (name : Bytes) {e : PartitionFsEntry}
    → hdr.root_offset < 2 ^ 64
    → get_data_offset root < 2 ^ 64
    → e.offset < 2 ^ 64
    → e.size < 2 ^ 64
    → find_entry root name ≡ ok e
    → ((hdr.root_offset + get_data_offset root + e.offset + e.size < 2 ^ 64)
        × (find_partition hdr root name
            ≡ ok (hdr.root_offset + get_data_offset root + e.offset, e.size)))
      ⊎ ((2 ^ 64 ≤ hdr.root_offset + get_data_offset root + e.offset + e.size)
          × (find_partition hdr root name ≡ err overflow))
unfolding find_partition add_overflows
find_partition_cases hdr root name {e} hr hd ho hs h =
    elim (dec_lt (hdr.root_offset + get_data_offset root + e.offset + e.size) (2 ^ 64)) [
      | yes fits ↦ inl (fits, ground (arith, h))
      | no big ↦ inr (omega arith, ground (arith, h))
    ]
