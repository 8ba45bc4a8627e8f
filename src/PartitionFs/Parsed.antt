-- ===== src/PartitionFs/Parsed.antt =====
-- What `partitionFsInit` establishes, and that no header makes it read outside the buffer.
use native.Mathlib.Decide.{ℕ_discrete, dec_le}
use mathlib.Core.Path.{subst}
use nx_nexus.Base.{
  ℕ, zero, suc, ◌+◌, ◌-◌, ◌*◌, ◌≤◌, ◌<◌, ◌≡◌, ◌≢◌, refl, ◌⊎◌, inl, inr, true, arith, length, Bytes,
  slice, drop, ltb,
}
use nx_nexus.Outcome.{
  ok, err, fault, FmtError, too_large, truncated, bad_name_table, reject, ok-injective,
  >>=-ne-fault, reject-ne-fault, >>=-eq-ok,
}
use nx_nexus.Format.{rd, le, rd_u32, read}
use nx_nexus.Format.Words.{
  add_overflows_iff, mul_overflows_iff, rd_lem, read_lem, read-eq-ok, rd-ne-fault,
}
use nx_nexus.CString.{c_string, memchr_nul, has_nul, until_nul-has_nul, IsString}
use nx_nexus.PartitionFs.{
  PartitionFsType, PartitionFsContext, compute_header_size, classify, entry_at, check_name,
  check_names, init, max_entries, max_name_table,
}

-- The checked arithmetic of the header size never overflows below the caps, and is then exact.
pub compute_header_size_lem :
    (count table size : ℕ)
    → count ≤ max_entries
    → table ≤ max_name_table
    → size ≤ 0x40
    → compute_header_size count table size ≡ ok (0x10 + count * size + table)
unfolding compute_header_size
compute_header_size_lem count table size hc ht hs =
    let below : count * size ≤ 0x400000 = grind arith in
    ground (
      arith,
      (mul_overflows_iff count size (count * size) (omega arith) (omega arith)).1,
      (add_overflows_iff 0x10 (count * size) (0x10 + count * size) (omega arith) (omega arith)).1,
      (add_overflows_iff (0x10 + count * size) table (0x10 + count * size + table) (omega arith)
          (omega arith)).1,
    )

compute_header_size-caps :
    (count table size : ℕ)
    → (max_entries < count) ⊎ (max_name_table < table)
    → compute_header_size count table size ≡ err too_large
unfolding compute_header_size
compute_header_size-caps count table size h = ground arith

-- The entries and the name table lie inside the header.
pub record Fits (ctx : PartitionFsContext) : Type 0 where
  pub table_at : ctx.name_table_off ≡ 0x10 + ctx.entry_count * ctx.entry_size
  pub wide : 0x18 ≤ ctx.entry_size
  pub inside : ctx.name_table_off + ctx.name_table_size ≤ length ctx.header

-- Entry `i` has a name that begins and ends inside the name table.
pub record Named (ctx : PartitionFsContext) (i : ℕ) : Type 0 where
  pub name_off : ℕ
  pub name : Bytes
  pub offset_is : rd_u32 ctx.header (entry_at ctx i + 0x10) ≡ ok name_off
  pub name_is : c_string ctx.header (ctx.name_table_off + name_off) ≡ ok name
  pub ends : name_off + length name < ctx.name_table_size
  pub string : IsString name

pub entry_inside :
    {ctx : PartitionFsContext}
    → Fits ctx
    → (i : ℕ) → i < ctx.entry_count
    → entry_at ctx i + 0x18 ≤ length ctx.header
entry_inside {ctx} f i h =
    let below : (i + 1) * ctx.entry_size ≤ ctx.entry_count * ctx.entry_size = grind arith in
    omega arith

-- A NUL in the name table from `off` on ends a string there.
c_string-memchr :
    (buf : Bytes) (off n : ℕ)
    → memchr_nul buf off n ≡ ok true
    → (s : Bytes) × (c_string buf off ≡ ok s) × (length s < n) × IsString s
unfolding memchr_nul c_string
c_string-memchr buf off n h =
    let (bs, r, e) = >>=-eq-ok (read n buf off) (λ bs. ok (has_nul bs)) h in
    until_nul-has_nul n (drop off buf) (ground (arith, read-eq-ok n off buf r))

module _ {ctx : PartitionFsContext} (f : Fits ctx) (i : ℕ) (h : i < ctx.entry_count) where
  check_name-Named : check_name ctx i ≡ ok tt → Named ctx i
  unfolding check_name
  check_name-Named c =
      let (off, r, c') = >>=-eq-ok (rd_u32 ctx.header (entry_at ctx i + 0x10)) _ c in
      let lt : off < ctx.name_table_size = ground arith in
      let m : memchr_nul ctx.header (ctx.name_table_off + off) (ctx.name_table_size - off)
          ≡ ok true =
        ground arith in
      let (s, e, l, t) =
        c_string-memchr ctx.header (ctx.name_table_off + off) (ctx.name_table_size - off) m in
      record {
        name_off = off;
        name = s;
        offset_is = r;
        name_is = e;
        ends = omega arith;
        string = t;
      }

  check_name-ne-fault : check_name ctx i ≢ fault
  unfolding check_name memchr_nul
  check_name-ne-fault c =
      let inside = entry_inside f i h in
      let at : ℕ = le (slice (entry_at ctx i + 0x10) 4 ctx.header) in
      ground (
        arith,
        rd_lem 4 (entry_at ctx i + 0x10) ctx.header (omega arith),
        read_lem (ctx.name_table_size - at) (ctx.name_table_off + at) ctx.header,
      )

module _ {ctx : PartitionFsContext} (f : Fits ctx) where
  check_names-Named :
      (n i : ℕ)
      → i + n ≤ ctx.entry_count
      → check_names ctx n i ≡ ok tt
      → (j : ℕ) → i ≤ j
      → j < i + n
      → Named ctx j
  unfolding check_names
  check_names-Named zero i h c j lo hi = absurd (omega arith)
  check_names-Named (suc n) i h c j lo hi =
      let (u, first, rest) = >>=-eq-ok (check_name ctx i) (λ _. check_names ctx n (i + 1)) c in
      elim (ℕ_discrete i j) [
        | yes e ↦ subst (Named ctx) e (check_name-Named f i (omega arith) first)
        | no ne ↦ check_names-Named n (i + 1) (omega arith) rest j (omega arith) (omega arith)
      ]

  pub check_names-ne-fault : (n i : ℕ) → i + n ≤ ctx.entry_count → check_names ctx n i ≢ fault
  unfolding check_names
  check_names-ne-fault zero i h c = cc
  check_names-ne-fault (suc n) i h c =
      ground (arith, check_name-ne-fault f i, check_names-ne-fault n (i + 1))

-- The checks answer nothing but `bad_name_table`.
check_name-err :
    (ctx : PartitionFsContext) (i : ℕ) (e : FmtError)
    → check_name ctx i ≡ err e
    → e ≡ bad_name_table
unfolding check_name memchr_nul read rd
check_name-err ctx i e h = ground arith

pub check_names-err :
    (ctx : PartitionFsContext) (n i : ℕ) (e : FmtError)
    → check_names ctx n i ≡ err e
    → e ≡ bad_name_table
unfolding check_names
check_names-err ctx zero i e h = cc
check_names-err ctx (suc n) i e h =
    ground (arith, check_name-err ctx i e, check_names-err ctx n (i + 1) e)

-- The context that `init` checks the names of.
abbrev pub context : Bytes → PartitionFsType × ℕ → ℕ → ℕ → ℕ → PartitionFsContext
context header c count table size = record {
  fs_type = c.0;
  header = header;
  header_len = length header;
  entry_count = count;
  name_table_size = table;
  entry_size = c.1;
  header_size = size;
  name_table_off = 0x10 + count * c.1;
}

classify-ok :
    (magic : ℕ) {c : PartitionFsType × ℕ} → classify magic ≡ ok c → (0x18 ≤ c.1) × (c.1 ≤ 0x40)
unfolding classify
classify-ok magic h = ground arith

classify-ne-fault : (magic : ℕ) → classify magic ≢ fault
unfolding classify
classify-ne-fault magic h = ground arith

compute_header_size-eq-ok :
    (count table size : ℕ) {total : ℕ}
    → size ≤ 0x40
    → compute_header_size count table size ≡ ok total
    → (total ≡ 0x10 + count * size + table) × (count ≤ max_entries) × (table ≤ max_name_table)
compute_header_size-eq-ok count table size hs h = elim (dec_le count max_entries) [
  | no big ↦
      absurd (ground (arith, h, compute_header_size-caps count table size (inl (omega arith))))
  | yes hc ↦ elim (dec_le table max_name_table) [
    | no big ↦
        absurd (ground (arith, h, compute_header_size-caps count table size (inr (omega arith))))
    | yes ht ↦ ground (arith, h, compute_header_size_lem count table size hc ht hs)
  ]
]

compute_header_size-ne-fault : (count table size : ℕ) → compute_header_size count table size ≢ fault
unfolding compute_header_size
compute_header_size-ne-fault count table size h = ground arith

-- What a context that `init` returned is known to satisfy.
pub record IsParsed (header : Bytes) (ctx : PartitionFsContext) : Type 0 where
  pub header_is : ctx.header ≡ header
  pub fits : Fits ctx
  pub size_is : ctx.header_size ≡ ctx.name_table_off + ctx.name_table_size
  pub few_entries : ctx.entry_count ≤ max_entries
  pub small_table : ctx.name_table_size ≤ max_name_table
  pub narrow : ctx.entry_size ≤ 0x40
  pub names : (i : ℕ) → i < ctx.entry_count → Named ctx i

pub context-Fits :
    (header : Bytes) (magic : ℕ) (c : PartitionFsType × ℕ) (count table : ℕ) {size : ℕ}
    → classify magic ≡ ok c
    → compute_header_size count table c.1 ≡ ok size
    → size ≤ length header
    → Fits (context header c count table size)
context-Fits header magic c count table {size} hc hs le' =
    let bounds = classify-ok magic hc in
    let total = compute_header_size-eq-ok count table c.1 bounds.1 hs in
    record { table_at = refl; wide = bounds.0; inside = omega arith }

-- Whatever `partitionFsInit` accepts is laid out inside the buffer, with every name terminated
-- inside the name table.
pub init-IsParsed :
    (header : Bytes) {ctx : PartitionFsContext} → init header ≡ ok ctx → IsParsed header ctx
unfolding init
init-IsParsed header {ctx} h =
    let (_, long, h1) = >>=-eq-ok (reject (ltb (length header) 0x10) truncated) _ h in
    let (magic, m, h2) = >>=-eq-ok (rd_u32 header 0x0) _ h1 in
    let (c, hc, h3) = >>=-eq-ok (classify magic) _ h2 in
    let (count, n, h4) = >>=-eq-ok (rd_u32 header 0x4) _ h3 in
    let (table, t, h5) = >>=-eq-ok (rd_u32 header 0x8) _ h4 in
    let (size, hs, h6) = >>=-eq-ok (compute_header_size count table c.1) _ h5 in
    let (_, whole, h7) = >>=-eq-ok (reject (ltb (length header) size) truncated) _ h6 in
    let (_, names, e) = >>=-eq-ok (check_names (context header c count table size) count 0) _ h7 in
    let fits = context-Fits header magic c count table hc hs (ground arith) in
    let bounds = classify-ok magic hc in
    let total = compute_header_size-eq-ok count table c.1 bounds.1 hs in
    subst (IsParsed header) (ok-injective e) (record {
      header_is = refl;
      fits = fits;
      size_is = total.0;
      few_entries = total.1;
      small_table = total.2;
      narrow = bounds.1;
      names =
          λ i lt. check_names-Named fits count 0 (omega arith) names i (omega arith) (omega arith);
    })

-- `partitionFsInit` reads inside the buffer, whatever the buffer holds.
pub init-ne-fault : (header : Bytes) → init header ≢ fault
unfolding init
init-ne-fault header =
    >>=-ne-fault (reject (ltb (length header) 0x10) truncated) _ (reject-ne-fault _ _) λ _ long.
      >>=-ne-fault (rd_u32 header 0x0) _ (rd-ne-fault 4 0x0 header (ground arith)) λ magic _.
        >>=-ne-fault (classify magic) _ (classify-ne-fault magic) λ c hc.
          >>=-ne-fault (rd_u32 header 0x4) _ (rd-ne-fault 4 0x4 header (ground arith)) λ count _.
            >>=-ne-fault (rd_u32 header 0x8) _ (rd-ne-fault 4 0x8 header (ground arith)) λ table _.
              >>=-ne-fault (compute_header_size count table c.1) _
                (compute_header_size-ne-fault _ _ _)
                λ size hs.
                  >>=-ne-fault (reject (ltb (length header) size) truncated) _ (reject-ne-fault _ _)
                    λ _ whole.
                      >>=-ne-fault (check_names (context header c count table size) count 0) _
                        (check_names-ne-fault
                          (context-Fits header magic c count table hc hs (ground arith)) count 0
                          (omega arith))
                        λ _ _ e. cc
