-- ===== src/PartitionFs/Peek.antt =====
-- The two stages of streaming use: the peek at the first bytes sizes the header that the parse needs.
use nx_nexus.Base.{
  ℕ, ◌≤◌, ◌<◌, ◌≡◌, ◌≢◌, ◌⊎◌, inl, inr, ◌++◌, refl, ap, arith, length, length-append, Bytes, ltb,
}
use native.Mathlib.Decide.{dec_lt}
use nx_nexus.Outcome.{
  Outcome, ok, err, fault, FmtError, truncated, bad_name_table, ◌>>◌, >>=-eq-ok, reject,
}
use nx_nexus.Format.{rd_u32}
use nx_nexus.Format.Words.{rd-append}
use nx_nexus.PartitionFs.{
  PartitionFsType, PartitionFsContext, compute_header_size, classify, peek_header_size, check_names,
  init,
}
use nx_nexus.PartitionFs.Parsed.{context, context-Fits, check_names-err, check_names-ne-fault}

-- What the peek at `first` has read when it answers with a type and a size.
record Peeked (first : Bytes) (fs_type : PartitionFsType) (size : ℕ) : Type 0 where
  pub magic : ℕ
  pub kind : PartitionFsType × ℕ
  pub count : ℕ
  pub table : ℕ
  pub long : 0x10 ≤ length first
  pub magic_is : rd_u32 first 0x0 ≡ ok magic
  pub kind_is : classify magic ≡ ok kind
  pub count_is : rd_u32 first 0x4 ≡ ok count
  pub table_is : rd_u32 first 0x8 ≡ ok table
  pub size_is : compute_header_size count table kind.1 ≡ ok size
  pub type_is : kind.0 ≡ fs_type

peek-Peeked :
    (first : Bytes) {t : PartitionFsType} {size : ℕ}
    → peek_header_size first ≡ ok (t, size)
    → Peeked first t size
unfolding peek_header_size
peek-Peeked first h =
    let (_, long, h1) = >>=-eq-ok (reject (ltb (length first) 0x10) truncated) _ h in
    let (magic, m, h2) = >>=-eq-ok (rd_u32 first 0x0) _ h1 in
    let (c, hc, h3) = >>=-eq-ok (classify magic) _ h2 in
    let (count, n, h4) = >>=-eq-ok (rd_u32 first 0x4) _ h3 in
    let (table, t, h5) = >>=-eq-ok (rd_u32 first 0x8) _ h4 in
    let (size', hs, e) = >>=-eq-ok (compute_header_size count table c.1) _ h5 in
    record {
      magic = magic;
      kind = c;
      count = count;
      table = table;
      long = ground arith;
      magic_is = m;
      kind_is = hc;
      count_is = n;
      table_is = t;
      size_is = ground (arith, e, hs);
      type_is = ground (arith, e);
    }

module _ (first rest : Bytes) {t : PartitionFsType} {size : ℕ} (p : Peeked first t size) where
  init_short : length (first ++ rest) < size → init (first ++ rest) ≡ err truncated
  unfolding init
  init_short h = ground (
    arith,
    p.magic_is,
    p.kind_is,
    p.count_is,
    p.table_is,
    p.size_is,
    p.long,
    length-append first rest,
    rd-append 4 0x0 first rest,
    rd-append 4 0x4 first rest,
    rd-append 4 0x8 first rest,
  )

  -- The context that the parse of the whole header checks.
  abbrev checked : PartitionFsContext
  checked = context (first ++ rest) p.kind p.count p.table size

  init_whole :
      size ≤ length (first ++ rest)
      → init (first ++ rest) ≡ (do check_names checked p.count 0; ok checked)
  unfolding init
  init_whole h = ground (
    arith,
    p.magic_is,
    p.kind_is,
    p.count_is,
    p.table_is,
    p.size_is,
    p.long,
    length-append first rest,
    rd-append 4 0x0 first rest,
    rd-append 4 0x4 first rest,
    rd-append 4 0x8 first rest,
  )

-- How a parse that was given the announced bytes ends.
abbrev pub Ends : PartitionFsType → ℕ → Outcome PartitionFsContext → Type 0
Ends t size r =
    (r ≡ err bad_name_table)
    ⊎ ((ctx : PartitionFsContext) × (r ≡ ok ctx) × (ctx.fs_type ≡ t) × (ctx.header_size ≡ size))

then_ok-Ends :
    {t : PartitionFsType} {size : ℕ} (ctx : PartitionFsContext) (r : Outcome (Unit {0}))
    → r ≢ fault
    → ((e : FmtError) → r ≡ err e → e ≡ bad_name_table)
    → ctx.fs_type ≡ t
    → ctx.header_size ≡ size
    → Ends t size (r >> ok ctx)
then_ok-Ends ctx (ok u) safe bad a b = inr (ctx, refl, a, b)
then_ok-Ends ctx (err e) safe bad a b = inl (ap err (bad e refl))
then_ok-Ends ctx fault safe bad a b = absurd (safe refl)

-- When the peek at the first bytes announces a type and a size, the parse of any header that begins
-- with those bytes answers `truncated` exactly when it is given fewer bytes than announced; given
-- that many, it returns a context of that type and size, or finds a bad name table.
pub peek_decides :
    (first rest : Bytes) {t : PartitionFsType} {size : ℕ}
    → peek_header_size first ≡ ok (t, size)
    → ((length (first ++ rest) < size) × (init (first ++ rest) ≡ err truncated))
      ⊎ ((size ≤ length (first ++ rest)) × Ends t size (init (first ++ rest)))
peek_decides first rest {t} {size} h = elim (dec_lt (length (first ++ rest)) size) [
  | yes short ↦ inl (short, init_short first rest p short)
  | no long ↦ inr (
    omega arith,
    rw (init_whole first rest p (omega arith)) (
        then_ok-Ends ctx (check_names ctx p.count 0)
          (check_names-ne-fault
            (context-Fits (first ++ rest) p.magic p.kind p.count p.table p.kind_is p.size_is
              (omega arith))
            p.count 0 (omega arith))
          (check_names-err ctx p.count 0) p.type_is refl),
  )
]
  where
    p : Peeked first t size
    p = peek-Peeked first h

    ctx : PartitionFsContext
    ctx = context (first ++ rest) p.kind p.count p.table size
