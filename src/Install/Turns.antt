-- ===== src/Install/Turns.antt =====
-- The rounds that gather the header, and every round of the loop.
use mathlib.Core.Path.{subst}
use nx_nexus.Base.{
  ℕ, ◌+◌, ◌^◌, ◌≤◌, ◌<◌, ◌≡◌, inl, inr, refl, sym, ap, ◌++◌, arith, length, take, drop,
  length-append, length-take, length-drop, Bytes, ltb,
}
use nx_nexus.Outcome.{Outcome, ok, err, fault, reject, truncated, too_large, >>=-eq-ok}
use nx_nexus.Format.{rd_u32, mul_overflows, add_overflows, or_overflow}
use nx_nexus.PartitionFs
use nx_nexus.PartitionFs.{
  PartitionFsType, PartitionFsContext, peek_header_size, compute_header_size, classify, max_entries,
  max_name_table,
}
use nx_nexus.Install.{
  InstallStage, idle, at_magic, at_header, streaming, complete, failed, bad_container,
  header_too_large, Installer, Backend, Decoder, Session,
}
use nx_nexus.Install.Entries.{is_ok, build_entries}
use nx_nexus.Install.Table.{build_entries-Filled}
use nx_nexus.Install.Feed.{
  subtract, header_take, with_ins, announced, opened, absorb_header, magic_turn, header_turn,
  turn_at, turn,
}
use nx_nexus.Install.Run.{fail-RolledBack, Small}
use nx_nexus.Install.Round.{
  HeaderFits, IsRunning, rank, rank_of, TurnEnds, if-TurnEnds, streaming_turn-Ends,
}

compute_header_size-ge :
    (count table entry : ℕ) {size : ℕ} → compute_header_size count table entry ≡ ok size → 16 ≤ size
unfolding compute_header_size add_overflows
compute_header_size-ge count table entry h =
    let (_, _, h1) = >>=-eq-ok (reject (ltb max_entries count) too_large) _ h in
    let (_, _, h2) = >>=-eq-ok (reject (ltb max_name_table table) too_large) _ h1 in
    let (bytes, _, h3) = >>=-eq-ok (or_overflow (mul_overflows count entry)) _ h2 in
    let (total, t, e) = >>=-eq-ok (or_overflow (add_overflows 0x10 bytes)) _ h3 in
    ground (arith, t, e)

-- The size announced covers the fixed part of the header.
peek_header_size-ge :
    (first : Bytes) {h : PartitionFsType × ℕ} → peek_header_size first ≡ ok h → 16 ≤ h.1
unfolding peek_header_size
peek_header_size-ge first {h} e =
    let (_, _, h1) = >>=-eq-ok (reject (ltb (length first) 0x10) truncated) _ e in
    let (magic, _, h2) = >>=-eq-ok (rd_u32 first 0x0) _ h1 in
    let (c, _, h3) = >>=-eq-ok (classify magic) _ h2 in
    let (count, _, h4) = >>=-eq-ok (rd_u32 first 0x4) _ h3 in
    let (table, _, h5) = >>=-eq-ok (rd_u32 first 0x8) _ h4 in
    let (size, hs, q) = >>=-eq-ok (compute_header_size count table c.1) _ h5 in
    let le' = compute_header_size-ge count table c.1 hs in ground (arith, q)

-- The header after `absorb_header`: it is complete, or the bytes are used up.
header_take_lem :
    (ins : Installer) (p : Bytes) (want : ℕ)
    → length ins.header ≤ want
    → want ≤ 0x4000
    → (length (ins.header ++ take (header_take ins p want) p) ≤ want)
      × (length ins.header ≤ length (ins.header ++ take (header_take ins p want) p))
unfolding subtract
header_take_lem ins p want h k =
    let q = header_take ins p want in
    (
      omega (arith, length-append ins.header (take q p), length-take q p),
      omega (arith, length-append ins.header (take q p)),
    )

module _ {B : Backend} {N : Decoder} where
  announced-Ends :
      (s : Session B N) (p : Bytes) (t : Session B N) (rest : Bytes)
      (o : Outcome (PartitionFsType × ℕ))
      → ((h : PartitionFsType × ℕ) → o ≡ ok h → 16 ≤ h.1)
      → length t.ins.header ≡ 16
      → Small t
      → length t.ins.entries ≤ 64
      → t.ins.stream_pos < 2 ^ 64
      → length rest + 66 < length p + rank s
      → TurnEnds s p (announced t rest o)
  unfolding announced
  announced-Ends s p t rest (err x) ge hl m f q k =
      inr (fail-RolledBack t bad_container (λ e. cc) (λ e. cc))
  announced-Ends s p t rest fault ge hl m f q k =
      inr (fail-RolledBack t bad_container (λ e. cc) (λ e. cc))
  announced-Ends s p t rest (ok h) ge hl m f q k =
      if-TurnEnds s p (ltb 0x4000 h.1) _ _
        (λ _. inr (
          fail-RolledBack (with_ins t (record (t.ins) { header_size = h.1 })) header_too_large
            (λ e. cc) (λ e. cc)))
        λ fits. (
          record {
            header_fits = (omega arith, omega (arith, ge h refl), ground (arith, fits));
            small = record { tik = m.tik; cert = m.cert };
            few = f;
            position = q;
          },
          k,
        )

  magic_turn-Ends :
      (s : Session B N) (p : Bytes)
      → IsRunning s
      → s.ins.stage ≡ at_magic
      → TurnEnds s p (magic_turn s p)
  unfolding magic_turn absorb_header
  magic_turn-Ends s p v st =
      let have : length s.ins.header < 16 =
        subst (λ g. HeaderFits g (length s.ins.header) s.ins.header_size) st v.header_fits in
      let q = header_take s.ins p 16 in
      let s1 = absorb_header s p 16 in
      let fits = header_take_lem s.ins p 16 (omega arith) (omega arith) in
      let small : Small s1 = record { tik = v.small.tik; cert = v.small.cert } in
      if-TurnEnds s p (ltb (length s1.ins.header) 16) _ _
        (λ short. inl (
          refl,
          record {
            header_fits =
                subst (λ g. HeaderFits g (length s1.ins.header) s1.ins.header_size) (sym st)
                  (ground (arith, short));
            small = small;
            few = v.few;
            position = omega arith;
          },
        ))
        λ long.
          announced-Ends s p s1 (drop q p) (peek_header_size s1.ins.header)
            (λ h e. peek_header_size-ge s1.ins.header e) (ground (arith, long, fits)) small v.few
            (omega arith)
            (omega (
              arith,
              length-drop q p,
              ap (λ g. rank_of g (length s.ins.entries) s.ins.entry_cursor) st,
            ))

  opened-Ends :
      (s : Session B N) (p : Bytes) (t : Session B N) (rest : Bytes)
      (o : Outcome PartitionFsContext)
      → length t.ins.header ≤ 0x4000
      → Small t
      → t.ins.stream_pos < 2 ^ 64
      → length rest + 64 < length p + rank s
      → TurnEnds s p (opened t rest o)
  unfolding opened
  opened-Ends s p t rest (err x) hl m q k =
      inr (fail-RolledBack t bad_container (λ e. cc) (λ e. cc))
  opened-Ends s p t rest fault hl m q k = inr (fail-RolledBack t bad_container (λ e. cc) (λ e. cc))
  opened-Ends s p t rest (ok ctx) hl m q k =
      let (final, b) = build_entries-Filled (record (t.ins) { pfs = ctx }) in
      let r = build_entries (record (t.ins) { pfs = ctx }) in
      if-TurnEnds s p (is_ok r.0) _ _
        (λ _. (
          record {
            header_fits = omega (arith, ap length b.header);
            small = record {
              tik = omega (arith, ap length b.tik, m.tik);
              cert = omega (arith, ap length b.cert, m.cert);
            };
            few = b.few;
            position = omega (arith, b.position);
          },
          omega (arith, b.few),
        ))
        λ n. inr (fail-RolledBack (with_ins t r.1) r.0 (λ e. cc (n, ap is_ok e)) final)

  header_turn-Ends :
      (s : Session B N) (p : Bytes)
      → IsRunning s
      → s.ins.stage ≡ at_header
      → TurnEnds s p (header_turn s p)
  unfolding header_turn absorb_header
  header_turn-Ends s p v st =
      let (lo, have, cap) =
        subst (λ g. HeaderFits g (length s.ins.header) s.ins.header_size) st v.header_fits in
      let q = header_take s.ins p s.ins.header_size in
      let s1 = absorb_header s p s.ins.header_size in
      let fits = header_take_lem s.ins p s.ins.header_size have cap in
      let small : Small s1 = record { tik = v.small.tik; cert = v.small.cert } in
      if-TurnEnds s p (ltb (length s1.ins.header) s.ins.header_size) _ _
        (λ short. inl (
          refl,
          record {
            header_fits =
                subst (λ g. HeaderFits g (length s1.ins.header) s1.ins.header_size) (sym st)
                  (omega (arith, fits.1), fits.0, cap);
            small = small;
            few = v.few;
            position = omega arith;
          },
        ))
        λ long.
          opened-Ends s p s1 (drop q p) (PartitionFs.init s1.ins.header) (omega (arith, fits.0))
            small (omega arith)
            (omega (
              arith,
              length-drop q p,
              ap (λ g. rank_of g (length s.ins.entries) s.ins.entry_cursor) st,
            ))

  turn_at-Ends :
      (stage : InstallStage) (s : Session B N) (p : Bytes)
      → IsRunning s
      → s.ins.stage ≡ stage
      → 0 < length p
      → TurnEnds s p (turn_at stage s p)
  unfolding turn_at
  turn_at-Ends at_magic s p v st h = magic_turn-Ends s p v st
  turn_at-Ends at_header s p v st h = header_turn-Ends s p v st
  turn_at-Ends streaming s p v st h = streaming_turn-Ends s p v st h
  turn_at-Ends complete s p v st h = (
    record {
      header_fits = v.header_fits;
      small = record { tik = v.small.tik; cert = v.small.cert };
      few = v.few;
      position = omega arith;
    },
    omega arith,
  )
  turn_at-Ends idle s p v st h =
      absurd (subst (λ g. HeaderFits g (length s.ins.header) s.ins.header_size) st v.header_fits)
  turn_at-Ends failed s p v st h =
      absurd (subst (λ g. HeaderFits g (length s.ins.header) s.ins.header_size) st v.header_fits)

  -- Every round on a running session with bytes left ends as it should.
  pub turn-Ends :
      (s : Session B N) (p : Bytes) → IsRunning s → 0 < length p → TurnEnds s p (turn s p)
  unfolding turn
  turn-Ends s p v h = turn_at-Ends s.ins.stage s p v refl h
