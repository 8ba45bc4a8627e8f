-- ===== src/Install/Feed.antt =====
-- The stream of src/installer/installer.c: `fail`, `ncz_sink`, `route_bytes` and `nexusInstallFeed`.
mod Route
unfoldable pub use Route.*
use nx_nexus.Base.{
  ℕ, zero, suc, ◌+◌, ◌-◌, ◌%◌, ◌^◌, min, Bool, true, false, not, ◌&&◌, [], ◌∷◌, ◌++◌, Option, none,
  some, ltb, leb, ◌==◌, if◌then◌else◌, length, take, drop, get_elem?, Bytes,
}
use nx_nexus.Outcome.{Outcome, ok, err, fault}
use nx_nexus.PartitionFs
use nx_nexus.PartitionFs.{
  PartitionFsType, PartitionFsContext, partition_fs_header_size, peek_header_size,
}
use nx_nexus.Install.{
  EntryKind, ignore, nca, meta_nca, ticket, cert, ncz, meta_ncz, is_content, is_compressed, is_meta,
  InstallStage, at_magic, at_header, streaming, complete, failed, InstallResult, install_ok,
  in_progress, bad_container, header_too_large, buffer_too_small, backend_error, no_decompressor,
  bad_ncz, aborted, max_header, max_ticket, max_cert, InstallEntry, Installer, Backend, Decoder,
  Emission, returns, emits, Session,
}
use nx_nexus.Install.Entries.{is_ok, build_entries}

-- `a - b` on a `u64`.
unfoldable pub subtract : ℕ → ℕ → ℕ
subtract a b = (a + (2 ^ 64 - b)) % 2 ^ 64

-- `absorb_header`: how many bytes are used up to `want`.
abbrev pub header_take : Installer → Bytes → ℕ → ℕ
header_take ins p want = min (length p) (subtract want (length ins.header))

abbrev pub entry_end : InstallEntry → ℕ
entry_end e = (e.abs_offset + e.size) % 2 ^ 64

-- Enough for the bytes, the entries and the changes of stage.
abbrev pub feed_fuel : Bytes → ℕ
feed_fuel p = length p + 68

-- What a round of the loop comes to: the bytes that are left, or a return.
pub data Turn (B : Backend) (N : Decoder) : Type 0 where
  next : Session B N → Bytes → Turn B N
  stop : InstallResult → Session B N → Turn B N

abbrev pub answer : InstallStage → InstallResult
answer complete = install_ok
answer _ = in_progress

module _ {B : Backend} {N : Decoder} where
  abbrev pub to_turn : Attempt B N → Bytes → Turn B N
  to_turn (went s) rest = next s rest
  to_turn (failed_with r s) rest = stop r s

  unfoldable pub absorb_header : Session B N → Bytes → ℕ → Session B N
  absorb_header s p want =
      let used = header_take s.ins p want in
      advance (with_ins s (record (s.ins) { header = s.ins.header ++ take used p })) used

  -- What the first 16 bytes announce.
  unfoldable pub announced : Session B N → Bytes → Outcome (PartitionFsType × ℕ) → Turn B N
  announced s rest (ok h) =
      let s' = with_ins s (record (s.ins) { header_size = h.1 }) in
      if ltb max_header h.1
      then to_turn (fail s' header_too_large) rest
      else next (with_ins s' (record (s'.ins) { stage = at_header })) rest
  announced s rest (err x) = to_turn (fail s bad_container) rest
  announced s rest fault = to_turn (fail s bad_container) rest

  unfoldable pub magic_turn : Session B N → Bytes → Turn B N
  magic_turn s p =
      let s1 = absorb_header s p partition_fs_header_size in
      let rest = drop (header_take s.ins p partition_fs_header_size) p in
      if ltb (length s1.ins.header) partition_fs_header_size
      then stop in_progress s1
      else announced s1 rest (peek_header_size s1.ins.header)

  -- What the whole header holds.
  unfoldable pub opened : Session B N → Bytes → Outcome PartitionFsContext → Turn B N
  opened s rest (ok ctx) =
      let t = build_entries (record (s.ins) { pfs = ctx }) in
      if is_ok t.0
      then next (with_ins s (record (t.1) { stage = streaming; entry_cursor = 0 })) rest
      else to_turn (fail (with_ins s t.1) t.0) rest
  opened s rest (err x) = to_turn (fail s bad_container) rest
  opened s rest fault = to_turn (fail s bad_container) rest

  unfoldable pub header_turn : Session B N → Bytes → Turn B N
  header_turn s p =
      let s1 = absorb_header s p s.ins.header_size in
      let rest = drop (header_take s.ins p s.ins.header_size) p in
      if ltb (length s1.ins.header) s.ins.header_size
      then stop in_progress s1
      else opened s1 rest (PartitionFs.init s1.ins.header)

  -- What is opened before the bytes of entry `e` are routed.
  unfoldable pub open_entry : Session B N → InstallEntry → Attempt B N
  open_entry s e =
      if is_compressed e.kind
      then if s.ins.ncz_active
        then went s
        else if not s.ins.has_decoder
        then fail s no_decompressor
        else (let b = N.begin s.ncz_user in
            let s' : Session B N = record s { ncz_user = b.1 } in
            if b.0
            then went (with_ins s' (record (s.ins) { ncz_active = true }))
            else fail s' bad_ncz)
      else if not s.ins.content_open && is_content e.kind
      then (let b = B.content_begin e.content_id e.size s.user in
          let s' : Session B N = record s { user = b.1 } in
          if b.0
          then went (with_ins s' (record (s.ins) { content_open = true }))
          else fail s' backend_error)
      else went s

  -- `take` bytes of `p` are routed, if there are any.
  unfoldable pub route_some : Session B N → InstallEntry → ℕ → Bytes → Attempt B N
  route_some s e n p =
      if n == 0
      then went s
      else and_then (route_bytes s e.kind (take n p)) (λ s'. went (advance s' n))

  unfoldable pub end_decoding : Session B N → InstallEntry → Attempt B N
  end_decoding s e =
      if s.ins.ncz_active
      then (let d = N.end s.ncz_user in
          let s' : Session B N = record s { ncz_user = d.1 } in
          let real = N.size d.1 in
          if d.0
          then went (
              with_ins s' (record (s.ins) {
                ncz_active = false;
                meta_nca_size = if is_meta e.kind && ltb 0 real then real else s.ins.meta_nca_size;
              }))
          else fail s' bad_ncz)
      else went s

  unfoldable pub commit_content : Session B N → Attempt B N
  commit_content s =
      if s.ins.content_open
      then (let c = B.content_commit s.user in
          let s' : Session B N = record s { user = c.1 } in
          if c.0
          then went (with_ins s' (record (s.ins) { content_open = false }))
          else fail s' backend_error)
      else went s

  -- The cursor moves on; after the last entry the stream is complete.
  unfoldable pub next_entry : Session B N → Session B N
  next_entry s =
      let cursor = suc s.ins.entry_cursor in
      with_ins s (record (s.ins) {
        entry_cursor = cursor;
        stage = if leb (length s.ins.entries) cursor then complete else s.ins.stage;
      })

  unfoldable pub close_entry : Session B N → InstallEntry → Attempt B N
  close_entry s e =
      and_then (end_decoding s e) (λ s1. and_then (commit_content s1) (λ s2. went (next_entry s2)))

  -- What follows the routing: the entry is closed when its end is reached.
  unfoldable pub after_route : Session B N → InstallEntry → Attempt B N
  after_route s e = if leb (entry_end e) s.ins.stream_pos then close_entry s e else went s

  -- The parts of a round that work on entry `e`, with `n` of the bytes `p`.
  unfoldable pub entry_attempt : Session B N → InstallEntry → ℕ → Bytes → Attempt B N
  entry_attempt s e n p =
      and_then (open_entry s e) (λ s1. and_then (route_some s1 e n p) (λ s2. after_route s2 e))

  unfoldable pub entry_turn : Session B N → InstallEntry → Bytes → Turn B N
  entry_turn s e p =
      if ltb s.ins.stream_pos e.abs_offset
      then (let skip = min (length p) (e.abs_offset - s.ins.stream_pos) in
          next (advance s skip) (drop skip p))
      else (let n = min (length p) (subtract (entry_end e) s.ins.stream_pos) in
          to_turn (entry_attempt s e n p) (drop n p))

  unfoldable pub streaming_turn : Session B N → Bytes → Turn B N
  streaming_turn s p = elim (get_elem? s.ins.entries s.ins.entry_cursor) [
    | some e ↦ entry_turn s e p
    | none ↦
        let s' = advance s (length p) in
        next (with_ins s' (record (s'.ins) { stage = complete })) []
  ]

  unfoldable pub turn_at : InstallStage → Session B N → Bytes → Turn B N
  turn_at at_magic s p = magic_turn s p
  turn_at at_header s p = header_turn s p
  turn_at streaming s p = streaming_turn s p
  turn_at complete s p = next (advance s (length p)) []
  turn_at _ s p = stop aborted s

  -- One round of the loop in `nexusInstallFeed`.
  unfoldable pub turn : Session B N → Bytes → Turn B N
  turn s p = turn_at s.ins.stage s p

  -- The loop, on fuel; `none` when it runs out.
  unfoldable pub feed_loop : ℕ → Session B N → Bytes → Option (InstallResult × Session B N)
  feed_loop fuel s [] = some (answer s.ins.stage, s)
  feed_loop zero s (b ∷ p) = none
  feed_loop (suc fuel) s (b ∷ p) = elim (turn s (b ∷ p)) [
    | next s' rest ↦ feed_loop fuel s' rest
    | stop r s' ↦ some (r, s')
  ]

  -- `nexusInstallFeed`, by the stage it starts in.
  unfoldable pub feed_at : InstallStage → Session B N → Bytes → Option (InstallResult × Session B N)
  feed_at failed s p = some (aborted, s)
  feed_at _ s p = if length p == 0 then some (in_progress, s) else feed_loop (feed_fuel p) s p

  unfoldable pub install_feed : Session B N → Bytes → Option (InstallResult × Session B N)
  install_feed s p = feed_at s.ins.stage s p
