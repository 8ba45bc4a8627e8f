-- ===== src/Install/Feed/Route.antt =====
-- `fail`, `ncz_sink` and `route_bytes` of src/installer/installer.c.
use nx_nexus.Base.{
  ℕ, ◌+◌, ◌%◌, ◌^◌, Bool, true, false, ◌++◌, none, some, ltb, ◌==◌, if◌then◌else◌, length,
  get_elem?, Bytes,
}
use nx_nexus.Install.{
  EntryKind, ignore, nca, meta_nca, ticket, cert, ncz, meta_ncz, failed, InstallResult,
  buffer_too_small, backend_error, bad_ncz, max_ticket, max_cert, Installer, Backend, Decoder,
  Emission, returns, emits, Session,
}

-- What a part of the install comes to: it went through, or it failed with a result.
pub data Attempt (B : Backend) (N : Decoder) : Type 0 where
  went : Session B N → Attempt B N
  failed_with : InstallResult → Session B N → Attempt B N

module _ {B : Backend} {N : Decoder} where
  abbrev pub and_then : Attempt B N → (Session B N → Attempt B N) → Attempt B N
  and_then (went s) f = f s
  and_then (failed_with r s) f = failed_with r s

  abbrev pub with_ins : Session B N → Installer → Session B N
  with_ins s ins = record s { ins = ins }

  -- The session after `fail`, where both hooks that may be NULL are there.
  unfoldable pub fail_session : Session B N → Session B N
  fail_session s =
      let user = if s.ins.content_open then B.content_discard s.user else s.user in
      record s {
        ins = record (s.ins) { content_open = false; stage = failed };
        user = B.rollback s.ins.meta user;
      }

  abbrev pub fail : Session B N → InstallResult → Attempt B N
  fail s r = failed_with r (fail_session s)

  -- The open content is written to.
  unfoldable pub sink_write : Session B N → Bytes → Bool × Session B N
  sink_write s bytes =
      let w = B.content_write bytes s.user in
      let s' : Session B N = record s { user = w.1 } in
      if w.0
      then (
        true,
        with_ins s'
            (record (s.ins) { bytes_written = (s.ins.bytes_written + length bytes) % 2 ^ 64 }),
      )
      else (false, s')

  -- `size` is what the decoder answers for it.
  unfoldable pub ncz_sink : Session B N → ℕ → Bytes → Bool × Session B N
  ncz_sink s size bytes =
      if s.ins.content_open
      then sink_write s bytes
      else if size == 0
      then (false, s)
      else elim (get_elem? s.ins.entries s.ins.entry_cursor) [
        | none ↦ (false, s)
        | some e ↦
            let b = B.content_begin e.content_id size s.user in
            let s' : Session B N = record s { user = b.1 } in
            if b.0
            then sink_write (with_ins s' (record (s.ins) { content_open = true })) bytes
            else (false, s')
      ]

  -- The decoder's run, with `ncz_sink` answering it.
  unfoldable pub run_emission : Session B N → Emission (N.State) → Bool × Session B N
  run_emission s (returns b n) = (b, record s { ncz_user = n })
  run_emission s (emits size bytes go) = let r = ncz_sink s size bytes in run_emission r.1 (go r.0)

  unfoldable pub write_content : Session B N → Bytes → Attempt B N
  write_content s bytes =
      let w = sink_write s bytes in if w.0 then went w.1 else fail w.1 backend_error

  unfoldable pub feed_decoder : Session B N → Bytes → Attempt B N
  feed_decoder s bytes =
      let w = run_emission s (N.feed bytes s.ncz_user) in if w.0 then went w.1 else fail w.1 bad_ncz

  unfoldable pub route_bytes : Session B N → EntryKind → Bytes → Attempt B N
  route_bytes s nca bytes = write_content s bytes
  route_bytes s meta_nca bytes = write_content s bytes
  route_bytes s ncz bytes = feed_decoder s bytes
  route_bytes s meta_ncz bytes = feed_decoder s bytes
  route_bytes s ticket bytes =
      if ltb max_ticket (length s.ins.tik + length bytes)
      then fail s buffer_too_small
      else went (with_ins s (record (s.ins) { tik = s.ins.tik ++ bytes }))
  route_bytes s cert bytes =
      if ltb max_cert (length s.ins.cert + length bytes)
      then fail s buffer_too_small
      else went (with_ins s (record (s.ins) { cert = s.ins.cert ++ bytes }))
  route_bytes s ignore bytes = went s

  -- `stream_pos += n`.
  abbrev pub advance : Session B N → ℕ → Session B N
  advance s n = with_ins s (record (s.ins) { stream_pos = (s.ins.stream_pos + n) % 2 ^ 64 })
