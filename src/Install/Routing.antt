-- ===== src/Install/Routing.antt =====
-- What the calls of a round keep of a session.
use nx_nexus.Base.{ℕ, ◌+◌, refl, not, ◌&&◌, ◌++◌, arith, length, Bytes, length-append, ltb}
use nx_nexus.Install.{
  EntryKind, ignore, nca, meta_nca, ticket, cert, ncz, meta_ncz, is_compressed, is_content,
  InstallEntry, Backend, Decoder, Emission, returns, emits, Session, backend_error, bad_ncz,
  no_decompressor, buffer_too_small,
}
use nx_nexus.Install.Feed.{
  with_ins, sink_write, ncz_sink, run_emission, write_content, feed_decoder, route_bytes,
  open_entry, end_decoding, commit_content,
}
use nx_nexus.Install.Run.{
  Small, Kept, Kept-refl, Kept-trans, Routed, Kept-Routed, Ends, fail-RolledBack, if-Ends,
  when-Ends, unless-Ends,
}

module _ {B : Backend} {N : Decoder} where
  sink_write-Kept : (s : Session B N) (bytes : Bytes) → Kept s (sink_write s bytes).1
  unfolding sink_write
  sink_write-Kept s bytes = ground arith

  ncz_sink-Kept : (s : Session B N) (size : ℕ) (bytes : Bytes) → Kept s (ncz_sink s size bytes).1
  unfolding ncz_sink sink_write
  ncz_sink-Kept s size bytes = ground arith

  run_emission-Kept : (s : Session B N) (m : Emission (N.State)) → Kept s (run_emission s m).1
  unfolding run_emission
  run_emission-Kept s (returns b n) = record {
    stage = refl;
    entries = refl;
    cursor = refl;
    header = refl;
    position = refl;
    tik = refl;
    cert = refl;
  }
  run_emission-Kept s (emits size bytes go) =
      Kept-trans (ncz_sink s size bytes).1 (ncz_sink-Kept s size bytes)
        (run_emission-Kept (ncz_sink s size bytes).1 (go (ncz_sink s size bytes).0))

  write_content-Routed :
      (s : Session B N) (bytes : Bytes) → Small s → Ends (Routed s) (write_content s bytes)
  unfolding write_content
  write_content-Routed s bytes m =
      when-Ends (Routed s) (sink_write s bytes).0 (sink_write s bytes).1 (sink_write s bytes).1
        backend_error (λ e. cc) (λ e. cc) (Kept-Routed m (sink_write-Kept s bytes))

  feed_decoder-Routed :
      (s : Session B N) (bytes : Bytes) → Small s → Ends (Routed s) (feed_decoder s bytes)
  unfolding feed_decoder
  feed_decoder-Routed s bytes m =
      let w = run_emission s (N.feed bytes s.ncz_user) in
      when-Ends (Routed s) w.0 w.1 w.1 bad_ncz (λ e. cc) (λ e. cc)
        (Kept-Routed m (run_emission-Kept s (N.feed bytes s.ncz_user)))

  pub route_bytes-Routed :
      (s : Session B N) (k : EntryKind) (bytes : Bytes)
      → Small s
      → Ends (Routed s) (route_bytes s k bytes)
  unfolding route_bytes
  route_bytes-Routed s nca bytes m = write_content-Routed s bytes m
  route_bytes-Routed s meta_nca bytes m = write_content-Routed s bytes m
  route_bytes-Routed s ncz bytes m = feed_decoder-Routed s bytes m
  route_bytes-Routed s meta_ncz bytes m = feed_decoder-Routed s bytes m
  route_bytes-Routed s ignore bytes m = Kept-Routed m (Kept-refl s)
  route_bytes-Routed s ticket bytes m =
      unless-Ends (Routed s) (ltb 0x1000 (length s.ins.tik + length bytes))
        (with_ins s (record (s.ins) { tik = s.ins.tik ++ bytes })) s buffer_too_small (λ e. cc)
        (λ e. cc)
        λ small. record {
          stage = refl;
          entries = refl;
          cursor = refl;
          header = refl;
          position = refl;
          small = record {
            tik = ground (arith, small, length-append s.ins.tik bytes);
            cert = m.cert;
          };
        }
  route_bytes-Routed s cert bytes m =
      unless-Ends (Routed s) (ltb 0x2000 (length s.ins.cert + length bytes))
        (with_ins s (record (s.ins) { cert = s.ins.cert ++ bytes })) s buffer_too_small (λ e. cc)
        (λ e. cc)
        λ small. record {
          stage = refl;
          entries = refl;
          cursor = refl;
          header = refl;
          position = refl;
          small = record {
            tik = m.tik;
            cert = ground (arith, small, length-append s.ins.cert bytes);
          };
        }

  pub open_entry-Kept : (s : Session B N) (e : InstallEntry) → Ends (Kept s) (open_entry s e)
  unfolding open_entry
  open_entry-Kept s e =
      if-Ends (Kept s) (is_compressed e.kind) _ _
        (λ _.
          if-Ends (Kept s) s.ins.ncz_active _ _ (λ _. Kept-refl s)
            λ _.
              if-Ends (Kept s) (not s.ins.has_decoder) _ _
                (λ _. fail-RolledBack s no_decompressor (λ e. cc) (λ e. cc))
                λ _.
                  when-Ends (Kept s) (N.begin s.ncz_user).0 _ _ bad_ncz (λ e. cc) (λ e. cc)
                    (record {
                      stage = refl;
                      entries = refl;
                      cursor = refl;
                      header = refl;
                      position = refl;
                      tik = refl;
                      cert = refl;
                    }))
        λ _.
          if-Ends (Kept s) (not s.ins.content_open && is_content e.kind) _ _
            (λ _.
              when-Ends (Kept s) (B.content_begin e.content_id e.size s.user).0 _ _ backend_error
                (λ e. cc) (λ e. cc)
                (record {
                  stage = refl;
                  entries = refl;
                  cursor = refl;
                  header = refl;
                  position = refl;
                  tik = refl;
                  cert = refl;
                }))
            λ _. Kept-refl s

  pub end_decoding-Kept : (s : Session B N) (e : InstallEntry) → Ends (Kept s) (end_decoding s e)
  unfolding end_decoding
  end_decoding-Kept s e =
      if-Ends (Kept s) s.ins.ncz_active _ _
        (λ _.
          when-Ends (Kept s) (N.end s.ncz_user).0 _ _ bad_ncz (λ e. cc) (λ e. cc)
            (record {
              stage = refl;
              entries = refl;
              cursor = refl;
              header = refl;
              position = refl;
              tik = refl;
              cert = refl;
            }))
        λ _. Kept-refl s

  pub commit_content-Kept : (s : Session B N) → Ends (Kept s) (commit_content s)
  unfolding commit_content
  commit_content-Kept s =
      if-Ends (Kept s) s.ins.content_open _ _
        (λ _.
          when-Ends (Kept s) (B.content_commit s.user).0 _ _ backend_error (λ e. cc) (λ e. cc)
            (record {
              stage = refl;
              entries = refl;
              cursor = refl;
              header = refl;
              position = refl;
              tik = refl;
              cert = refl;
            }))
        λ _. Kept-refl s
