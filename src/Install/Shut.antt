-- ===== src/Install/Shut.antt =====
-- The content that the backend has open, under nexusInstallFeed and nexusInstallAbort of
-- src/installer/installer.c: the session does not lose track of it.
use mathlib.Core.Path.{subst}
use nx_nexus.Base.{
  ℕ, zero, suc, ◌≡◌, ◌∙◌, sym, not, ◌&&◌, [], ◌∷◌, Option, none, some, ◌==◌, ◌+◌, ◌%◌, ◌^◌, ltb,
  leb, get_elem?, length, Bytes,
}
use nx_nexus.Outcome.{Outcome, ok, err, fault}
use nx_nexus.PartitionFs.{PartitionFsType, PartitionFsContext, partition_fs_header_size}
use nx_nexus.Install.{
  is_content, is_compressed, InstallStage, idle, at_magic, at_header, streaming, complete, failed,
  InstallResult, max_header, InstallEntry, Backend, Decoder, Session,
}
use nx_nexus.Install.Entries.{is_ok, build_entries}
use nx_nexus.Install.Table.{build_entries-Filled}
use nx_nexus.Install.Feed.{
  Attempt, went, failed_with, with_ins, Turn, next, stop, to_turn, absorb_header, announced,
  magic_turn, opened, header_turn, open_entry, route_some, end_decoding, commit_content, next_entry,
  close_entry, after_route, entry_attempt, entry_turn, streaming_turn, turn_at, turn, feed_loop,
  feed_at, install_feed, entry_end,
}
use nx_nexus.Install.Finish.{abort_at, install_abort}
use nx_nexus.Install.Tracked.{
  Placeholder, if-lem, IsTracked, Tracks, and_then-Tracks, fail-IsTracked, route_bytes-Tracks,
}

module _ {B : Backend} (law : Placeholder B) where
  abbrev TurnTracks : {N : Decoder} → Turn B N → Type 0
  TurnTracks (next s rest) = IsTracked law s
  TurnTracks (stop r s) = IsTracked law s

  abbrev FeedTracks : {N : Decoder} → Option (InstallResult × Session B N) → Type 0
  FeedTracks none = Unit
  FeedTracks (some out) = IsTracked law out.1

module _ {B : Backend} {N : Decoder} (law : Placeholder B) where
  to_turn-Tracks : (a : Attempt B N) (rest : Bytes) → Tracks law a → TurnTracks law (to_turn a rest)
  to_turn-Tracks (went s) rest h = h
  to_turn-Tracks (failed_with r s) rest h = h

  open_entry-Tracks :
      (s : Session B N) (e : InstallEntry) → IsTracked law s → Tracks law (open_entry s e)
  unfolding open_entry
  open_entry-Tracks s e h =
      if-lem (Tracks law) (is_compressed e.kind) _ _
        (λ _.
          if-lem (Tracks law) s.ins.ncz_active _ _ (λ _. h)
            (λ _.
              if-lem (Tracks law) (not s.ins.has_decoder) _ _ (λ _. fail-IsTracked law s h)
                (λ _.
                  if-lem (Tracks law) (N.begin s.ncz_user).0 _ _ (λ _. h)
                    (λ _. fail-IsTracked law (record s { ncz_user = (N.begin s.ncz_user).1 }) h))))
        (λ _.
          if-lem (Tracks law) (not s.ins.content_open && is_content e.kind) _ _
            (λ c.
              if-lem (Tracks law) (B.content_begin e.content_id e.size s.user).0 _ _ (λ _ q. cc)
                (λ n.
                  fail-IsTracked law
                    (record s { user = (B.content_begin e.content_id e.size s.user).1 })
                    (λ shut. law.begins s.user e.content_id e.size (h shut) n)))
            (λ _. h))

  route_some-Tracks :
      (s : Session B N) (e : InstallEntry) (n : ℕ) (p : Bytes)
      → IsTracked law s
      → Tracks law (route_some s e n p)
  unfolding route_some
  route_some-Tracks s e n p h =
      if-lem (Tracks law) (n == 0) _ _ (λ _. h)
        (λ _. and_then-Tracks law _ _ (route_bytes-Tracks law s e.kind _ h) (λ t k. k))

  end_decoding-Tracks :
      (s : Session B N) (e : InstallEntry) → IsTracked law s → Tracks law (end_decoding s e)
  unfolding end_decoding
  end_decoding-Tracks s e h =
      if-lem (Tracks law) s.ins.ncz_active _ _
        (λ _.
          if-lem (Tracks law) (N.end s.ncz_user).0 _ _ (λ _. h)
            (λ _. fail-IsTracked law (record s { ncz_user = (N.end s.ncz_user).1 }) h))
        (λ _. h)

  commit_content-Tracks : (s : Session B N) → IsTracked law s → Tracks law (commit_content s)
  unfolding commit_content
  commit_content-Tracks s h =
      if-lem (Tracks law) s.ins.content_open _ _
        (λ c.
          if-lem (Tracks law) (B.content_commit s.user).0 _ _ (λ y _. law.commits s.user y)
            (λ _. fail-IsTracked law (record s { user = (B.content_commit s.user).1 }) (λ q. cc)))
        (λ _. h)

  close_entry-Tracks :
      (s : Session B N) (e : InstallEntry) → IsTracked law s → Tracks law (close_entry s e)
  unfolding close_entry next_entry
  close_entry-Tracks s e h =
      and_then-Tracks law _ _ (end_decoding-Tracks s e h)
        (λ t k. and_then-Tracks law _ _ (commit_content-Tracks t k) (λ u l. l))

  entry_attempt-Tracks :
      (s : Session B N) (e : InstallEntry) (n : ℕ) (p : Bytes)
      → IsTracked law s
      → Tracks law (entry_attempt s e n p)
  unfolding entry_attempt after_route
  entry_attempt-Tracks s e n p h = and_then-Tracks law _ _ (open_entry-Tracks s e h) (λ t k.
      and_then-Tracks law _ _ (route_some-Tracks t e n p k) (λ u l.
        if-lem (Tracks law) (leb (entry_end e) u.ins.stream_pos) _ _ (λ _. close_entry-Tracks u e l)
          (λ _. l)))

  streaming_case :
      (s : Session B N) (p : Bytes) (found : Option InstallEntry)
      → IsTracked law s
      → TurnTracks law (elim found as (λ _. Turn B N) [
        | some e ↦ entry_turn s e p
        | none ↦
            next
              (with_ins s (record (s.ins) {
                stream_pos = (s.ins.stream_pos + length p) % 2 ^ 64;
                stage = complete;
              }))
              []
      ])
  unfolding entry_turn
  streaming_case s p none h = h
  streaming_case s p (some e) h =
      if-lem (TurnTracks law) (ltb s.ins.stream_pos e.abs_offset) _ _ (λ _. h)
        (λ _. to_turn-Tracks _ _ (entry_attempt-Tracks s e _ p h))

  announced-Tracks :
      (s : Session B N) (rest : Bytes) (o : Outcome (PartitionFsType × ℕ))
      → IsTracked law s
      → TurnTracks law (announced s rest o)
  unfolding announced
  announced-Tracks s rest (ok a) h =
      if-lem (TurnTracks law) (ltb max_header a.1) _ _
        (λ _. fail-IsTracked law (with_ins s (record (s.ins) { header_size = a.1 })) h) (λ _. h)
  announced-Tracks s rest (err x) h = fail-IsTracked law s h
  announced-Tracks s rest fault h = fail-IsTracked law s h

  opened-Tracks :
      (s : Session B N) (rest : Bytes) (o : Outcome PartitionFsContext)
      → IsTracked law s
      → TurnTracks law (opened s rest o)
  unfolding opened
  opened-Tracks s rest (ok ctx) h =
      let same = (build_entries-Filled (record (s.ins) { pfs = ctx })).1.opened in
      if-lem (TurnTracks law) (is_ok (build_entries (record (s.ins) { pfs = ctx })).0) _ _
        (λ _ c. h (sym same ∙ c))
        (λ _.
          fail-IsTracked law (with_ins s (build_entries (record (s.ins) { pfs = ctx })).1)
            (λ c. h (sym same ∙ c)))
  opened-Tracks s rest (err x) h = fail-IsTracked law s h
  opened-Tracks s rest fault h = fail-IsTracked law s h

  turn_at-Tracks :
      (stage : InstallStage) (s : Session B N) (p : Bytes)
      → IsTracked law s
      → TurnTracks law (turn_at stage s p)
  unfolding turn_at magic_turn header_turn streaming_turn absorb_header
  turn_at-Tracks at_magic s p h =
      if-lem (TurnTracks law)
        (ltb (length (absorb_header s p partition_fs_header_size).ins.header)
          partition_fs_header_size)
        _ _ (λ _. h) (λ _. announced-Tracks _ _ _ h)
  turn_at-Tracks at_header s p h =
      if-lem (TurnTracks law)
        (ltb (length (absorb_header s p s.ins.header_size).ins.header) s.ins.header_size) _ _
        (λ _. h) (λ _. opened-Tracks _ _ _ h)
  turn_at-Tracks streaming s p h = streaming_case s p (get_elem? s.ins.entries s.ins.entry_cursor) h
  turn_at-Tracks complete s p h = h
  turn_at-Tracks idle s p h = h
  turn_at-Tracks failed s p h = h

  turned :
      (fuel : ℕ) (t : Turn B N)
      → TurnTracks law t
      → ((s : Session B N) (p : Bytes) → IsTracked law s → FeedTracks law (feed_loop fuel s p))
      → FeedTracks law (elim t [ next s' rest ↦ feed_loop fuel s' rest | stop r s' ↦ some (r, s') ])
  turned fuel (next s rest) h again = again s rest h
  turned fuel (stop r s) h again = h

  feed_loop-Tracks :
      (fuel : ℕ) (s : Session B N) (p : Bytes)
      → IsTracked law s
      → FeedTracks law (feed_loop fuel s p)
  unfolding feed_loop turn
  feed_loop-Tracks fuel s [] h = h
  feed_loop-Tracks zero s (b ∷ p) h = tt
  feed_loop-Tracks (suc fuel) s (b ∷ p) h =
      turned fuel (turn_at s.ins.stage s (b ∷ p)) (turn_at-Tracks s.ins.stage s (b ∷ p) h)
        (feed_loop-Tracks fuel)

  pub feed_at-Tracks :
      (stage : InstallStage) (s : Session B N) (p : Bytes)
      → IsTracked law s
      → FeedTracks law (feed_at stage s p)
  unfolding feed_at
  feed_at-Tracks failed s p h = h
  feed_at-Tracks idle s p h =
      if-lem (FeedTracks law) (length p == 0) _ _ (λ _. h) (λ _. feed_loop-Tracks _ s p h)
  feed_at-Tracks at_magic s p h =
      if-lem (FeedTracks law) (length p == 0) _ _ (λ _. h) (λ _. feed_loop-Tracks _ s p h)
  feed_at-Tracks at_header s p h =
      if-lem (FeedTracks law) (length p == 0) _ _ (λ _. h) (λ _. feed_loop-Tracks _ s p h)
  feed_at-Tracks streaming s p h =
      if-lem (FeedTracks law) (length p == 0) _ _ (λ _. h) (λ _. feed_loop-Tracks _ s p h)
  feed_at-Tracks complete s p h =
      if-lem (FeedTracks law) (length p == 0) _ _ (λ _. h) (λ _. feed_loop-Tracks _ s p h)

  pub install_feed-IsTracked :
      (s : Session B N) (p : Bytes) {r : InstallResult} {t : Session B N}
      → IsTracked law s
      → install_feed s p ≡ some (r, t)
      → IsTracked law t
  unfolding install_feed
  install_feed-IsTracked s p h e = subst (FeedTracks law) e (feed_at-Tracks s.ins.stage s p h)

  abort_at-IsTracked :
      (g : InstallStage) (s : Session B N) → IsTracked law s → IsTracked law (abort_at g s)
  unfolding abort_at
  abort_at-IsTracked failed s h = h
  abort_at-IsTracked idle s h = fail-IsTracked law s h
  abort_at-IsTracked at_magic s h = fail-IsTracked law s h
  abort_at-IsTracked at_header s h = fail-IsTracked law s h
  abort_at-IsTracked streaming s h = fail-IsTracked law s h
  abort_at-IsTracked complete s h = fail-IsTracked law s h

  pub install_abort-IsTracked :
      (s : Session B N) → IsTracked law s → IsTracked law (install_abort s)
  unfolding install_abort
  install_abort-IsTracked s h = abort_at-IsTracked s.ins.stage s h
