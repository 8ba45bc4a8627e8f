-- ===== src/Install/Tracked.antt =====
-- The content that the backend has open, under `fail`, `ncz_sink` and `route_bytes` of
-- src/installer/installer.c.
use nx_nexus.Base.{
  ℕ, ◌≡◌, refl, Bool, true, false, Option, none, some, ◌==◌, ◌+◌, ltb, if◌then◌else◌, get_elem?,
  length, Bytes,
}
use nx_nexus.Install.{
  EntryKind, ignore, nca, meta_nca, ticket, cert, ncz, meta_ncz, max_ticket, max_cert, InstallEntry,
  InstallMeta, Backend, Decoder, Emission, returns, emits, Session,
}
use nx_nexus.Install.Feed.{
  Attempt, went, failed_with, and_then, with_ins, fail_session, sink_write, ncz_sink, run_emission,
  write_content, feed_decoder, route_bytes,
}

-- Whether a backend has a content open: a `content_begin` that fails opens none, a `content_write` and a
-- `rollback` open none, a `content_commit` that succeeds and a `content_discard` close it.
pub record Placeholder (B : Backend) : Type 0 where
  pub is_open : B.State → Bool
  pub begins :
      (u : B.State) (id : Bytes) (size : ℕ)
      → is_open u ≡ false
      → (B.content_begin id size u).0 ≡ false
      → is_open (B.content_begin id size u).1 ≡ false
  pub writes :
      (u : B.State) (bytes : Bytes)
      → is_open u ≡ false
      → is_open (B.content_write bytes u).1 ≡ false
  pub commits :
      (u : B.State) → (B.content_commit u).0 ≡ true → is_open (B.content_commit u).1 ≡ false
  pub discards : (u : B.State) → is_open (B.content_discard u) ≡ false
  pub rolls : (u : B.State) (m : InstallMeta) → is_open u ≡ false → is_open (B.rollback m u) ≡ false

pub if-lem :
    {A : Type 0} (P : A → Type 0) (c : Bool) (x y : A)
    → (c ≡ true → P x)
    → (c ≡ false → P y)
    → P (if c then x else y)
if-lem P true x y h k = h refl
if-lem P false x y h k = k refl

module _ {B : Backend} (law : Placeholder B) where
  -- A content is open in the backend only while the session notes it.
  abbrev pub IsTracked : {N : Decoder} → Session B N → Type 0
  IsTracked s = s.ins.content_open ≡ false → law.is_open s.user ≡ false

  abbrev pub Tracks : {N : Decoder} → Attempt B N → Type 0
  Tracks (went s) = IsTracked s
  Tracks (failed_with r s) = IsTracked s

module _ {B : Backend} {N : Decoder} (law : Placeholder B) where
  pub and_then-Tracks :
      (a : Attempt B N) (f : Session B N → Attempt B N)
      → Tracks law a
      → ((s : Session B N) → IsTracked law s → Tracks law (f s))
      → Tracks law (and_then a f)
  and_then-Tracks (went s) f h k = k s h
  and_then-Tracks (failed_with r s) f h k = h

  -- A failure discards the content that the session has open.
  pub fail-IsTracked : (s : Session B N) → IsTracked law s → IsTracked law (fail_session s)
  unfolding fail_session
  fail-IsTracked s h _ = law.rolls _ s.ins.meta (
      if-lem (λ u. law.is_open u ≡ false) s.ins.content_open (B.content_discard s.user) s.user
        (λ _. law.discards s.user) h)

  sink_write-IsTracked :
      (s : Session B N) (bytes : Bytes) → IsTracked law s → IsTracked law (sink_write s bytes).1
  unfolding sink_write
  sink_write-IsTracked s bytes h =
      if-lem (λ (r : Bool × Session B N). IsTracked law r.1) (B.content_write bytes s.user).0 _ _
        (λ _ c. law.writes s.user bytes (h c)) (λ _ c. law.writes s.user bytes (h c))

  ncz_begin-IsTracked :
      (s : Session B N) (size : ℕ) (bytes : Bytes) (found : Option InstallEntry)
      → law.is_open s.user ≡ false
      → IsTracked law
          (elim found as (λ _. Bool × Session B N) [
            | none ↦ (false, s)
            | some e ↦
                let b = B.content_begin e.content_id size s.user in
                let s' : Session B N = record s { user = b.1 } in
                if b.0
                then sink_write (with_ins s' (record (s.ins) { content_open = true })) bytes
                else (false, s')
          ]).1
  ncz_begin-IsTracked s size bytes none c = λ _. c
  ncz_begin-IsTracked s size bytes (some e) c =
      if-lem (λ (r : Bool × Session B N). IsTracked law r.1)
        (B.content_begin e.content_id size s.user).0 _ _
        (λ _. sink_write-IsTracked _ bytes (λ q. cc))
        (λ n _. law.begins s.user e.content_id size c n)

  ncz_sink-IsTracked :
      (s : Session B N) (size : ℕ) (bytes : Bytes)
      → IsTracked law s
      → IsTracked law (ncz_sink s size bytes).1
  unfolding ncz_sink
  ncz_sink-IsTracked s size bytes h =
      if-lem (λ (r : Bool × Session B N). IsTracked law r.1) s.ins.content_open _ _
        (λ _. sink_write-IsTracked s bytes h)
        (λ c.
          if-lem (λ (r : Bool × Session B N). IsTracked law r.1) (size == 0) _ _ (λ _. h)
            (λ _.
              ncz_begin-IsTracked s size bytes (get_elem? s.ins.entries s.ins.entry_cursor) (h c)))

  run_emission-IsTracked :
      (s : Session B N) (e : Emission (N.State))
      → IsTracked law s
      → IsTracked law (run_emission s e).1
  unfolding run_emission
  run_emission-IsTracked s (returns b n) h = h
  run_emission-IsTracked s (emits size bytes go) h =
      run_emission-IsTracked (ncz_sink s size bytes).1 (go (ncz_sink s size bytes).0)
        (ncz_sink-IsTracked s size bytes h)

  write_content-Tracks :
      (s : Session B N) (bytes : Bytes) → IsTracked law s → Tracks law (write_content s bytes)
  unfolding write_content
  write_content-Tracks s bytes h =
      let k = sink_write-IsTracked s bytes h in
      if-lem (Tracks law) (sink_write s bytes).0 _ _ (λ _. k) (λ _. fail-IsTracked _ k)

  feed_decoder-Tracks :
      (s : Session B N) (bytes : Bytes) → IsTracked law s → Tracks law (feed_decoder s bytes)
  unfolding feed_decoder
  feed_decoder-Tracks s bytes h =
      let k = run_emission-IsTracked s (N.feed bytes s.ncz_user) h in
      if-lem (Tracks law) (run_emission s (N.feed bytes s.ncz_user)).0 _ _ (λ _. k)
        (λ _. fail-IsTracked _ k)

  pub route_bytes-Tracks :
      (s : Session B N) (kind : EntryKind) (bytes : Bytes)
      → IsTracked law s
      → Tracks law (route_bytes s kind bytes)
  unfolding route_bytes
  route_bytes-Tracks s nca bytes h = write_content-Tracks s bytes h
  route_bytes-Tracks s meta_nca bytes h = write_content-Tracks s bytes h
  route_bytes-Tracks s ncz bytes h = feed_decoder-Tracks s bytes h
  route_bytes-Tracks s meta_ncz bytes h = feed_decoder-Tracks s bytes h
  route_bytes-Tracks s ticket bytes h =
      if-lem (Tracks law) (ltb max_ticket (length s.ins.tik + length bytes)) _ _
        (λ _. fail-IsTracked s h) (λ _. h)
  route_bytes-Tracks s cert bytes h =
      if-lem (Tracks law) (ltb max_cert (length s.ins.cert + length bytes)) _ _
        (λ _. fail-IsTracked s h) (λ _. h)
  route_bytes-Tracks s ignore bytes h = h
