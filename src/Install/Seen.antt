-- ===== src/Install/Seen.antt =====
-- Attempts by what can be seen of them: a failed session is seen through the backend and the decoder
-- only. Routing two pieces one after the other is routing them joined.
use nx_nexus.Base.{
  ℕ, ◌+◌, ◌%◌, ◌^◌, ◌≡◌, refl, sym, ap, ◌∙◌, Bool, true, false, ◌++◌, arith, length, length-append,
  append_assoc, Bytes, ltb, if◌then◌else◌,
}
use nx_nexus.Install.{
  EntryKind, ignore, nca, meta_nca, ticket, cert, ncz, meta_ncz, is_compressed, buffer_too_small,
  backend_error, Backend, Decoder, Session, begin_install,
}
use nx_nexus.Install.Feed.{
  Attempt, went, failed_with, and_then, with_ins, fail, fail_session, sink_write, write_content,
  route_bytes, advance,
}

-- A backend for which a write of joined pieces is the writes of the pieces.
abbrev pub Appends : Backend → Type 0
Appends B =
    (a b : Bytes) (u : B.State)
    → B.content_write (a ++ b) u ≡ (
        if (B.content_write a u).0
        then B.content_write b (B.content_write a u).1
        else B.content_write a u)

module _ {B : Backend} {N : Decoder} where
  -- A session without its installer.
  abbrev pub blank : Session B N → Session B N
  blank s = record s { ins = begin_install 0 }

  abbrev pub seen : Attempt B N → Attempt B N
  seen (went s) = went s
  seen (failed_with r s) = failed_with r (blank s)

  pub and_then-seen :
      (x y : Attempt B N) (f : Session B N → Attempt B N)
      → seen x ≡ seen y
      → seen (and_then x f) ≡ seen (and_then y f)
  and_then-seen (went s) (went t) f h = ap (λ q. seen (and_then q f)) h
  and_then-seen (went s) (failed_with r t) f h = absurd (cc)
  and_then-seen (failed_with r s) (went t) f h = absurd (cc)
  and_then-seen (failed_with r s) (failed_with q t) f h = h

  pub seen-and_then :
      (x : Attempt B N) (f g : Session B N → Attempt B N)
      → ((s : Session B N) → seen (f s) ≡ seen (g s))
      → seen (and_then x f) ≡ seen (and_then x g)
  seen-and_then (went s) f g h = h s
  seen-and_then (failed_with r s) f g h = refl

  pub and_then_assoc :
      (x : Attempt B N) (f g : Session B N → Attempt B N)
      → and_then (and_then x f) g ≡ and_then x (λ s. and_then (f s) g)
  and_then_assoc (went s) f g = refl
  and_then_assoc (failed_with r s) f g = refl

  pub advance-advance : (s : Session B N) (m n : ℕ) → advance (advance s m) n ≡ advance s (m + n)
  advance-advance s m n = ap (λ q. with_ins s (record (s.ins) { stream_pos = q })) (omega arith)

  -- What the answer of `content_write` comes to.
  abbrev stored : Session B N → ℕ → Bool × B.State → Attempt B N
  stored s n (true, user) = went (record s {
    ins = record (s.ins) { bytes_written = (s.ins.bytes_written + n) % 2 ^ 64 };
    user = user;
  })
  stored s n (false, user) = fail (record s { user = user }) backend_error

  write_content-stored :
      (s : Session B N) (a : Bytes) (r : Bool × B.State)
      → B.content_write a s.user ≡ r
      → write_content s a ≡ stored s (length a) r
  unfolding write_content sink_write
  write_content-stored s a (true, user) e = rw e refl
  write_content-stored s a (false, user) e = rw e refl

  stored-stored :
      (s : Session B N) (user : B.State) (m n : ℕ) (r : Bool × B.State)
      → seen (stored s (m + n) r)
        ≡ seen (
            stored
              (record s {
                ins = record (s.ins) { bytes_written = (s.ins.bytes_written + m) % 2 ^ 64 };
                user = user;
              })
              n
              r)
  unfolding fail_session
  stored-stored s user m n (true, u) =
      ap (λ w. went (record s { ins = record (s.ins) { bytes_written = w }; user = u }))
        (omega arith)
  stored-stored s user m n (false, u) = refl

  write_content-append :
      Appends B
      → (s : Session B N) (a b : Bytes) (r : Bool × B.State) → B.content_write a s.user ≡ r
      → seen (write_content s (a ++ b))
        ≡ seen (and_then (write_content s a) (λ t. write_content t b))
  write_content-append law s a b (true, u) e =
      let s1 : Session B N = record s {
        ins = record (s.ins) { bytes_written = (s.ins.bytes_written + length a) % 2 ^ 64 };
        user = u;
      } in
      let r = B.content_write b u in
      ap seen (write_content-stored s (a ++ b) r (law a b s.user ∙ rw e refl))
      ∙ ap (λ n. seen (stored s n r)) (length-append a b)
      ∙ stored-stored s u (length a) (length b) r
      ∙ sym (ap seen (write_content-stored s1 b r refl))
      ∙ sym (
          ap (λ x. seen (and_then x (λ t. write_content t b)))
            (write_content-stored s a (true, u) e))
  write_content-append law s a b (false, u) e =
      ap seen (write_content-stored s (a ++ b) (false, u) (law a b s.user ∙ rw e refl ∙ e))
      ∙ sym (
          ap (λ x. seen (and_then x (λ t. write_content t b)))
            (write_content-stored s a (false, u) e))

  -- A small file in two pieces: the cap is passed by the first, by both, or not.
  capped-append :
      (first second both : Bool) (s t u v : Session B N) (g : Session B N → Attempt B N)
      → (first ≡ true → both ≡ true)
      → (first ≡ false → both ≡ second)
      → blank (fail_session s) ≡ blank (fail_session t)
      → u ≡ v
      → g t ≡ (if second then fail t buffer_too_small else went v)
      → seen (if both then fail s buffer_too_small else went u)
        ≡ seen (and_then (if first then fail s buffer_too_small else went t) g)
  capped-append true second true s t u v g up on f w e = refl
  capped-append true second false s t u v g up on f w e = absurd (cc (up refl))
  capped-append false true true s t u v g up on f w e =
      ap (failed_with buffer_too_small) f ∙ sym (ap seen e)
  capped-append false false false s t u v g up on f w e = ap went w ∙ sym (ap seen e)
  capped-append false true false s t u v g up on f w e = absurd (cc (on refl))
  capped-append false false true s t u v g up on f w e = absurd (cc (on refl))

  capped-advance :
      (capped : Bool) (s t : Session B N) (m n : ℕ)
      → seen (
          and_then
            (if capped then fail (advance s m) buffer_too_small else went (advance t m))
            (λ x. went (advance x n)))
        ≡ seen (
            and_then
              (if capped then fail s buffer_too_small else went t)
              (λ x. went (advance x (m + n))))
  unfolding fail_session
  capped-advance true s t m n = refl
  capped-advance false s t m n = ap went (advance-advance t m n)

  stored-advance :
      (s : Session B N) (size m n : ℕ) (r : Bool × B.State)
      → seen (and_then (stored (advance s m) size r) (λ x. went (advance x n)))
        ≡ seen (and_then (stored s size r) (λ x. went (advance x (m + n))))
  unfolding fail_session
  stored-advance s size m n (true, u) = ap went (
      advance-advance
        (record s {
          ins = record (s.ins) { bytes_written = (s.ins.bytes_written + size) % 2 ^ 64 };
          user = u;
        })
        m n)
  stored-advance s size m n (false, u) = refl

  write_content-advance :
      (s : Session B N) (a : Bytes) (m n : ℕ)
      → seen (and_then (write_content (advance s m) a) (λ x. went (advance x n)))
        ≡ seen (and_then (write_content s a) (λ x. went (advance x (m + n))))
  write_content-advance s a m n =
      let r = B.content_write a s.user in
      ap (λ x. seen (and_then x (λ y. went (advance y n))))
        (write_content-stored (advance s m) a r refl)
      ∙ stored-advance s (length a) m n r
      ∙ sym (
          ap (λ x. seen (and_then x (λ y. went (advance y (m + n)))))
            (write_content-stored s a r refl))

  -- Routing joined pieces is routing the one and then the other.
  pub route_bytes-append :
      Appends B
      → (s : Session B N) (k : EntryKind) (a b : Bytes) → is_compressed k ≡ false
      → seen (route_bytes s k (a ++ b))
        ≡ seen (and_then (route_bytes s k a) (λ t. route_bytes t k b))
  unfolding route_bytes fail_session
  route_bytes-append law s nca a b h =
      write_content-append law s a b (B.content_write a s.user) refl
  route_bytes-append law s meta_nca a b h =
      write_content-append law s a b (B.content_write a s.user) refl
  route_bytes-append law s ignore a b h = refl
  route_bytes-append law s ncz a b h = absurd (cc)
  route_bytes-append law s meta_ncz a b h = absurd (cc)
  route_bytes-append law s ticket a b h =
      capped-append (ltb 0x1000 (length s.ins.tik + length a))
        (ltb 0x1000 (length (s.ins.tik ++ a) + length b))
        (ltb 0x1000 (length s.ins.tik + length (a ++ b))) s
        (with_ins s (record (s.ins) { tik = s.ins.tik ++ a }))
        (with_ins s (record (s.ins) { tik = s.ins.tik ++ (a ++ b) }))
        (with_ins s (record (s.ins) { tik = (s.ins.tik ++ a) ++ b })) (λ t. route_bytes t ticket b)
        (λ over. ground (arith, over, length-append a b))
        (λ _. ap (ltb 0x1000) (omega (arith, length-append a b, length-append s.ins.tik a))) refl
        (ap (λ q. with_ins s (record (s.ins) { tik = q })) (sym (append_assoc s.ins.tik a b))) refl
  route_bytes-append law s cert a b h =
      capped-append (ltb 0x2000 (length s.ins.cert + length a))
        (ltb 0x2000 (length (s.ins.cert ++ a) + length b))
        (ltb 0x2000 (length s.ins.cert + length (a ++ b))) s
        (with_ins s (record (s.ins) { cert = s.ins.cert ++ a }))
        (with_ins s (record (s.ins) { cert = s.ins.cert ++ (a ++ b) }))
        (with_ins s (record (s.ins) { cert = (s.ins.cert ++ a) ++ b })) (λ t. route_bytes t cert b)
        (λ over. ground (arith, over, length-append a b))
        (λ _. ap (ltb 0x2000) (omega (arith, length-append a b, length-append s.ins.cert a))) refl
        (ap (λ q. with_ins s (record (s.ins) { cert = q })) (sym (append_assoc s.ins.cert a b)))
        refl

  -- Routing commutes with the place in the stream.
  pub route_bytes-advance :
      (s : Session B N) (k : EntryKind) (a : Bytes) (m n : ℕ)
      → is_compressed k ≡ false
      → seen (and_then (route_bytes (advance s m) k a) (λ t. went (advance t n)))
        ≡ seen (and_then (route_bytes s k a) (λ t. went (advance t (m + n))))
  unfolding route_bytes fail_session
  route_bytes-advance s nca a m n h = write_content-advance s a m n
  route_bytes-advance s meta_nca a m n h = write_content-advance s a m n
  route_bytes-advance s ignore a m n h = ap went (advance-advance s m n)
  route_bytes-advance s ncz a m n h = absurd (cc)
  route_bytes-advance s meta_ncz a m n h = absurd (cc)
  route_bytes-advance s ticket a m n h =
      capped-advance (ltb 0x1000 (length s.ins.tik + length a)) s
        (with_ins s (record (s.ins) { tik = s.ins.tik ++ a })) m n
  route_bytes-advance s cert a m n h =
      capped-advance (ltb 0x2000 (length s.ins.cert + length a)) s
        (with_ins s (record (s.ins) { cert = s.ins.cert ++ a })) m n
