-- ===== src/Install/Opened.antt =====
-- What is open while bytes go to an entry that is not compressed.
use nx_nexus.Base.{
  ◌+◌, ◌≡◌, ◌⊎◌, inl, inr, refl, sym, ap, ◌∙◌, true, false, not, ◌&&◌, arith, length, Bytes,
  Bool-cases, ltb,
}
use nx_nexus.Install.{
  EntryKind, ignore, nca, meta_nca, ticket, cert, ncz, meta_ncz, is_compressed, is_content,
  buffer_too_small, backend_error, InstallEntry, Backend, Decoder, Session,
}
use nx_nexus.Install.Feed.{went, sink_write, write_content, route_bytes, open_entry}
use nx_nexus.Install.Run.{Ends, if-Ends, when-Ends, unless-Ends}

module _ {B : Backend} {N : Decoder} where
  -- Nothing is left to open before bytes go to entry `e`.
  abbrev pub IsOpen : InstallEntry → Session B N → Type 0
  IsOpen e s = (s.ins.content_open ≡ true) ⊎ (is_content e.kind ≡ false)

  pub open_entry_again :
      (s : Session B N) (e : InstallEntry)
      → is_compressed e.kind ≡ false
      → IsOpen e s
      → open_entry s e ≡ went s
  unfolding open_entry
  open_entry_again s e c (inl o) = rw (c, o) refl
  open_entry_again s e c (inr o) = elim (Bool-cases s.ins.content_open) [
    | inl y ↦ rw (c, y) refl
    | inr n ↦ rw (c, n, o) refl
  ]

  pub open_entry-IsOpen :
      (s : Session B N) (e : InstallEntry)
      → is_compressed e.kind ≡ false
      → Ends (IsOpen e) (open_entry s e)
  unfolding open_entry
  open_entry-IsOpen s e c =
      if-Ends (IsOpen e) (is_compressed e.kind) _ _ (λ y. absurd (cc))
        λ _.
          if-Ends (IsOpen e) (not s.ins.content_open && is_content e.kind) _ _
            (λ _.
              when-Ends (IsOpen e) (B.content_begin e.content_id e.size s.user).0 _ _ backend_error
                (λ e. cc) (λ e. cc) (inl refl))
            λ n. elim (Bool-cases s.ins.content_open) [
              | inl y ↦ inl y
              | inr closed ↦ inr (ap (λ b. not b && is_content e.kind) (sym closed) ∙ n)
            ]

  -- What routing leaves open.
  abbrev pub SameOpen : Session B N → Session B N → Type 0
  SameOpen s t = t.ins.content_open ≡ s.ins.content_open

  sink_write-SameOpen : (s : Session B N) (a : Bytes) → SameOpen s (sink_write s a).1
  unfolding sink_write
  sink_write-SameOpen s a = ground arith

  write_content-SameOpen : (s : Session B N) (a : Bytes) → Ends (SameOpen s) (write_content s a)
  unfolding write_content
  write_content-SameOpen s a =
      when-Ends (SameOpen s) (sink_write s a).0 (sink_write s a).1 (sink_write s a).1 backend_error
        (λ e. cc) (λ e. cc) (sink_write-SameOpen s a)

  pub route_bytes-SameOpen :
      (s : Session B N) (k : EntryKind) (a : Bytes)
      → is_compressed k ≡ false
      → Ends (SameOpen s) (route_bytes s k a)
  unfolding route_bytes
  route_bytes-SameOpen s nca a c = write_content-SameOpen s a
  route_bytes-SameOpen s meta_nca a c = write_content-SameOpen s a
  route_bytes-SameOpen s ncz a c = absurd (cc)
  route_bytes-SameOpen s meta_ncz a c = absurd (cc)
  route_bytes-SameOpen s ignore a c = refl
  route_bytes-SameOpen s ticket a c =
      unless-Ends (SameOpen s) (ltb 0x1000 (length s.ins.tik + length a)) _ s buffer_too_small
        (λ e. cc) (λ e. cc) (λ _. refl)
  route_bytes-SameOpen s cert a c =
      unless-Ends (SameOpen s) (ltb 0x2000 (length s.ins.cert + length a)) _ s buffer_too_small
        (λ e. cc) (λ e. cc) (λ _. refl)
