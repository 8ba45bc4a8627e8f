-- ===== src/Install/Joined.antt =====
-- A round on an entry that is given joined pieces: it does what it does on the first piece, or what
-- the next round goes on to do on the second.
use mathlib.Core.Path.{subst}
use nx_nexus.Base.{
  ℕ, ◌+◌, ◌-◌, ◌^◌, ◌≤◌, ◌<◌, ◌≡◌, ◌⊎◌, inl, refl, sym, ap, ◌∙◌, false, [], ◌++◌, arith, length,
  take, drop, take-append_le, drop-append_le, min, length-append, Bytes, ltb, ◌==◌,
}
use nx_nexus.Install.{is_compressed, InstallEntry, Backend, Decoder, Session}
use nx_nexus.Install.Feed.{
  Attempt, went, failed_with, Turn, next, stop, subtract, entry_end, and_then, to_turn, route_bytes,
  advance, route_some, entry_attempt, entry_turn, turn,
}
use nx_nexus.Install.Seen.{blank, seen}

module _ {B : Backend} {N : Decoder} where
  -- A session that stopped is seen without its installer.
  abbrev pub seen_turn : Turn B N → Turn B N
  seen_turn (next s rest) = next s rest
  seen_turn (stop r s) = stop r (blank s)

  -- What a round on joined pieces comes to, given what it comes to on the first: the same with the
  -- second piece left too; or, if the first is used up, what the next round comes to; or the same
  -- failure.
  abbrev pub Joins : Bytes → Turn B N → Turn B N → Type 0
  Joins q (next s rest) joined =
      (joined ≡ next s (rest ++ q)) ⊎ ((rest ≡ []) × (seen_turn joined ≡ seen_turn (turn s q)))
  Joins q (stop r s) joined = seen_turn joined ≡ stop r (blank s)

  pub to_turn-seen :
      (x y : Attempt B N) (rest : Bytes)
      → seen x ≡ seen y
      → seen_turn (to_turn x rest) ≡ seen_turn (to_turn y rest)
  to_turn-seen (went s) (went t) rest h = ap (λ q. seen_turn (to_turn q rest)) h
  to_turn-seen (went s) (failed_with r t) rest h = absurd (cc)
  to_turn-seen (failed_with r s) (went t) rest h = absurd (cc)
  to_turn-seen (failed_with r s) (failed_with q t) rest h = ap (λ a. to_turn a rest) h

  to_turn-Joins :
      (a : Attempt B N) (rest q : Bytes) → Joins q (to_turn a rest) (to_turn a (rest ++ q))
  to_turn-Joins (went s) rest q = inl refl
  to_turn-Joins (failed_with r s) rest q = refl

  pub route_some_at :
      (s : Session B N) (e : InstallEntry) (n : ℕ) (p bytes : Bytes)
      → 0 < n
      → take n p ≡ bytes
      → route_some s e n p ≡ and_then (route_bytes s e.kind bytes) (λ t. went (advance t n))
  unfolding route_some
  route_some_at s e n p bytes h b = let z : (n == 0) ≡ false = ground arith in rw (z, b) refl

  -- An attempt only looks at the bytes it takes.
  entry_attempt-take :
      (s : Session B N) (e : InstallEntry) (n : ℕ) (p p' : Bytes)
      → take n p ≡ take n p'
      → entry_attempt s e n p ≡ entry_attempt s e n p'
  unfolding entry_attempt route_some
  entry_attempt-take s e n p p' h = rw h refl

  pub entry_turn_at :
      (s : Session B N) (e : InstallEntry) (n : ℕ) (p : Bytes)
      → e.abs_offset ≤ s.ins.stream_pos
      → min (length p) (subtract (entry_end e) s.ins.stream_pos) ≡ n
      → entry_turn s e p ≡ to_turn (entry_attempt s e n p) (drop n p)
  unfolding entry_turn
  entry_turn_at s e n p h m =
      let past : ltb s.ins.stream_pos e.abs_offset ≡ false = ground arith in rw (past, m) refl

  -- The place of a session in its entry.
  pub record Inside (s : Session B N) (e : InstallEntry) : Type 0 where
    pub uncompressed : is_compressed e.kind ≡ false
    pub started : e.abs_offset ≤ s.ins.stream_pos
    pub before_end : s.ins.stream_pos ≤ e.abs_offset + e.size
    pub in_range : e.abs_offset + e.size < 2 ^ 64

  pub left_of :
      (s : Session B N) (e : InstallEntry)
      → Inside s e
      → subtract (entry_end e) s.ins.stream_pos ≡ e.abs_offset + e.size - s.ins.stream_pos
  unfolding subtract
  left_of s e i = omega (arith, i.before_end, i.in_range, i.started)

  -- When the first piece has the rest of the entry, the second is left alone.
  pub entry_turn-Joins_whole :
      (s : Session B N) (e : InstallEntry) (p q : Bytes)
      → Inside s e
      → e.abs_offset + e.size - s.ins.stream_pos ≤ length p
      → Joins q (entry_turn s e p) (entry_turn s e (p ++ q))
  entry_turn-Joins_whole s e p q i h =
      let n = e.abs_offset + e.size - s.ins.stream_pos in
      let left = left_of s e i in
      let one = entry_turn_at s e n p i.started (omega (arith, left)) in
      let two = entry_turn_at s e n (p ++ q) i.started (omega (arith, left, length-append p q)) in
      subst (λ t. Joins q t (entry_turn s e (p ++ q))) (sym one)
        (subst (Joins q (to_turn (entry_attempt s e n p) (drop n p)))
          (ap (λ a. to_turn a (drop n p ++ q))
              (entry_attempt-take s e n p (p ++ q) (sym (take-append_le n p q h)))
            ∙ ap (to_turn (entry_attempt s e n (p ++ q))) (sym (drop-append_le n p q h))
            ∙ sym two)
          (to_turn-Joins (entry_attempt s e n p) (drop n p) q))
