-- ===== src/Install/Chunks.antt =====
-- Chunk boundaries are arbitrary: feeding joined pieces is feeding them one after the other.
use mathlib.Core.Path.{subst}
use nx_nexus.Base.{
  ℕ, zero, suc, ◌+◌, ◌≤◌, ◌<◌, ◌≡◌, inl, inr, refl, sym, ap, ◌∙◌, false, [], ◌∷◌, ◌++◌, Option,
  none, some, arith, length, length-append, Bytes, ◌==◌,
}
use nx_nexus.Install.{InstallStage, failed, InstallResult, Backend, Decoder, Session}
use nx_nexus.Install.Feed.{
  Turn, next, stop, turn, answer, feed_loop, feed_fuel, feed_at, install_feed,
}
use nx_nexus.Install.Round.{IsRunning, rank, TurnEnds}
use nx_nexus.Install.Turns.{turn-Ends}
use nx_nexus.Install.Total.{rank_of-le}
use nx_nexus.Install.Seen.{Appends, blank}
use nx_nexus.Install.Joined.{Joins, seen_turn}
use nx_nexus.Install.Laid.{IsLaid, TurnLaid, turn-Laid}
use nx_nexus.Install.Pieces.{turn-Joins}

module _ {B : Backend} {N : Decoder} where
  -- A failed session is seen without its installer.
  abbrev pub seen_at : InstallStage → Session B N → Session B N
  seen_at failed s = blank s
  seen_at _ s = s

  abbrev pub seen_out : Option (InstallResult × Session B N) → Option (InstallResult × Session B N)
  seen_out none = none
  seen_out (some (r, s)) = some (r, seen_at s.ins.stage s)

  -- What a caller does that feeds `q` after a feed, unless that failed.
  abbrev feed_on :
      InstallStage → InstallResult → Session B N → Bytes → Option (InstallResult × Session B N)
  feed_on failed r s q = some (r, s)
  feed_on _ r s q = install_feed s q

  abbrev pub then_feed :
      Option (InstallResult × Session B N) → Bytes → Option (InstallResult × Session B N)
  then_feed none q = none
  then_feed (some (r, s)) q = feed_on s.ins.stage r s q

  -- What is left of the loop after a round.
  abbrev after : ℕ → Turn B N → Option (InstallResult × Session B N)
  after fuel (next s rest) = feed_loop fuel s rest
  after fuel (stop r s) = some (r, s)

  feed_loop-after :
      (fuel : ℕ) (s : Session B N) (p : Bytes)
      → 0 < length p
      → feed_loop (suc fuel) s p ≡ after fuel (turn s p)
  unfolding feed_loop
  feed_loop-after fuel s [] h = absurd (omega arith)
  feed_loop-after fuel s (b ∷ p) h =
      elim (turn s (b ∷ p))
        as (λ t.
          elim t [ next s' rest ↦ feed_loop fuel s' rest | stop r s' ↦ some (r, s') ]
          ≡ after fuel t) [ next s' rest ↦ refl | stop r s' ↦ refl ]

  after-same :
      (f g : ℕ) (s : Session B N) (p : Bytes) (t : Turn B N)
      → ((s' : Session B N) (rest : Bytes)
          → IsRunning s'
          → length rest + rank s' ≤ f
          → length rest + rank s' ≤ g
          → feed_loop f s' rest ≡ feed_loop g s' rest)
      → length p + rank s ≤ suc f
      → length p + rank s ≤ suc g
      → TurnEnds s p t
      → after f t ≡ after g t
  after-same f g s p (next s' rest) same h k e =
      same s' rest e.0 (omega (arith, e.1)) (omega (arith, e.1))
  after-same f g s p (stop r s') same h k e = refl

  feed_loop_empty :
      (fuel : ℕ) (s : Session B N) → feed_loop fuel s [] ≡ some (answer s.ins.stage, s)
  unfolding feed_loop
  feed_loop_empty fuel s = refl

  -- Any fuel that is enough gives the same.
  feed_loop-same :
      (f g : ℕ) (s : Session B N) (p : Bytes)
      → IsRunning s
      → length p + rank s ≤ f
      → length p + rank s ≤ g
      → feed_loop f s p ≡ feed_loop g s p
  feed_loop-same f g s [] v h k = feed_loop_empty f s ∙ sym (feed_loop_empty g s)
  feed_loop-same zero g s (b ∷ p) v h k = absurd (omega arith)
  feed_loop-same (suc f) zero s (b ∷ p) v h k = absurd (omega arith)
  feed_loop-same (suc f) (suc g) s (b ∷ p) v h k =
      feed_loop-after f s (b ∷ p) (omega arith)
      ∙ after-same f g s (b ∷ p) (turn s (b ∷ p)) (feed_loop-same f g) h k
          (turn-Ends s (b ∷ p) v (omega arith))
      ∙ sym (feed_loop-after g s (b ∷ p) (omega arith))

  -- Fuel that is enough after a round.
  abbrev Enough : ℕ → Turn B N → Type 0
  Enough f (next s rest) = IsRunning s × (length rest + rank s ≤ f)
  Enough f (stop r s) = Unit

  TurnEnds-Enough :
      (f : ℕ) (s : Session B N) (p : Bytes) (t : Turn B N)
      → length p + rank s ≤ suc f
      → TurnEnds s p t
      → Enough f t
  TurnEnds-Enough f s p (next s' rest) h e = (e.0, omega (arith, e.1))
  TurnEnds-Enough f s p (stop r s') h e = tt

  abbrev out_of : Turn B N → Option (InstallResult × Session B N)
  out_of (next s rest) = none
  out_of (stop r s) = some (r, s)

  stopped :
      (r : InstallResult) (s : Session B N)
      → s.ins.stage ≡ failed
      → seen_out (some (r, s)) ≡ some (r, blank s)
  stopped r s st = ap (λ g. some (r, seen_at g s)) st

  -- Rounds that look the same go on the same.
  agree :
      (f g : ℕ) (t u : Turn B N)
      → seen_turn t ≡ seen_turn u
      → TurnLaid t
      → TurnLaid u
      → Enough f t
      → Enough g u
      → seen_out (after f t) ≡ seen_out (after g u)
  agree f g (next s rest) (next s' rest') h l k e e' =
      ap seen_out
        (feed_loop-same f g s rest e.0 e.1 (subst (Enough g) (sym h) e').1 ∙ ap (after g) h)
  agree f g (next s rest) (stop r s') h l k e e' = absurd (cc)
  agree f g (stop r s) (next s' rest') h l k e e' = absurd (cc)
  agree f g (stop r s) (stop r' s') h l k e e' = stopped r s l ∙ ap out_of h ∙ sym (stopped r' s' k)

  install_feed_laid :
      (s : Session B N) (q : Bytes)
      → IsLaid s
      → 0 < length q
      → install_feed s q ≡ feed_loop (feed_fuel q) s q
  unfolding install_feed feed_at
  install_feed_laid s q l h =
      let some_bytes : (length q == 0) ≡ false = ground arith in
      elim l [
        | inl st ↦ ap (λ g. feed_at g s q) st ∙ rw some_bytes refl
        | inr (st, _) ↦ ap (λ g. feed_at g s q) st ∙ rw some_bytes refl
      ]

  then_feed_laid :
      (r : InstallResult) (s : Session B N) (q : Bytes)
      → IsLaid s
      → 0 < length q
      → then_feed (some (r, s)) q ≡ feed_loop (feed_fuel q) s q
  then_feed_laid r s q (inl st) h = ap (λ g. feed_on g r s q) st ∙ install_feed_laid s q (inl st) h
  then_feed_laid r s q (inr w) h = ap (λ g. feed_on g r s q) w.0 ∙ install_feed_laid s q (inr w) h

  rank_le : (s : Session B N) → IsRunning s → rank s ≤ 67
  rank_le s v = rank_of-le s.ins.stage (length s.ins.entries) s.ins.entry_cursor v.few

  -- The second piece, after a first that was used up.
  used_up :
      (f : ℕ) (s : Session B N) (q : Bytes) (joined : Turn B N)
      → IsRunning s
      → IsLaid s
      → 0 < length q
      → seen_turn joined ≡ seen_turn (turn s q)
      → TurnLaid joined
      → Enough f joined
      → seen_out (after f joined) ≡ seen_out (then_feed (feed_loop f s []) q)
  used_up f s q joined v l h e k enough =
      agree f (length q + 67) joined (turn s q) e k (turn-Laid s q v.small l) enough (
        TurnEnds-Enough (length q + 67) s q (turn s q) (omega (arith, rank_le s v))
          (turn-Ends s q v h))
      ∙ ap seen_out (
          sym (feed_loop-after (length q + 67) s q h)
          ∙ ap (λ n. feed_loop n s q) (omega arith)
          ∙ sym (then_feed_laid (answer s.ins.stage) s q l h)
          ∙ ap (λ o. then_feed o q) (sym (feed_loop_empty f s)))

  -- The rest of the loop on joined pieces, by the round on the first.
  after_round :
      (f : ℕ) (s : Session B N) (p q : Bytes) (t joined : Turn B N)
      → ((s' : Session B N) (rest : Bytes)
          → IsRunning s'
          → IsLaid s'
          → length rest + length q + rank s' ≤ f
          → seen_out (feed_loop f s' (rest ++ q)) ≡ seen_out (then_feed (feed_loop f s' rest) q))
      → length p + length q + rank s ≤ suc f
      → 0 < length q
      → Joins q t joined
      → TurnEnds s p t
      → TurnLaid t
      → TurnLaid joined
      → Enough f joined
      → seen_out (after f joined) ≡ seen_out (then_feed (after f t) q)
  after_round f s p q (next s' rest) joined again h some_q (inl e) ends l k enough =
      ap (λ u. seen_out (after f u)) e ∙ again s' rest ends.0 l (omega (arith, ends.1))
  after_round f s p q (next s' rest) joined again h some_q (inr (z, e)) ends l k enough =
      used_up f s' q joined ends.0 l some_q e k enough
      ∙ ap (λ x. seen_out (then_feed (feed_loop f s' x) q)) (sym z)
  after_round f s p q (stop r s') joined again h some_q e ends l k enough =
      agree f f joined (stop r s') e k l enough tt
      ∙ ap seen_out (sym (ap (λ g. feed_on g r s' q) l))

  feed_loop-append :
      Appends B
      → (f : ℕ) (s : Session B N) (p q : Bytes) → IsRunning s
      → IsLaid s
      → length p + length q + rank s ≤ f
      → 0 < length q
      → seen_out (feed_loop f s (p ++ q)) ≡ seen_out (then_feed (feed_loop f s p) q)
  feed_loop-append law f s [] q v l h some_q = ap seen_out (
      feed_loop-same f (feed_fuel q) s q v (omega (arith, h)) (omega (arith, rank_le s v))
      ∙ sym (then_feed_laid (answer s.ins.stage) s q l some_q)
      ∙ ap (λ o. then_feed o q) (sym (feed_loop_empty f s)))
  feed_loop-append law zero s (b ∷ p) q v l h some_q = absurd (omega arith)
  feed_loop-append law (suc f) s (b ∷ p) q v l h some_q =
      let all = (b ∷ p) ++ q in
      let sized : length all ≡ length (b ∷ p) + length q = length-append (b ∷ p) q in
      let some_all : 0 < length all = omega (arith, sized) in
      ap seen_out (feed_loop-after f s all some_all)
      ∙ after_round f s (b ∷ p) q (turn s (b ∷ p)) (turn s all)
          (λ s' rest v' l' k. feed_loop-append law f s' rest q v' l' k some_q) h some_q
          (turn-Joins law s (b ∷ p) q v.small l (omega arith) some_q)
          (turn-Ends s (b ∷ p) v (omega arith)) (turn-Laid s (b ∷ p) v.small l)
          (turn-Laid s all v.small l)
          (TurnEnds-Enough f s all (turn s all) (omega (arith, sized, h))
            (turn-Ends s all v some_all))
      ∙ ap (λ o. seen_out (then_feed o q)) (sym (feed_loop-after f s (b ∷ p) (omega arith)))

  -- In a running session in the middle of an uncompressed package, each of whose files ends below
  -- 2 ^ 64 and not before the one it follows, with a backend for which a write of joined pieces is the
  -- writes of the pieces: feeding two pieces joined, neither of them empty, is feeding the first and
  -- then, unless that failed, the second. The result, the state of the backend and, unless the install
  -- failed, the whole installer are the same.
  pub install_feed-append :
      Appends B
      → (s : Session B N) (p q : Bytes) → IsRunning s
      → IsLaid s
      → 0 < length p
      → 0 < length q
      → seen_out (install_feed s (p ++ q)) ≡ seen_out (then_feed (install_feed s p) q)
  install_feed-append law s p q v l some_p some_q =
      let f = length p + length q + 68 in
      let bound = rank_le s v in
      let sized = length-append p q in
      ap seen_out (
        install_feed_laid s (p ++ q) l (omega (arith, sized))
        ∙ ap (λ n. feed_loop n s (p ++ q)) (omega (arith, sized)))
      ∙ feed_loop-append law f s p q v l (omega (arith, bound)) some_q
      ∙ ap (λ o. seen_out (then_feed o q))
          (feed_loop-same f (feed_fuel p) s p v (omega (arith, bound)) (omega (arith, bound))
            ∙ sym (install_feed_laid s p l some_p))
