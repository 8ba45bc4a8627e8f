-- ===== src/Install/Pieces.antt =====
-- Every round on joined pieces does what the rounds on the pieces do.
use mathlib.Core.Path.{subst}
use nx_nexus.Base.{
  ℕ, suc, ◌+◌, ◌-◌, ◌^◌, ◌≤◌, ◌<◌, ◌≡◌, inl, inr, refl, sym, ap, ◌∙◌, true, [], ◌∷◌, ◌++◌, some,
  arith, length, drop, drop-append_le, drop_all, min, length-append, drop-length_add-append, Bytes,
  Bool-cases, Option-cases, get_elem?, ltb, leb,
}
use nx_nexus.Install.{streaming, complete, InstallEntry, Backend, Decoder, Session}
use nx_nexus.Install.Feed.{next, with_ins, advance, entry_turn, streaming_turn, turn_at, turn}
use nx_nexus.Install.Run.{Small}
use nx_nexus.Install.Seen.{Appends, advance-advance}
use nx_nexus.Install.Joined.{Joins, seen_turn, Inside, entry_turn-Joins_whole}
use nx_nexus.Install.Halfway.{streaming_at, turn_streaming, entry_turn-Joins_part}
use nx_nexus.Install.Laid.{InOrder, IsLaid, drop-get_elem?, turn_complete}

module _ {B : Backend} {N : Decoder} where
  entry_turn_gap :
      (s : Session B N) (e : InstallEntry) (p : Bytes) (n : ℕ)
      → s.ins.stream_pos < e.abs_offset
      → min (length p) (e.abs_offset - s.ins.stream_pos) ≡ n
      → entry_turn s e p ≡ next (advance s n) (drop n p)
  unfolding entry_turn
  entry_turn_gap s e p n h m =
      let before : ltb s.ins.stream_pos e.abs_offset ≡ true = ground arith in rw (before, m) refl

  -- The padding before a file.
  gap-Joins :
      (s : Session B N) (e : InstallEntry) (p q : Bytes)
      → s.ins.stage ≡ streaming
      → get_elem? s.ins.entries s.ins.entry_cursor ≡ some e
      → e.abs_offset < 2 ^ 64
      → s.ins.stream_pos < e.abs_offset
      → Joins q (entry_turn s e p) (entry_turn s e (p ++ q))
  gap-Joins s e p q st g r h =
      let gap = e.abs_offset - s.ins.stream_pos in
      elim (Bool-cases (leb gap (length p))) [
        | inl whole ↦
            let le' : gap ≤ length p = ground (arith, whole) in
            subst (λ t. Joins q t (entry_turn s e (p ++ q)))
              (sym (entry_turn_gap s e p gap h (omega arith)))
              (inl (
                entry_turn_gap s e (p ++ q) gap h (omega (arith, length-append p q))
                ∙ ap (next (advance s gap)) (drop-append_le gap p q le')))
        | inr part ↦
            let lt' : length p < gap = ground (arith, part) in
            let n = min (length q) (gap - length p) in
            let t = advance s (length p) in
            let one = entry_turn_gap s e p (length p) h (omega arith) ∙ ap (next t) (drop_all p) in
            subst (λ u. Joins q u (entry_turn s e (p ++ q))) (sym one)
              (inr (
                refl,
                ap seen_turn (
                    entry_turn_gap s e (p ++ q) (length p + n) h (omega (arith, length-append p q))
                    ∙ ap (next (advance s (length p + n))) (drop-length_add-append p q n)
                    ∙ ap (λ u. next u (drop n q)) (sym (advance-advance s (length p) n))
                    ∙ sym (
                        turn_streaming t q st
                        ∙ streaming_at t e q g
                        ∙ entry_turn_gap t e q n (omega arith) (omega arith))),
              ))
      ]

  entry-Joins :
      Appends B
      → (s : Session B N) (e : InstallEntry) (p q : Bytes) → s.ins.stage ≡ streaming
      → get_elem? s.ins.entries s.ins.entry_cursor ≡ some e
      → Small s
      → InOrder s.ins.stream_pos (e ∷ drop (suc s.ins.entry_cursor) s.ins.entries)
      → 0 < length p
      → 0 < length q
      → Joins q (entry_turn s e p) (entry_turn s e (p ++ q))
  entry-Joins law s e p q st g small w some_p some_q =
      elim (Bool-cases (ltb s.ins.stream_pos e.abs_offset)) [
        | inl before ↦ gap-Joins s e p q st g (omega (arith, w.2)) (ground (arith, before))
        | inr past ↦
            let i : Inside s e = record {
              uncompressed = w.0;
              started = ground (arith, past);
              before_end = w.1;
              in_range = w.2;
            } in
            elim (Bool-cases (leb (e.abs_offset + e.size - s.ins.stream_pos) (length p))) [
              | inl whole ↦ entry_turn-Joins_whole s e p q i (ground (arith, whole))
              | inr part ↦
                  entry_turn-Joins_part law s e p q i st g small some_p (ground (arith, part))
                    some_q
            ]
      ]

  streaming_turn-Joins :
      Appends B
      → (s : Session B N) (p q : Bytes) → s.ins.stage ≡ streaming
      → Small s
      → InOrder s.ins.stream_pos (drop s.ins.entry_cursor s.ins.entries)
      → 0 < length p
      → 0 < length q
      → Joins q (streaming_turn s p) (streaming_turn s (p ++ q))
  unfolding streaming_turn turn turn_at
  streaming_turn-Joins law s p q st small w some_p some_q =
      elim (Option-cases (get_elem? s.ins.entries s.ins.entry_cursor)) [
        | inr (e, g) ↦
            subst (λ t. Joins q t (streaming_turn s (p ++ q))) (sym (streaming_at s e p g))
              (subst (Joins q (entry_turn s e p)) (sym (streaming_at s e (p ++ q) g)) (
                entry-Joins law s e p q st g small
                  (subst (InOrder s.ins.stream_pos)
                    (drop-get_elem? s.ins.entries s.ins.entry_cursor g) w)
                  some_p some_q))
        | inl n ↦
            rw (n, streaming_turn)
              (inr (
                refl,
                ap (λ k. next (with_ins s (record (s.ins) { stream_pos = k; stage = complete })) [])
                    (omega (arith, length-append p q)),
              ))
      ]

  pub turn-Joins :
      Appends B
      → (s : Session B N) (p q : Bytes) → Small s
      → IsLaid s
      → 0 < length p
      → 0 < length q
      → Joins q (turn s p) (turn s (p ++ q))
  turn-Joins law s p q small (inr (st, w)) some_p some_q =
      subst (λ t. Joins q t (turn s (p ++ q))) (sym (turn_streaming s p st))
        (subst (Joins q (streaming_turn s p)) (sym (turn_streaming s (p ++ q) st))
          (streaming_turn-Joins law s p q st small w some_p some_q))
  turn-Joins law s p q small (inl st) some_p some_q =
      subst (λ t. Joins q t (turn s (p ++ q))) (sym (turn_complete s p st))
        (inr (
          refl,
          ap seen_turn (
              turn_complete s (p ++ q) st
              ∙ ap (λ n. next (advance s n) []) (length-append p q)
              ∙ ap (λ t. next t []) (sym (advance-advance s (length p) (length q)))
              ∙ sym (turn_complete (advance s (length p)) q st)),
        ))
