-- ===== src/Install/Laid.antt =====
-- Sessions whose files stand one after the other: every round keeps them so.
use mathlib.Core.Path.{subst}
use nx_nexus.Base.{
  ℕ, zero, suc, ◌+◌, ◌-◌, ◌%◌, ◌^◌, ◌≤◌, ◌<◌, ◌≡◌, ◌⊎◌, inl, inr, refl, sym, ap, ◌∙◌, false, List,
  [], ◌∷◌, some, arith, length, drop, min, Bytes, Bool-cases, Option-cases, get_elem?, ltb, leb,
  if◌then◌else◌,
}
use nx_nexus.Install.{
  is_compressed, streaming, complete, failed, InstallEntry, Backend, Decoder, Session,
}
use nx_nexus.Install.Feed.{
  Attempt, went, failed_with, Turn, next, stop, subtract, entry_end, to_turn, advance,
  entry_attempt, entry_turn, streaming_turn, turn_at, turn,
}
use nx_nexus.Install.Run.{Small, Ends}
use nx_nexus.Install.Entry.{Past, entry_attempt-Past}
use nx_nexus.Install.Halfway.{streaming_at, turn_streaming}

-- None of the files is compressed, each ends where the one before ends or after it, and the stream is
-- not past the end of the first.
abbrev pub InOrder : ℕ → List InstallEntry → Type 0
InOrder pos [] = Unit
InOrder pos (e ∷ es) =
    (is_compressed e.kind ≡ false)
    × (pos ≤ e.abs_offset + e.size)
    × (e.abs_offset + e.size < 2 ^ 64)
    × InOrder (e.abs_offset + e.size) es

InOrder-le : (pos end : ℕ) (es : List InstallEntry) → pos ≤ end → InOrder end es → InOrder pos es
InOrder-le pos end [] h w = tt
InOrder-le pos end (e ∷ es) h w = (w.0, omega (arith, w.1), w.2, w.3)

pub drop-get_elem? :
    {A : Type 0} (xs : List A) (i : ℕ) {x : A}
    → get_elem? xs i ≡ some x
    → drop i xs ≡ x ∷ drop (suc i) xs
drop-get_elem? [] i h = absurd (cc)
drop-get_elem? (y ∷ xs) zero h = ground arith
drop-get_elem? (y ∷ xs) (suc i) h = drop-get_elem? xs i h

module _ {B : Backend} {N : Decoder} where
  -- A session in the middle of its files, or after them.
  abbrev pub IsLaid : Session B N → Type 0
  IsLaid s =
      (s.ins.stage ≡ complete)
      ⊎ ((s.ins.stage ≡ streaming)
          × InOrder s.ins.stream_pos (drop s.ins.entry_cursor s.ins.entries))

  -- What a round leaves of that.
  abbrev pub TurnLaid : Turn B N → Type 0
  TurnLaid (next s rest) = IsLaid s
  TurnLaid (stop r s) = s.ins.stage ≡ failed

  pub turn_complete :
      (s : Session B N) (p : Bytes)
      → s.ins.stage ≡ complete
      → turn s p ≡ next (advance s (length p)) []
  unfolding turn turn_at
  turn_complete s p st = ap (λ g. turn_at g s p) st

  to_turn-Laid :
      (P : Session B N → Type 0) (a : Attempt B N) (rest : Bytes)
      → Ends P a
      → ((t : Session B N) → P t → IsLaid t)
      → TurnLaid (to_turn a rest)
  to_turn-Laid P (went t) rest h k = k t h
  to_turn-Laid P (failed_with r t) rest h k = h.is_failed

  -- The session after the bytes that a round takes for entry `e`.
  Past-Laid :
      (s t : Session B N) (e : InstallEntry) (n : ℕ)
      → s.ins.stage ≡ streaming
      → get_elem? s.ins.entries s.ins.entry_cursor ≡ some e
      → InOrder s.ins.stream_pos (e ∷ drop (suc s.ins.entry_cursor) s.ins.entries)
      → s.ins.stream_pos + n ≤ e.abs_offset + e.size
      → Past s e n t
      → IsLaid t
  Past-Laid s t e n st g w h v =
      let position : t.ins.stream_pos ≡ s.ins.stream_pos + n = omega (arith, v.position, w.2) in
      elim v.place [
        | inl (same, stage, _) ↦ inr (
          stage ∙ st,
          subst (InOrder t.ins.stream_pos)
              (sym (
                ap (drop t.ins.entry_cursor) v.entries
                ∙ ap (λ c. drop c s.ins.entries) same
                ∙ drop-get_elem? s.ins.entries s.ins.entry_cursor g))
              (w.0, omega (arith, position), w.2, w.3),
        )
        | inr (moved, stage) ↦
            elim (Bool-cases (leb (length s.ins.entries) (suc s.ins.entry_cursor))) [
              | inl last ↦ inl (stage ∙ ap (λ b. if b then complete else s.ins.stage) last)
              | inr more ↦ inr (
                stage ∙ ap (λ b. if b then complete else s.ins.stage) more ∙ st,
                subst (InOrder t.ins.stream_pos)
                    (sym (
                      ap (drop t.ins.entry_cursor) v.entries
                      ∙ ap (λ c. drop c s.ins.entries) moved))
                    (InOrder-le t.ins.stream_pos (e.abs_offset + e.size) _ (omega (arith, position))
                      w.3),
              )
            ]
      ]

  entry_turn-Laid :
      (s : Session B N) (e : InstallEntry) (p : Bytes)
      → s.ins.stage ≡ streaming
      → get_elem? s.ins.entries s.ins.entry_cursor ≡ some e
      → Small s
      → InOrder s.ins.stream_pos (e ∷ drop (suc s.ins.entry_cursor) s.ins.entries)
      → TurnLaid (entry_turn s e p)
  unfolding entry_turn subtract
  entry_turn-Laid s e p st g small w = elim (Bool-cases (ltb s.ins.stream_pos e.abs_offset)) [
    | inl before ↦ rw before (
        inr (
          st,
          subst
              (InOrder
                ((s.ins.stream_pos + min (length p) (e.abs_offset - s.ins.stream_pos)) % 2 ^ 64))
              (sym (drop-get_elem? s.ins.entries s.ins.entry_cursor g))
              (w.0, ground (arith, before, w.2), w.2, w.3),
        ))
    | inr past ↦
        let n = min (length p) (subtract (entry_end e) s.ins.stream_pos) in
        rw past (
          to_turn-Laid (Past s e n) (entry_attempt s e n p) (drop n p)
            (entry_attempt-Past s e n p small (omega (arith, w.1, w.2)))
            λ t v. Past-Laid s t e n st g w (ground (arith, past, w.1, w.2)) v)
  ]

  streaming_turn-Laid :
      (s : Session B N) (p : Bytes)
      → s.ins.stage ≡ streaming
      → Small s
      → InOrder s.ins.stream_pos (drop s.ins.entry_cursor s.ins.entries)
      → TurnLaid (streaming_turn s p)
  unfolding streaming_turn
  streaming_turn-Laid s p st small w =
      elim (Option-cases (get_elem? s.ins.entries s.ins.entry_cursor)) [
        | inr (e, g) ↦ subst TurnLaid (sym (streaming_at s e p g)) (
            entry_turn-Laid s e p st g small (
              subst (InOrder s.ins.stream_pos) (drop-get_elem? s.ins.entries s.ins.entry_cursor g)
                w))
        | inl n ↦ rw (n, streaming_turn) (inl refl)
      ]

  pub turn-Laid : (s : Session B N) (p : Bytes) → Small s → IsLaid s → TurnLaid (turn s p)
  turn-Laid s p small (inr (st, w)) =
      subst TurnLaid (sym (turn_streaming s p st)) (streaming_turn-Laid s p st small w)
  turn-Laid s p small (inl st) = subst TurnLaid (sym (turn_complete s p st)) (inl st)
