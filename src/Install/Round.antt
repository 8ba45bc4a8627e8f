-- ===== src/Install/Round.antt =====
-- One round of the loop: what it keeps, and that it gets nearer to the end.
use mathlib.Core.Path.{subst}
use nx_nexus.Base.{
  ℕ, suc, ◌+◌, ◌-◌, ◌%◌, ◌^◌, ◌≤◌, ◌<◌, ◌≡◌, ◌⊎◌, inl, inr, refl, sym, ap, ◌∙◌, min, Bool, true,
  false, some, arith, length, drop, length-drop, get_elem?, lt_of_get_elem?, Bytes, Bool-cases,
  Option-cases, ltb, leb, if◌then◌else◌,
}
use nx_nexus.Install.{
  InstallStage, idle, at_magic, at_header, streaming, complete, failed, in_progress, InstallEntry,
  Backend, Decoder, Session,
}
use nx_nexus.Install.Feed.{
  Attempt, went, failed_with, Turn, next, stop, subtract, entry_end, to_turn, entry_attempt,
  entry_turn, streaming_turn,
}
use nx_nexus.Install.Run.{RolledBack, Ends, Small}
use nx_nexus.Install.Entry.{Past, entry_attempt-Past}

-- What a stage says of the header buffer.
abbrev pub HeaderFits : InstallStage → ℕ → ℕ → Type 0
HeaderFits at_magic have size = have < 16
HeaderFits at_header have size = (16 ≤ have) × (have ≤ size) × (size ≤ 0x4000)
HeaderFits streaming have size = have ≤ 0x4000
HeaderFits complete have size = have ≤ 0x4000
HeaderFits idle have size = ⊥
HeaderFits failed have size = ⊥

-- How many rounds the stages ahead can take without a byte.
abbrev pub rank_of : InstallStage → ℕ → ℕ → ℕ
rank_of at_magic entries cursor = 67
rank_of at_header entries cursor = 66
rank_of streaming entries cursor = entries - cursor
rank_of _ entries cursor = 0

module _ {B : Backend} {N : Decoder} where
  -- A session that takes bytes: every buffer is within its array.
  pub record IsRunning (s : Session B N) : Type 0 where
    pub header_fits : HeaderFits s.ins.stage (length s.ins.header) s.ins.header_size
    pub small : Small s
    pub few : length s.ins.entries ≤ 64
    pub position : s.ins.stream_pos < 2 ^ 64

  abbrev pub rank : Session B N → ℕ
  rank s = rank_of s.ins.stage (length s.ins.entries) s.ins.entry_cursor

  -- What a round comes to: the session still runs, and it is nearer to the end; or the bytes were all
  -- taken; or it was rolled back.
  abbrev pub TurnEnds : Session B N → Bytes → Turn B N → Type 0
  TurnEnds s p (next s' rest) = IsRunning s' × (length rest + rank s' < length p + rank s)
  TurnEnds s p (stop r s') = ((r ≡ in_progress) × IsRunning s') ⊎ RolledBack r s'

  pub to_turn-Ends :
      (s : Session B N) (p : Bytes) (P : Session B N → Type 0) (a : Attempt B N) (rest : Bytes)
      → Ends P a
      → ((t : Session B N) → P t → TurnEnds s p (next t rest))
      → TurnEnds s p (to_turn a rest)
  to_turn-Ends s p P (went t) rest h k = k t h
  to_turn-Ends s p P (failed_with r t) rest h k = inr h

  pub if-TurnEnds :
      (s : Session B N) (p : Bytes) (b : Bool) (x y : Turn B N)
      → (b ≡ true → TurnEnds s p x)
      → (b ≡ false → TurnEnds s p y)
      → TurnEnds s p (if b then x else y)
  if-TurnEnds s p true x y h k = h refl
  if-TurnEnds s p false x y h k = k refl

  -- In the stages after the header.
  past_header :
      (t : Session B N)
      → (t.ins.stage ≡ streaming) ⊎ (t.ins.stage ≡ complete)
      → length t.ins.header ≤ 0x4000
      → Small t
      → length t.ins.entries ≤ 64
      → t.ins.stream_pos < 2 ^ 64
      → IsRunning t
  past_header t (inl st) h m f p = record {
    header_fits = subst (λ g. HeaderFits g (length t.ins.header) t.ins.header_size) (sym st) h;
    small = m;
    few = f;
    position = p;
  }
  past_header t (inr st) h m f p = record {
    header_fits = subst (λ g. HeaderFits g (length t.ins.header) t.ins.header_size) (sym st) h;
    small = m;
    few = f;
    position = p;
  }

  rank_at :
      (t : Session B N) {stage : InstallStage}
      → t.ins.stage ≡ stage
      → rank t ≡ rank_of stage (length t.ins.entries) t.ins.entry_cursor
  rank_at t e = ap (λ g. rank_of g (length t.ins.entries) t.ins.entry_cursor) e

  header_at_streaming :
      (s : Session B N) → IsRunning s → s.ins.stage ≡ streaming → length s.ins.header ≤ 0x4000
  header_at_streaming s v st =
      subst (λ g. HeaderFits g (length s.ins.header) s.ins.header_size) st v.header_fits

  -- The bytes that a round takes from `p`.
  abbrev pub taken : Session B N → InstallEntry → Bytes → ℕ
  taken s e p = min (length p) (subtract (entry_end e) s.ins.stream_pos)

  taken_lem :
      (s : Session B N) (e : InstallEntry) (p : Bytes)
      → 0 < length p
      → s.ins.stream_pos < 2 ^ 64
      → (s.ins.stream_pos + taken s e p) % 2 ^ 64 < entry_end e
      → 0 < taken s e p
  unfolding subtract
  taken_lem s e p h m lt = omega arith

  after_entry :
      (s : Session B N) (e : InstallEntry) (p : Bytes) (t : Session B N)
      → IsRunning s
      → s.ins.stage ≡ streaming
      → s.ins.entry_cursor < length s.ins.entries
      → 0 < length p
      → Past s e (taken s e p) t
      → TurnEnds s p (next t (drop (taken s e p) p))
  after_entry s e p t v st c h q =
      let few : length t.ins.entries ≤ 64 = omega (arith, ap length q.entries, v.few) in
      let header : length t.ins.header ≤ 0x4000 =
        omega (arith, ap length q.header, header_at_streaming s v st) in
      let position : t.ins.stream_pos < 2 ^ 64 = omega (arith, q.position) in
      elim q.place [
        | inl (same, stage, short) ↦ (
          past_header t (inl (stage ∙ st)) header q.small few position,
          omega (
            arith,
            rank_at t (stage ∙ st),
            rank_at s st,
            ap length q.entries,
            same,
            length-drop (taken s e p) p,
            taken_lem s e p h v.position (omega (arith, q.position, short)),
          ),
        )
        | inr (moved, stage) ↦
            elim (Bool-cases (leb (length s.ins.entries) (suc s.ins.entry_cursor))) [
              | inl last ↦
                  let is_complete : t.ins.stage ≡ complete =
                    stage ∙ ap (λ b. if b then complete else s.ins.stage) last in
                  (
                    past_header t (inr is_complete) header q.small few position,
                    omega (arith, rank_at t is_complete, rank_at s st, length-drop (taken s e p) p),
                  )
              | inr more ↦
                  let on : t.ins.stage ≡ streaming =
                    stage ∙ ap (λ b. if b then complete else s.ins.stage) more ∙ st in
                  (
                    past_header t (inl on) header q.small few position,
                    omega (
                      arith,
                      rank_at t on,
                      rank_at s st,
                      moved,
                      ap length q.entries,
                      length-drop (taken s e p) p,
                    ),
                  )
            ]
      ]

  entry_turn-Ends :
      (s : Session B N) (e : InstallEntry) (p : Bytes)
      → IsRunning s
      → s.ins.stage ≡ streaming
      → get_elem? s.ins.entries s.ins.entry_cursor ≡ some e
      → 0 < length p
      → TurnEnds s p (entry_turn s e p)
  unfolding entry_turn
  entry_turn-Ends s e p v st g h =
      if-TurnEnds s p (ltb s.ins.stream_pos e.abs_offset) _ _
        (λ before.
          let skip = min (length p) (e.abs_offset - s.ins.stream_pos) in
          (
            record {
              header_fits = v.header_fits;
              small = record { tik = v.small.tik; cert = v.small.cert };
              few = v.few;
              position = omega arith;
            },
            ground (arith, length-drop skip p, before),
          ))
        λ _.
          to_turn-Ends s p (Past s e (taken s e p)) (entry_attempt s e (taken s e p) p)
            (drop (taken s e p) p) (entry_attempt-Past s e (taken s e p) p v.small v.position)
            λ t q. after_entry s e p t v st (lt_of_get_elem? s.ins.entries s.ins.entry_cursor g) h q

  pub streaming_turn-Ends :
      (s : Session B N) (p : Bytes)
      → IsRunning s
      → s.ins.stage ≡ streaming
      → 0 < length p
      → TurnEnds s p (streaming_turn s p)
  unfolding streaming_turn
  streaming_turn-Ends s p v st h =
      elim (Option-cases (get_elem? s.ins.entries s.ins.entry_cursor)) [
        | inr (e, g) ↦ rw (g, streaming_turn) (entry_turn-Ends s e p v st g h)
        | inl n ↦
            rw (n, streaming_turn)
              (
                record {
                  header_fits = header_at_streaming s v st;
                  small = record { tik = v.small.tik; cert = v.small.cert };
                  few = v.few;
                  position = omega arith;
                },
                omega arith,
              )
      ]
