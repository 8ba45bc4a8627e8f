-- ===== src/Install/Halfway.antt =====
-- A round on an entry that goes on past the first of two pieces: the next round goes on with the
-- second.
use mathlib.Core.Path.{subst}
use nx_nexus.Base.{
  ℕ, ◌+◌, ◌-◌, ◌^◌, ◌≤◌, ◌<◌, ◌≡◌, inl, inr, refl, sym, ap, ◌∙◌, false, [], ◌++◌, some, arith,
  length, take, drop, take_add-append, take_all, drop_all, min, length-append,
  drop-length_add-append, Bytes, get_elem?, leb,
}
use nx_nexus.Install.{is_compressed, streaming, InstallEntry, Backend, Decoder, Session}
use nx_nexus.Install.Feed.{
  Attempt, went, failed_with, subtract, entry_end, and_then, to_turn, route_bytes, advance,
  open_entry, route_some, after_route, entry_attempt, entry_turn, streaming_turn, turn_at, turn,
}
use nx_nexus.Install.Run.{Kept, Routed, Small, Ends}
use nx_nexus.Install.Routing.{open_entry-Kept, route_bytes-Routed}
use nx_nexus.Install.Seen.{Appends, seen, and_then-seen, route_bytes-append, route_bytes-advance}
use nx_nexus.Install.Opened.{
  IsOpen, open_entry_again, open_entry-IsOpen, SameOpen, route_bytes-SameOpen,
}
use nx_nexus.Install.Joined.{
  Inside, Joins, entry_turn_at, left_of, route_some_at, seen_turn, to_turn-seen,
}

module _ {B : Backend} {N : Decoder} where
  -- The bytes go to the entry, and the entry is closed if they reach its end.
  abbrev routed : Session B N → InstallEntry → ℕ → Bytes → Attempt B N → Attempt B N
  routed s e n bytes a = and_then (and_then a (λ t. went (advance t n))) (λ t. after_route t e)

  entry_attempt_open :
      (s t : Session B N) (e : InstallEntry) (n : ℕ) (p bytes : Bytes)
      → open_entry s e ≡ went t
      → 0 < n
      → take n p ≡ bytes
      → entry_attempt s e n p ≡ routed t e n bytes (route_bytes t e.kind bytes)
  unfolding entry_attempt
  entry_attempt_open s t e n p bytes o h b =
      ap (λ a. and_then a (λ u. and_then (route_some u e n p) (λ v. after_route v e))) o
      ∙ ap (λ a. and_then a (λ u. after_route u e)) (route_some_at t e n p bytes h b)

  pub streaming_at :
      (s : Session B N) (e : InstallEntry) (p : Bytes)
      → get_elem? s.ins.entries s.ins.entry_cursor ≡ some e
      → streaming_turn s p ≡ entry_turn s e p
  unfolding streaming_turn
  streaming_at s e p g = rw (g, streaming_turn) refl

  pub turn_streaming :
      (s : Session B N) (p : Bytes) → s.ins.stage ≡ streaming → turn s p ≡ streaming_turn s p
  unfolding turn turn_at
  turn_streaming s p st = ap (λ g. turn_at g s p) st

  -- The next round, on an entry that is open.
  turn_again :
      (t : Session B N) (e : InstallEntry) (n : ℕ) (q : Bytes)
      → t.ins.stage ≡ streaming
      → get_elem? t.ins.entries t.ins.entry_cursor ≡ some e
      → is_compressed e.kind ≡ false
      → IsOpen e t
      → e.abs_offset ≤ t.ins.stream_pos
      → min (length q) (subtract (entry_end e) t.ins.stream_pos) ≡ n
      → 0 < n
      → turn t q ≡ to_turn (routed t e n (take n q) (route_bytes t e.kind (take n q))) (drop n q)
  turn_again t e n q st g c o a m h =
      turn_streaming t q st
      ∙ streaming_at t e q g
      ∙ entry_turn_at t e n q a m
      ∙ ap (λ x. to_turn x (drop n q))
          (entry_attempt_open t t e n q (take n q) (open_entry_again t e c o) h refl)

  -- What the bytes of both pieces come to, by what those of the first come to.
  routed_append :
      Appends B
      → (t : Session B N) (e : InstallEntry) (n : ℕ) (a b : Bytes) (x : Attempt B N)
      → is_compressed e.kind ≡ false
      → route_bytes t e.kind a ≡ x
      → seen (routed t e n (a ++ b) (route_bytes t e.kind (a ++ b)))
        ≡ seen (routed t e n (a ++ b) (and_then x (λ u. route_bytes u e.kind b)))
  routed_append law t e n a b x c r =
      let same =
        route_bytes-append law t e.kind a b c
        ∙ ap (λ y. seen (and_then y (λ u. route_bytes u e.kind b))) r in
      and_then-seen _ _ (λ u. after_route u e) (and_then-seen _ _ (λ u. went (advance u n)) same)

  -- The parts of a session that are left for the next round.
  record Halfway (s : Session B N) (e : InstallEntry) (n : ℕ) (t : Session B N) : Type 0 where
    stage : t.ins.stage ≡ streaming
    at_entry : get_elem? t.ins.entries t.ins.entry_cursor ≡ some e
    position : t.ins.stream_pos ≡ s.ins.stream_pos + n
    is_open : IsOpen e t

  second_part :
      Appends B
      → (s t u : Session B N) (e : InstallEntry) (p q : Bytes) → Inside s e
      → length p < e.abs_offset + e.size - s.ins.stream_pos
      → 0 < length q
      → route_bytes t e.kind p ≡ went u
      → Halfway s e (length p) (advance u (length p))
      → (n : ℕ) → min (length q) (e.abs_offset + e.size - s.ins.stream_pos - length p) ≡ n
      → seen_turn (
          to_turn
            (routed t e (length p + n) (p ++ take n q) (route_bytes t e.kind (p ++ take n q)))
            (drop n q))
        ≡ seen_turn (turn (advance u (length p)) q)
  unfolding subtract
  second_part law s t u e p q i short more r v n m =
      let t3 = advance u (length p) in
      let left : min (length q) (subtract (entry_end e) t3.ins.stream_pos) ≡ n =
        omega (arith, v.position, i.before_end, i.in_range, m) in
      to_turn-seen _ _ (drop n q) (
        routed_append law t e (length p + n) p (take n q) (went u) i.uncompressed r
        ∙ sym (
            and_then-seen _ _ (λ w. after_route w e)
              (route_bytes-advance u e.kind (take n q) (length p) n i.uncompressed)))
      ∙ sym (
          ap seen_turn (
            turn_again t3 e n q v.stage v.at_entry i.uncompressed v.is_open
              (omega (arith, v.position, i.started)) left (omega (arith, m))))

  not_ended :
      (t : Session B N) (e : InstallEntry)
      → t.ins.stream_pos < e.abs_offset + e.size
      → e.abs_offset + e.size < 2 ^ 64
      → after_route t e ≡ went t
  unfolding after_route
  not_ended t e h r =
      let short : leb (entry_end e) t.ins.stream_pos ≡ false = ground arith in rw short refl

  -- The rounds on both pieces, by what routing the first comes to.
  routed-Joins :
      Appends B
      → (s t : Session B N) (e : InstallEntry) (p q : Bytes) → Inside s e
      → length p < e.abs_offset + e.size - s.ins.stream_pos
      → 0 < length q
      → (x : Attempt B N) → route_bytes t e.kind p ≡ x
      → Ends (λ u. Halfway s e (length p) (advance u (length p))) x
      → (n : ℕ) → min (length q) (e.abs_offset + e.size - s.ins.stream_pos - length p) ≡ n
      → Joins q (to_turn (routed t e (length p) p x) []) (
          to_turn
            (routed t e (length p + n) (p ++ take n q) (route_bytes t e.kind (p ++ take n q)))
            (drop n q))
  routed-Joins law s t e p q i short more (failed_with f u) r v n m =
      to_turn-seen _ (failed_with f u) (drop n q)
        (routed_append law t e (length p + n) p (take n q) (failed_with f u) i.uncompressed r)
  routed-Joins law s t e p q i short more (went u) r v n m =
      subst
        (λ a. Joins q (to_turn a []) (
          to_turn (routed t e (length p + n) (p ++ take n q) (route_bytes t e.kind (p ++ take n q)))
            (drop n q)))
        (sym (not_ended (advance u (length p)) e (omega (arith, v.position)) i.in_range))
        (inr (refl, second_part law s t u e p q i short more r v n m))

  first_part :
      (s t u : Session B N) (e : InstallEntry) (n : ℕ)
      → s.ins.stage ≡ streaming
      → get_elem? s.ins.entries s.ins.entry_cursor ≡ some e
      → s.ins.stream_pos + n < 2 ^ 64
      → Kept s t
      → IsOpen e t
      → Routed t u
      → SameOpen t u
      → Halfway s e n (advance u n)
  first_part s t u e n st g h k o r same = record {
    stage = r.stage ∙ k.stage ∙ st;
    at_entry =
        ap (λ es. get_elem? es u.ins.entry_cursor) (r.entries ∙ k.entries)
        ∙ ap (get_elem? s.ins.entries) (r.cursor ∙ k.cursor)
        ∙ g;
    position = omega (arith, r.position, k.position);
    is_open = elim o [ inl y ↦ inl (same ∙ y) | inr c ↦ inr c ];
  }

  first_part-Ends :
      (s t : Session B N) (e : InstallEntry) (n : ℕ) (x : Attempt B N)
      → s.ins.stage ≡ streaming
      → get_elem? s.ins.entries s.ins.entry_cursor ≡ some e
      → s.ins.stream_pos + n < 2 ^ 64
      → Kept s t
      → IsOpen e t
      → Ends (Routed t) x
      → Ends (SameOpen t) x
      → Ends (λ u. Halfway s e n (advance u n)) x
  first_part-Ends s t e n (went u) st g h k o r same = first_part s t u e n st g h k o r same
  first_part-Ends s t e n (failed_with f u) st g h k o r same = r

  Kept-Small : (s t : Session B N) → Kept s t → Small s → Small t
  Kept-Small s t k m = record {
    tik = omega (arith, ap length k.tik, m.tik);
    cert = omega (arith, ap length k.cert, m.cert);
  }

  -- The attempts on both pieces, by what opening the entry comes to.
  opened-Joins :
      Appends B
      → (s : Session B N) (e : InstallEntry) (p q : Bytes) → Inside s e
      → s.ins.stage ≡ streaming
      → get_elem? s.ins.entries s.ins.entry_cursor ≡ some e
      → Small s
      → 0 < length p
      → length p < e.abs_offset + e.size - s.ins.stream_pos
      → 0 < length q
      → (n : ℕ) → min (length q) (e.abs_offset + e.size - s.ins.stream_pos - length p) ≡ n
      → (y : Attempt B N) → open_entry s e ≡ y
      → Ends (Kept s) y
      → Ends (IsOpen e) y
      → Joins q
          (to_turn (entry_attempt s e (length p) p) [])
          (to_turn (entry_attempt s e (length p + n) (p ++ q)) (drop n q))
  unfolding entry_attempt
  opened-Joins law s e p q i st g small some_p short some_q n m (failed_with f t) o k open' =
      subst
        (λ y.
          Joins q
            (to_turn
              (and_then y (λ u. and_then (route_some u e (length p) p) (λ v. after_route v e))) [])
            (to_turn
              (and_then y
                (λ u. and_then (route_some u e (length p + n) (p ++ q)) (λ v. after_route v e)))
              (drop n q)))
        (sym o) refl
  opened-Joins law s e p q i st g small some_p short some_q n m (went t) o k open' =
      subst
        (λ a.
          Joins q (to_turn a []) (to_turn (entry_attempt s e (length p + n) (p ++ q)) (drop n q)))
        (sym (entry_attempt_open s t e (length p) p p o some_p (take_all p)))
        (subst
          (λ a.
            Joins q (to_turn (routed t e (length p) p (route_bytes t e.kind p)) [])
              (to_turn a (drop n q)))
          (sym (
            entry_attempt_open s t e (length p + n) (p ++ q) (p ++ take n q) o (omega arith)
              (take_add-append p q n)))
          (routed-Joins law s t e p q i short some_q (route_bytes t e.kind p) refl
            (first_part-Ends s t e (length p) (route_bytes t e.kind p) st g
              (omega (arith, i.in_range, i.before_end)) k open'
              (route_bytes-Routed t e.kind p (Kept-Small s t k small))
              (route_bytes-SameOpen t e.kind p i.uncompressed))
            n m))

  -- When the entry goes on past the first piece.
  pub entry_turn-Joins_part :
      Appends B
      → (s : Session B N) (e : InstallEntry) (p q : Bytes) → Inside s e
      → s.ins.stage ≡ streaming
      → get_elem? s.ins.entries s.ins.entry_cursor ≡ some e
      → Small s
      → 0 < length p
      → length p < e.abs_offset + e.size - s.ins.stream_pos
      → 0 < length q
      → Joins q (entry_turn s e p) (entry_turn s e (p ++ q))
  entry_turn-Joins_part law s e p q i st g small some_p short some_q =
      let left = left_of s e i in
      let n = min (length q) (e.abs_offset + e.size - s.ins.stream_pos - length p) in
      let one =
        entry_turn_at s e (length p) p i.started (omega (arith, left))
        ∙ ap (to_turn _) (drop_all p) in
      let two =
        entry_turn_at s e (length p + n) (p ++ q) i.started (omega (arith, left, length-append p q))
        ∙ ap (to_turn _) (drop-length_add-append p q n) in
      subst (λ t. Joins q t (entry_turn s e (p ++ q))) (sym one)
        (subst (Joins q (to_turn (entry_attempt s e (length p) p) [])) (sym two) (
          opened-Joins law s e p q i st g small some_p short some_q n refl (open_entry s e) refl
            (open_entry-Kept s e) (open_entry-IsOpen s e i.uncompressed)))
