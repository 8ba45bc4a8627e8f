-- ===== src/Install/Entry.antt =====
-- What a round leaves that routes bytes into an entry, and closes it at its end.
use nx_nexus.Base.{
  ℕ, suc, ◌+◌, ◌%◌, ◌^◌, ◌<◌, ◌≡◌, ◌⊎◌, inl, inr, refl, ap, ◌∙◌, List, arith, length, take, Bytes,
  leb, ◌==◌, if◌then◌else◌,
}
use nx_nexus.Install.{InstallStage, complete, InstallEntry, Backend, Decoder, Session}
use nx_nexus.Install.Feed.{
  went, entry_end, open_entry, route_some, entry_attempt, route_bytes, after_route, close_entry,
  next_entry, end_decoding, commit_content, advance,
}
use nx_nexus.Install.Run.{Ends, and_then-Ends, Kept, Small, Routed, if-Ends}
use nx_nexus.Install.Routing.{
  route_bytes-Routed, open_entry-Kept, end_decoding-Kept, commit_content-Kept,
}

module _ {B : Backend} {N : Decoder} where
  -- Up to the routing: `n` bytes on, at the same entry.
  pub record Moved (s : Session B N) (n : ℕ) (s' : Session B N) : Type 0 where
    pub stage : s'.ins.stage ≡ s.ins.stage
    pub entries : s'.ins.entries ≡ s.ins.entries
    pub cursor : s'.ins.entry_cursor ≡ s.ins.entry_cursor
    pub header : s'.ins.header ≡ s.ins.header
    pub position : s'.ins.stream_pos ≡ (s.ins.stream_pos + n) % 2 ^ 64
    pub small : Small s'

  -- After the round: at the same entry before its end, or past it.
  pub record Past (s : Session B N) (e : InstallEntry) (n : ℕ) (s' : Session B N) : Type 0 where
    pub entries : s'.ins.entries ≡ s.ins.entries
    pub header : s'.ins.header ≡ s.ins.header
    pub position : s'.ins.stream_pos ≡ (s.ins.stream_pos + n) % 2 ^ 64
    pub small : Small s'
    pub place :
        ((s'.ins.entry_cursor ≡ s.ins.entry_cursor)
          × (s'.ins.stage ≡ s.ins.stage)
          × (s'.ins.stream_pos < entry_end e))
        ⊎ ((s'.ins.entry_cursor ≡ suc s.ins.entry_cursor)
            × (s'.ins.stage ≡ (
                if leb (length s.ins.entries) (suc s.ins.entry_cursor)
                then complete
                else s.ins.stage)))

  Kept-Small : {s s' : Session B N} → Kept s s' → Small s → Small s'
  Kept-Small k m = record {
    tik = omega (arith, ap length k.tik, m.tik);
    cert = omega (arith, ap length k.cert, m.cert);
  }

  route_some-Moved :
      (s : Session B N) (e : InstallEntry) (n : ℕ) (p : Bytes)
      → Small s
      → s.ins.stream_pos < 2 ^ 64
      → Ends (Moved s n) (route_some s e n p)
  unfolding route_some
  route_some-Moved s e n p m h =
      if-Ends (Moved s n) (n == 0) _ _
        (λ z. record {
          stage = refl;
          entries = refl;
          cursor = refl;
          header = refl;
          position = ground (arith, z);
          small = m;
        })
        λ _.
          and_then-Ends {P = Routed s} (Moved s n) (route_bytes s e.kind (take n p))
            (λ s'. went (advance s' n)) (route_bytes-Routed s e.kind (take n p) m)
            λ t r. record {
              stage = r.stage;
              entries = r.entries;
              cursor = r.cursor;
              header = r.header;
              position = ap (λ q. (q + n) % 2 ^ 64) r.position;
              small = record { tik = r.small.tik; cert = r.small.cert };
            }

  next_entry-Past :
      (s : Session B N) (e : InstallEntry) (n : ℕ) (t : Session B N)
      → Moved s n t
      → Past s e n (next_entry t)
  unfolding next_entry
  next_entry-Past s e n t m =
      let after : List InstallEntry → ℕ → InstallStage → InstallStage =
        λ es c stage. if leb (length es) (suc c) then complete else stage in
      record {
        entries = m.entries;
        header = m.header;
        position = m.position;
        small = record { tik = m.small.tik; cert = m.small.cert };
        place = inr (
          ap suc m.cursor,
          ap (λ es. after es t.ins.entry_cursor t.ins.stage) m.entries
              ∙ ap (λ c. after s.ins.entries c t.ins.stage) m.cursor
              ∙ ap (after s.ins.entries s.ins.entry_cursor) m.stage,
        );
      }

  close_entry-Past :
      (s : Session B N) (e : InstallEntry) (n : ℕ) (t : Session B N)
      → Moved s n t
      → Ends (Past s e n) (close_entry t e)
  unfolding close_entry
  close_entry-Past s e n t m =
      and_then-Ends {P = Kept t} (Past s e n) (end_decoding t e) _ (end_decoding-Kept t e) λ u k.
        and_then-Ends {P = Kept u} (Past s e n) (commit_content u) _ (commit_content-Kept u) λ v k'.
          next_entry-Past s e n v (record {
            stage = k'.stage ∙ k.stage ∙ m.stage;
            entries = k'.entries ∙ k.entries ∙ m.entries;
            cursor = k'.cursor ∙ k.cursor ∙ m.cursor;
            header = k'.header ∙ k.header ∙ m.header;
            position = k'.position ∙ k.position ∙ m.position;
            small = Kept-Small k' (Kept-Small k m.small);
          })

  after_route-Past :
      (s : Session B N) (e : InstallEntry) (n : ℕ) (t : Session B N)
      → Moved s n t
      → Ends (Past s e n) (after_route t e)
  unfolding after_route
  after_route-Past s e n t m =
      if-Ends (Past s e n) (leb (entry_end e) t.ins.stream_pos) _ _
        (λ _. close_entry-Past s e n t m)
        λ short. record {
          entries = m.entries;
          header = m.header;
          position = m.position;
          small = m.small;
          place = inl (m.cursor, m.stage, ground (arith, short));
        }

  pub entry_attempt-Past :
      (s : Session B N) (e : InstallEntry) (n : ℕ) (p : Bytes)
      → Small s
      → s.ins.stream_pos < 2 ^ 64
      → Ends (Past s e n) (entry_attempt s e n p)
  unfolding entry_attempt
  entry_attempt-Past s e n p m h =
      and_then-Ends {P = Kept s} (Past s e n) (open_entry s e) _ (open_entry-Kept s e) λ t k.
        and_then-Ends {P = Moved t n} (Past s e n) (route_some t e n p) _
          (route_some-Moved t e n p (Kept-Small k m) (omega (arith, k.position)))
          λ u v. after_route-Past s e n u (record {
            stage = v.stage ∙ k.stage;
            entries = v.entries ∙ k.entries;
            cursor = v.cursor ∙ k.cursor;
            header = v.header ∙ k.header;
            position = v.position ∙ ap (λ q. (q + n) % 2 ^ 64) k.position;
            small = v.small;
          })
