-- ===== src/NspBuilder/Locate.antt =====
-- `nspBuilderLocate` against the virtual file: the header followed by the entries' data.
use native.Mathlib.Decide.{dec_lt}
use nx_nexus.Base.{
  ℕ, suc, ◌+◌, ◌-◌, ◌^◌, ◌≤◌, ◌<◌, ◌≡◌, ◌⊎◌, refl, ap, ◌∙◌, List, [], ◌∷◌, ◌++◌, some, inl, inr,
  arith, length, take, slice, slice-append_left, get_elem?, length-append, drop-length_add-append,
  Bytes, true, false,
}
use nx_nexus.Outcome.{ok, err, out_of_range}
use nx_nexus.NspBuilder.{NspBuilder, NspBuilderEntry, NspLocation, finalize, locate, locate_entry}
use nx_nexus.NspBuilder.Image.{data_size, placed}
use nx_nexus.NspBuilder.Build.{size_of, image, built}
use nx_nexus.NspBuilder.RoundTrip.{length-image}
use nx_nexus.NspBuilder.Valid.{IsOpen, finalize-built}

-- The data of each entry, in order.
abbrev pub Contents : List NspBuilderEntry → List Bytes → Type 0
Contents [] [] = Unit
Contents (e ∷ es) (d ∷ ds) = (length d ≡ e.size) × Contents es ds
Contents _ _ = ⊥

abbrev pub joined : List Bytes → Bytes
joined [] = []
joined (d ∷ ds) = d ++ joined ds

-- A location in entry data: the bytes from `pos` on of the joined data are those of entry
-- `i + index` from `entry_off` on, for as long as `run` says.
record InEntry (ds : List Bytes) (i pos : ℕ) (loc : NspLocation) : Type 0 where
  pub outside : loc.in_header ≡ false
  pub index : ℕ
  pub counts : loc.entry_index ≡ i + index
  pub piece : Bytes
  pub piece_is : get_elem? ds index ≡ some piece
  pub progress : 0 < loc.run
  pub inside : loc.entry_off + loc.run ≡ length piece
  pub fits : pos + loc.run ≤ length (joined ds)
  pub same : slice pos loc.run (joined ds) ≡ slice loc.entry_off loc.run piece

abbrev found : NspBuilderEntry → ℕ → ℕ → NspLocation
found e i pos = record {
  in_header = false;
  header_off = 0;
  entry_index = i;
  entry_off = pos - e.data_offset;
  run = e.size - (pos - e.data_offset);
}

locate_here :
    (e : NspBuilderEntry) (es : List NspBuilderEntry) (i pos : ℕ)
    → e.data_offset ≤ pos
    → pos < e.data_offset + e.size
    → e.data_offset + e.size < 2 ^ 64
    → locate_entry (e ∷ es) i pos ≡ ok (found e i pos)
unfolding locate_entry
locate_here e es i pos lo hi h = ground arith

locate_past :
    (e : NspBuilderEntry) (es : List NspBuilderEntry) (i pos : ℕ)
    → e.data_offset + e.size ≤ pos
    → e.data_offset + e.size < 2 ^ 64
    → locate_entry (e ∷ es) i pos ≡ locate_entry es (i + 1) pos
unfolding locate_entry
locate_past e es i pos hi h = ground arith

slice-length_add-append : (a b : Bytes) (k n : ℕ) → slice (length a + k) n (a ++ b) ≡ slice k n b
slice-length_add-append a b k n = ap (take n) (drop-length_add-append a b k)

later-InEntry :
    (d : Bytes) (ds : List Bytes) (i pos : ℕ) {loc : NspLocation}
    → length d ≤ pos
    → InEntry ds (i + 1) (pos - length d) loc
    → InEntry (d ∷ ds) i pos loc
later-InEntry d ds i pos {loc} le' r = record {
  outside = r.outside;
  index = suc r.index;
  counts = omega (arith, r.counts);
  piece = r.piece;
  piece_is = r.piece_is;
  progress = r.progress;
  inside = r.inside;
  fits = omega (arith, r.fits, length-append d (joined ds));
  same =
      ap (λ k. slice k loc.run (d ++ joined ds))
        (let e : pos ≡ length d + (pos - length d) = omega arith in e)
      ∙ slice-length_add-append d (joined ds) (pos - length d) loc.run
      ∙ r.same;
}

locate_entry_lem :
    (off : ℕ) (es : List NspBuilderEntry) (ds : List Bytes) (i k : ℕ)
    → Contents es ds
    → k < data_size es
    → off + data_size es < 2 ^ 64
    → (loc : NspLocation) × (locate_entry (placed off es) i (off + k) ≡ ok loc) × InEntry ds i k loc
locate_entry_lem off [] ds i k c h m = absurd (omega arith)
locate_entry_lem off (e ∷ es) [] i k c h m = absurd c
locate_entry_lem off (e ∷ es) (d ∷ ds) i k c h m =
    let e' : NspBuilderEntry = record e { data_offset = off } in
    elim (dec_lt k e.size) [
      | yes here ↦ (
        found e' i (off + k),
        locate_here e' (placed (off + e.size) es) i (off + k) (omega arith) (omega arith)
            (omega arith),
        record {
          outside = refl;
          index = 0;
          counts = omega arith;
          piece = d;
          piece_is = refl;
          progress = omega arith;
          inside = omega arith;
          fits = omega (arith, length-append d (joined ds));
          same =
              slice-append_left k (e.size - (off + k - off)) d (joined ds) (omega arith)
              ∙ ap (λ q. slice q (e.size - (off + k - off)) d)
                  (let q : k ≡ off + k - off = omega arith in q);
        },
      )
      | no past ↦
          let (loc, r, v) =
            locate_entry_lem (off + e.size) es ds (i + 1) (k - length d) c.1 (omega arith)
              (omega arith) in
          (
            loc,
            locate_past e' (placed (off + e.size) es) i (off + k) (omega arith) (omega arith)
                ∙ ap (locate_entry (placed (off + e.size) es) (i + 1))
                    (let q : off + k ≡ off + e.size + (k - length d) = omega arith in q)
                ∙ r,
            later-InEntry d ds i k (omega arith) v,
          )
    ]

-- Where the bytes of the virtual file `image ++ joined ds` from `offset` on are, for `run` bytes:
-- in the header, or in the data of one entry.
abbrev pub Source : Bytes → List Bytes → ℕ → NspLocation → Type 0
Source image ds offset loc =
    ((loc.in_header ≡ true)
      × (loc.header_off + loc.run ≡ length image)
      × (slice offset loc.run (image ++ joined ds) ≡ slice loc.header_off loc.run image))
    ⊎ ((loc.in_header ≡ false)
        × ((d : Bytes) × (get_elem? ds loc.entry_index ≡ some d)
            × (loc.entry_off + loc.run ≡ length d)
            × (slice offset loc.run (image ++ joined ds) ≡ slice loc.entry_off loc.run d)))

pub record Serves (image : Bytes) (ds : List Bytes) (offset : ℕ) (loc : NspLocation) : Type 0 where
  pub progress : 0 < loc.run
  pub fits : offset + loc.run ≤ length (image ++ joined ds)
  pub source : Source image ds offset loc

length-joined :
    (es : List NspBuilderEntry) (ds : List Bytes)
    → Contents es ds
    → length (joined ds) ≡ data_size es
length-joined [] [] c = refl
length-joined (e ∷ es) (d ∷ ds) c =
    omega (arith, length-append d (joined ds), length-joined es ds c.1, c.0)
length-joined [] (d ∷ ds) c = absurd c
length-joined (e ∷ es) [] c = absurd c

module _ (b : NspBuilder) (ds : List Bytes) (c : Contents b.entries ds)
    (fits : size_of b.entries + data_size b.entries < 2 ^ 64) where
  abbrev file : Bytes
  file = image b.entries ++ joined ds

  length-file : length file ≡ size_of b.entries + data_size b.entries
  length-file = omega (
    arith,
    length-append (image b.entries) (joined ds),
    length-image b.entries,
    length-joined b.entries ds c,
  )

  abbrev in_image : ℕ → NspLocation
  in_image offset = record {
    in_header = true;
    header_off = offset;
    entry_index = 0;
    entry_off = 0;
    run = size_of b.entries - offset;
  }

  locate_in_image :
      (offset : ℕ)
      → offset < size_of b.entries
      → (loc : NspLocation) × (locate (built b) offset ≡ ok loc)
        × Serves (image b.entries) ds offset loc
  unfolding locate
  locate_in_image offset h = (
    in_image offset,
    ground arith,
    record {
      progress = omega arith;
      fits = omega (arith, length-file);
      source = inl (
        refl,
        omega (arith, length-image b.entries),
        slice-append_left offset (size_of b.entries - offset) (image b.entries) (joined ds)
            (omega (arith, length-image b.entries)),
      );
    },
  )

  locate_in_data :
      (offset : ℕ)
      → size_of b.entries ≤ offset
      → offset < size_of b.entries + data_size b.entries
      → (loc : NspLocation) × (locate (built b) offset ≡ ok loc)
        × Serves (image b.entries) ds offset loc
  unfolding locate
  locate_in_data offset lo hi =
      let pos = offset - size_of b.entries in
      let (loc, r, v) = locate_entry_lem 0 b.entries ds 0 pos c (omega arith) (omega arith) in
      let start : offset ≡ length (image b.entries) + pos = omega (arith, length-image b.entries) in
      let zero_add : 0 + pos ≡ pos = omega arith in
      let index : loc.entry_index ≡ v.index = omega (arith, v.counts) in
      (
        loc,
        ground (arith, rw zero_add at r),
        record {
          progress = v.progress;
          fits =
              omega (
                arith,
                v.fits,
                length-append (image b.entries) (joined ds),
                length-image b.entries,
              );
          source = inr (
            v.outside,
            (
              v.piece,
              ap (get_elem? ds) index ∙ v.piece_is,
              v.inside,
              ap (λ k. slice k loc.run file) start
                  ∙ slice-length_add-append (image b.entries) (joined ds) pos loc.run
                  ∙ v.same,
            ),
          );
        },
      )

  locate_in_file :
      (offset : ℕ)
      → ((offset < (built b).total_size)
          × ((loc : NspLocation) × (locate (built b) offset ≡ ok loc)
              × Serves (image b.entries) ds offset loc))
        ⊎ (((built b).total_size ≤ offset) × (locate (built b) offset ≡ err out_of_range))
  unfolding locate
  locate_in_file offset = elim (dec_lt offset (size_of b.entries + data_size b.entries)) [
    | no past ↦ inr (omega arith, ground arith)
    | yes h ↦ inl (
      h,
      elim (dec_lt offset (size_of b.entries)) [
        | yes lo ↦ locate_in_image offset lo
        | no hi ↦ locate_in_data offset (omega arith) h
      ],
    )
  ]

-- On a builder that was finalised, with `ds` the data of its entries, every offset below the total
-- size is located: the run is not empty, and the bytes of the virtual file from that offset on are
-- those of the header or of one entry at the place given, up to the end of that region. From the
-- total size on the answer is `out_of_range`.
pub locate-Serves :
    {b b' : NspBuilder} (ds : List Bytes) (offset : ℕ)
    → IsOpen b
    → finalize b ≡ (ok tt, b')
    → Contents b.entries ds
    → ((offset < b'.total_size)
        × ((loc : NspLocation) × (locate b' offset ≡ ok loc)
            × Serves (image b.entries) ds offset loc))
      ⊎ ((b'.total_size ≤ offset) × (locate b' offset ≡ err out_of_range))
locate-Serves {b} {b'} ds offset o h c =
    let (e, fits) = finalize-built o h in rw e (locate_in_file b ds c fits offset)
