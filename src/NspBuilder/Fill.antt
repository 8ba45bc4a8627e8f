-- ===== src/NspBuilder/Fill.antt =====
-- One round of the loop, and the whole loop, on a header whose remaining slots and names are zero.
use nx_nexus.Base.{
  ℕ, suc, ◌+◌, ◌*◌, ◌^◌, ◌≤◌, ◌<◌, ◌≡◌, refl, ap, ◌∙◌, List, [], ◌∷◌, ◌++◌, append_assoc, arith,
  length, length-append, length-replicate, Bytes,
}
use native.Mathlib.Decide.{dec_lt}
use nx_nexus.Outcome.{ok, err, overflow}
use nx_nexus.Format.{add_overflows}
use nx_nexus.Format.Words.{add_overflows_iff}
use nx_nexus.NspBuilder.{NspBuilderEntry, Filled, stopped, and_entry, write, write_entry, fill}
use nx_nexus.NspBuilder.Image.{
  zeros, slot, slots, names, blank_slots, blank_names, data_size, placed, write_piece,
  write_fields_lem, length-slot,
}

-- The header while the loop runs: `a` is done, `n` are the names done, `r` lies behind the table.
abbrev pub pending : Bytes → Bytes → List NspBuilderEntry → Bytes → Bytes
pending a n es r = a ++ (blank_slots es ++ (n ++ (blank_names es ++ r)))

length-blank_slots : (es : List NspBuilderEntry) → length (blank_slots es) ≡ 24 * length es
length-blank_slots [] = refl
length-blank_slots (e ∷ es) =
    omega (arith, length-append (zeros 24) (blank_slots es), length-blank_slots es)

write_name :
    (off : ℕ) (s a c : Bytes)
    → off ≡ length a
    → write off (s ++ (0 ∷ [])) (a ++ (zeros (length s + 1) ++ c))
      ≡ ok (a ++ ((s ++ (0 ∷ [])) ++ c))
write_name off s a c e =
    write_piece off (s ++ (0 ∷ [])) a (zeros (length s + 1)) c e
      (omega (arith, length-append s (0 ∷ []), length-replicate {A = ℕ} (length s + 1) 0))

write_entry_lem :
    (total i off at : ℕ) (e : NspBuilderEntry) (es : List NspBuilderEntry) (a n r : Bytes)
    → length a ≡ 0x10 + 24 * i
    → i + suc (length es) ≡ total
    → length n ≡ at
    → write_entry total (pending a n (e ∷ es) r) i off at e
      ≡ ok (pending (a ++ slot off e.size at) (n ++ (e.name ++ (0 ∷ []))) es r)
unfolding write_entry
write_entry_lem total i off at e es a n r ha hi hn =
    rw
      (write_fields_lem (0x10 + i * 24) off e.size at a
        (blank_slots es ++ (n ++ (blank_names (e ∷ es) ++ r))) (omega arith))
      (ap (write (0x10 + total * 24 + at) (e.name ++ (0 ∷ []))) (simp append_assoc)
        ∙ write_name (0x10 + total * 24 + at) e.name
            (a ++ (slot off e.size at ++ (blank_slots es ++ n))) (blank_names es ++ r)
            (omega (
              arith,
              length-append a (slot off e.size at ++ (blank_slots es ++ n)),
              length-append (slot off e.size at) (blank_slots es ++ n),
              length-append (blank_slots es) n,
              length-slot off e.size at,
              length-blank_slots es,
            ))
        ∙ ap ok (simp append_assoc))

-- What the builder holds is in the range of the C types.
abbrev pub Sized : List NspBuilderEntry → Type 0
Sized [] = Unit
Sized (e ∷ es) = (e.size < 2 ^ 64) × Sized es

fill_step :
    (total i off at : ℕ) (e : NspBuilderEntry) (es : List NspBuilderEntry) (h h' : Bytes)
    → write_entry total h i off at e ≡ ok h'
    → off + e.size < 2 ^ 64
    → fill total h i off at (e ∷ es)
      ≡ and_entry
          (record e { data_offset = off })
          (fill total h' (i + 1) (off + e.size) (at + (length e.name + 1)) es)
unfolding fill
fill_step total i off at e es h h' w lt =
    ground (arith, w, (add_overflows_iff off e.size (off + e.size) (omega arith) (omega arith)).1)

fill_stop :
    (total i off at : ℕ) (e : NspBuilderEntry) (es : List NspBuilderEntry) (h h' : Bytes)
    → write_entry total h i off at e ≡ ok h'
    → off < 2 ^ 64
    → e.size < 2 ^ 64
    → 2 ^ 64 ≤ off + e.size
    → (fill total h i off at (e ∷ es)).status ≡ err overflow
unfolding fill add_overflows
fill_stop total i off at e es h h' w ho hs big = ground (arith, w)

-- Where the data offsets fit a `u64`, the loop lays every entry out.
pub fill_lem :
    (total i off at : ℕ) (es : List NspBuilderEntry) (a n r : Bytes)
    → length a ≡ 0x10 + 24 * i
    → i + length es ≡ total
    → length n ≡ at
    → off + data_size es < 2 ^ 64
    → fill total (pending a n es r) i off at es
      ≡ stopped
          (ok (off + data_size es))
          (a ++ (slots off at es ++ (n ++ (names es ++ r))))
          (placed off es)
unfolding fill
fill_lem total i off at [] a n r ha hi hn h =
    ap (λ k. stopped (ok k) (a ++ (n ++ r)) []) (omega arith)
fill_lem total i off at (e ∷ es) a n r ha hi hn h =
    let s = slot off e.size at in
    let name = e.name ++ (0 ∷ []) in
    let at' = at + (length e.name + 1) in
    fill_step total i off at e es _ _
      (write_entry_lem total i off at e es a n r ha (omega arith) hn) (omega arith)
    ∙ ap (and_entry (record e { data_offset = off })) (
        fill_lem total (i + 1) (off + e.size) at' es (a ++ s) (n ++ name) r
          (omega (arith, length-append a s, length-slot off e.size at)) (omega arith)
          (omega (arith, length-append n name, length-append e.name (0 ∷ []))) (omega arith))
    ∙ (λ j. stopped (ok (sums j)) (image j) (placed off (e ∷ es)))
  where
    sums : off + e.size + data_size es ≡ off + data_size (e ∷ es)
    sums = omega arith

    image :
        (a ++ slot off e.size at)
          ++ (slots (off + e.size) (at + (length e.name + 1)) es
              ++ ((n ++ (e.name ++ (0 ∷ []))) ++ (names es ++ r)))
        ≡ a ++ (slots off at (e ∷ es) ++ (n ++ (names (e ∷ es) ++ r)))
    image = simp append_assoc

-- Where they do not fit, it stops with `overflow`.
pub fill_overflow :
    (total i off at : ℕ) (es : List NspBuilderEntry) (a n r : Bytes)
    → length a ≡ 0x10 + 24 * i
    → i + length es ≡ total
    → length n ≡ at
    → off < 2 ^ 64
    → Sized es
    → 2 ^ 64 ≤ off + data_size es
    → (fill total (pending a n es r) i off at es).status ≡ err overflow
fill_overflow total i off at [] a n r ha hi hn ho hs h = absurd (omega arith)
fill_overflow total i off at (e ∷ es) a n r ha hi hn ho hs h =
    let w = write_entry_lem total i off at e es a n r ha (omega arith) hn in
    let s = slot off e.size at in
    let name = e.name ++ (0 ∷ []) in
    elim (dec_lt (off + e.size) (2 ^ 64)) [
      | no big ↦ fill_stop total i off at e es _ _ w ho hs.0 (omega arith)
      | yes fits ↦
          ap (λ (x : Filled). x.status) (fill_step total i off at e es _ _ w fits)
          ∙ fill_overflow total (i + 1) (off + e.size) (at + (length e.name + 1)) es (a ++ s)
              (n ++ name) r (omega (arith, length-append a s, length-slot off e.size at))
              (omega arith) (omega (arith, length-append n name, length-append e.name (0 ∷ [])))
              fits hs.1 (omega arith)
    ]
