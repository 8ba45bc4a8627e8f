-- ===== src/NspBuilder/Valid.antt =====
-- The builder while files are added to it, and the round trip through the parser.
use mathlib.Core.Path.{subst}
use nx_nexus.Base.{
  ℕ, ◌+◌, ◌^◌, ◌≤◌, ◌<◌, ◌≡◌, ◌≢◌, refl, sym, ap, ◌∙◌, List, [], ◌∷◌, ◌++◌, some, inl, inr, arith,
  length, take, lt_of_get_elem?, length-append, Bytes, false,
}
use nx_nexus.Outcome.{Outcome, ok, err, fault}
use nx_nexus.CString.{IsString}
use nx_nexus.PartitionFs
use nx_nexus.NspBuilder.{NspBuilder, NspBuilderEntry, init, add, finalize, header, count}
use nx_nexus.NspBuilder.Image.{data_size, placed}
use nx_nexus.NspBuilder.Build.{size_of, built, finalize_cases}
use nx_nexus.NspBuilder.Pieces.{Allowed, AllAllowed, AllAllowed-Sized, part}
use nx_nexus.NspBuilder.RoundTrip.{
  ReadsBack, parsed, init-image, get_entry_ok, take-built, length-placed,
}

-- A builder that is not finalised, and whose array and buffer are in the range of their C types.
pub record IsOpen (b : NspBuilder) : Type 0 where
  pub not_final : b.finalised ≡ false
  pub few : count b ≤ 64
  pub allowed : AllAllowed b.entries
  pub buffer : length b.header < 2 ^ 64

-- `nspBuilderInit` gives an open builder.
pub init-IsOpen : (buf : Bytes) → length buf < 2 ^ 64 → IsOpen (init buf)
unfolding init
init-IsOpen buf h = record { not_final = refl; few = omega arith; allowed = tt; buffer = h }

AllAllowed-append :
    (es : List NspBuilderEntry) (e : NspBuilderEntry)
    → AllAllowed es
    → Allowed e
    → AllAllowed (es ++ (e ∷ []))
AllAllowed-append [] e h a = (a, tt)
AllAllowed-append (d ∷ es) e h a = (h.0, AllAllowed-append es e h.1 a)

-- What `nspBuilderAdd` does to an open builder: it appends the entry, or it changes nothing.
abbrev Added : NspBuilder → NspBuilderEntry → Outcome (Unit {0}) × NspBuilder → Type 0
Added b e (ok _, b') =
    (b' ≡ record b { entries = b.entries ++ (e ∷ []) }) × Allowed e × (count b < 64)
Added b e (err _, b') = b' ≡ b
Added b e (fault, b') = ⊥

add-Added :
    (b : NspBuilder) (name : Bytes) (size : ℕ)
    → IsString name
    → size < 2 ^ 64
    → Added b (record { name = name; size = size; data_offset = 0 }) (add b name size)
unfolding add
add-Added b name size s h = ground arith

Added-IsOpen :
    (b : NspBuilder) (e : NspBuilderEntry) (r : Outcome (Unit {0}) × NspBuilder)
    → IsOpen b
    → Added b e r
    → IsOpen r.1
Added-IsOpen b e (ok _, b') o (eq, allowed, room) = subst IsOpen (sym eq) (record {
  not_final = o.not_final;
  few = omega (arith, length-append b.entries (e ∷ []));
  allowed = AllAllowed-append b.entries e o.allowed allowed;
  buffer = o.buffer;
})
Added-IsOpen b e (err _, b') o eq = subst IsOpen (sym eq) o
Added-IsOpen b e (fault, b') o h = absurd h

-- `nspBuilderAdd` of a C string and a `u64` keeps a builder open, whether or not it takes the file.
pub add-IsOpen :
    {b : NspBuilder} (name : Bytes) (size : ℕ)
    → IsOpen b
    → IsString name
    → size < 2 ^ 64
    → IsOpen (add b name size).1
add-IsOpen {b} name size o s h =
    Added-IsOpen b (record { name = name; size = size; data_offset = 0 }) (add b name size) o
      (add-Added b name size s h)

ne_nil : (b : NspBuilder) → b.finalised ≡ false → (finalize b).0 ≡ ok tt → b.entries ≢ []
unfolding finalize
ne_nil b f h e = ground (arith, ap length e)

-- A successful finalise of an open builder is the one case of `finalize_cases`.
pub finalize-built :
    {b b' : NspBuilder}
    → IsOpen b
    → finalize b ≡ (ok tt, b')
    → (b' ≡ built b) × (size_of b.entries + data_size b.entries < 2 ^ 64)
finalize-built {b} {b'} o h =
    elim (finalize_cases b o.not_final
      (ne_nil b o.not_final (ap (λ (r : Outcome (Unit {0}) × NspBuilder). r.0) h))
      (AllAllowed-Sized b.entries o.allowed) o.buffer) [
        | inl c ↦ cc (h, c.1)
        | inr (inl c) ↦ cc (h, c.2)
        | inr (inr c) ↦ (sym (ap (λ (r : Outcome (Unit {0}) × NspBuilder). r.1) (sym c.2 ∙ h)), c.1)
      ]

built-ReadsBack :
    (b : NspBuilder)
    → IsOpen b
    → size_of b.entries + data_size b.entries < 2 ^ 64
    → ReadsBack (built b) (take (built b).header_size (built b).header)
unfolding PartitionFs.get_entry_count PartitionFs.get_data_offset
built-ReadsBack b o h = record {
  ctx = parsed b.entries o.few o.allowed;
  parses = ap PartitionFs.init (take-built b) ∙ init-image b.entries o.few o.allowed;
  count_is = sym (length-placed 0 b.entries);
  data_is = refl;
  entries_are = λ j e g.
      let lt = lt_of_get_elem? (placed 0 b.entries) j g in
      let p = part 0 0 b.entries j o.allowed g in
      get_entry_ok b.entries o.few o.allowed j (omega (arith, length-placed 0 b.entries)) p
        (omega (arith, p.in_data));
}

-- After a successful finalise of an open builder, the header handed to the client parses, with the
-- count, the data offset, and every name, offset and size that the builder holds.
pub finalize-parses :
    {b b' : NspBuilder}
    → IsOpen b
    → finalize b ≡ (ok tt, b')
    → (image : Bytes) × (header b' ≡ some image) × ReadsBack b' image
unfolding header
finalize-parses {b} o h =
    let (e, fits) = finalize-built o h in
    rw e (take (size_of b.entries) (built b).header, refl, built-ReadsBack b o fits)
