-- ===== src/Ncz/Counter.antt =====
-- The AES-CTR counter: its low half counts the sixteen-byte blocks of the NCA, most significant byte
-- first, so a cipher that runs on over a section stays in step with a counter built anew.
use nx_nexus.Base.{
  ℕ, ◌+◌, ◌*◌, ◌/◌, ◌^◌, ◌<◌, ◌≡◌, refl, ap, sym, length-append, ◌∙◌, [], ◌∷◌, ◌++◌, arith, length,
  take, drop, Bytes, length-take, take-length-append, drop-length-append,
}
use nx_nexus.Ncz.{NczSection, build_counter, block_bytes}

-- The number that bytes spell, most significant first, after `acc`.
abbrev pub be_from : ℕ → Bytes → ℕ
be_from acc [] = acc
be_from acc (b ∷ bs) = be_from (acc * 256 + b) bs

be-block_bytes : (block : ℕ) → block < 2 ^ 64 → be_from 0 (block_bytes block) ≡ block
unfolding block_bytes
be-block_bytes block h = omega arith

length-block_bytes : (block : ℕ) → length (block_bytes block) ≡ 8
unfolding block_bytes
length-block_bytes block = refl

-- The counter for an offset is the section's own first eight bytes, followed by the block index of
-- the offset as a big-endian number of eight bytes.
pub build_counter_lem :
    (s : NczSection) (offset : ℕ)
    → length s.counter ≡ 16
    → offset < 2 ^ 64
    → (take 8 (build_counter s offset) ≡ take 8 s.counter)
      × (be_from 0 (drop 8 (build_counter s offset)) ≡ offset / 16)
      × (length (build_counter s offset) ≡ 16)
unfolding build_counter
build_counter_lem s offset l h =
    let a = take 8 s.counter in
    let b = block_bytes (offset / 2 ^ 4) in
    let eight : length a ≡ 8 = omega (arith, length-take 8 s.counter) in
    (
      ap (λ k. take k (a ++ b)) (sym eight) ∙ take-length-append a b,
      ap (λ k. be_from 0 (drop k (a ++ b))) (sym eight)
          ∙ ap (be_from 0) (drop-length-append a b)
          ∙ be-block_bytes (offset / 2 ^ 4) (omega arith),
      omega (arith, length-append a b, length-block_bytes (offset / 2 ^ 4)),
    )
