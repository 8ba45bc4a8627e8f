-- ===== src/Hex/RoundTrip.antt =====
-- An id that was formatted parses back to itself, and the parser accepts nothing but hex digits.
use nx_nexus.Base.{
  ℕ, zero, suc, ◌+◌, ◌-◌, ◌*◌, ◌/◌, ◌%◌, ◌<◌, ◌≤◌, ◌≡◌, ◌↔◌, ◌⊎◌, refl, [], ◌∷◌, some, arith,
  length, Bytes, IsBytes, All, inl, inr, Option-cases,
}
use nx_nexus.Hex.{
  hex_char, hex_chars, format_id, hex_nibble, hex_byte, parse_bytes, parse_content_id,
}

hex_byte-hex_char :
    (b : ℕ) → b < 256 → hex_byte (hex_char (b / 16 % 16)) (hex_char (b % 16)) ≡ some b
unfolding hex_byte hex_char
hex_byte-hex_char b h = ground arith

length-hex_chars : (bs : Bytes) → length (hex_chars bs) ≡ 2 * length bs
unfolding hex_chars
length-hex_chars [] = refl
length-hex_chars (b ∷ bs) = omega (arith, length-hex_chars bs)

parse_bytes-hex_chars : (bs : Bytes) → IsBytes bs → parse_bytes (length bs) (hex_chars bs) ≡ some bs
unfolding parse_bytes hex_chars
parse_bytes-hex_chars [] h = refl
parse_bytes-hex_chars (b ∷ bs) h =
    ground (arith, hex_byte-hex_char b h.0, parse_bytes-hex_chars bs h.1)

-- A content id that is formatted into a buffer of at least 33 bytes is parsed back unchanged.
pub parse-format_id :
    (id : Bytes) (out_size : ℕ)
    → IsBytes id
    → length id ≡ 16
    → 33 ≤ out_size
    → (text : Bytes) × (format_id id out_size ≡ some text) × (parse_content_id text ≡ some id)
unfolding format_id parse_content_id
parse-format_id id out_size b l o = (
  hex_chars id,
  ground arith,
  ground (arith, length-hex_chars id, rw l at (parse_bytes-hex_chars id b)),
)

-- A hex digit, of either case.
abbrev pub IsHex : ℕ → Type 0
IsHex c = ((b'0' ≤ c) × (c ≤ b'9')) ⊎ (((b'a' ≤ c) × (c ≤ b'f')) ⊎ ((b'A' ≤ c) × (c ≤ b'F')))

hex_byte-eq-some : (c d : ℕ) {b : ℕ} → hex_byte c d ≡ some b → IsHex c × IsHex d
unfolding hex_byte
hex_byte-eq-some c d h = ground arith

hex_nibble-IsHex : (c : ℕ) → IsHex c → (b : ℕ) × (hex_nibble c ≡ some b)
unfolding hex_nibble
hex_nibble-IsHex c (inl h) = (c - b'0', ground arith)
hex_nibble-IsHex c (inr (inl h)) = (c - b'a' + 10, ground arith)
hex_nibble-IsHex c (inr (inr h)) = (c - b'A' + 10, ground arith)

hex_byte-IsHex : (c d : ℕ) → IsHex c → IsHex d → (b : ℕ) × (hex_byte c d ≡ some b)
unfolding hex_byte
hex_byte-IsHex c d hc hd =
    let (a, ea) = hex_nibble-IsHex c hc in
    let (b, eb) = hex_nibble-IsHex d hd in ((a * 16 + b) % 256, ground (arith, ea, eb))

parse_bytes-IsHex :
    (n : ℕ) (cs : Bytes)
    → length cs ≡ 2 * n
    → All IsHex cs
    → (bs : Bytes) × (parse_bytes n cs ≡ some bs)
unfolding parse_bytes
parse_bytes-IsHex zero cs l h = ([], refl)
parse_bytes-IsHex (suc n) [] l h = absurd (omega arith)
parse_bytes-IsHex (suc n) (c ∷ []) l h = absurd (omega arith)
parse_bytes-IsHex (suc n) (c ∷ d ∷ cs) l (hc, (hd, hs)) =
    let (b, eb) = hex_byte-IsHex c d hc hd in
    let (bs, es) = parse_bytes-IsHex n cs (omega arith) hs in (b ∷ bs, ground (arith, eb, es))

IsHex-of_parse_bytes :
    (n : ℕ) (cs : Bytes) {bs : Bytes}
    → length cs ≡ 2 * n
    → parse_bytes n cs ≡ some bs
    → All IsHex cs
unfolding parse_bytes
IsHex-of_parse_bytes zero [] l h = tt
IsHex-of_parse_bytes zero (c ∷ cs) l h = absurd (omega arith)
IsHex-of_parse_bytes (suc n) [] l h = tt
IsHex-of_parse_bytes (suc n) (c ∷ []) l h = absurd (omega arith)
IsHex-of_parse_bytes (suc n) (c ∷ d ∷ cs) l h = elim (Option-cases (hex_byte c d)) [
  | inl e ↦ absurd (ground (arith, e, h))
  | inr (b, e) ↦ elim (Option-cases (parse_bytes n cs)) [
    | inl e' ↦ absurd (ground (arith, e, e', h))
    | inr (bs', e') ↦
        let (hc, hd) = hex_byte-eq-some c d e in
        (hc, (hd, IsHex-of_parse_bytes n cs (omega arith) e'))
  ]
]

-- The parser accepts exactly the texts of 32 hex digits.
pub parse_content_id_iff :
    (cs : Bytes)
    → ((id : Bytes) × (parse_content_id cs ≡ some id)) ↔ ((length cs ≡ 32) × All IsHex cs)
unfolding parse_content_id
parse_content_id_iff cs = (
  (λ (id, h).
      let l : length cs ≡ 32 = ground arith in
      (l, IsHex-of_parse_bytes 16 cs {bs = id} l (ground arith))),
  (λ (l, h). let (bs, e) = parse_bytes-IsHex 16 cs l h in (bs, ground (arith, e))),
)
