-- ===== src/Hex/Tests.antt =====
-- An id to text and back.
use nx_nexus.Base.{◌≡◌, ◌↔◌, refl, [], ◌∷◌, some, none, arith, replicate, length, All, Bytes}
use nx_nexus.Hex.{format_id, parse_content_id, parse_bytes, hex_byte, hex_chars, hex_char}
use nx_nexus.Hex.RoundTrip.{parse-format_id, parse_content_id_iff, IsHex}

abbrev id : Bytes
id = 0x01 ∷ 0xfa ∷ replicate 14 0x2b

abbrev text : Bytes
text =
    b'0'
    ∷ b'1'
    ∷ b'f'
    ∷ b'a'
    ∷ (b'2' ∷ b'b' ∷ b'2' ∷ b'b' ∷ b'2' ∷ b'b' ∷ b'2' ∷ b'b' ∷ b'2' ∷ b'b' ∷ b'2' ∷ b'b' ∷ b'2'
        ∷ b'b' ∷ b'2' ∷ b'b' ∷ b'2' ∷ b'b' ∷ b'2' ∷ b'b' ∷ b'2' ∷ b'b' ∷ b'2' ∷ b'b' ∷ b'2' ∷ b'b'
        ∷ b'2' ∷ b'b' ∷ [])

format_text : format_id id 33 ≡ some text
unfolding format_id hex_chars hex_char
format_text = refl

no_room : format_id id 32 ≡ some []
unfolding format_id
no_room = refl

not_hex : parse_content_id (b'g' ∷ replicate 31 b'0') ≡ none
unfolding parse_content_id parse_bytes hex_byte
not_hex = refl

parse-format_id_example : (t : Bytes) × (format_id id 64 ≡ some t) × (parse_content_id t ≡ some id)
parse-format_id_example = parse-format_id id 64 (omega arith) refl (omega arith)

parse_text : parse_content_id text ≡ some id
unfolding parse_content_id parse_bytes hex_byte
parse_text = refl

parse_content_id_iff_example :
    ((b : Bytes) × (parse_content_id text ≡ some b)) ↔ ((length text ≡ 32) × All IsHex text)
parse_content_id_iff_example = parse_content_id_iff text
