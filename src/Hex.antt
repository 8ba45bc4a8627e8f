-- ===== src/Hex.antt =====
-- Ids as text: `cnmtFormatContentId` and `ticketFormatRightsId`, which are one algorithm on sixteen
-- bytes, and `nexusInstallParseContentId`, which reads the text back.
pub mod RoundTrip
mod Tests
use nx_nexus.Base.{
  ℕ, zero, suc, ◌+◌, ◌-◌, ◌*◌, ◌/◌, ◌%◌, Bool, true, false, ◌&&◌, List, [], ◌∷◌, Option, none, some,
  ltb, leb, ◌==◌, if◌then◌else◌, length, Bytes,
}

-- `CNMT_CONTENT_ID_SIZE`, `TICKET_RIGHTS_ID_SIZE` and `NEXUS_CONTENT_ID_SIZE`.
abbrev pub id_size : ℕ
id_size = 0x10

-- The table "0123456789abcdef" at an index below 16.
unfoldable pub hex_char : ℕ → ℕ
hex_char n = if ltb n 10 then b'0' + n else b'a' + (n - 10)

-- The loop over the bytes; `(b >> 4) & 0xF` and `b & 0xF`.
unfoldable pub hex_chars : Bytes → Bytes
hex_chars [] = []
hex_chars (b ∷ bs) = hex_char (b / 16 % 16) ∷ hex_char (b % 16) ∷ hex_chars bs

-- The string left in `out`; `none` when nothing is written.
unfoldable pub format_id : Bytes → ℕ → Option Bytes
format_id id out_size =
    if out_size == 0
    then none
    else if ltb out_size (id_size * 2 + 1)
    then some []
    else some (hex_chars id)

unfoldable pub hex_nibble : ℕ → Option ℕ
hex_nibble c =
    if leb b'0' c && leb c b'9'
    then some (c - b'0')
    else if leb b'a' c && leb c b'f'
    then some (c - b'a' + 10)
    else if leb b'A' c && leb c b'F'
    then some (c - b'A' + 10)
    else none

-- One round of the parsing loop: `(u8)((hi << 4) | lo)`, where the two nibbles do not overlap.
unfoldable pub hex_byte : ℕ → ℕ → Option ℕ
unfolding hex_nibble
hex_byte c d = elim (hex_nibble c) [
  | none ↦ none
  | some hi ↦ elim (hex_nibble d) [ none ↦ none | some lo ↦ some ((hi * 16 + lo) % 256) ]
]

-- The loop, with `n` bytes left to produce; the characters read are the `hex_len` of the caller.
unfoldable pub parse_bytes : ℕ → Bytes → Option Bytes
parse_bytes zero cs = some []
parse_bytes (suc n) (c ∷ d ∷ cs) = elim (hex_byte c d) [
  | none ↦ none
  | some b ↦ elim (parse_bytes n cs) [ none ↦ none | some bs ↦ some (b ∷ bs) ]
]
parse_bytes (suc n) _ = none

unfoldable pub parse_content_id : Bytes → Option Bytes
parse_content_id hex = if length hex == id_size * 2 then parse_bytes id_size hex else none
