-- ===== src/Ticket.antt =====
-- src/format/ticket.c and include/nexus/ticket.h: the ticket that carries a title's key.
pub mod Bounds
mod Tests
use nx_nexus.Base.{
  ℕ, ◌+◌, ◌*◌, ◌%◌, ◌^◌, Bool, ◌||◌, List, [], ◌∷◌, Option, none, some, ltb, ◌==◌, if◌then◌else◌,
  length, take, get_elem?, Bytes,
}
use nx_nexus.Outcome.{Outcome, ok, err, fault, truncated, unsupported, reject, ◌>>=◌, ◌>>◌}
use nx_nexus.Format.{read, rd_u8, rd_u16, rd_u32, rd_u64}
use nx_nexus.Hex.{format_id}

abbrev pub ticket_data_size : ℕ
ticket_data_size = 0x2C0

abbrev pub key_type_common : ℕ
key_type_common = 0

pub record TicketContext : Type 0 where
  pub blob : Bytes
  pub sig_type : ℕ
  pub sig_data_size : ℕ
  pub total_size : ℕ
  pub format_version : ℕ
  pub key_type : ℕ
  pub ticket_version : ℕ
  pub license_type : ℕ
  pub master_key_revision : ℕ
  pub properties : ℕ
  pub ticket_id : ℕ
  pub device_id : ℕ
  pub rights_id : Bytes
  pub account_id : ℕ

-- The sizes of the signature and of its padding, by the values of `TicketSigType`.
unfoldable pub sig_and_pad : ℕ → Option (ℕ × ℕ)
sig_and_pad sig_type =
    if sig_type == 0x010000 || sig_type == 0x010003
    then some (0x200, 0x3C)
    else if sig_type == 0x010001 || sig_type == 0x010004
    then some (0x100, 0x3C)
    else if sig_type == 0x010002 || sig_type == 0x010005
    then some (0x3C, 0x40)
    else if sig_type == 0x010006
    then some (0x14, 0x28)
    else none

unfoldable pub get_sig_data_size : ℕ → Outcome ℕ
get_sig_data_size sig_type = elim (sig_and_pad sig_type) [
  | none ↦ err unsupported
  | some s ↦ ok (4 + s.0 + s.1)
]

-- The reads after the checks, where `td` is the offset of the ticket data.
unfoldable pub read_ticket : Bytes → ℕ → ℕ → Outcome TicketContext
read_ticket blob sig_type td = do
  format_version ← rd_u8 blob (td + 0x140)
  key_type ← rd_u8 blob (td + 0x141)
  ticket_version ← rd_u16 blob (td + 0x142)
  license_type ← rd_u8 blob (td + 0x144)
  master_key_revision ← rd_u8 blob (td + 0x145)
  properties ← rd_u16 blob (td + 0x146)
  ticket_id ← rd_u64 blob (td + 0x150)
  device_id ← rd_u64 blob (td + 0x158)
  account_id ← rd_u32 blob (td + 0x170)
  rights_id ← read 0x10 blob (td + 0x160)
  ok (record {
    blob = blob;
    sig_type = sig_type;
    sig_data_size = td;
    total_size = td + ticket_data_size;
    format_version = format_version;
    key_type = key_type;
    ticket_version = ticket_version;
    license_type = license_type;
    master_key_revision = master_key_revision;
    properties = properties;
    ticket_id = ticket_id;
    device_id = device_id;
    rights_id = rights_id;
    account_id = account_id;
  })

unfoldable pub init : Bytes → Outcome TicketContext
init blob = do
  reject (ltb (length blob) 4) truncated
  sig_type ← rd_u32 blob 0
  sig_data_size ← get_sig_data_size sig_type
  reject (ltb (length blob) (sig_data_size + ticket_data_size)) truncated
  read_ticket blob sig_type sig_data_size

-- The loop `id = (id << 8) | byte` on a `u64`, whose low eight bits are free after the shift.
unfoldable pub shift_in : ℕ → Bytes → ℕ
shift_in id [] = id
shift_in id (b ∷ bs) = shift_in (id * 256 % 2 ^ 64 + b) bs

unfoldable pub get_title_id : TicketContext → ℕ
get_title_id ctx = shift_in 0 (take 8 ctx.rights_id)

unfoldable pub get_key_generation : TicketContext → Option ℕ
get_key_generation ctx = get_elem? ctx.rights_id 15

unfoldable pub is_common : TicketContext → Bool
is_common ctx = ctx.key_type == key_type_common

unfoldable pub format_rights_id : TicketContext → ℕ → Option Bytes
format_rights_id ctx out_size = format_id ctx.rights_id out_size
