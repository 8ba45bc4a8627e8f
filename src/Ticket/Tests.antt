-- ===== src/Ticket/Tests.antt =====
-- A ticket with an HMAC-SHA1 signature, of which every byte but the type is 1.
use nx_nexus.Base.{◌≡◌, refl, ◌∷◌, ◌++◌, some, arith, replicate, Bytes}
use nx_nexus.Outcome.{ok}
use nx_nexus.Format.{rd, read, le}
use nx_nexus.Ncz.{block_bytes}
use nx_nexus.Ticket.{
  TicketContext, sig_and_pad, get_sig_data_size, read_ticket, init, get_title_id,
  get_key_generation,
}
use nx_nexus.Ticket.Bounds.{IsTicket, init-IsTicket, get_title_id_lem}

abbrev ticket : Bytes
ticket = 6 ∷ 0 ∷ 1 ∷ 0 ∷ replicate 0x2FC 1

abbrev context : TicketContext
context = record {
  blob = ticket;
  sig_type = 0x010006;
  sig_data_size = 0x40;
  total_size = 0x300;
  format_version = 1;
  key_type = 1;
  ticket_version = 0x0101;
  license_type = 1;
  master_key_revision = 1;
  properties = 0x0101;
  ticket_id = 0x0101010101010101;
  device_id = 0x0101010101010101;
  rights_id = replicate 16 1;
  account_id = 0x01010101;
}

parse_ticket : init ticket ≡ ok context
unfolding init get_sig_data_size sig_and_pad read_ticket rd read le
parse_ticket = refl

key_generation : get_key_generation context ≡ some 1
unfolding get_key_generation
key_generation = refl

init-IsTicket_example : IsTicket ticket context
init-IsTicket_example = init-IsTicket ticket parse_ticket

rights_split : context.rights_id ≡ block_bytes 0x0101010101010101 ++ replicate 8 1
unfolding block_bytes
rights_split = refl

get_title_id_example : get_title_id context ≡ 0x0101010101010101
get_title_id_example =
    get_title_id_lem context 0x0101010101010101 (replicate 8 1) (omega arith) rights_split
