-- ===== src/Headers/Tests.antt =====
-- A truncated ticket.
use nx_nexus.Base.{◌≢◌, ◌∷◌, replicate, Bytes}
use nx_nexus.Outcome.{fault}
use nx_nexus.Cnmt
use nx_nexus.Ticket
use nx_nexus.Xci
use nx_nexus.Headers.{headers-ne-fault}

abbrev truncated_ticket : Bytes
truncated_ticket = 6 ∷ 0 ∷ 1 ∷ 0 ∷ replicate 0x2FB 1

headers-ne-fault_example :
    (Cnmt.init truncated_ticket ≢ fault)
    × ((Ticket.init truncated_ticket ≢ fault) × (Xci.parse_header truncated_ticket ≢ fault))
headers-ne-fault_example = headers-ne-fault truncated_ticket
