-- ===== src/Headers.antt =====
-- What the readers of src/format that take a whole file share.
use nx_nexus.Base.{◌≢◌, Bytes}
use nx_nexus.Outcome.{fault}
use nx_nexus.Cnmt
use nx_nexus.Ticket
use nx_nexus.Xci
use nx_nexus.Cnmt.Parsed.{manifest-ne-fault}
use nx_nexus.Ticket.Bounds.{ticket_init-ne-fault}
use nx_nexus.Xci.Bounds.{xci_header-ne-fault}
mod Tests

-- `cnmtInit`, `ticketInit` and `xciParseHeader` read inside the buffer, whatever it holds and however
-- long it is.
pub headers-ne-fault :
    (blob : Bytes)
    → (Cnmt.init blob ≢ fault) × ((Ticket.init blob ≢ fault) × (Xci.parse_header blob ≢ fault))
headers-ne-fault blob =
    (manifest-ne-fault blob, (ticket_init-ne-fault blob, xci_header-ne-fault blob))
