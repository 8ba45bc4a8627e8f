-- ===== src/Mtp/Serve.antt =====
-- Transactions one after the other: `mtpServerRunOnce` of src/mtp/mtp_server.c.
use nx_nexus.Base.{ℕ, ◌+◌, ◌%◌, ◌^◌, true, false}
use nx_nexus.Mtp.Container.{MtpContainer}
use nx_nexus.Mtp.World.{Device, Stores, World, usb_read, Step, goes, returns, Never}
use nx_nexus.Mtp.Handle.{handle_command, count_operation, run_once}
use nx_nexus.Mtp.Keeps
use nx_nexus.Mtp.Keeps.{Keeps, after, steps}
use nx_nexus.Mtp.Bears.{Bears}

-- What any number of transactions comes to.
pub data Served {D : Device} {S : Stores} (w : World D S) : World D S → Type 0 where
  at_rest : Served w w
  serves : {w' : World D S} → Served w w' → Served w (after (run_once w'))

module _ {D : Device} {S : Stores} {P : World D S → Type 0} (b : Bears P)
    (renumber : (w : World D S) (t : ℕ)
      → P w
      → P (record w { server = record (w.server) { transaction_id = t } }))
    (handles : (cmd : MtpContainer) → Keeps P (handle_command cmd)) where
  counted : (s : Step D S Never) → P (after s) → P (after (count_operation s))
  counted (goes a w) p = p
  counted (returns true w) p =
      b.stats w (λ stats. record stats { operations = (stats.operations + 1) % 2 ^ 32 }) p
  counted (returns false w) p = p

  counted-Keeps : (cmd : MtpContainer) → Keeps P (λ w. count_operation (handle_command cmd w))
  counted-Keeps cmd = record {
    keeps = λ w p. counted (handle_command cmd w) ((handles cmd).keeps w p);
  }

  usb_read-Serve : (n : ℕ) → Keeps P (usb_read n)
  usb_read-Serve = Keeps.usb_read-Keeps P (b.device) (b.stats)

  pub run_once-Keeps : Keeps P run_once
  unfolding run_once
  run_once-Keeps = search (renumber, counted-Keeps, usb_read-Serve, steps) depth 30

  pub Served-keeps : (w w' : World D S) → Served w w' → P w → P w'
  Served-keeps w _ at_rest p = p
  Served-keeps w _ (serves {w' = w'} s) p = run_once-Keeps.keeps w' (Served-keeps w w' s p)
