-- ===== src/Mtp/Confined.antt =====
-- What the handlers of src/mtp/mtp_ops.c have the stores do.
use nx_nexus.Base.{ℕ, Bool, Option, none, some, Bytes}
use nx_nexus.Mtp.Container.{MtpContainer}
use nx_nexus.Mtp.Names.{IsChild}
use nx_nexus.Mtp.World.{Device, Stores, World, MtpServerState, modify_stores, on_stores}
use nx_nexus.Mtp.Session.{abandon_write, reset_session, op_open_session, op_close_session}
use nx_nexus.Mtp.Upload.{
  begin_upload, op_send_object_info, receive_upload, op_send_object, drop_pending, end_upload,
}
use nx_nexus.Mtp.Handle.{handlers, switch, abandon_pending, handle_command}
use nx_nexus.Mtp.Keeps.{Keeps, modify_stores-Keeps, on_stores-Keeps}
use nx_nexus.Mtp.Bears.{Bears}
use nx_nexus.Mtp.Ordinary.{ordinary, make_folder-Ordinary, recv_streamed-Ordinary}
use nx_nexus.Mtp.Serve.{Served, Served-keeps}
use nx_nexus.Mtp.Switch.{kept-Leads, switch-Leads}

-- From one state of the stores to another by calls of their hooks, in which every path at which
-- something is created, or to which it is moved, ends in a plain name.
pub data Confined (S : Stores) (s : S.State) : S.State → Type 0 where
  rest : Confined S s s
  refreshes : (s' : S.State) → Confined S s s' → Confined S s (S.refresh s')
  opens : (s' : S.State) → Confined S s s' → Confined S s (S.on_session_open s')
  informs : (s' : S.State) (id : ℕ) → Confined S s s' → Confined S s (S.get_info id s').1
  lists :
      (s' : S.State) (id : ℕ) (dir : Bytes)
      → Confined S s s'
      → Confined S s (S.enumerate id dir s').1
  looks :
      (s' : S.State) (id : ℕ) (path : Bytes) → Confined S s s' → Confined S s (S.stat id path s').1
  reads :
      (s' : S.State) (id : ℕ) (path : Bytes) (offset n : ℕ)
      → Confined S s s'
      → Confined S s (S.read id path offset n s').1
  pictures :
      (s' : S.State) (id : ℕ) (path : Bytes) (n : ℕ)
      → Confined S s s'
      → Confined S s (S.thumbnail id path n s').1
  begins :
      (s' : S.State) (id : ℕ) (path : Bytes) (size : ℕ)
      → IsChild path
      → Confined S s s'
      → Confined S s (S.write_begin id path size s').1
  writes :
      (s' : S.State) (id : ℕ) (chunk : Bytes)
      → Confined S s s'
      → Confined S s (S.write_chunk id chunk s').1
  finishes :
      (s' : S.State) (id : ℕ) (whole : Bool)
      → Confined S s s'
      → Confined S s (S.write_end id whole s')
  makes :
      (s' : S.State) (id : ℕ) (path : Bytes)
      → IsChild path
      → Confined S s s'
      → Confined S s (S.mkdir id path s').1
  removes :
      (s' : S.State) (id : ℕ) (path : Bytes) (is_dir : Bool)
      → Confined S s s'
      → Confined S s (S.remove id path is_dir s').1
  moves :
      (s' : S.State) (id : ℕ) (old new : Bytes) (is_dir : Bool)
      → IsChild new
      → Confined S s s'
      → Confined S s (S.move id old new is_dir s').1
  copies :
      (s' : S.State) (id : ℕ) (old new : Bytes)
      → IsChild new
      → Confined S s s'
      → Confined S s (S.copy id old new s').1

module _ (D : Device) (S : Stores) (s : S.State) where
  abbrev Held : World D S → Type 0
  Held w = Confined S s w.stores

  Held-Bears : Bears Held
  Held-Bears = record {
    device = λ w d p. p;
    stats = λ w f p. p;
    db = λ w t p. p;
    refreshes = λ w. refreshes w.stores;
    opens = λ w. opens w.stores;
    informs = λ w. informs w.stores;
    lists = λ w. lists w.stores;
    looks = λ w. looks w.stores;
    reads = λ w. reads w.stores;
    pictures = λ w. pictures w.stores;
    makes = λ w. makes w.stores;
    removes = λ w. removes w.stores;
    moves = λ w. moves w.stores;
    copies = λ w. copies w.stores;
  }

  write_begin-Held :
      (id : ℕ) (path : Bytes) (size : ℕ)
      → IsChild path
      → Keeps Held (on_stores {S = S} (S.write_begin id path size))
  write_begin-Held id path size child =
      on_stores-Keeps _ (λ w p. begins w.stores id path size child p)

  write_chunk-Held :
      (id : ℕ) (chunk : Bytes) → Keeps Held (on_stores {S = S} (S.write_chunk id chunk))
  write_chunk-Held id chunk = on_stores-Keeps _ (λ w p. writes w.stores id chunk p)

  write_end-Held :
      (id : ℕ) (whole : Bool) → Keeps Held (modify_stores {S = S} (S.write_end id whole))
  write_end-Held id whole = modify_stores-Keeps _ (λ w p. finishes w.stores id whole p)

  ruleset held = (write_begin-Held, write_chunk-Held, write_end-Held, Held-Bears, ordinary)

  abandon_write-Held : Keeps Held abandon_write
  unfolding abandon_write
  abandon_write-Held = search held depth 20

  drop_pending-Held : Keeps Held drop_pending
  unfolding drop_pending
  drop_pending-Held = search held depth 20

  reset_session-Held : Keeps Held reset_session
  unfolding reset_session
  reset_session-Held = search (abandon_write-Held, held) depth 20

  op_open_session-Held : (cmd : MtpContainer) → Keeps Held (op_open_session cmd)
  unfolding op_open_session
  op_open_session-Held cmd = search held depth 40

  op_close_session-Held : (cmd : MtpContainer) → Keeps Held (op_close_session cmd)
  unfolding op_close_session
  op_close_session-Held cmd = search (reset_session-Held, held) depth 40

  begin_upload-Held :
      (cmd : MtpContainer) (id parent size : ℕ) (path : Bytes)
      → IsChild path
      → Keeps Held (begin_upload cmd id parent size path)
  unfolding begin_upload
  begin_upload-Held cmd id parent size path child = search held depth 40 fits 4000

  op_send_object_info-Held : (cmd : MtpContainer) → Keeps Held (op_send_object_info cmd)
  unfolding op_send_object_info
  op_send_object_info-Held cmd =
      search (make_folder-Ordinary, begin_upload-Held, held) depth 60 fits 4000

  end_upload-Held :
      (cmd : MtpContainer) (id size : ℕ) (received : Option ℕ)
      → Keeps Held (end_upload cmd id size received)
  unfolding end_upload
  end_upload-Held cmd id size none = search (drop_pending-Held, held) depth 40
  end_upload-Held cmd id size (some n) = search (drop_pending-Held, held) depth 40

  receive_upload-Held :
      (cmd : MtpContainer) (g : MtpServerState) → Keeps Held (receive_upload cmd g)
  unfolding receive_upload
  receive_upload-Held cmd g =
      search (recv_streamed-Ordinary, end_upload-Held, held) depth 60 fits 4000

  op_send_object-Held : (cmd : MtpContainer) → Keeps Held (op_send_object cmd)
  unfolding op_send_object
  op_send_object-Held cmd = search (receive_upload-Held, held) depth 60 fits 4000

  abandon_pending-Held : (cmd : MtpContainer) → Keeps Held (abandon_pending cmd)
  unfolding abandon_pending
  abandon_pending-Held cmd = search (abandon_write-Held, drop_pending-Held, held) depth 20

  same : (w : World D S) → Held w → Held w
  same w p = p

  switch-Held : (cmd : MtpContainer) → Keeps Held (switch handlers cmd)
  switch-Held cmd =
      let l =
        switch-Leads Held-Bears same cmd (kept-Leads Held-Bears same (op_open_session-Held cmd))
          (kept-Leads Held-Bears same (op_close_session-Held cmd))
          (λ _. kept-Leads Held-Bears same (op_send_object_info-Held cmd))
          (λ _. kept-Leads Held-Bears same (op_send_object-Held cmd)) in
      record { keeps = l.leads }

  handle_command-Held : (cmd : MtpContainer) → Keeps Held (handle_command cmd)
  unfolding handle_command
  handle_command-Held cmd = search (abandon_pending-Held, switch-Held, held) depth 40

  run_once-Held : (w w' : World D S) → Served w w' → Held w → Held w'
  run_once-Held = Served-keeps Held-Bears (λ w t p. p) handle_command-Held

-- Whatever the host sends in any number of transactions, the stores change by calls of their hooks
-- alone, and every path at which `write_begin` or `mkdir` creates something, or to which `move` or `copy`
-- puts it, ends in a plain name: not empty, not `.` or `..`, without separators. Such a path is shorter
-- than its buffer.
pub Served-Confined :
    {D : Device} {S : Stores} (w w' : World D S) → Served w w' → Confined S w.stores w'.stores
Served-Confined {D = D} {S = S} w w' served = run_once-Held D S w.stores w w' served rest
