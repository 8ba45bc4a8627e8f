-- ===== src/Mtp/Session.antt =====
-- Sessions and stores: the operations of src/mtp/mtp_ops.c, and `mtpServerResetSession` of
-- src/mtp/mtp_server.c.
use nx_nexus.Base.{
  ℕ, Bool, true, false, not, ◌&&◌, List, [], ◌∷◌, none, some, ◌==◌, if◌then◌else◌, length, take,
}
use nx_nexus.ObjectDb
use nx_nexus.Mtp.Codes.{
  res_ok, res_general_error, res_invalid_storage_id, res_store_not_available, res_invalid_parameter,
  res_session_already_open,
}
use nx_nexus.Mtp.Container.{MtpContainer}
use nx_nexus.Mtp.Writer.{write_u8, write_u16, write_u32, write_u64, write_u32_array, write_string}
use nx_nexus.Mtp.World.{
  Device, Stores, MtpServerState, MtpServerStats, World, write_end_hook, Act, Never, ◌>>=◌, ◌>>◌,
  pure, gets, modify_server, modify_db, modify_stores, on_stores,
}
use nx_nexus.Mtp.Transport.{respond}
use nx_nexus.Mtp.Reply.{param, reply, reject_if, payload_writer, send_dataset}

abbrev pub max_storages : ℕ
max_storages = 12

-- The zeroed state with these statistics.
abbrev pub new_server : MtpServerStats → MtpServerState
new_server stats = record {
  session_open = false;
  session_id = 0;
  transaction_id = 0;
  pending_send = false;
  pending_storage_id = 0;
  pending_parent = 0;
  pending_size = 0;
  pending_handle = 0;
  pending_path = [];
  stats = stats;
}

abbrev pub end_pending : MtpServerState → MtpServerState
end_pending g = record g { pending_send = false }

unfoldable pub present_ids : (ℕ → Bool) → List ℕ → List ℕ
present_ids present [] = []
present_ids present (id ∷ ids) =
    let rest = present_ids present ids in if present id then id ∷ rest else rest

module _ {D : Device} {S : Stores} where
  -- The write that a pending upload has begun is given up.
  unfoldable pub abandon_write : Act D S (Unit {0})
  abandon_write = do
    id ← gets (λ (w : World D S). w.server.pending_storage_id)
    can_end ← gets (λ (w : World D S). S.known id w.stores && S.has write_end_hook id w.stores)
    if can_end then modify_stores {S = S} (S.write_end id false) else pure tt

  -- `mtpServerResetSession`.
  unfoldable pub reset_session : Act D S (Unit {0})
  reset_session = do
    pending ← gets (λ (w : World D S). w.server.pending_send)
    if pending then abandon_write else pure tt
    modify_server (λ g. new_server g.stats)
    modify_db ObjectDb.clear

  unfoldable pub op_open_session : MtpContainer → Act D S Never
  op_open_session cmd = do
    reject_if (param cmd 0 == 0) cmd res_invalid_parameter
    g ← gets (λ (w : World D S). w.server)
    if g.session_open
        then respond cmd.transaction_id res_session_already_open (g.session_id ∷ [])
        else (do
          modify_server (λ g. record g { session_open = true; session_id = param cmd 0 })
          modify_db ObjectDb.clear
          modify_stores {S = S} S.refresh
          modify_stores {S = S} S.on_session_open
          reply cmd res_ok)

  unfoldable pub op_close_session : MtpContainer → Act D S Never
  op_close_session cmd = do reset_session; reply cmd res_ok

  unfoldable pub op_get_storage_ids : MtpContainer → Act D S Never
  op_get_storage_ids cmd = do
    modify_stores {S = S} S.refresh
    ids ← gets (λ (w : World D S).
        take max_storages (present_ids (λ id. S.present id w.stores) (S.ids w.stores)))
    send_dataset cmd (write_u32_array ids payload_writer)

  unfoldable pub op_get_storage_info : MtpContainer → Act D S Never
  op_get_storage_info cmd = do
    let id = param cmd 0
    reject_if (length cmd.params == 0) cmd res_invalid_parameter
    known ← gets (λ (w : World D S). S.known id w.stores)
    reject_if (not known) cmd res_invalid_storage_id
    present ← gets (λ (w : World D S). S.present id w.stores)
    reject_if (not present) cmd res_store_not_available
    answered ← on_stores {S = S} (S.get_info id)
    description ← gets (λ (w : World D S). S.description id w.stores)
    elim answered [
      | none ↦ reply cmd res_general_error
      | some info ↦
          let w1 =
            write_u16 info.access_capability
              (write_u16 info.filesystem_type (write_u16 info.storage_type payload_writer)) in
          let w2 =
            write_u32 info.free_objects
              (write_u64 info.free_bytes (write_u64 info.capacity_bytes w1)) in
          send_dataset cmd (write_u8 0 (write_string D.to_utf16 description w2))
    ]
