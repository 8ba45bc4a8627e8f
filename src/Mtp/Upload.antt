-- ===== src/Mtp/Upload.antt =====
-- Uploads: SendObjectInfo and then SendObject, of src/mtp/mtp_ops.c.
use nx_nexus.Base.{
  ℕ, true, false, not, ◌&&◌, ◌||◌, List, [], ◌∷◌, Option, none, some, ltb, ◌==◌, if◌then◌else◌,
  Bytes,
}
use nx_nexus.ObjectDb
use nx_nexus.ObjectDb.{path_max}
use nx_nexus.Mtp.Codes.{
  res_ok, res_general_error, res_operation_not_supported, res_incomplete_transfer,
  res_store_read_only, res_access_denied, res_store_not_available, res_no_valid_object_info,
  res_invalid_dataset, format_association, handle_root,
}
use nx_nexus.Mtp.Container.{MtpContainer}
use nx_nexus.Mtp.Reader.{MtpReader, reader_init, read_le, skip, read_string}
use nx_nexus.Mtp.Path.{name_is_safe, path_join}
use nx_nexus.Mtp.World.{
  Device, Stores, World, MtpServerState, write_begin_hook, write_chunk_hook, mkdir_hook, Act, Never,
  ◌>>=◌, ◌>>◌, pure, return, gets, modify_server, modify_db, modify_stores, on_db, on_stores,
}
use nx_nexus.Mtp.Transport.{respond, recv_to_payload, recv_streamed}
use nx_nexus.Mtp.Reply.{param, param_or, reply, reject_if, or_refuse, resolve_parent}
use nx_nexus.Mtp.Session.{end_pending}

-- What is taken from an ObjectInfo dataset.
pub record ObjectInfo : Type 0 where
  pub format : ℕ
  pub compressed_size : ℕ
  pub filename : Bytes
  pub reader : MtpReader

-- The fields between the size and the name.
abbrev pub skip_details : MtpReader → MtpReader
skip_details r =
    skip 4
      (skip 4 (skip 2 (skip 4 (skip 4 (skip 4 (skip 4 (skip 4 (skip 4 (skip 4 (skip 2 r))))))))))

unfoldable pub read_object_info : (List ℕ → ℕ → Option Bytes) → Bytes → ObjectInfo
read_object_info to_utf8 payload =
    let format = read_le 2 (skip 4 (reader_init payload)) in
    let size = read_le 4 (skip 2 format.1) in
    let name = read_string to_utf8 path_max (skip_details size.1) in
    record { format = format.0; compressed_size = size.0; filename = name.0; reader = name.1 }

-- The upload that a SendObject goes on with.
abbrev pub begin_pending : ℕ → ℕ → ℕ → ℕ → Bytes → MtpServerState → MtpServerState
begin_pending storage_id parent size handle path g = record g {
  pending_send = true;
  pending_storage_id = storage_id;
  pending_parent = parent;
  pending_size = size;
  pending_handle = handle;
  pending_path = path;
}

module _ {D : Device} {S : Stores} where
  -- A folder is created at once.
  unfoldable pub make_folder : MtpContainer → ℕ → ℕ → Bytes → Act D S Never
  make_folder cmd storage_id parent path = do
    can ← gets (λ (w : World D S). S.has mkdir_hook storage_id w.stores)
    reject_if (not can) cmd res_operation_not_supported
    made ← on_stores {S = S} (S.mkdir storage_id path)
    reject_if (not made) cmd res_general_error
    handle ← on_db (λ db. ObjectDb.intern D.alloc db storage_id parent path true 0)
    reject_if (handle == 0) cmd res_general_error
    respond cmd.transaction_id res_ok (storage_id ∷ parent ∷ handle ∷ [])

  -- A file gets its handle, and its write is begun.
  unfoldable pub begin_upload : MtpContainer → ℕ → ℕ → ℕ → Bytes → Act D S Never
  begin_upload cmd storage_id parent size path = do
    handle ← on_db (λ db. ObjectDb.intern D.alloc db storage_id parent path false 0)
    reject_if (handle == 0) cmd res_general_error
    begun ← on_stores {S = S} (S.write_begin storage_id path size)
    if not begun
        then (do modify_db (λ db. ObjectDb.invalidate db handle); reply cmd res_access_denied)
        else (do
          modify_server (begin_pending storage_id parent size handle path)
          respond cmd.transaction_id res_ok (storage_id ∷ parent ∷ handle ∷ []))

  unfoldable pub op_send_object_info : MtpContainer → Act D S Never
  op_send_object_info cmd = do
    let storage_id = param cmd 0
    received ← recv_to_payload
    elim received [
      | none ↦ reply cmd res_incomplete_transfer
      | some payload ↦ do
        found ← gets (resolve_parent storage_id (param_or cmd 1 handle_root))
        place ← or_refuse cmd found
        can ← gets (λ (w : World D S). S.has write_begin_hook storage_id w.stores)
        reject_if (not can) cmd res_store_read_only
        let info = read_object_info D.to_utf8 payload
        reject_if (info.reader.underflow || not (name_is_safe info.filename)) cmd
            res_invalid_dataset
        joined ← pure (path_join place.0 info.filename)
        elim joined [
          | none ↦ reply cmd res_invalid_dataset
          | some path ↦
              if info.format == format_association
              then make_folder cmd storage_id place.1 path
              else begin_upload cmd storage_id place.1 info.compressed_size path
        ]
    ]

  -- The handle that was reserved is given up.
  unfoldable pub drop_pending : Act D S (Unit {0})
  drop_pending = do
    handle ← gets (λ (w : World D S). w.server.pending_handle)
    modify_db (λ db. ObjectDb.invalidate db handle)
    modify_server end_pending

  -- What follows the data phase. A failure of the store fails the data phase too, so the response that
  -- stands behind `if (R_FAILED(rc)) return rc;` is not sent.
  unfoldable pub end_upload : MtpContainer → ℕ → ℕ → Option ℕ → Act D S Never
  end_upload cmd id size none = do
    modify_stores {S = S} (S.write_end id false)
    drop_pending
    return false
  end_upload cmd id size (some received) =
      let short = not (size == 0xFFFFFFFF) && ltb received size in
      modify_stores {S = S} (S.write_end id (not short))
      >> (if short
          then drop_pending >> reply cmd res_incomplete_transfer
          else modify_server end_pending >> reply cmd res_ok)

  -- The data phase of the upload that waits.
  unfoldable pub receive_upload : MtpContainer → MtpServerState → Act D S Never
  receive_upload cmd g = do
    let id = g.pending_storage_id
    can ← gets (λ (w : World D S). S.known id w.stores && S.has write_chunk_hook id w.stores)
    if not can then (modify_server end_pending >> reply cmd res_store_not_available) else (do
      received ← recv_streamed (λ bytes. on_stores {S = S} (S.write_chunk id bytes))
      end_upload cmd id g.pending_size received)

  unfoldable pub op_send_object : MtpContainer → Act D S Never
  op_send_object cmd = do
    g ← gets (λ (w : World D S). w.server)
    reject_if (not g.pending_send) cmd res_no_valid_object_info
    receive_upload cmd g
