-- ===== src/Mtp/Reply.antt =====
-- How the handlers of src/mtp/mtp_ops.c refuse and answer, and what they look up first.
use nx_nexus.Base.{
  ℕ, ◌-◌, Bool, not, ◌||◌, [], ◌∷◌, Option, none, some, ◌==◌, if◌then◌else◌, get_elem?, Bytes,
}
use nx_nexus.ObjectDb
use nx_nexus.ObjectDb.{NexusObject}
use nx_nexus.Mtp.Codes.{
  res_ok, res_general_error, res_invalid_storage_id, res_invalid_object_handle,
  res_store_not_available, res_invalid_parent_object, format_undefined, format_association,
  handle_root, container_header_size,
}
use nx_nexus.Mtp.Container.{MtpContainer}
use nx_nexus.Mtp.Writer.{MtpWriter, writer_init}
use nx_nexus.Mtp.Path.{slash}
use nx_nexus.Mtp.Transport.{respond, send_data, payload_buf_size}
use nx_nexus.Mtp.World.{Device, Stores, World, Act, Never, ◌>>◌, pure}

-- `(cmd->param_count > i) ? cmd->params[i] : …`
unfoldable pub param_or : MtpContainer → ℕ → ℕ → ℕ
param_or cmd i default = elim (get_elem? cmd.params i) [ some v ↦ v | none ↦ default ]

abbrev pub param : MtpContainer → ℕ → ℕ
param cmd i = param_or cmd i 0

abbrev pub format_for : Bool → ℕ
format_for is_dir = if is_dir then format_association else format_undefined

-- What a lookup comes to: a value, or the response code that refuses the command.
pub data Resolved (A : Type 0) : Type 0 where
  resolved : A → Resolved A
  refused : ℕ → Resolved A

-- What a best-effort `stat` leaves of the kind and the size.
abbrev pub stat_or : NexusObject → Option (Bool × ℕ) → Bool × ℕ
stat_or obj none = (obj.is_dir, obj.size)
stat_or obj (some now) = now

-- The writer over the payload buffer, behind the header.
abbrev pub payload_writer : MtpWriter
payload_writer = writer_init (payload_buf_size - container_header_size)

module _ {D : Device} {S : Stores} where
  -- `return mtpSendResponse(code, cmd->transaction_id, NULL, 0);`
  abbrev pub reply : {A : Type 0} → MtpContainer → ℕ → Act D S A
  reply cmd code = respond cmd.transaction_id code []

  -- A guard, and a lookup, that refuses.
  abbrev pub reject_if : Bool → MtpContainer → ℕ → Act D S (Unit {0})
  reject_if c cmd code = if c then reply cmd code else pure tt

  abbrev pub or_refuse : {A : Type 0} → MtpContainer → Resolved A → Act D S A
  or_refuse cmd (resolved a) = pure a
  or_refuse cmd (refused code) = reply cmd code

  unfoldable pub resolve_handle : ℕ → World D S → Resolved NexusObject
  resolve_handle handle w = elim (ObjectDb.get w.db handle) [
    | none ↦ refused res_invalid_object_handle
    | some obj ↦
        if not (S.known obj.storage_id w.stores) || not (S.present obj.storage_id w.stores)
        then refused res_store_not_available
        else resolved obj
  ]

  -- The directory and the handle that a parent stands for.
  unfoldable pub resolve_parent : ℕ → ℕ → World D S → Resolved (Bytes × ℕ)
  resolve_parent storage_id parent w =
      if not (S.known storage_id w.stores)
      then refused res_invalid_storage_id
      else if not (S.present storage_id w.stores)
      then refused res_store_not_available
      else if (parent == 0) || (parent == handle_root)
      then resolved (slash ∷ [], handle_root)
      else elim (ObjectDb.get w.db parent) [
        | none ↦ refused res_invalid_parent_object
        | some obj ↦
            if not obj.is_dir || not (obj.storage_id == storage_id)
            then refused res_invalid_parent_object
            else resolved (obj.path, parent)
      ]

  -- How a handler ends that has put a dataset together.
  unfoldable pub send_dataset : MtpContainer → MtpWriter → Act D S Never
  send_dataset cmd w =
      if w.overflow
      then reply cmd res_general_error
      else (do send_data cmd.code cmd.transaction_id w.written; reply cmd res_ok)
