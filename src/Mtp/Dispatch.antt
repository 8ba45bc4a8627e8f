-- ===== src/Mtp/Dispatch.antt =====
-- Every command is answered once: the dispatch of src/mtp/mtp_ops.c.
use nx_nexus.Base.{◌≡◌, sym, ◌∙◌, true, false, ◌==◌}
use mathlib.Core.Bool.{false≢true}
use nx_nexus.Mtp.Codes.{code_get_object, code_get_partial_object}
use nx_nexus.Mtp.Container.{MtpContainer}
use nx_nexus.Mtp.World.{Device, Stores, World}
use nx_nexus.Mtp.Handle.{handlers, abandon_pending, handle_command}
use nx_nexus.Mtp.Says.{
  Says, Talks, rest, operations, bind-Says, gets-Says, if-Says, pure-Says, respond-Says,
}
use nx_nexus.Mtp.Switch.{EachCase, no_cases, ◌⨾◌, switch_lem}
use nx_nexus.Mtp.Answers.{
  abandon_write-Says, drop_pending-Says, move_or_copy-Says, op_get_device_info-Says,
  op_open_session-Says, op_close_session-Says, op_get_storage_ids-Says, op_get_storage_info-Says,
  op_get_num_objects-Says, op_get_object_handles-Says, op_get_object_info-Says, op_get_thumb-Says,
  op_delete_object-Says, op_send_object_info-Says, op_send_object-Says,
  op_get_object_props_supported-Says, op_get_object_prop_desc-Says, op_get_object_prop_value-Says,
  op_set_object_prop_value-Says, op_get_object_prop_list-Says, op_get_device_prop_desc-Says,
  op_get_device_prop_value-Says,
}

module _ {D : Device} {S : Stores} where
  abandon_pending-Says : (cmd : MtpContainer) → Says D S cmd.transaction_id (abandon_pending cmd)
  unfolding abandon_pending
  abandon_pending-Says cmd = search (abandon_write-Says, drop_pending-Says, operations) depth 20

module _ (D : Device) (S : Stores) (cmd : MtpContainer)
    (whole : (cmd.code == code_get_object) ≡ false)
    (part : (cmd.code == code_get_partial_object) ≡ false) where
  handlers_say : EachCase (λ m. Says D S cmd.transaction_id m) cmd (handlers {D = D} {S = S})
  handlers_say =
      (λ _. op_get_device_info-Says cmd)
      ⨾ (λ _. op_open_session-Says cmd)
      ⨾ (λ _. op_close_session-Says cmd)
      ⨾ (λ _. op_get_storage_ids-Says cmd)
      ⨾ (λ _. op_get_storage_info-Says cmd)
      ⨾ (λ _. op_get_num_objects-Says cmd)
      ⨾ (λ _. op_get_object_handles-Says cmd)
      ⨾ (λ _. op_get_object_info-Says cmd)
      ⨾ (λ h. absurd (false≢true (sym whole ∙ h)))
      ⨾ (λ _. op_get_thumb-Says cmd)
      ⨾ (λ h. absurd (false≢true (sym part ∙ h)))
      ⨾ (λ _. op_delete_object-Says cmd)
      ⨾ (λ _. op_send_object_info-Says cmd)
      ⨾ (λ _. op_send_object-Says cmd)
      ⨾ (λ _. op_get_object_props_supported-Says cmd)
      ⨾ (λ _. op_get_object_prop_desc-Says cmd)
      ⨾ (λ _. op_get_object_prop_value-Says cmd)
      ⨾ (λ _. op_set_object_prop_value-Says cmd)
      ⨾ (λ _. op_get_object_prop_list-Says cmd)
      ⨾ (λ _. move_or_copy-Says true cmd)
      ⨾ (λ _. move_or_copy-Says false cmd)
      ⨾ (λ _. op_get_device_prop_desc-Says cmd)
      ⨾ (λ _. op_get_device_prop_value-Says cmd)
      ⨾ no_cases

  handle_command-Says : Says D S cmd.transaction_id (handle_command {D = D} {S = S} cmd)
  unfolding handle_command
  handle_command-Says = bind-Says _ _ (gets-Says _) (λ opened.
      bind-Says _ _ (if-Says _ _ _ (respond-Says _ _) (pure-Says _)) (λ _.
        bind-Says _ _ (abandon_pending-Says cmd) (λ _.
          switch_lem (λ m. Says D S cmd.transaction_id m) cmd handlers (respond-Says _ _)
            handlers_say)))

module _ {D : Device} {S : Stores} where
  -- Handling a command returns, and what it says to the host follows the protocol. Let the command be
  -- neither GetObject nor GetPartialObject. If the result is 0, the transfers were reads and data blocks
  -- of the command's transaction, and then, as the last thing, one response with the command's
  -- transaction id, whose transfer the device did not report as failed; how many of its bytes the host
  -- took is not stated. If the result is a failure, there was no response, or the device reported the
  -- transfer of the one at the end as failed.
  pub handle_command-Talks :
      (cmd : MtpContainer)
      → (cmd.code == code_get_object) ≡ false
      → (cmd.code == code_get_partial_object) ≡ false
      → (w : World D S) → Talks D S cmd.transaction_id w.device (handle_command cmd w)
  handle_command-Talks cmd whole part w =
      (handle_command-Says D S cmd whole part).talks w.device w (rest w.device)
