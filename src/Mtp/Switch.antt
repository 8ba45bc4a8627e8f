-- ===== src/Mtp/Switch.antt =====
-- The `switch` of src/mtp/mtp_ops.c: what holds of each case where it is taken holds of the whole.
use nx_nexus.Base.{
  ℕ, ◌≡◌, refl, Bool, true, false, List, [], ◌∷◌, Option, none, some, ◌==◌, if◌then◌else◌,
}
use nx_nexus.Mtp.Codes.{code_send_object_info, code_send_object, res_operation_not_supported}
use nx_nexus.Mtp.Container.{MtpContainer}
use nx_nexus.Mtp.World.{
  Device, Stores, World, Step, goes, returns, then_step, ◌>>=◌, pure, Act, Never,
}
use nx_nexus.Mtp.Reply.{reply}
use nx_nexus.Mtp.Session.{op_open_session, op_close_session}
use nx_nexus.Mtp.Upload.{op_send_object_info, op_send_object}
use nx_nexus.Mtp.Handle.{handlers, switch}
use nx_nexus.Mtp.Keeps.{Keeps, after, bind-Keeps, return-Keeps}
use nx_nexus.Mtp.Bears.{Bears}
use nx_nexus.Mtp.Ordinary.{
  send_response-Ordinary, move_or_copy-Ordinary, op_get_device_info-Ordinary,
  op_get_storage_ids-Ordinary, op_get_storage_info-Ordinary, op_get_num_objects-Ordinary,
  op_get_object_handles-Ordinary, op_get_object_info-Ordinary, op_get_object-Ordinary,
  op_get_thumb-Ordinary, op_get_partial_object-Ordinary, op_delete_object-Ordinary,
  op_get_object_props_supported-Ordinary, op_get_object_prop_desc-Ordinary,
  op_get_object_prop_value-Ordinary, op_set_object_prop_value-Ordinary,
  op_get_object_prop_list-Ordinary, op_get_device_prop_desc-Ordinary,
  op_get_device_prop_value-Ordinary,
}

infixr 5 ◌⨾◌
pub data EachCase {D : Device} {S : Stores} (T : Act D S Never → Type 0) (cmd : MtpContainer)
    : List (ℕ × (MtpContainer → Act D S Never)) → Type 0 where
  no_cases : EachCase T cmd []
  ◌⨾◌ :
      {code : ℕ} {handler : MtpContainer → Act D S Never}
      {cases : List (ℕ × (MtpContainer → Act D S Never))}
      → ((cmd.code == code) ≡ true → T (handler cmd))
      → EachCase T cmd cases
      → EachCase T cmd ((code, handler) ∷ cases)

module _ {D : Device} {S : Stores} (T : Act D S Never → Type 0) where
  taken_lem : (c : Bool) (m k : Act D S Never) → (c ≡ true → T m) → T k → T (if c then m else k)
  taken_lem true m k here other = here refl
  taken_lem false m k here other = other

  pub switch_lem :
      (cmd : MtpContainer) (cases : List (ℕ × (MtpContainer → Act D S Never)))
      → T (reply cmd res_operation_not_supported)
      → EachCase T cmd cases
      → T (switch cases cmd)
  unfolding switch
  switch_lem cmd [] unknown no_cases = unknown
  switch_lem cmd ((code, handler) ∷ cases) unknown (here ⨾ others) =
      taken_lem (cmd.code == code) (handler cmd) (switch cases cmd) here
        (switch_lem cmd cases unknown others)

-- An operation takes worlds of one predicate to worlds of another.
pub record Leads {D : Device} {S : Stores} (P Q : World D S → Type 0) {A : Type 0} (m : Act D S A)
    : Type 0 where
  pub leads : (w : World D S) → P w → Q (after (m w))

module _ {D : Device} {S : Stores} {P Q : World D S → Type 0} (b : Bears P)
    (weaken : (w : World D S) → P w → Q w) where
  pub kept-Leads : {A : Type 0} {m : Act D S A} → Keeps P m → Leads P Q m
  kept-Leads k = record { leads = λ w p. weaken _ (k.keeps w p) }

  -- The handlers that are not ordinary are given.
  pub switch-Leads :
      (cmd : MtpContainer)
      → Leads P Q (op_open_session cmd)
      → Leads P Q (op_close_session cmd)
      → ((cmd.code == code_send_object_info) ≡ true → Leads P Q (op_send_object_info cmd))
      → ((cmd.code == code_send_object) ≡ true → Leads P Q (op_send_object cmd))
      → Leads P Q (switch handlers cmd)
  switch-Leads cmd opened closed informed sent =
      switch_lem (λ m. Leads P Q m) cmd handlers
        (kept-Leads (bind-Keeps _ _ (send_response-Ordinary b _ _ _) return-Keeps))
        ((λ _. kept-Leads (op_get_device_info-Ordinary b cmd))
          ⨾ (λ _. opened)
          ⨾ (λ _. closed)
          ⨾ (λ _. kept-Leads (op_get_storage_ids-Ordinary b cmd))
          ⨾ (λ _. kept-Leads (op_get_storage_info-Ordinary b cmd))
          ⨾ (λ _. kept-Leads (op_get_num_objects-Ordinary b cmd))
          ⨾ (λ _. kept-Leads (op_get_object_handles-Ordinary b cmd))
          ⨾ (λ _. kept-Leads (op_get_object_info-Ordinary b cmd))
          ⨾ (λ _. kept-Leads (op_get_object-Ordinary b cmd))
          ⨾ (λ _. kept-Leads (op_get_thumb-Ordinary b cmd))
          ⨾ (λ _. kept-Leads (op_get_partial_object-Ordinary b cmd))
          ⨾ (λ _. kept-Leads (op_delete_object-Ordinary b cmd))
          ⨾ informed
          ⨾ sent
          ⨾ (λ _. kept-Leads (op_get_object_props_supported-Ordinary b cmd))
          ⨾ (λ _. kept-Leads (op_get_object_prop_desc-Ordinary b cmd))
          ⨾ (λ _. kept-Leads (op_get_object_prop_value-Ordinary b cmd))
          ⨾ (λ _. kept-Leads (op_set_object_prop_value-Ordinary b cmd))
          ⨾ (λ _. kept-Leads (op_get_object_prop_list-Ordinary b cmd))
          ⨾ (λ _. kept-Leads (move_or_copy-Ordinary b true cmd))
          ⨾ (λ _. kept-Leads (move_or_copy-Ordinary b false cmd))
          ⨾ (λ _. kept-Leads (op_get_device_prop_desc-Ordinary b cmd))
          ⨾ (λ _. kept-Leads (op_get_device_prop_value-Ordinary b cmd))
          ⨾ no_cases)

  pub then_step-Leads :
      {A B : Type 0} (s : Step D S A) (f : A → Act D S B)
      → ((a : A) → Leads P Q (f a))
      → P (after s)
      → Q (after (then_step s f))
  then_step-Leads (goes a w) f each p = (each a).leads w p
  then_step-Leads (returns b w) f each p = weaken w p

  pub bind-Leads :
      {A B : Type 0} (m : Act D S A) (f : A → Act D S B)
      → Keeps P m
      → ((a : A) → Leads P Q (f a))
      → Leads P Q (m >>= f)
  bind-Leads m f first each = record {
    leads = λ w p. then_step-Leads (m w) f each (first.keeps w p);
  }

  pub bind_option-Leads :
      {A B : Type 0} (m : Act D S (Option A)) (f : Option A → Act D S B)
      → Keeps P m
      → Leads P Q (f none)
      → ((a : A) → Leads P Q (f (some a)))
      → Leads P Q (m >>= f)
  bind_option-Leads m f first without each =
      bind-Leads m f first
        (λ o. elim o as (λ o'. Leads P Q (f o')) [ none ↦ without | some a ↦ each a ])

  pub computed-Leads :
      {A B : Type 0} (o : Option A) (f : Option A → Act D S B)
      → Leads P Q (f none)
      → ((a : A) → o ≡ some a → Leads P Q (f (some a)))
      → Leads P Q (pure o >>= f)
  unfolding pure
  computed-Leads none f without each = record { leads = without.leads }
  computed-Leads (some a) f without each = record { leads = (each a refl).leads }

  pub if-Leads :
      {A : Type 0} (c : Bool) (m k : Act D S A)
      → Leads P Q m
      → Leads P Q k
      → Leads P Q (if c then m else k)
  if-Leads true m k first second = first
  if-Leads false m k first second = second
