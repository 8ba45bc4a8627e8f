-- ===== src/Mtp/Uploads.antt =====
-- Uploads stay in step with the stores: the operations of src/mtp/mtp_ops.c that begin, end or give up
-- an upload.
use mathlib.Core.Path.{subst}
use nx_nexus.Base.{
  Bool-cases, inl, inr, ℕ, ◌≡◌, refl, sym, Bool, true, false, not, ◌&&◌, List, [], ◌∷◌,
  if◌then◌else◌, ◌==◌, Bytes, arith,
}
use nx_nexus.ObjectDb
use nx_nexus.Mtp.Codes.{code_send_object, res_ok, res_access_denied}
use nx_nexus.Mtp.Container.{MtpContainer}
use nx_nexus.Mtp.World.{
  Device, Stores, World, write_chunk_hook, write_end_hook, goes, Never, ◌>>=◌, ◌>>◌, pure, gets,
  modify_server, modify_db, modify_stores, on_stores,
}
use nx_nexus.Mtp.Transport.{respond}
use nx_nexus.Mtp.Reply.{reply}
use nx_nexus.Mtp.Session.{
  abandon_write, reset_session, op_open_session, op_close_session, new_server,
}
use nx_nexus.Mtp.Upload.{begin_pending, begin_upload, op_send_object_info, drop_pending}
use nx_nexus.Mtp.Handle.{abandon_pending}
use nx_nexus.Mtp.Keeps.{Keeps, after, bind-Keeps, return-Keeps}
use nx_nexus.Mtp.Bears.{Bears}
use nx_nexus.Mtp.Ordinary.{ordinary, make_folder-Ordinary, send_response-Ordinary}
use nx_nexus.Mtp.Switch.{Leads, kept-Leads, bind-Leads, bind_option-Leads, computed-Leads, if-Leads}
use nx_nexus.Mtp.Writing.{
  Writing, InStep, Ready, Idle, AllClosed, Each, InStep-Bears, Ready-Bears, Idle-Bears,
  write_end-AllClosed, InStep-OthersClosed, InStep-AllClosed, Closed-InStep,
}

module _ {D : Device} {S : Stores} (law : Writing S) where
  pub in_step : Bears {D = D} (InStep law)
  in_step = InStep-Bears law

  pub ready : (cmd : MtpContainer) → Bears {D = D} (Ready law cmd)
  ready cmd = Ready-Bears law cmd

  idle : Bears {D = D} (Idle law)
  idle = Idle-Bears law

  -- What is left of a waiting upload once its write is given up.
  abbrev ended : World D S → World D S
  ended w = record w { stores = S.write_end (w.server.pending_storage_id) false w.stores }

  ended-AllClosed : (w : World D S) → InStep law w → AllClosed law (ended w).stores
  ended-AllClosed w i = write_end-AllClosed law w _ false (InStep-OthersClosed law w i)

  -- The write of a waiting upload's store is open, so its hooks are there, where the store is.
  pub able_lem :
      (w : World D S)
      → InStep law w
      → w.server.pending_send ≡ true
      → S.known w.server.pending_storage_id w.stores ≡ true
      → (S.has write_chunk_hook w.server.pending_storage_id w.stores
          && S.has write_end_hook w.server.pending_storage_id w.stores)
        ≡ true
  able_lem w i p k = law.able w.stores _ k (ground (arith, i w.server.pending_storage_id k, p))

  -- Where the store of a waiting upload is gone, no write is open at the stores that are left.
  pub gone-AllClosed :
      (w : World D S)
      → InStep law w
      → S.known w.server.pending_storage_id w.stores ≡ false
      → AllClosed law w.stores
  gone-AllClosed w i gone j k = elim (Bool-cases (j == w.server.pending_storage_id)) [
    | inl same ↦
        let e : j ≡ w.server.pending_storage_id = ground (arith, same) in
        absurd (cc (gone, subst (λ l. S.known l w.stores ≡ true) e k))
    | inr other ↦ InStep-OthersClosed law w i j k other
  ]

  abandon_write-AllClosed :
      (w : World D S)
      → InStep law w
      → w.server.pending_send ≡ true
      → (v : World D S) × (abandon_write w ≡ goes tt v)
        × (v.server ≡ w.server)
        × AllClosed law v.stores
  unfolding abandon_write gets modify_stores pure
  abandon_write-AllClosed w i p = elim (Bool-cases (S.known w.server.pending_storage_id w.stores)) [
    | inl k ↦
        let can : (S.known w.server.pending_storage_id w.stores
              && S.has write_end_hook w.server.pending_storage_id w.stores)
            ≡ true =
          ground (arith, able_lem w i p k, k) in
        (ended w, rw can refl, refl, ended-AllClosed w i)
    | inr gone ↦ (w, rw gone refl, refl, gone-AllClosed w i gone)
  ]

  -- An upload that is interrupted, or not.
  abandon_case :
      (cmd : MtpContainer) (w : World D S)
      → InStep law w
      → (c : Bool) → (w.server.pending_send && not (cmd.code == code_send_object)) ≡ c
      → Ready law cmd (after ((if c then abandon_write >> drop_pending else pure tt) w))
  unfolding drop_pending gets modify_db modify_server pure
  abandon_case cmd w i true e =
      let (v, goes_on, same, closed) = abandon_write-AllClosed w i (ground arith) in
      rw goes_on (closed, λ _. refl)
  abandon_case cmd w i false e = (i, λ h. ground arith)

  pub abandon_pending-Leads :
      (cmd : MtpContainer) → Leads {D = D} (InStep law) (Ready law cmd) (abandon_pending cmd)
  unfolding abandon_pending gets
  abandon_pending-Leads cmd = record { leads = λ w i. abandon_case cmd w i _ refl }

  reset_case :
      (w : World D S)
      → InStep law w
      → (c : Bool) → w.server.pending_send ≡ c
      → InStep law (
          after (
            ((if c then abandon_write else pure tt)
                >> (modify_server (λ g. new_server g.stats) >> modify_db ObjectDb.clear))
              w))
  unfolding modify_db modify_server pure
  reset_case w i true e =
      let (v, goes_on, same, closed) = abandon_write-AllClosed w i e in rw goes_on closed
  reset_case w i false e = InStep-AllClosed law w i e

  reset_session-Keeps : Keeps {D = D} (InStep law) reset_session
  unfolding reset_session gets
  reset_session-Keeps = record { keeps = λ w i. reset_case w i _ refl }

  pub op_close_session-Keeps :
      (cmd : MtpContainer) → Keeps {D = D} (InStep law) (op_close_session cmd)
  unfolding op_close_session
  op_close_session-Keeps cmd = search (in_step, reset_session-Keeps, ordinary) depth 20

  pub op_open_session-Keeps :
      (cmd : MtpContainer) → Keeps {D = D} (Ready law cmd) (op_open_session cmd)
  unfolding op_open_session
  op_open_session-Keeps cmd = search (ready, ordinary) depth 40

  pub reply-InStep :
      (t code : ℕ) (params : List ℕ)
      → Keeps {D = D} (InStep law) {A = Never} (respond t code params)
  reply-InStep t code params = bind-Keeps _ _ (send_response-Ordinary in_step _ _ _) return-Keeps

  -- The write of store `id` is open just when it has begun.
  write_begin-Begun :
      (id : ℕ) (path : Bytes) (size : ℕ) (w : World D S)
      → Idle law w
      → Each law
          (λ j b. b ≡ ((S.write_begin id path size w.stores).0 && (j == id)))
          (S.write_begin id path size w.stores).1
  write_begin-Begun id path size w p j k = elim (Bool-cases (j == id)) [
    | inl same ↦
        let e : j ≡ id = ground (arith, same) in
        let k' = subst (λ l. S.known l (S.write_begin id path size w.stores).1 ≡ true) e k in
        let own =
          law.begins w.stores id path size k'
            (p.1 id (law.begins_known w.stores id path size k')) in
        ground (
          arith,
          same,
          subst
              (λ l.
                law.writing l (S.write_begin id path size w.stores).1
                ≡ (S.write_begin id path size w.stores).0)
              (sym e) own,
        )
    | inr other ↦
        let (known, e) = law.begins_elsewhere w.stores id path size j other k in
        ground (arith, e, p.1 j known, other)
  ]

  begun_case :
      (cmd : MtpContainer) (id parent size handle : ℕ) (path : Bytes) (w : World D S) (begun : Bool)
      → w.server.pending_send ≡ false
      → Each law (λ j b. b ≡ (begun && (j == id))) w.stores
      → InStep law (
          after (
            (if not begun
                then (modify_db (λ db. ObjectDb.invalidate db handle)
                    >> reply {A = Never} cmd res_access_denied)
                else (modify_server (begin_pending id parent size handle path)
                    >> respond cmd.transaction_id res_ok (id ∷ parent ∷ handle ∷ [])))
              w))
  unfolding modify_server modify_db
  begun_case cmd id parent size handle path w true p n = (reply-InStep _ _ _).keeps _ n
  begun_case cmd id parent size handle path w false p n =
      (reply-InStep _ _ _).keeps _ (Closed-InStep law w p n)

  begin_upload_end :
      (cmd : MtpContainer) (id parent size handle : ℕ) (path : Bytes)
      → Leads {D = D} (Idle law) (InStep law) (
          on_stores {S = S} (S.write_begin id path size) >>= λ begun.
          if not begun
          then (modify_db (λ db. ObjectDb.invalidate db handle)
              >> reply {A = Never} cmd res_access_denied)
          else (modify_server (begin_pending id parent size handle path)
              >> respond cmd.transaction_id res_ok (id ∷ parent ∷ handle ∷ [])))
  unfolding on_stores
  begin_upload_end cmd id parent size handle path = record {
    leads = λ w p.
        begun_case cmd id parent size handle path
          (record w { stores = (S.write_begin id path size w.stores).1 })
          (S.write_begin id path size w.stores).0 p.0 (write_begin-Begun id path size w p);
  }

  Idle-InStep : (w : World D S) → Idle law w → InStep law w
  Idle-InStep w p = Closed-InStep law w p.0 p.1

  ruleset leading = (
    begin_upload_end, idle, Idle-InStep, computed-Leads, bind_option-Leads, bind-Leads, if-Leads,
    kept-Leads, make_folder-Ordinary, ordinary,
  )

  begin_upload-Leads :
      (cmd : MtpContainer) (id parent size : ℕ) (path : Bytes)
      → Leads {D = D} (Idle law) (InStep law) (begin_upload cmd id parent size path)
  unfolding begin_upload
  begin_upload-Leads cmd id parent size path = search leading depth 30

  pub op_send_object_info-Leads :
      (cmd : MtpContainer) → Leads {D = D} (Idle law) (InStep law) (op_send_object_info cmd)
  unfolding op_send_object_info
  op_send_object_info-Leads cmd = search (begin_upload-Leads, leading) depth 60 fits 6000
