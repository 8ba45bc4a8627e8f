-- ===== src/Install/Registered.antt =====
-- What a finish that succeeds has registered, and that any other finish rolls back.
use mathlib.Core.Path.{subst}
use nx_nexus.Base.{
  ◌≡◌, ◌≢◌, ◌⊎◌, inl, inr, refl, sym, ap, ◌∙◌, Bool, true, false, Option, none, some, arith, length,
  Bytes, ◌==◌,
}
use nx_nexus.Outcome.{Outcome, ok, err, fault}
use nx_nexus.Ticket
use nx_nexus.Ticket.{TicketContext}
use nx_nexus.Cnmt
use nx_nexus.Cnmt.{CnmtContext, CnmtContentInfo, get_content_count, get_content_info}
use nx_nexus.Install.{
  InstallStage, idle, at_magic, at_header, streaming, complete, failed, InstallResult, install_ok,
  bad_cnmt, buffer_too_small, backend_error, not_finished, InstallMeta, Installer, Backend, Decoder,
  Session,
}
use nx_nexus.Install.Entries.{is_ok}
use nx_nexus.Install.Feed.{Attempt, went, failed_with}
use nx_nexus.Install.Run.{RolledBack, Ends, and_then-Ends, if-Ends, fail-RolledBack}
use nx_nexus.Install.Finish.{
  build_meta, with_meta, hook, note_ticket, import_ticket, use_cnmt, use_blob, read_meta, register,
  finish_complete, result_of, finish_at, install_finish,
}
use nx_nexus.Install.Manifest.{Describes, build_meta-Built}

is_ok_lem : (r : InstallResult) → is_ok r ≡ true → r ≡ install_ok
is_ok_lem r h = ground arith

-- The meta record that was there before plays no part in what the new one describes.
Describes-meta :
    (ins : Installer) (old : InstallMeta) (cnmt : CnmtContext) (m : InstallMeta)
    → Describes (record ins { meta = old }) cnmt m
    → Describes ins cnmt m
Describes-meta ins old cnmt m d = record {
  listed = d.listed;
  contents = d.contents;
  lists = d.lists;
  title = d.title;
  version = d.version;
  storage = d.storage;
  kind = d.kind;
  ext_header = d.ext_header;
}

module _ {B : Backend} {N : Decoder} where
  -- The ticket of the package was imported with its certificates, or the package has none.
  abbrev pub TicketImported : Session B N → B.State → Type 0
  TicketImported s user =
      ((length s.ins.tik ≡ 0) × (user ≡ s.user))
      ⊎ ((length s.ins.cert ≢ 0) × (B.import_ticket s.ins.tik s.ins.cert s.user ≡ (true, user)))

  -- A session `s0` whose meta record now describes the manifest that the backend read back.
  pub record Described (s0 s : Session B N) : Type 0 where
    pub ticketed : B.State
    pub imported : TicketImported s0 ticketed
    pub blob : Bytes
    pub read : B.read_cnmt s0.ins.meta_content_id 0x4000 ticketed ≡ (some blob, s.user)
    pub cnmt : CnmtContext
    pub parsed : Cnmt.init blob ≡ ok cnmt
    pub describes : Describes s0.ins cnmt s.ins.meta

  -- And it was registered, after which the application record was pushed, as the last calls.
  pub record Installed (s0 s : Session B N) : Type 0 where
    pub ticketed : B.State
    pub imported : TicketImported s0 ticketed
    pub blob : Bytes
    pub before : B.State
    pub read : B.read_cnmt s0.ins.meta_content_id 0x4000 ticketed ≡ (some blob, before)
    pub cnmt : CnmtContext
    pub parsed : Cnmt.init blob ≡ ok cnmt
    pub describes : Describes s0.ins cnmt s.ins.meta
    pub between : B.State
    pub registered : B.register_meta s.ins.meta before ≡ (true, between)
    pub pushed : B.push_record s.ins.meta between ≡ (true, s.user)

  hook-Ends :
      (P : Session B N → Type 0) (s : Session B N) (r : Bool × B.State)
      → ((user : B.State) → r ≡ (true, user) → P (record s { user = user }))
      → Ends P (hook s r)
  hook-Ends P s (true, user) h = h user refl
  hook-Ends P s (false, user) h =
      fail-RolledBack (record s { user = user }) backend_error (λ e. cc) (λ e. cc)

  register-Installed : (s0 s : Session B N) → Described s0 s → Ends (Installed s0) (register s)
  unfolding register
  register-Installed s0 s d =
      and_then-Ends
        {P = λ t. ((t.ins ≡ s.ins) × (B.register_meta s.ins.meta s.user ≡ (true, t.user)))}
        (Installed s0) (hook s (B.register_meta s.ins.meta s.user)) _
        (hook-Ends _ s (B.register_meta s.ins.meta s.user) λ user e. (refl, e))
        λ t (same, e). hook-Ends (Installed s0) t (B.push_record t.ins.meta t.user) λ user q.
          record {
            ticketed = d.ticketed;
            imported = d.imported;
            blob = d.blob;
            before = s.user;
            read = d.read;
            cnmt = d.cnmt;
            parsed = d.parsed;
            describes =
                subst (λ (i : Installer). Describes s0.ins d.cnmt i.meta) (sym same) d.describes;
            between = t.user;
            registered = ap (λ (i : Installer). B.register_meta i.meta s.user) same ∙ e;
            pushed = q;
          }

  -- What the import of the ticket leaves: only the meta record may change.
  pub record Ticketed (s0 s : Session B N) : Type 0 where
    pub same : s.ins ≡ record (s0.ins) { meta = s.ins.meta }
    pub imported : TicketImported s0 s.user

  use_cnmt-Described :
      (s0 s : Session B N) (user : B.State) (blob : Bytes) (o : Outcome CnmtContext)
      → Ticketed s0 s
      → B.read_cnmt s0.ins.meta_content_id 0x4000 s.user ≡ (some blob, user)
      → Cnmt.init blob ≡ o
      → Ends (Described s0) (use_cnmt (record s { user = user }) o)
  unfolding use_cnmt
  use_cnmt-Described s0 s user blob (err x) k r e =
      fail-RolledBack (record s { user = user }) bad_cnmt (λ q. cc) (λ q. cc)
  use_cnmt-Described s0 s user blob fault k r e =
      fail-RolledBack (record s { user = user }) bad_cnmt (λ q. cc) (λ q. cc)
  use_cnmt-Described s0 s user blob (ok cnmt) k r e =
      let m = build_meta s.ins cnmt in
      if-Ends (Described s0) (is_ok m.0) _ _
        (λ y. elim (build_meta-Built s.ins cnmt) [
          | inl (_, d) ↦ record {
            ticketed = s.user;
            imported = k.imported;
            blob = blob;
            read = r;
            cnmt = cnmt;
            parsed = e;
            describes =
                Describes-meta s0.ins s.ins.meta cnmt m.1
                  (subst (λ i. Describes i cnmt m.1) k.same d);
          }
          | inr (ne, _) ↦ absurd (ne (is_ok_lem m.0 y))
        ])
        λ n. elim (build_meta-Built s.ins cnmt) [
          | inl (o, _) ↦ absurd (cc (n, ap is_ok o))
          | inr (ne, np) ↦ fail-RolledBack (with_meta (record s { user = user }) m.1) m.0 ne np
        ]

  use_blob-Described :
      (s0 s : Session B N) (r : Option Bytes × B.State)
      → Ticketed s0 s
      → B.read_cnmt s0.ins.meta_content_id 0x4000 s.user ≡ r
      → Ends (Described s0) (use_blob s r)
  unfolding use_blob
  use_blob-Described s0 s (none, user) k e =
      fail-RolledBack (record s { user = user }) backend_error (λ q. cc) (λ q. cc)
  use_blob-Described s0 s (some blob, user) k e =
      use_cnmt-Described s0 s user blob (Cnmt.init blob) k e refl

  note_ticket-same :
      (s : Session B N) (o : Outcome TicketContext)
      → ((note_ticket o s).ins ≡ record (s.ins) { meta = (note_ticket o s).ins.meta })
        × ((note_ticket o s).user ≡ s.user)
  unfolding note_ticket
  note_ticket-same s (ok tik) = (refl, refl)
  note_ticket-same s (err x) = (refl, refl)
  note_ticket-same s fault = (refl, refl)

  import_ticket-Ticketed : (s : Session B N) → Ends (Ticketed s) (import_ticket s)
  unfolding import_ticket
  import_ticket-Ticketed s =
      if-Ends (Ticketed s) (length s.ins.tik == 0) _ _
        (λ e. record { same = refl; imported = inl (ground arith, refl) })
        λ _.
          if-Ends (Ticketed s) (length s.ins.cert == 0) _ _
            (λ _. fail-RolledBack s buffer_too_small (λ q. cc) (λ q. cc))
            λ n.
              and_then-Ends
                {P = λ t.
                  ((t.ins ≡ s.ins)
                    × (B.import_ticket s.ins.tik s.ins.cert s.user ≡ (true, t.user)))}
                (Ticketed s) (hook s (B.import_ticket s.ins.tik s.ins.cert s.user)) _
                (hook-Ends _ s (B.import_ticket s.ins.tik s.ins.cert s.user) λ user e. (refl, e))
                λ t (same, e).
                  let (kept, user) = note_ticket-same t (Ticket.init t.ins.tik) in
                  record {
                    same =
                        kept
                        ∙ ap
                            (λ (i : Installer). record i {
                              meta = (note_ticket (Ticket.init t.ins.tik) t).ins.meta;
                            })
                            same;
                    imported = inr (λ z. ground arith, e ∙ ap (λ u. (true, u)) (sym user));
                  }

  read_meta-Described : (s0 s : Session B N) → Ticketed s0 s → Ends (Described s0) (read_meta s)
  unfolding read_meta
  read_meta-Described s0 s k =
      use_blob-Described s0 s (B.read_cnmt s.ins.meta_content_id 0x4000 s.user) k
        (ap (λ (i : Installer). B.read_cnmt i.meta_content_id 0x4000 s.user) (sym k.same))

  finish_complete-Installed : (s : Session B N) → Ends (Installed s) (finish_complete s)
  unfolding finish_complete
  finish_complete-Installed s =
      and_then-Ends (Installed s) (import_ticket s) _ (import_ticket-Ticketed s) λ t k.
        and_then-Ends (Installed s) (read_meta t) _ (read_meta-Described s t k)
          (register-Installed s)

  -- What a finish of the session `s0` comes to.
  abbrev pub FinishEnds : Session B N → InstallResult × Session B N → Type 0
  FinishEnds s0 out = ((out.0 ≡ install_ok) × Installed s0 out.1) ⊎ RolledBack out.0 out.1

  result_of-FinishEnds :
      (s0 : Session B N) (a : Attempt B N) → Ends (Installed s0) a → FinishEnds s0 (result_of a)
  result_of-FinishEnds s0 (went s) h = inl (refl, h)
  result_of-FinishEnds s0 (failed_with r s) h = inr h

  finish_at-FinishEnds :
      (stage : InstallStage) (s : Session B N) → stage ≢ failed → FinishEnds s (finish_at stage s)
  unfolding finish_at
  finish_at-FinishEnds failed s ne = absurd (ne refl)
  finish_at-FinishEnds complete s ne =
      result_of-FinishEnds s (finish_complete s) (finish_complete-Installed s)
  finish_at-FinishEnds idle s ne = inr (fail-RolledBack s not_finished (λ q. cc) (λ q. cc))
  finish_at-FinishEnds at_magic s ne = inr (fail-RolledBack s not_finished (λ q. cc) (λ q. cc))
  finish_at-FinishEnds at_header s ne = inr (fail-RolledBack s not_finished (λ q. cc) (λ q. cc))
  finish_at-FinishEnds streaming s ne = inr (fail-RolledBack s not_finished (λ q. cc) (λ q. cc))

  -- A finish of a session that has not failed either succeeds or ends with an error and the backend's
  -- rollback as the last call. Where it succeeds, its calls of the backend were, in this order and each
  -- with success: the import of the ticket with its certificates (none when there is no ticket), the
  -- reading of the manifest by the id of the package's meta content, the registration of the meta record
  -- and the push of the application record; and the meta record registered and pushed describes the
  -- manifest that was read, every content of which, but the delta fragments, arrived with the package.
  pub install_finish-FinishEnds :
      (s : Session B N) → s.ins.stage ≢ failed → FinishEnds s (install_finish s)
  unfolding install_finish
  install_finish-FinishEnds s ne = finish_at-FinishEnds s.ins.stage s ne
