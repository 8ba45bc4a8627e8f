-- ===== src/Install/Finish.antt =====
-- Finalisation in src/installer/installer.c: `build_meta`, `nexusInstallFinish` and
-- `nexusInstallAbort`.
use nx_nexus.Base.{
  ℕ, zero, suc, ◌+◌, Bool, true, false, ◌&&◌, List, [], ◌∷◌, ◌++◌, Option, none, some, ltb, ◌==◌,
  if◌then◌else◌, length, slice, Bytes,
}
use nx_nexus.Outcome.{Outcome, ok, err, fault}
use nx_nexus.CString.{bytes_eq}
use nx_nexus.Cnmt
use nx_nexus.Cnmt.{
  CnmtContext, CnmtContentInfo, cnmt_header_size, get_content_count, get_content_info,
}
use nx_nexus.Ticket
use nx_nexus.Ticket.{TicketContext}
use nx_nexus.Install.{
  is_content, max_install_contents, max_cnmt, max_ext_header, InstallStage, complete, failed,
  InstallResult, install_ok, too_many_contents, bad_cnmt, missing_content, buffer_too_small,
  backend_error, aborted, not_finished, InstallContent, InstallMeta, InstallEntry, Installer,
  Backend, Decoder, Session,
}
use nx_nexus.Install.Entries.{is_ok}
use nx_nexus.Install.Feed.{Attempt, went, failed_with, and_then, with_ins, fail, fail_session}

-- `CnmtContentType_Meta` and `CnmtContentType_DeltaFragment`.
abbrev pub type_meta : ℕ
type_meta = 0

abbrev pub type_delta_fragment : ℕ
type_delta_fragment = 6

-- Whether a content with this id came with the package.
unfoldable pub is_present : List InstallEntry → Bytes → Bool
is_present [] id = false
is_present (e ∷ es) id =
    if is_content e.kind && bytes_eq e.content_id id then true else is_present es id

abbrev pub content_of : CnmtContentInfo → InstallContent
content_of info = record {
  content_id = info.content_id;
  size = info.size;
  attr = info.content_attributes;
  content_type = info.content_type;
  id_offset = info.id_offset;
}

abbrev pub add_content : InstallMeta → InstallContent → InstallMeta
add_content m c = record m { contents = m.contents ++ (c ∷ []) }

-- The loop over the manifest's contents, with `n` left from index `i` on.
unfoldable pub list_contents :
    List InstallEntry → CnmtContext → ℕ → ℕ → InstallMeta → InstallResult × InstallMeta
list_contents es cnmt zero i m = (install_ok, m)
list_contents es cnmt (suc n) i m = elim (get_content_info cnmt i) [
  | err x ↦ (bad_cnmt, m)
  | fault ↦ (bad_cnmt, m)
  | ok info ↦
      if info.content_type == type_delta_fragment
      then list_contents es cnmt n (i + 1) m
      else if is_present es info.content_id
      then list_contents es cnmt n (i + 1) (add_content m (content_of info))
      else (missing_content, m)
]

-- The meta NCA's own record.
abbrev pub meta_content : Installer → InstallContent
meta_content ins = record {
  content_id = ins.meta_content_id;
  size = ins.meta_nca_size;
  attr = 0;
  content_type = type_meta;
  id_offset = 0;
}

-- `build_meta`: its result, and `ins->meta` after it. The extended header lies inside a manifest
-- that `cnmtInit` accepted.
unfoldable pub build_meta : Installer → CnmtContext → InstallResult × InstallMeta
build_meta ins cnmt =
    let m : InstallMeta = record (ins.meta) {
      title_id = cnmt.title_id;
      version = cnmt.version;
      meta_type = cnmt.meta_type;
      storage_id = ins.target_storage;
    } in
    let m' : InstallMeta = record m {
      ext_header = slice cnmt_header_size cnmt.extended_header_size cnmt.blob;
    } in
    if ltb max_ext_header cnmt.extended_header_size
    then (bad_cnmt, m)
    else if ltb max_install_contents (get_content_count cnmt + 1)
    then (too_many_contents, m')
    else list_contents ins.entries cnmt (get_content_count cnmt) 0
        (record m' { contents = meta_content ins ∷ [] })

module _ {B : Backend} {N : Decoder} where
  abbrev pub with_meta : Session B N → InstallMeta → Session B N
  with_meta s m = with_ins s (record (s.ins) { meta = m })

  -- What a hook's answer comes to.
  abbrev pub hook : Session B N → Bool × B.State → Attempt B N
  hook s (true, user) = went (record s { user = user })
  hook s (false, user) = fail (record s { user = user }) backend_error

  -- The rights id of the ticket is noted when the ticket parses.
  unfoldable pub note_ticket : Outcome TicketContext → Session B N → Session B N
  note_ticket (ok tik) s =
      with_meta s (record (s.ins.meta) { has_ticket = true; rights_id = tik.rights_id })
  note_ticket (err x) s = s
  note_ticket fault s = s

  -- A ticket is imported with its certificates.
  unfoldable pub import_ticket : Session B N → Attempt B N
  import_ticket s =
      if length s.ins.tik == 0
      then went s
      else if length s.ins.cert == 0
      then fail s buffer_too_small
      else and_then (hook s (B.import_ticket s.ins.tik s.ins.cert s.user))
          (λ s1. went (note_ticket (Ticket.init s1.ins.tik) s1))

  -- The manifest that was read back becomes the meta record.
  unfoldable pub use_cnmt : Session B N → Outcome CnmtContext → Attempt B N
  use_cnmt s (ok cnmt) =
      let r = build_meta s.ins cnmt in
      if is_ok r.0 then went (with_meta s r.1) else fail (with_meta s r.1) r.0
  use_cnmt s (err x) = fail s bad_cnmt
  use_cnmt s fault = fail s bad_cnmt

  unfoldable pub use_blob : Session B N → Option Bytes × B.State → Attempt B N
  use_blob s (none, user) = fail (record s { user = user }) backend_error
  use_blob s (some blob, user) = use_cnmt (record s { user = user }) (Cnmt.init blob)

  unfoldable pub read_meta : Session B N → Attempt B N
  read_meta s = use_blob s (B.read_cnmt s.ins.meta_content_id max_cnmt s.user)

  unfoldable pub register : Session B N → Attempt B N
  register s =
      and_then (hook s (B.register_meta s.ins.meta s.user))
        (λ s1. hook s1 (B.push_record s1.ins.meta s1.user))

  unfoldable pub finish_complete : Session B N → Attempt B N
  finish_complete s = and_then (import_ticket s) (λ s1. and_then (read_meta s1) (λ s2. register s2))

  abbrev pub result_of : Attempt B N → InstallResult × Session B N
  result_of (went s) = (install_ok, s)
  result_of (failed_with r s) = (r, s)

  unfoldable pub finish_at : InstallStage → Session B N → InstallResult × Session B N
  finish_at failed s = (aborted, s)
  finish_at complete s = result_of (finish_complete s)
  finish_at _ s = result_of (fail s not_finished)

  unfoldable pub install_finish : Session B N → InstallResult × Session B N
  install_finish s = finish_at s.ins.stage s

  unfoldable pub abort_at : InstallStage → Session B N → Session B N
  abort_at failed s = s
  abort_at _ s = fail_session s

  unfoldable pub install_abort : Session B N → Session B N
  install_abort s = abort_at s.ins.stage s
