-- ===== src/Install/Manifest.antt =====
-- The meta record that `build_meta` of src/installer/installer.c makes of a manifest.
use mathlib.Core.Path.{subst}
use nx_nexus.Base.{
  ℕ, zero, suc, ◌+◌, ◌≡◌, ◌≢◌, ◌⊎◌, inl, inr, refl, sym, ap, ◌∙◌, true, ◌&&◌, List, [], ◌∷◌, ◌++◌,
  append-nil, append_assoc, some, arith, get_elem?, slice, Bytes, Bool-cases, if_cases, ltb, ◌==◌,
  if◌then◌else◌,
}
use nx_nexus.Outcome.{Outcome-cases, ok}
use nx_nexus.CString.{bytes_eq, bytes_eq_iff}
use nx_nexus.Cnmt.{CnmtContext, CnmtContentInfo, get_content_count, get_content_info}
use nx_nexus.Install.{
  is_content, InstallResult, install_ok, in_progress, bad_cnmt, missing_content, InstallContent,
  InstallMeta, InstallEntry, Installer,
}
use nx_nexus.Install.Finish.{
  is_present, content_of, add_content, list_contents, meta_content, build_meta,
}

-- A content entry of the package with this id.
abbrev pub Arrived : List InstallEntry → Bytes → Type 0
Arrived es id =
    (j : ℕ) × ((e : InstallEntry) × (get_elem? es j ≡ some e)
      × (is_content e.kind ≡ true)
      × (e.content_id ≡ id))

is_present-Arrived : (es : List InstallEntry) (id : Bytes) → is_present es id ≡ true → Arrived es id
unfolding is_present
is_present-Arrived [] id h = absurd (cc)
is_present-Arrived (e ∷ es) id h =
    elim (Bool-cases (is_content e.kind && bytes_eq e.content_id id)) [
      | inl y ↦
          (0, (e, refl, ground (arith, y), (bytes_eq_iff e.content_id id).0 (ground (arith, y))))
      | inr n ↦ let (j, r) = is_present-Arrived es id (ground (arith, h, n)) in (suc j, r)
    ]

-- The records are those of the manifest's contents from index `i` on, in order: every content but the
-- delta fragments, and each of them arrived with the package.
abbrev pub Lists : List InstallEntry → CnmtContext → ℕ → ℕ → List InstallContent → Type 0
Lists es cnmt zero i cs = cs ≡ []
Lists es cnmt (suc n) i cs =
    (info : CnmtContentInfo) × (get_content_info cnmt i ≡ ok info)
    × (((info.content_type ≡ 6) × Lists es cnmt n (i + 1) cs)
        ⊎ ((info.content_type ≢ 6)
            × Arrived es info.content_id
            × ((rest : List InstallContent) × (cs ≡ content_of info ∷ rest)
                × Lists es cnmt n (i + 1) rest)))

-- What the loop over the contents leaves of the meta record when it succeeds.
abbrev pub Listed :
    List InstallEntry → CnmtContext → ℕ → ℕ → InstallMeta → InstallResult × InstallMeta → Type 0
Listed es cnmt n i m t =
    ((t.0 ≡ install_ok)
      × ((cs : List InstallContent) × (t.1 ≡ record m { contents = m.contents ++ cs })
          × Lists es cnmt n i cs))
    ⊎ ((t.0 ≡ bad_cnmt) ⊎ (t.0 ≡ missing_content))

skipped :
    (es : List InstallEntry) (cnmt : CnmtContext) (n i : ℕ) (m : InstallMeta)
    (info : CnmtContentInfo)
    → get_content_info cnmt i ≡ ok info
    → info.content_type ≡ 6
    → (t : InstallResult × InstallMeta) → Listed es cnmt n (i + 1) m t
    → Listed es cnmt (suc n) i m t
skipped es cnmt n i m info g d t (inl (o, (cs, e, l))) = inl (o, (cs, e, (info, g, inl (d, l))))
skipped es cnmt n i m info g d t (inr bad) = inr bad

added :
    (es : List InstallEntry) (cnmt : CnmtContext) (n i : ℕ) (m : InstallMeta)
    (info : CnmtContentInfo)
    → get_content_info cnmt i ≡ ok info
    → info.content_type ≢ 6
    → Arrived es info.content_id
    → (t : InstallResult × InstallMeta)
    → Listed es cnmt n (i + 1) (add_content m (content_of info)) t
    → Listed es cnmt (suc n) i m t
added es cnmt n i m info g d a t (inl (o, (cs, e, l))) = inl (
  o,
  (
    content_of info ∷ cs,
    e ∙ ap (λ q. record m { contents = q }) (append_assoc m.contents (content_of info ∷ []) cs),
    (info, g, inr (d, a, (cs, refl, l))),
  ),
)
added es cnmt n i m info g d a t (inr bad) = inr bad

-- The round on a content that is no delta fragment.
abbrev list_kept :
    List InstallEntry
    → CnmtContext
    → ℕ
    → ℕ
    → InstallMeta
    → CnmtContentInfo
    → InstallResult × InstallMeta
list_kept es cnmt n i m info =
    if is_present es info.content_id
    then list_contents es cnmt n (i + 1) (add_content m (content_of info))
    else (missing_content, m)

list_contents_ok :
    (es : List InstallEntry) (cnmt : CnmtContext) (n i : ℕ) (m : InstallMeta)
    (info : CnmtContentInfo)
    → get_content_info cnmt i ≡ ok info
    → list_contents es cnmt (suc n) i m ≡ (
        if info.content_type == 6
        then list_contents es cnmt n (i + 1) m
        else list_kept es cnmt n i m info)
unfolding list_contents
list_contents_ok es cnmt n i m info g = rw (g, list_contents) refl

list_contents-Listed :
    (es : List InstallEntry) (cnmt : CnmtContext) (n i : ℕ) (m : InstallMeta)
    → Listed es cnmt n i m (list_contents es cnmt n i m)
unfolding list_contents
list_contents-Listed es cnmt zero i m =
    inl (refl, ([], ap (λ cs. record m { contents = cs }) (sym (append-nil m.contents)), refl))
list_contents-Listed es cnmt (suc n) i m = elim (Outcome-cases (get_content_info cnmt i)) [
  | inr (inl (x, g)) ↦ rw (g, list_contents) (inr (inl refl))
  | inr (inr g) ↦ rw (g, list_contents) (inr (inl refl))
  | inl (info, g) ↦
      subst (Listed es cnmt (suc n) i m) (sym (list_contents_ok es cnmt n i m info g)) (
        if_cases (Listed es cnmt (suc n) i m) (info.content_type == 6)
          (list_contents es cnmt n (i + 1) m) (list_kept es cnmt n i m info)
          (λ delta.
            skipped es cnmt n i m info g (ground (arith, delta)) (list_contents es cnmt n (i + 1) m)
              (list_contents-Listed es cnmt n (i + 1) m))
          λ kept.
            if_cases (Listed es cnmt (suc n) i m) (is_present es info.content_id)
              (list_contents es cnmt n (i + 1) (add_content m (content_of info)))
              (missing_content, m)
              (λ here.
                added es cnmt n i m info g (ground (arith, kept))
                  (is_present-Arrived es info.content_id here)
                  (list_contents es cnmt n (i + 1) (add_content m (content_of info)))
                  (list_contents-Listed es cnmt n (i + 1) (add_content m (content_of info))))
              λ _. inr (inr refl))
]

-- The meta record that goes with a manifest: the meta NCA first, then the contents.
pub record Describes (ins : Installer) (cnmt : CnmtContext) (m : InstallMeta) : Type 0 where
  pub listed : List InstallContent
  pub contents : m.contents ≡ meta_content ins ∷ listed
  pub lists : Lists ins.entries cnmt (get_content_count cnmt) 0 listed
  pub title : m.title_id ≡ cnmt.title_id
  pub version : m.version ≡ cnmt.version
  pub storage : m.storage_id ≡ ins.target_storage
  pub kind : m.meta_type ≡ cnmt.meta_type
  pub ext_header : m.ext_header ≡ slice 0x20 cnmt.extended_header_size cnmt.blob

abbrev pub Built : Installer → CnmtContext → InstallResult × InstallMeta → Type 0
Built ins cnmt t =
    ((t.0 ≡ install_ok) × Describes ins cnmt t.1) ⊎ ((t.0 ≢ install_ok) × (t.0 ≢ in_progress))

Listed-Built :
    (ins : Installer) (cnmt : CnmtContext) (m : InstallMeta) (t : InstallResult × InstallMeta)
    → m.contents ≡ meta_content ins ∷ []
    → m.title_id ≡ cnmt.title_id
    → m.version ≡ cnmt.version
    → m.storage_id ≡ ins.target_storage
    → m.meta_type ≡ cnmt.meta_type
    → m.ext_header ≡ slice 0x20 cnmt.extended_header_size cnmt.blob
    → Listed ins.entries cnmt (get_content_count cnmt) 0 m t
    → Built ins cnmt t
Listed-Built ins cnmt m t c ti v st k x (inr (inl e)) = inr ((λ q. cc), (λ q. cc))
Listed-Built ins cnmt m t c ti v st k x (inr (inr e)) = inr ((λ q. cc), (λ q. cc))
Listed-Built ins cnmt m t c ti v st k x (inl (o, (cs, e, l))) = inl (
  o,
  record {
    listed = cs;
    contents = ap (λ (q : InstallMeta). q.contents) e ∙ ap (λ q. q ++ cs) c;
    lists = l;
    title = ap (λ (q : InstallMeta). q.title_id) e ∙ ti;
    version = ap (λ (q : InstallMeta). q.version) e ∙ v;
    storage = ap (λ (q : InstallMeta). q.storage_id) e ∙ st;
    kind = ap (λ (q : InstallMeta). q.meta_type) e ∙ k;
    ext_header = ap (λ (q : InstallMeta). q.ext_header) e ∙ x;
  },
)

pub build_meta-Built : (ins : Installer) (cnmt : CnmtContext) → Built ins cnmt (build_meta ins cnmt)
unfolding build_meta
build_meta-Built ins cnmt =
    if_cases (Built ins cnmt) (ltb 0x100 cnmt.extended_header_size) _ _
      (λ _. inr ((λ q. cc), (λ q. cc)))
      λ _.
        if_cases (Built ins cnmt) (ltb 64 (get_content_count cnmt + 1)) _ _
          (λ _. inr ((λ q. cc), (λ q. cc)))
          λ _.
            Listed-Built ins cnmt _ _ refl refl refl refl refl refl
              (list_contents-Listed ins.entries cnmt (get_content_count cnmt) 0 _)
