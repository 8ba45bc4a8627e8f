-- ===== src/Install/Table.antt =====
-- What `build_entries` leaves of the installer, and how many files it takes.
use mathlib.Core.Path.{subst}
use nx_nexus.Base.{
  sym, ℕ, zero, suc, ◌+◌, ◌≤◌, ◌≡◌, ◌≢◌, inl, inr, refl, ap, ◌∙◌, Bool, true, false, List, [], ◌∷◌,
  arith, length, length-append, Bytes, Bool-cases, leb, ltb, if◌then◌else◌,
}
use nx_nexus.Outcome.{Outcome-cases}
use nx_nexus.PartitionFs.{PartitionFsEntry, get_entry, get_entry_count, get_data_offset}
use nx_nexus.Install.{
  EntryKind, ignore, nca, meta_nca, ticket, cert, ncz, meta_ncz, is_meta, InstallEntry, Installer,
  InstallResult, in_progress,
}
use nx_nexus.Install.Entries.{
  is_ok, on_ok, order_entries, entry_of, keep_entry, take_entry, collect, place, sort_onto,
  back_to_front, sort_entries, build_entries,
}
use nx_nexus.Install.Classify.{classify_name}

length-place :
    (key : InstallEntry) (es : List InstallEntry) → length (place key es) ≡ suc (length es)
unfolding place
length-place key [] = refl
length-place key (e ∷ es) = elim (Bool-cases (ltb key.abs_offset e.abs_offset)) [
  | inl c ↦ rw c (ap suc (length-place key es))
  | inr c ↦ rw c refl
]

length-sort_onto :
    (sorted es : List InstallEntry) → length (sort_onto sorted es) ≡ length sorted + length es
unfolding sort_onto
length-sort_onto sorted [] = omega arith
length-sort_onto sorted (e ∷ es) =
    omega (arith, length-sort_onto (place e sorted) es, length-place e sorted)

length-back_to_front :
    (sorted es : List InstallEntry) → length (back_to_front sorted es) ≡ length sorted + length es
unfolding back_to_front
length-back_to_front [] es = omega arith
length-back_to_front (e ∷ sorted) es = omega (arith, length-back_to_front sorted (e ∷ es))

pub length-sort_entries : (es : List InstallEntry) → length (sort_entries es) ≡ length es
unfolding sort_entries
length-sort_entries es =
    omega (arith, length-back_to_front (sort_onto [] es) [], length-sort_onto [] es)

-- What the table leaves alone, and its size.
pub record Tabled (ins ins' : Installer) : Type 0 where
  pub stage : ins'.stage ≡ ins.stage
  pub header : ins'.header ≡ ins.header
  pub position : ins'.stream_pos ≡ ins.stream_pos
  pub tik : ins'.tik ≡ ins.tik
  pub cert : ins'.cert ≡ ins.cert
  pub opened : ins'.content_open ≡ ins.content_open
  pub few : length ins'.entries ≤ 64

-- A result that is `install_ok` or an error.
abbrev pub IsFinal : InstallResult → Type 0
IsFinal r = r ≢ in_progress

Tabled-refl : (ins : Installer) → length ins.entries ≤ 64 → Tabled ins ins
Tabled-refl ins h = record {
  stage = refl;
  header = refl;
  position = refl;
  tik = refl;
  cert = refl;
  opened = refl;
  few = h;
}

Tabled-trans :
    {a : Installer} (b : Installer) {c : Installer} → Tabled a b → Tabled b c → Tabled a c
Tabled-trans b h k = record {
  stage = k.stage ∙ h.stage;
  header = k.header ∙ h.header;
  position = k.position ∙ h.position;
  tik = k.tik ∙ h.tik;
  cert = k.cert ∙ h.cert;
  opened = k.opened ∙ h.opened;
  few = k.few;
}

-- The result is final, and the table is as it should be.
abbrev pub Filled : Installer → InstallResult × Installer → Type 0
Filled ins t = IsFinal t.0 × Tabled ins t.1

keep_entry-Filled :
    (ins : Installer) (i : ℕ) (e : PartitionFsEntry) (k : EntryKind) (id : Bytes)
    → length ins.entries ≤ 64
    → Filled ins (keep_entry ins i e k id)
unfolding keep_entry
keep_entry-Filled ins i e k id h =
    let slot = entry_of (get_data_offset ins.pfs) i e k id in
    elim (Bool-cases (leb 64 (length ins.entries))) [
      | inl full ↦ rw full ((λ q. cc), Tabled-refl ins h)
      | inr room ↦ elim (Bool-cases (is_meta k)) [
        | inl m ↦ rw room (
            rw m (
              (λ q. cc),
              record {
                stage = refl;
                header = refl;
                position = refl;
                tik = refl;
                cert = refl;
                opened = refl;
                few = ground (arith, room, length-append ins.entries (slot ∷ []));
              },
            ))
        | inr m ↦ rw room (
            rw m (
              (λ q. cc),
              record {
                stage = refl;
                header = refl;
                position = refl;
                tik = refl;
                cert = refl;
                opened = refl;
                few = ground (arith, room, length-append ins.entries (slot ∷ []));
              },
            ))
      ]
    ]

take_entry-Filled :
    (ins : Installer) (i : ℕ) (e : PartitionFsEntry) (c : EntryKind × Bytes)
    → length ins.entries ≤ 64
    → Filled ins (take_entry ins i e c)
unfolding take_entry
take_entry-Filled ins i e (ignore, id) h = ((λ q. cc), Tabled-refl ins h)
take_entry-Filled ins i e (nca, id) h = keep_entry-Filled ins i e nca id h
take_entry-Filled ins i e (meta_nca, id) h = keep_entry-Filled ins i e meta_nca id h
take_entry-Filled ins i e (ncz, id) h = keep_entry-Filled ins i e ncz id h
take_entry-Filled ins i e (meta_ncz, id) h = keep_entry-Filled ins i e meta_ncz id h
take_entry-Filled ins i e (ticket, id) h = keep_entry-Filled ins i e ticket id h
take_entry-Filled ins i e (cert, id) h = keep_entry-Filled ins i e cert id h

-- Going on with a result that was final either goes on or ends with it.
on_ok-Filled :
    (ins : Installer) (t : InstallResult × Installer) (go : Installer → InstallResult × Installer)
    → Filled ins t
    → (Tabled ins t.1 → Filled ins (go t.1))
    → Filled ins (on_ok t go)
on_ok-Filled ins t go h f = elim (Bool-cases (is_ok t.0)) [
  | inl y ↦ subst (Filled ins) (ap (λ b. if b then go t.1 else t) (sym y)) (f h.1)
  | inr n ↦ subst (Filled ins) (ap (λ b. if b then go t.1 else t) (sym n)) h
]

Filled-trans :
    (a b : Installer) (t : InstallResult × Installer) → Tabled a b → Filled b t → Filled a t
Filled-trans a b t h k = (k.0, Tabled-trans b h k.1)

collect-Filled :
    (n i : ℕ) (ins : Installer) → length ins.entries ≤ 64 → Filled ins (collect n i ins)
unfolding collect
collect-Filled zero i ins h = ((λ q. cc), Tabled-refl ins h)
collect-Filled (suc n) i ins h = elim (Outcome-cases (get_entry ins.pfs i)) [
  | inl (e, g) ↦
      let t = take_entry ins i e (classify_name e.name) in
      rw (g, collect)
        (on_ok-Filled ins t (collect n (i + 1)) (take_entry-Filled ins i e (classify_name e.name) h)
          λ tabled.
            Filled-trans ins (t.1) (collect n (i + 1) t.1) tabled
              (collect-Filled n (i + 1) t.1 tabled.few))
  | inr (inl (x, g)) ↦ rw (g, collect) ((λ q. cc), Tabled-refl ins h)
  | inr (inr g) ↦ rw (g, collect) ((λ q. cc), Tabled-refl ins h)
]

if-Filled :
    (ins : Installer) (b : Bool) (x y : InstallResult × Installer)
    → Filled ins x
    → Filled ins y
    → Filled ins (if b then x else y)
if-Filled ins true x y h k = h
if-Filled ins false x y h k = k

order_entries-Filled : (ins : Installer) → length ins.entries ≤ 64 → Filled ins (order_entries ins)
unfolding order_entries
order_entries-Filled ins h =
    if-Filled ins ins.has_meta_nca _ _
      (
        (λ q. cc),
        record {
          stage = refl;
          header = refl;
          position = refl;
          tik = refl;
          cert = refl;
          opened = refl;
          few = omega (arith, length-sort_entries ins.entries);
        },
      )
      ((λ q. cc), Tabled-refl ins h)

-- The table has at most as many files as there are slots, and the rest of the installer is as it was.
pub build_entries-Filled : (ins : Installer) → Filled ins (build_entries ins)
unfolding build_entries
build_entries-Filled ins =
    let empty : Installer = record ins { entries = [] } in
    let t = collect (get_entry_count ins.pfs) 0 empty in
    let start : Tabled ins empty = record {
      stage = refl;
      header = refl;
      position = refl;
      tik = refl;
      cert = refl;
      opened = refl;
      few = omega arith;
    } in
    Filled-trans ins empty (on_ok t order_entries) start (
      on_ok-Filled empty t order_entries
        (collect-Filled (get_entry_count ins.pfs) 0 empty (omega arith))
        λ tabled.
          Filled-trans empty (t.1) (order_entries t.1) tabled (order_entries-Filled t.1 tabled.few))
