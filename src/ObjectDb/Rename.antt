-- ===== src/ObjectDb/Rename.antt =====
-- A renamed directory leaves no handle behind that means a path below its old name.
use nx_nexus.Base.{
  ℕ, zero, suc, ◌+◌, ◌-◌, ◌<◌, ◌≡◌, ◌≢◌, inl, inr, refl, sym, ap, ◌∙◌, Bool, true, false, ◌&&◌,
  List, [], ◌∷◌, some, arith, length, get_elem?, Bool-cases, Bytes, if◌then◌else◌,
}
use nx_nexus.ObjectDb.{
  NexusObject, ObjectDb, modify, kill, killed, get, rename, is_below, is_descendant, moved,
  decrement,
}
use nx_nexus.ObjectDb.Cases.{get-eq-some}

-- No slot that the loop leaves valid is one it was to invalidate.
kill-spares :
    (doomed : ℕ → NexusObject → Bool) (k i : ℕ) (es : List NexusObject) (live : ℕ) {c : NexusObject}
    → get_elem? (kill doomed k es live).0 i ≡ some c
    → c.valid ≡ true
    → doomed (k + i) c ≡ false
unfolding kill
kill-spares doomed k i [] live g v = absurd (cc)
kill-spares doomed k zero (e ∷ es) live {c} g v = elim (Bool-cases (e.valid && doomed k e)) [
  | inl d ↦ absurd (ground (arith, rw d at g, v))
  | inr d ↦ ground (arith, rw d at g, v, d)
]
kill-spares doomed k (suc i) (e ∷ es) live {c} g v =
    ap (λ n. doomed n c) (omega arith)
    ∙ kill-spares doomed (k + 1) i es (if e.valid && doomed k e then decrement live else live) g v

get_elem?-modify :
    (j i : ℕ) (f : NexusObject → NexusObject) (es : List NexusObject)
    → i ≢ j
    → get_elem? (modify j f es) i ≡ get_elem? es i
unfolding modify
get_elem?-modify j i f [] ne = refl
get_elem?-modify zero zero f (e ∷ es) ne = absurd (ne refl)
get_elem?-modify zero (suc i) f (e ∷ es) ne = refl
get_elem?-modify (suc j) zero f (e ∷ es) ne = refl
get_elem?-modify (suc j) (suc i) f (e ∷ es) ne = get_elem?-modify j i f es (λ q. ne (ap suc q))

rename-dir :
    (db : ObjectDb) (handle : ℕ) (path : Bytes) {e : NexusObject}
    → get db handle ≡ some e
    → e.is_dir ≡ true
    → length path < 0x301
    → (rename db handle path).1.entries
      ≡ modify (handle - 1) (moved path) (killed db (is_descendant (handle - 1) e)).entries
unfolding rename
rename-dir db handle path g d l = ground arith

-- After a directory is renamed to a path that fits, every other handle of the same storage that is
-- still live has a path outside the directory's old one.
pub rename-is_below :
    (db : ObjectDb) (handle other : ℕ) (path : Bytes) {e c : NexusObject}
    → get db handle ≡ some e
    → e.is_dir ≡ true
    → length path < 0x301
    → other ≢ handle
    → get (rename db handle path).1 other ≡ some c
    → c.storage_id ≡ e.storage_id
    → is_below e.path c.path ≡ false
unfolding killed
rename-is_below db handle other path {e} {c} g d l ne h same =
    let (lo, _, _, _) = get-eq-some db handle g in
    let (lo', _, s, v) = get-eq-some (rename db handle path).1 other h in
    let doomed = is_descendant (handle - 1) e in
    let apart : other - 1 ≢ handle - 1 = λ q. ne (omega arith) in
    let t : get_elem? (kill doomed 0 db.entries db.live).0 (other - 1) ≡ some c =
      sym (
        get_elem?-modify (handle - 1) (other - 1) (moved path) (kill doomed 0 db.entries db.live).0
          apart)
      ∙ sym (ap (λ es. get_elem? es (other - 1)) (rename-dir db handle path g d l))
      ∙ s in
    ground (arith, kill-spares doomed 0 (other - 1) db.entries db.live t v, apart)
