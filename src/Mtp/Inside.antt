-- ===== src/Mtp/Inside.antt =====
-- The dataset writer of src/mtp/mtp_container.c stays inside its buffer.
use nx_nexus.Base.{
  ℕ, ◌-◌, ◌≤◌, ◌≡◌, inl, inr, Bool, true, false, List, [], ◌∷◌, Option, none, some, arith, ltb,
  ◌==◌, if◌then◌else◌, length, take, Bytes, length-append, Bool-cases, Option-cases,
}
use nx_nexus.ObjectDb.{ObjectDb}
use nx_nexus.Mtp.Writer.{
  MtpWriter, write_bytes, write_units, write_words, write_u8, write_counted, write_string,
  string_max_units, transliterate,
}
use nx_nexus.Mtp.World.{Child}
use nx_nexus.Mtp.Path.{path_join}
use nx_nexus.Mtp.Listing.{emit_for, collect_props}

-- What is written fits into a buffer of this capacity.
pub record Inside (limit : ℕ) (w : MtpWriter) : Type 0 where
  pub cap_is : w.cap ≡ limit
  pub fits_in : length w.written ≤ limit

if-Inside :
    {limit : ℕ} (c : Bool) (v w : MtpWriter)
    → Inside limit v
    → Inside limit w
    → Inside limit (if c then v else w)
if-Inside true v w first second = first
if-Inside false v w first second = second

pub write_bytes-Inside :
    {limit : ℕ} (bytes : Bytes) (w : MtpWriter)
    → Inside limit w
    → Inside limit (write_bytes bytes w)
unfolding write_bytes
write_bytes-Inside bytes w i = elim (Bool-cases (ltb (w.cap - length w.written) (length bytes))) [
  | inl e ↦ rw e (if-Inside w.overflow _ _ i (record { cap_is = i.cap_is; fits_in = i.fits_in }))
  | inr e ↦ rw e (
      if-Inside w.overflow _ _ i (record {
        cap_is = i.cap_is;
        fits_in =
            (let h : length bytes ≤ w.cap - length w.written = ground arith in
              omega (arith, length-append w.written bytes, i.cap_is, i.fits_in));
      }))
]

write_units-Inside :
    {limit : ℕ} (us : List ℕ) (w : MtpWriter) → Inside limit w → Inside limit (write_units us w)
unfolding write_units
write_units-Inside [] w i = i
write_units-Inside (u ∷ us) w i = write_units-Inside us _ (write_bytes-Inside _ w i)

write_words-Inside :
    {limit : ℕ} (vs : List ℕ) (w : MtpWriter) → Inside limit w → Inside limit (write_words vs w)
unfolding write_words
write_words-Inside [] w i = i
write_words-Inside (v ∷ vs) w i = write_words-Inside vs _ (write_bytes-Inside _ w i)

ruleset inside = (write_bytes-Inside, write_units-Inside, write_words-Inside, if-Inside)

counted-Inside :
    {limit : ℕ} (us : List ℕ) (w : MtpWriter) → Inside limit w → Inside limit (write_counted us w)
counted-Inside us w i = write_bytes-Inside _ _ (write_units-Inside us _ (write_bytes-Inside _ w i))

write_string-Inside :
    {limit : ℕ} (to_utf16 : Bytes → ℕ → Option (List ℕ)) (s : Bytes) (w : MtpWriter)
    → Inside limit w
    → Inside limit (write_string to_utf16 s w)
unfolding write_string
write_string-Inside to_utf16 [] w i = write_bytes-Inside _ w i
write_string-Inside {limit = limit} to_utf16 (c ∷ cs) w i =
    elim (to_utf16 (c ∷ cs) (string_max_units - 1))
      as (λ o. Inside limit (elim o [
        | some units ↦ write_counted (take (string_max_units - 1) units) w
        | none ↦
            let units = transliterate (string_max_units - 1) (c ∷ cs) in
            if length units == 0 then write_u8 0 w else write_counted units w
      ])) [
        | some units ↦ counted-Inside _ w i
        | none ↦ if-Inside _ _ _ (write_bytes-Inside _ w i) (counted-Inside _ w i)
      ]

emit_for-Inside :
    {limit : ℕ} (to_utf16 : Bytes → ℕ → Option (List ℕ)) (storage_id handle : ℕ) (name : Bytes)
    (is_dir : Bool) (size parent : ℕ) (w : MtpWriter)
    → Inside limit w
    → Inside limit (emit_for to_utf16 storage_id handle name is_dir size parent w)
unfolding emit_for
emit_for-Inside to_utf16 storage_id handle name is_dir size parent w i =
    search (write_bytes-Inside, write_string-Inside) depth 60 fits 2000

-- One child, once its path is known.
child-Inside :
    {limit : ℕ} (w v : MtpWriter) (n m : ℕ) (c d : Bool) (db : ObjectDb)
    (rest : (MtpWriter × ℕ) × ObjectDb)
    → Inside limit w
    → Inside limit v
    → Inside limit rest.0.0
    → Inside limit (if c then ((w, n), db) else if d then ((v, m), db) else rest).0.0
child-Inside w v n m true d db rest i j k = i
child-Inside w v n m false true db rest i j k = j
child-Inside w v n m false false db rest i j k = k

-- A property list stays inside its buffer, whatever the children, their names and the object table: from
-- a writer with at most as many bytes as its capacity, `proplist_collect` over any children leaves one
-- with the same capacity and at most as many bytes as that.
pub collect_props-Inside :
    (to_utf16 : Bytes → ℕ → Option (List ℕ)) (alloc : ℕ → Bool) (storage_id parent : ℕ)
    (dir : Bytes) (cs : List Child) (limit : ℕ) (out : MtpWriter × ℕ) (db : ObjectDb)
    → Inside limit out.0
    → Inside limit (collect_props to_utf16 alloc storage_id parent dir cs out db).0.0
unfolding collect_props
collect_props-Inside to_utf16 alloc storage_id parent dir [] limit out db i = i
collect_props-Inside to_utf16 alloc storage_id parent dir (c ∷ cs) limit out db i =
    elim (Option-cases (path_join dir c.name)) [
      | inl e ↦
          rw (e, collect_props)
            (collect_props-Inside to_utf16 alloc storage_id parent dir cs limit out db i)
      | inr e ↦
          rw (e.1, collect_props)
            (let written =
                emit_for-Inside to_utf16 storage_id _ c.name c.is_dir c.size parent out.0 i in
              child-Inside _ _ _ _ _ _ _ _ i written
                (collect_props-Inside to_utf16 alloc storage_id parent dir cs limit _ _ written))
    ]
