-- ===== src/NspBuilder/Pieces.antt =====
-- Where an entry's slot and name lie in the header image, and that the image's fields read back.
use mathlib.Core.Path.{subst}
use mathlib.Core.Option.{some-injective}
use nx_nexus.Base.{
  ℕ, zero, suc, ◌+◌, ◌*◌, ◌^◌, ◌≤◌, ◌<◌, ◌≡◌, refl, sym, ap, ◌∙◌, List, [], ◌∷◌, ◌++◌, append_assoc,
  some, arith, length, get_elem?, length-append, Bytes,
}
use nx_nexus.CString.{IsString}
use nx_nexus.NspBuilder.{NspBuilderEntry, name_table_size}
use nx_nexus.NspBuilder.Image.{slot, slots, names, data_size, placed, length-slot}
use nx_nexus.NspBuilder.Fill.{Sized}

-- What `nspBuilderAdd` lets into the array.
pub record Allowed (e : NspBuilderEntry) : Type 0 where
  pub string : IsString e.name
  pub some_name : 0 < length e.name
  pub short : length e.name < 80
  pub sized : e.size < 2 ^ 64

abbrev pub AllAllowed : List NspBuilderEntry → Type 0
AllAllowed [] = Unit
AllAllowed (e ∷ es) = Allowed e × AllAllowed es

pub AllAllowed-Sized : (es : List NspBuilderEntry) → AllAllowed es → Sized es
AllAllowed-Sized [] h = tt
AllAllowed-Sized (e ∷ es) h = (h.0.sized, AllAllowed-Sized es h.1)

pub name_table_size-le :
    (es : List NspBuilderEntry) → AllAllowed es → name_table_size es ≤ 80 * length es
name_table_size-le [] h = omega arith
name_table_size-le (e ∷ es) h = let s = h.0.short in omega (arith, name_table_size-le es h.1)

-- The parts of the image around entry `j`, in lists whose slots start at `off` and names at `at`.
pub record Part (off at : ℕ) (es : List NspBuilderEntry) (j : ℕ) (e : NspBuilderEntry)
    : Type 0 where
  pub slots_before : Bytes
  pub slots_after : Bytes
  pub names_before : Bytes
  pub names_after : Bytes
  pub name_at : ℕ
  pub slots_are :
      slots off at es ≡ slots_before ++ (slot e.data_offset e.size name_at ++ slots_after)
  pub names_are : names es ≡ names_before ++ (e.name ++ (0 ∷ names_after))
  pub slot_place : length slots_before ≡ 24 * j
  pub name_place : name_at ≡ at + length names_before
  pub in_data : e.data_offset + e.size ≤ off + data_size es
  pub allowed : Allowed e

pub part :
    (off at : ℕ) (es : List NspBuilderEntry) (j : ℕ) {e : NspBuilderEntry}
    → AllAllowed es
    → get_elem? (placed off es) j ≡ some e
    → Part off at es j e
part off at [] j h g = absurd (cc)
part off at (d ∷ es) zero {e} h g =
    subst (Part off at (d ∷ es) zero) (some-injective _ _ g) (record {
      slots_before = [];
      slots_after = slots (off + d.size) (at + (length d.name + 1)) es;
      names_before = [];
      names_after = names es;
      name_at = at;
      slots_are = refl;
      names_are = append_assoc d.name (0 ∷ []) (names es);
      slot_place = refl;
      name_place = omega arith;
      in_data = omega arith;
      allowed = record {
        string = h.0.string;
        some_name = h.0.some_name;
        short = h.0.short;
        sized = h.0.sized;
      };
    })
part off at (d ∷ es) (suc j) {e} h g =
    let p = part (off + d.size) (at + (length d.name + 1)) es j h.1 g in
    let s = slot off d.size at in
    let n = d.name ++ (0 ∷ []) in
    record {
      slots_before = s ++ p.slots_before;
      slots_after = p.slots_after;
      names_before = n ++ p.names_before;
      names_after = p.names_after;
      name_at = p.name_at;
      slots_are = ap (λ r. s ++ r) p.slots_are ∙ sym (append_assoc s p.slots_before _);
      names_are = ap (λ r. n ++ r) p.names_are ∙ sym (append_assoc n p.names_before _);
      slot_place =
          omega (arith, length-append s p.slots_before, length-slot off d.size at, p.slot_place);
      name_place =
          omega
            (arith, length-append n p.names_before, length-append d.name (0 ∷ []), p.name_place);
      in_data = omega (arith, p.in_data);
      allowed = p.allowed;
    }

pub length-slots :
    (off at : ℕ) (es : List NspBuilderEntry) → length (slots off at es) ≡ 24 * length es
length-slots off at [] = refl
length-slots off at (e ∷ es) =
    let rest = slots (off + e.size) (at + (length e.name + 1)) es in
    omega (
      arith,
      length-append (slot off e.size at) rest,
      length-slot off e.size at,
      length-slots (off + e.size) (at + (length e.name + 1)) es,
    )

pub length-names : (es : List NspBuilderEntry) → length (names es) ≡ name_table_size es
length-names [] = refl
length-names (e ∷ es) = omega (
  arith,
  length-append (e.name ++ (0 ∷ [])) (names es),
  length-append e.name (0 ∷ []),
  length-names es,
)
