-- ===== src/NspBuilder/Tests.antt =====
-- A builder with two files, "a" of 3 bytes and "b" of 2, in a buffer of 100 bytes.
use nx_nexus.Base.{
  ℕ, ◌+◌, ◌≤◌, ◌<◌, ◌^◌, ◌≡◌, refl, ◌⊎◌, List, [], ◌∷◌, arith, replicate, Bytes, some, false,
}
use nx_nexus.Outcome.{ok, err, too_large, overflow, out_of_range, unsupported}
use nx_nexus.Format.{le_bytes, add_overflows}
use nx_nexus.NspBuilder.{
  NspBuilder, NspBuilderEntry, NspLocation, init, add, write, write_fields, write_entry, fill,
  write_start, close, finalize, header, locate, locate_entry,
}
use nx_nexus.NspBuilder.Build.{image, built, finalize_cases}
use nx_nexus.NspBuilder.RoundTrip.{ReadsBack}
use nx_nexus.NspBuilder.Valid.{IsOpen, add-IsOpen, finalize-parses}
use nx_nexus.NspBuilder.Locate.{Serves, locate-Serves}

abbrev file : ℕ → ℕ → NspBuilderEntry
file c size = record { name = c ∷ []; size = size; data_offset = 0 }

abbrev two_files : NspBuilder
two_files = record {
  entries = file b'a' 3 ∷ file b'b' 2 ∷ [];
  header = replicate 100 0xff;
  header_size = 0;
  total_size = 0;
  finalised = false;
}

abbrev contents : List Bytes
contents = (1 ∷ 2 ∷ 3 ∷ []) ∷ (4 ∷ 5 ∷ []) ∷ []

adds : (add (add (init (replicate 100 0xff)) (b'a' ∷ []) 3).1 (b'b' ∷ []) 2).1 ≡ two_files
unfolding add init
adds = refl

refusals :
    ((add two_files [] 1).0 ≡ err too_large)
    × ((add (built two_files) (b'c' ∷ []) 1).0 ≡ err unsupported)
unfolding add
refusals = (refl, refl)

finalize_two : finalize two_files ≡ (ok tt, built two_files)
unfolding finalize write_start write close fill write_entry write_fields le_bytes add_overflows
finalize_two = refl

locate_runs :
    (locate (built two_files) 70
      ≡ ok (record { in_header = false; header_off = 0; entry_index = 0; entry_off = 2; run = 1 }))
    × (locate (built two_files) 71
        ≡ ok
            (record { in_header = false; header_off = 0; entry_index = 1; entry_off = 0; run = 2 }))
    × (locate (built two_files) 73 ≡ err out_of_range)
unfolding locate locate_entry
locate_runs = (refl, refl, refl)

two_files-IsOpen : IsOpen two_files
two_files-IsOpen = record {
  not_final = refl;
  few = omega arith;
  allowed = omega arith;
  buffer = omega arith;
}

add-IsOpen_example : IsOpen (add two_files (b'c' ∷ []) 7).1
add-IsOpen_example = add-IsOpen (b'c' ∷ []) 7 two_files-IsOpen (omega arith) (omega arith)

finalize_cases_example :
    ((100 < 68) × (finalize two_files ≡ (err too_large, two_files)))
    ⊎ (((68 ≤ 100) × (2 ^ 64 ≤ 68 + 5) × ((finalize two_files).0 ≡ err overflow))
        ⊎ ((68 ≤ 100) × (68 + 5 < 2 ^ 64) × (finalize two_files ≡ (ok tt, built two_files))))
finalize_cases_example = finalize_cases two_files refl (λ e. cc) (omega arith) (omega arith)

finalize-parses_example :
    (h : Bytes) × (header (built two_files) ≡ some h) × ReadsBack (built two_files) h
finalize-parses_example = finalize-parses two_files-IsOpen finalize_two

locate-Serves_example :
    ((70 < 73)
      × ((loc : NspLocation) × (locate (built two_files) 70 ≡ ok loc)
          × Serves (image two_files.entries) contents 70 loc))
    ⊎ ((73 ≤ 70) × (locate (built two_files) 70 ≡ err out_of_range))
locate-Serves_example = locate-Serves contents 70 two_files-IsOpen finalize_two (omega arith)
