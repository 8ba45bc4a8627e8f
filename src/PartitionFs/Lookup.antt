-- ===== src/PartitionFs/Lookup.antt =====
-- Entries by index and by name, on a context that `partitionFsInit` returned.
use native.Mathlib.Decide.{dec_lt}
use nx_nexus.Base.{Bool, ℕ, ◌+◌, ◌≤◌, ◌<◌, ◌≡◌, ◌⊎◌, inl, inr, arith, Bytes, slice}
use nx_nexus.Outcome.{ok, err, out_of_range}
use nx_nexus.Format.{le}
use nx_nexus.Format.Words.{rd_lem}
use nx_nexus.CString.{bytes_eq}
use nx_nexus.PartitionFs.{
  PartitionFsContext, PartitionFsEntry, entry_at, init, get_entry, find_entry,
}
use nx_nexus.Search.{Finds, find_from-Finds}
use nx_nexus.PartitionFs.Parsed.{Named, Fits, entry_inside, init-IsParsed}

-- The entry that the header's own fields describe.
abbrev pub entry_of : (ctx : PartitionFsContext) (i : ℕ) → Named ctx i → PartitionFsEntry
entry_of ctx i n = record {
  name = n.name;
  offset = le (slice (entry_at ctx i + 0x0) 8 ctx.header);
  size = le (slice (entry_at ctx i + 0x8) 8 ctx.header);
}

get_entry-Named :
    {ctx : PartitionFsContext}
    → Fits ctx
    → (i : ℕ) → i < ctx.entry_count
    → (n : Named ctx i) → get_entry ctx i ≡ ok (entry_of ctx i n)
unfolding get_entry
get_entry-Named {ctx} f i h n =
    let inside = entry_inside f i h in
    ground (
      arith,
      rd_lem 8 (entry_at ctx i + 0x0) ctx.header (omega arith),
      rd_lem 8 (entry_at ctx i + 0x8) ctx.header (omega arith),
      n.offset_is,
      n.name_is,
    )

get_entry_past :
    (ctx : PartitionFsContext) (i : ℕ) → ctx.entry_count ≤ i → get_entry ctx i ≡ err out_of_range
unfolding get_entry
get_entry_past ctx i h = ground arith

-- On an accepted header every index below the count gives an entry, and every other index is
-- refused; no index makes the read leave the buffer.
pub get_entry_total :
    (header : Bytes) {ctx : PartitionFsContext} (i : ℕ)
    → init header ≡ ok ctx
    → ((i < ctx.entry_count) × ((e : PartitionFsEntry) × (get_entry ctx i ≡ ok e)))
      ⊎ ((ctx.entry_count ≤ i) × (get_entry ctx i ≡ err out_of_range))
get_entry_total header {ctx} i h = elim (dec_lt i ctx.entry_count) [
  | yes lt ↦
      let p = init-IsParsed header h in
      let n = p.names i lt in inl (lt, (entry_of ctx i n, get_entry-Named p.fits i lt n))
  | no ge ↦ inr (omega arith, get_entry_past ctx i (omega arith))
]

-- Whether an entry has the name looked for.
abbrev pub has_name : Bytes → PartitionFsEntry → Bool
has_name name e = bytes_eq e.name name

-- A lookup by name on an accepted header returns the first entry of that name, or `not_found` when
-- no entry has it, and never leaves the buffer.
pub find_entry-Finds :
    (header : Bytes) {ctx : PartitionFsContext} (name : Bytes)
    → init header ≡ ok ctx
    → Finds (get_entry ctx) (has_name name) 0 (find_entry ctx name)
unfolding find_entry
find_entry-Finds header {ctx} name h =
    let p = init-IsParsed header h in
    find_from-Finds (get_entry ctx) (has_name name) ctx.entry_count
      (λ j lt. (entry_of ctx j (p.names j lt), get_entry-Named p.fits j lt (p.names j lt)))
      (λ j e ge g. ground (arith, g, get_entry_past ctx j ge)) ctx.entry_count 0 (omega arith)
