-- ===== src/Cnmt/Totals.antt =====
-- The installed footprint: `cnmtGetTotalContentSize` adds up every content, and never overflows.
use mathlib.Core.Path.{subst}
use nx_nexus.Base.{
  ℕ, zero, suc, ◌+◌, ◌*◌, ◌^◌, ◌≤◌, ◌<◌, ◌≡◌, sym, ap, ◌∙◌, List, [], ◌∷◌, arith, length, slice,
  Bytes, IsBytes, length-slice,
}
use nx_nexus.Outcome.{ok}
use nx_nexus.Format.Words.{le-lt, All-slice, add_overflows_iff}
use nx_nexus.Cnmt.{
  CnmtContext, CnmtContentInfo, init, content_at, get_content_info, total_from,
  get_total_content_size,
}
use nx_nexus.Cnmt.Parsed.{IsManifest, init-IsManifest, info_of, get_content_info_lem}

abbrev pub sizes : List CnmtContentInfo → ℕ
sizes [] = 0
sizes (info ∷ infos) = info.size + sizes infos

-- `infos` are the contents from index `i` on, in order.
abbrev pub Contents : CnmtContext → ℕ → List CnmtContentInfo → Type 0
Contents ctx i [] = i ≡ ctx.content_count
Contents ctx i (info ∷ infos) = (get_content_info ctx i ≡ ok info) × Contents ctx (i + 1) infos

module _ {blob : Bytes} {ctx : CnmtContext} (b : IsBytes blob) (p : IsManifest blob ctx) where
  size-lt : (i : ℕ) → i < ctx.content_count → (info_of p i).size < 2 ^ 40
  size-lt i h =
      let inside : content_at ctx i + 0x30 + 5 ≤ length ctx.blob =
        omega (arith, p.inside, p.info_at) in
      rw (length-slice (content_at ctx i + 0x30) 5 ctx.blob inside) at (
        le-lt (slice (content_at ctx i + 0x30) 5 ctx.blob)
          (All-slice (content_at ctx i + 0x30) 5 ctx.blob (subst IsBytes (sym p.blob_is) b)))

  total_step :
      (n i total : ℕ)
      → i < ctx.content_count
      → total + (info_of p i).size < 2 ^ 64
      → total_from ctx (suc n) i total ≡ total_from ctx n (i + 1) (total + (info_of p i).size)
  unfolding total_from
  total_step n i total h small =
      let size = (info_of p i).size in
      ground (
        arith,
        get_content_info_lem p i h,
        (add_overflows_iff total size (total + size) (omega arith) (omega arith)).1,
      )

  total_from_lem :
      (n i total : ℕ)
      → i + n ≡ ctx.content_count
      → total < 2 ^ 40 * i + 1
      → (infos : List CnmtContentInfo) × Contents ctx i infos
        × (total_from ctx n i total ≡ ok (total + sizes infos))
  unfolding total_from
  total_from_lem zero i total h small = ([], omega arith, ap ok (omega arith))
  total_from_lem (suc n) i total h small =
      let lt : i < ctx.content_count = omega arith in
      let bound = size-lt i lt in
      let few = p.few in
      let (infos, c, e) =
        total_from_lem n (i + 1) (total + (info_of p i).size) (omega arith) (omega arith) in
      (
        info_of p i ∷ infos,
        (get_content_info_lem p i lt, c),
        total_step n i total lt (omega arith) ∙ e ∙ ap ok (omega arith),
      )

-- On an accepted manifest the total is the sum of the sizes of all its contents, with no overflow.
pub get_total_content_size_lem :
    (blob : Bytes) {ctx : CnmtContext}
    → IsBytes blob
    → init blob ≡ ok ctx
    → (infos : List CnmtContentInfo) × Contents ctx 0 infos
      × (get_total_content_size ctx ≡ ok (sizes infos))
unfolding get_total_content_size
get_total_content_size_lem blob {ctx} b h =
    let p = init-IsManifest blob b h in
    let (infos, c, e) = total_from_lem b p ctx.content_count 0 0 (omega arith) (omega arith) in
    (infos, c, e ∙ ap ok (omega arith))
