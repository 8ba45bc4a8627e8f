-- ===== src/Mtp/Writing.antt =====
-- The writes that the stores have open, and the upload that waits for its data.
use mathlib.Core.Path.{subst}
use nx_nexus.Base.{
  ℕ, ◌≡◌, sym, ◌∙◌, Bool, Bool-cases, true, false, ◌&&◌, ◌==◌, inl, inr, Bytes, arith,
}
use nx_nexus.Mtp.Codes.{code_send_object}
use nx_nexus.Mtp.Container.{MtpContainer}
use nx_nexus.Mtp.World.{
  Device, Stores, World, MtpServerState, MtpServerStats, write_end_hook, write_chunk_hook,
}
use nx_nexus.Mtp.Bears.{Bears}

-- What a call leaves as it was for store `j`: the store does not come to be known, and while it is known
-- its write stays as it was.
abbrev pub Leaves : (S : Stores) → (ℕ → S.State → Bool) → ℕ → S.State → S.State → Type 0
Leaves S writing j s s' = S.known j s' ≡ true → (S.known j s ≡ true) × (writing j s' ≡ writing j s)

abbrev pub Same : (S : Stores) → (ℕ → S.State → Bool) → S.State → S.State → Type 0
Same S writing s s' = (j : ℕ) → Leaves S writing j s s'

abbrev pub Elsewhere : (S : Stores) → (ℕ → S.State → Bool) → ℕ → S.State → S.State → Type 0
Elsewhere S writing id s s' = (j : ℕ) → (j == id) ≡ false → Leaves S writing j s s'

-- Stores with one write each. The write of a store is open from a `write_begin` of that store that
-- succeeds to the store's next `write_end`; the three calls leave the writes of all other stores alone,
-- and the other hooks leave every write alone. What a `write_chunk` does to its own store's write is left
-- open, since a chunk that fails may end it. A store that has a write open has the hooks that go on with
-- it. A store may go at any call, and none comes.
pub record Writing (S : Stores) : Type 0 where
  pub writing : ℕ → S.State → Bool
  pub able :
      (s : S.State) (id : ℕ)
      → S.known id s ≡ true
      → writing id s ≡ true
      → (S.has write_chunk_hook id s && S.has write_end_hook id s) ≡ true
  pub begins :
      (s : S.State) (id : ℕ) (path : Bytes) (size : ℕ)
      → S.known id (S.write_begin id path size s).1 ≡ true
      → writing id s ≡ false
      → writing id (S.write_begin id path size s).1 ≡ (S.write_begin id path size s).0
  pub begins_known :
      (s : S.State) (id : ℕ) (path : Bytes) (size : ℕ)
      → S.known id (S.write_begin id path size s).1 ≡ true
      → S.known id s ≡ true
  pub begins_elsewhere :
      (s : S.State) (id : ℕ) (path : Bytes) (size : ℕ)
      → Elsewhere S writing id s (S.write_begin id path size s).1
  pub writes_elsewhere :
      (s : S.State) (id : ℕ) (chunk : Bytes) → Elsewhere S writing id s (S.write_chunk id chunk s).1
  pub finishes :
      (s : S.State) (id : ℕ) (whole : Bool)
      → S.known id (S.write_end id whole s) ≡ true
      → writing id (S.write_end id whole s) ≡ false
  pub finishes_elsewhere :
      (s : S.State) (id : ℕ) (whole : Bool) → Elsewhere S writing id s (S.write_end id whole s)
  pub refreshes : (s : S.State) → Same S writing s (S.refresh s)
  pub opens : (s : S.State) → Same S writing s (S.on_session_open s)
  pub informs : (s : S.State) (id : ℕ) → Same S writing s (S.get_info id s).1
  pub lists : (s : S.State) (id : ℕ) (dir : Bytes) → Same S writing s (S.enumerate id dir s).1
  pub looks : (s : S.State) (id : ℕ) (path : Bytes) → Same S writing s (S.stat id path s).1
  pub reads :
      (s : S.State) (id : ℕ) (path : Bytes) (offset n : ℕ)
      → Same S writing s (S.read id path offset n s).1
  pub pictures :
      (s : S.State) (id : ℕ) (path : Bytes) (n : ℕ) → Same S writing s (S.thumbnail id path n s).1
  pub makes : (s : S.State) (id : ℕ) (path : Bytes) → Same S writing s (S.mkdir id path s).1
  pub removes :
      (s : S.State) (id : ℕ) (path : Bytes) (is_dir : Bool)
      → Same S writing s (S.remove id path is_dir s).1
  pub moves :
      (s : S.State) (id : ℕ) (old new : Bytes) (is_dir : Bool)
      → Same S writing s (S.move id old new is_dir s).1
  pub copies : (s : S.State) (id : ℕ) (old new : Bytes) → Same S writing s (S.copy id old new s).1

module _ {S : Stores} (law : Writing S) where
  -- Of every known store `j`, `M j` holds of whether its write is open.
  abbrev pub Each : (ℕ → Bool → Type 0) → S.State → Type 0
  Each M s = (j : ℕ) → S.known j s ≡ true → M j (law.writing j s)

  pub Each-Same :
      (M : ℕ → Bool → Type 0) (s s' : S.State) → Same S law.writing s s' → Each M s → Each M s'
  Each-Same M s s' same each j k = let (known, e) = same j k in subst (M j) (sym e) (each j known)

  -- The write of store `j` is open just when an upload waits and names `j`.
  abbrev pub Named : MtpServerState → ℕ → Bool → Type 0
  Named g j b = b ≡ (g.pending_send && (j == g.pending_storage_id))

  -- A write is open just while an upload waits for its data, at the upload's store.
  abbrev pub InStep : {D : Device} → World D S → Type 0
  InStep w = Each (Named w.server) w.stores

  -- In step with a command that is about to be handled.
  abbrev pub Ready : {D : Device} → MtpContainer → World D S → Type 0
  Ready cmd w = InStep w × ((cmd.code == code_send_object) ≡ false → w.server.pending_send ≡ false)

  -- Every write is closed.
  abbrev pub AllClosed : S.State → Type 0
  AllClosed s = Each (λ j b. b ≡ false) s

  abbrev pub Idle : {D : Device} → World D S → Type 0
  Idle w = (w.server.pending_send ≡ false) × AllClosed w.stores

  -- Every write but that of store `id` is closed.
  abbrev pub OthersClosed : {D : Device} → ℕ → World D S → Type 0
  OthersClosed id w = Each (λ j b. (j == id) ≡ false → b ≡ false) w.stores

  -- A predicate of the responder's state and the stores, which transfers and ordinary hooks keep.
  bearing :
      {D : Device} (P : MtpServerState → S.State → Type 0)
      → ((g : MtpServerState) (f : MtpServerStats → MtpServerStats) (s : S.State)
          → P g s
          → P (record g { stats = f g.stats }) s)
      → ((g : MtpServerState) (s s' : S.State) → Same S law.writing s s' → P g s → P g s')
      → Bears {D = D} {S = S} (λ w. P w.server w.stores)
  bearing P stats same = record {
    device = λ w d p. p;
    stats = λ w f p. stats w.server f w.stores p;
    db = λ w t p. p;
    refreshes = λ w. same _ _ _ (law.refreshes w.stores);
    opens = λ w. same _ _ _ (law.opens w.stores);
    informs = λ w id. same _ _ _ (law.informs w.stores id);
    lists = λ w id dir. same _ _ _ (law.lists w.stores id dir);
    looks = λ w id path. same _ _ _ (law.looks w.stores id path);
    reads = λ w id path offset n. same _ _ _ (law.reads w.stores id path offset n);
    pictures = λ w id path n. same _ _ _ (law.pictures w.stores id path n);
    makes = λ w id path child. same _ _ _ (law.makes w.stores id path);
    removes = λ w id path is_dir. same _ _ _ (law.removes w.stores id path is_dir);
    moves = λ w id old new is_dir child. same _ _ _ (law.moves w.stores id old new is_dir);
    copies = λ w id old new child. same _ _ _ (law.copies w.stores id old new);
  }

  pub InStep-Bears : {D : Device} → Bears {D = D} InStep
  InStep-Bears = bearing (λ g s. Each (Named g) s) (λ g f s p. p) (λ g. Each-Same (Named g))

  pub Ready-Bears : {D : Device} (cmd : MtpContainer) → Bears {D = D} (Ready cmd)
  Ready-Bears cmd =
      bearing
        (λ g s.
          Each (Named g) s × ((cmd.code == code_send_object) ≡ false → g.pending_send ≡ false))
        (λ g f s p. p) (λ g s s' same p. (Each-Same (Named g) s s' same p.0, p.1))

  pub Idle-Bears : {D : Device} → Bears {D = D} Idle
  Idle-Bears =
      bearing (λ g s. (g.pending_send ≡ false) × AllClosed s) (λ g f s p. p)
        (λ g s s' same p. (p.0, Each-Same (λ j b. b ≡ false) s s' same p.1))

  pub OthersClosed-Bears : {D : Device} (id : ℕ) → Bears {D = D} (OthersClosed id)
  OthersClosed-Bears id =
      bearing (λ g s. Each (λ j b. (j == id) ≡ false → b ≡ false) s) (λ g f s p. p)
        (λ g. Each-Same (λ j b. (j == id) ≡ false → b ≡ false))

  -- A `write_end` of store `id` closes the one write that may be open.
  pub write_end-AllClosed :
      {D : Device} (w : World D S) (id : ℕ) (whole : Bool)
      → OthersClosed id w
      → AllClosed (S.write_end id whole w.stores)
  write_end-AllClosed w id whole others j k = elim (Bool-cases (j == id)) [
    | inl same ↦
        let e : j ≡ id = ground (arith, same) in
        subst (λ i. law.writing i (S.write_end id whole w.stores) ≡ false) (sym e)
          (law.finishes w.stores id whole
            (subst (λ i. S.known i (S.write_end id whole w.stores) ≡ true) e k))
    | inr other ↦
        let (known, e) = law.finishes_elsewhere w.stores id whole j other k in
        e ∙ others j known other
  ]

  pub InStep-OthersClosed :
      {D : Device} (w : World D S) → InStep w → OthersClosed w.server.pending_storage_id w
  InStep-OthersClosed w i j k other = ground (arith, i j k, other)

  pub Closed-InStep :
      {D : Device} (w : World D S) → w.server.pending_send ≡ false → AllClosed w.stores → InStep w
  Closed-InStep w p closed j k = ground (arith, closed j k, p)

  pub InStep-AllClosed :
      {D : Device} (w : World D S) → InStep w → w.server.pending_send ≡ false → AllClosed w.stores
  InStep-AllClosed w i p j k = ground (arith, i j k, p)
