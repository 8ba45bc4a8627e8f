-- ===== src/Mtp/Bears.antt =====
-- Predicates of the world that bear what the handlers do besides uploads and sessions.
use nx_nexus.Base.{ℕ, Bool, Bytes}
use nx_nexus.ObjectDb.{ObjectDb}
use nx_nexus.Mtp.Names.{IsChild}
use nx_nexus.Mtp.World.{
  Device, Stores, World, MtpServerStats, modify_db, modify_stores, on_db, on_stores,
}
use nx_nexus.Mtp.Keeps.{Keeps, modify_db-Keeps, on_db-Keeps, modify_stores-Keeps, on_stores-Keeps}

-- A path at which something is created, or to which it is moved, ends in a plain name.
pub record Bears {D : Device} {S : Stores} (P : World D S → Type 0) : Type 0 where
  pub device : (w : World D S) (d : D.State) → P w → P (record w { device = d })
  pub stats :
      (w : World D S) (f : MtpServerStats → MtpServerStats)
      → P w
      → P (record w { server = record (w.server) { stats = f w.server.stats } })
  pub db : (w : World D S) (t : ObjectDb) → P w → P (record w { db = t })
  pub refreshes : (w : World D S) → P w → P (record w { stores = S.refresh w.stores })
  pub opens : (w : World D S) → P w → P (record w { stores = S.on_session_open w.stores })
  pub informs :
      (w : World D S) (id : ℕ) → P w → P (record w { stores = (S.get_info id w.stores).1 })
  pub lists :
      (w : World D S) (id : ℕ) (dir : Bytes)
      → P w
      → P (record w { stores = (S.enumerate id dir w.stores).1 })
  pub looks :
      (w : World D S) (id : ℕ) (path : Bytes)
      → P w
      → P (record w { stores = (S.stat id path w.stores).1 })
  pub reads :
      (w : World D S) (id : ℕ) (path : Bytes) (offset n : ℕ)
      → P w
      → P (record w { stores = (S.read id path offset n w.stores).1 })
  pub pictures :
      (w : World D S) (id : ℕ) (path : Bytes) (n : ℕ)
      → P w
      → P (record w { stores = (S.thumbnail id path n w.stores).1 })
  pub makes :
      (w : World D S) (id : ℕ) (path : Bytes)
      → IsChild path
      → P w
      → P (record w { stores = (S.mkdir id path w.stores).1 })
  pub removes :
      (w : World D S) (id : ℕ) (path : Bytes) (is_dir : Bool)
      → P w
      → P (record w { stores = (S.remove id path is_dir w.stores).1 })
  pub moves :
      (w : World D S) (id : ℕ) (old new : Bytes) (is_dir : Bool)
      → IsChild new
      → P w
      → P (record w { stores = (S.move id old new is_dir w.stores).1 })
  pub copies :
      (w : World D S) (id : ℕ) (old new : Bytes)
      → IsChild new
      → P w
      → P (record w { stores = (S.copy id old new w.stores).1 })

module _ {D : Device} {S : Stores} {P : World D S → Type 0} (b : Bears P) where
  pub modify_db-Bears : (f : ObjectDb → ObjectDb) → Keeps P (modify_db f)
  modify_db-Bears f = modify_db-Keeps f (λ w p. b.db w _ p)

  pub on_db-Bears : {A : Type 0} (f : ObjectDb → A × ObjectDb) → Keeps P (on_db f)
  on_db-Bears f = on_db-Keeps f (λ w p. b.db w _ p)

  pub refreshes-Bears : Keeps P (modify_stores {S = S} S.refresh)
  refreshes-Bears = modify_stores-Keeps _ (λ w p. b.refreshes w p)

  pub opens-Bears : Keeps P (modify_stores {S = S} S.on_session_open)
  opens-Bears = modify_stores-Keeps _ (λ w p. b.opens w p)

  pub informs-Bears : (id : ℕ) → Keeps P (on_stores {S = S} (S.get_info id))
  informs-Bears id = on_stores-Keeps _ (λ w p. b.informs w id p)

  pub lists-Bears : (id : ℕ) (dir : Bytes) → Keeps P (on_stores {S = S} (S.enumerate id dir))
  lists-Bears id dir = on_stores-Keeps _ (λ w p. b.lists w id dir p)

  pub looks-Bears : (id : ℕ) (path : Bytes) → Keeps P (on_stores {S = S} (S.stat id path))
  looks-Bears id path = on_stores-Keeps _ (λ w p. b.looks w id path p)

  pub reads-Bears :
      (id : ℕ) (path : Bytes) (offset n : ℕ) → Keeps P (on_stores {S = S} (S.read id path offset n))
  reads-Bears id path offset n = on_stores-Keeps _ (λ w p. b.reads w id path offset n p)

  pub pictures-Bears :
      (id : ℕ) (path : Bytes) (n : ℕ) → Keeps P (on_stores {S = S} (S.thumbnail id path n))
  pictures-Bears id path n = on_stores-Keeps _ (λ w p. b.pictures w id path n p)

  pub makes-Bears :
      (id : ℕ) (path : Bytes) → IsChild path → Keeps P (on_stores {S = S} (S.mkdir id path))
  makes-Bears id path child = on_stores-Keeps _ (λ w p. b.makes w id path child p)

  pub removes-Bears :
      (id : ℕ) (path : Bytes) (is_dir : Bool)
      → Keeps P (on_stores {S = S} (S.remove id path is_dir))
  removes-Bears id path is_dir = on_stores-Keeps _ (λ w p. b.removes w id path is_dir p)

  pub moves-Bears :
      (id : ℕ) (old new : Bytes) (is_dir : Bool)
      → IsChild new
      → Keeps P (on_stores {S = S} (S.move id old new is_dir))
  moves-Bears id old new is_dir child =
      on_stores-Keeps _ (λ w p. b.moves w id old new is_dir child p)

  pub copies-Bears :
      (id : ℕ) (old new : Bytes) → IsChild new → Keeps P (on_stores {S = S} (S.copy id old new))
  copies-Bears id old new child = on_stores-Keeps _ (λ w p. b.copies w id old new child p)
