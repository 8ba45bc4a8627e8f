-- ===== src/Mtp/World.antt =====
-- What the responder works on: include/nexus/mtp_server.h, the interface of include/nexus/storage.h,
-- and the operating system; and how an operation goes on or ends.
use nx_nexus.Base.{ℕ, ◌+◌, ◌%◌, ◌^◌, Bool, List, Option, none, some, take, Bytes}
use nx_nexus.ObjectDb.{ObjectDb}

-- The transfers of src/usb/usb_transport.c and what else the system gives: `usb_write` answers how
-- much was sent, `usb_read` the bytes that came, of at most the length asked for; `packet_size` is the
-- wMaxPacketSize of the bus speed, `elapsed` the time since a transfer began, `charge` the battery's.
pub record Device : Type 1 where
  pub State : Type 0
  pub usb_write : Bytes → State → Option ℕ × State
  pub usb_read : ℕ → State → Option Bytes × State
  pub packet_size : State → ℕ
  pub elapsed : State → ℕ
  pub charge : State → Option ℕ
  pub to_utf16 : Bytes → ℕ → Option (List ℕ)
  pub to_utf8 : List ℕ → ℕ → Option Bytes
  pub alloc : ℕ → Bool

pub record StorageInfo : Type 0 where
  pub capacity_bytes : ℕ
  pub free_bytes : ℕ
  pub free_objects : ℕ
  pub storage_type : ℕ
  pub filesystem_type : ℕ
  pub access_capability : ℕ

-- A child that `enumerate` hands to its callback.
pub record Child : Type 0 where
  pub name : Bytes
  pub is_dir : Bool
  pub size : ℕ

-- The hooks of `NexusStorageOps` that may be NULL.
pub data Hook : Type 0 where
  write_begin_hook write_chunk_hook write_end_hook mkdir_hook remove_hook : Hook
  move_hook copy_hook thumbnail_hook : Hook

-- The registry with the stores behind it. A hook takes the id of its store, and answers whether its
-- result was a success; `enumerate` gives the children in the order of the callbacks, which end early
-- when a callback answers false.
pub record Stores : Type 1 where
  pub State : Type 0
  pub ids : State → List ℕ
  pub known : ℕ → State → Bool
  pub present : ℕ → State → Bool
  pub refresh : State → State
  pub on_session_open : State → State
  pub has : Hook → ℕ → State → Bool
  pub description : ℕ → State → Bytes
  pub get_info : ℕ → State → Option StorageInfo × State
  pub enumerate : ℕ → Bytes → State → (List Child × Bool) × State
  pub stat : ℕ → Bytes → State → Option (Bool × ℕ) × State
  pub read : ℕ → Bytes → ℕ → ℕ → State → Option Bytes × State
  pub write_begin : ℕ → Bytes → ℕ → State → Bool × State
  pub write_chunk : ℕ → Bytes → State → Bool × State
  pub write_end : ℕ → Bool → State → State
  pub mkdir : ℕ → Bytes → State → Bool × State
  pub remove : ℕ → Bytes → Bool → State → Bool × State
  pub move : ℕ → Bytes → Bytes → Bool → State → Bool × State
  pub copy : ℕ → Bytes → Bytes → State → Bool × State
  pub thumbnail : ℕ → Bytes → ℕ → State → Option Bytes × State

pub record MtpServerStats : Type 0 where
  pub bytes_in : ℕ
  pub bytes_out : ℕ
  pub last_rate_bps : ℕ
  pub operations : ℕ
  pub errors : ℕ

pub record MtpServerState : Type 0 where
  pub session_open : Bool
  pub session_id : ℕ
  pub transaction_id : ℕ
  pub pending_send : Bool
  pub pending_storage_id : ℕ
  pub pending_parent : ℕ
  pub pending_size : ℕ
  pub pending_handle : ℕ
  pub pending_path : Bytes
  pub stats : MtpServerStats

pub record World (D : Device) (S : Stores) : Type 0 where
  pub server : MtpServerState
  pub db : ObjectDb
  pub stores : S.State
  pub device : D.State

-- An operation goes on with a value, or it has returned: `true` for the result 0.
pub data Step (D : Device) (S : Stores) (A : Type 0) : Type 0 where
  goes : A → World D S → Step D S A
  returns : Bool → World D S → Step D S A

abbrev pub Act : Device → Stores → Type 0 → Type 0
Act D S A = World D S → Step D S A

-- A handler never goes on.
pub data Never : Type 0 where

abbrev pub then_step :
    {D : Device} {S : Stores} {A B : Type 0} → Step D S A → (A → Act D S B) → Step D S B
then_step (goes a w) f = f a w
then_step (returns b w) f = returns b w

infixl 5 ◌>>=◌ ◌>>◌
abbrev pub ◌>>=◌ :
    {D : Device} {S : Stores} {A B : Type 0} → Act D S A → (A → Act D S B) → Act D S B
◌>>=◌ m f w = then_step (m w) f

abbrev pub ◌>>◌ :
    {D : Device} {S : Stores} {B : Type 0} → Act D S (Unit {0}) → Act D S B → Act D S B
m >> k = m >>= λ _. k

abbrev pub add_out : ℕ → MtpServerStats → MtpServerStats
add_out n stats = record stats { bytes_out = (stats.bytes_out + n) % 2 ^ 64 }

abbrev pub add_in : ℕ → MtpServerStats → MtpServerStats
add_in n stats = record stats { bytes_in = (stats.bytes_in + n) % 2 ^ 64 }

module _ {D : Device} {S : Stores} where
  unfoldable pub pure : {A : Type 0} → A → Act D S A
  pure a w = goes a w

  unfoldable pub return : {A : Type 0} → Bool → Act D S A
  return b w = returns b w

  -- What is read of the world, and what is written.
  unfoldable pub gets : {A : Type 0} → (World D S → A) → Act D S A
  gets f w = goes (f w) w

  unfoldable pub modify_server : (MtpServerState → MtpServerState) → Act D S (Unit {0})
  modify_server f w = goes tt (record w { server = f w.server })

  unfoldable pub modify_db : (ObjectDb → ObjectDb) → Act D S (Unit {0})
  modify_db f w = goes tt (record w { db = f w.db })

  unfoldable pub on_db : {A : Type 0} → (ObjectDb → A × ObjectDb) → Act D S A
  on_db f w = let r = f w.db in goes r.0 (record w { db = r.1 })

  -- A hook of a store is called.
  unfoldable pub on_stores : {A : Type 0} → (S.State → A × S.State) → Act D S A
  on_stores f w = let r = f w.stores in goes r.0 (record w { stores = r.1 })

  unfoldable pub modify_stores : (S.State → S.State) → Act D S (Unit {0})
  modify_stores f w = goes tt (record w { stores = f w.stores })

  unfoldable pub modify_stats : (MtpServerStats → MtpServerStats) → Act D S (Unit {0})
  modify_stats f = modify_server (λ g. record g { stats = f g.stats })

  -- A transfer from the host, of at most `n` bytes.
  unfoldable pub usb_read : ℕ → Act D S (Option Bytes)
  usb_read n w =
      let r = D.usb_read n w.device in
      goes (elim r.0 [ none ↦ none | some bytes ↦ some (take n bytes) ]) (record w { device = r.1 })

  -- A transfer to the host.
  unfoldable pub usb_write : Bytes → Act D S (Option ℕ)
  usb_write bytes w = let r = D.usb_write bytes w.device in goes r.0 (record w { device = r.1 })
