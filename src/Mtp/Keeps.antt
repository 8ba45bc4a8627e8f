-- ===== src/Mtp/Keeps.antt =====
-- Predicates of the world that operations of the responder keep, whether they go on or return.
use nx_nexus.Base.{
  ℕ, zero, suc, ◌≡◌, refl, Bool, true, false, List, Option, none, some, if◌then◌else◌, Bytes,
}
use nx_nexus.ObjectDb.{ObjectDb}
use nx_nexus.Mtp.World.{
  Device, Stores, World, MtpServerState, MtpServerStats, Step, goes, returns, Act, then_step, ◌>>=◌,
  pure, return, gets, modify_server, modify_db, modify_stores, modify_stats, on_db, on_stores,
  usb_read, usb_write,
}
use nx_nexus.Mtp.Transport.{
  recv_rest, recv_to_payload, recv_chunks, note_rate, recv_stream, recv_streamed, end_packet,
  send_data, stream_begin, stream_chunk, send_response,
}

abbrev pub after : {D : Device} {S : Stores} {A : Type 0} → Step D S A → World D S
after (goes a w) = w
after (returns b w) = w

pub record Keeps {D : Device} {S : Stores} (P : World D S → Type 0) {A : Type 0} (m : Act D S A)
    : Type 0 where
  pub keeps : (w : World D S) → P w → P (after (m w))

module _ {D : Device} {S : Stores} {P : World D S → Type 0} where
  then_step-after :
      {A B : Type 0} (s : Step D S A) (f : A → Act D S B)
      → ((a : A) → Keeps P (f a))
      → P (after s)
      → P (after (then_step s f))
  then_step-after (goes a w) f each p = (each a).keeps w p
  then_step-after (returns b w) f each p = p

  pub bind-Keeps :
      {A B : Type 0} (m : Act D S A) (f : A → Act D S B)
      → Keeps P m
      → ((a : A) → Keeps P (f a))
      → Keeps P (m >>= f)
  bind-Keeps m f first each = record {
    keeps = λ w p. then_step-after (m w) f each (first.keeps w p);
  }

  pub bind_option-Keeps :
      {A B : Type 0} (m : Act D S (Option A)) (f : Option A → Act D S B)
      → Keeps P m
      → Keeps P (f none)
      → ((a : A) → Keeps P (f (some a)))
      → Keeps P (m >>= f)
  bind_option-Keeps m f first without each =
      bind-Keeps m f first
        (λ o. elim o as (λ o'. Keeps P (f o')) [ none ↦ without | some a ↦ each a ])

  -- A computed value is known where it is used.
  pub computed-Keeps :
      {A B : Type 0} (o : Option A) (f : Option A → Act D S B)
      → Keeps P (f none)
      → ((a : A) → o ≡ some a → Keeps P (f (some a)))
      → Keeps P (pure o >>= f)
  unfolding pure
  computed-Keeps none f without each = record { keeps = without.keeps }
  computed-Keeps (some a) f without each = record { keeps = (each a refl).keeps }

  pub pure-Keeps : {A : Type 0} (a : A) → Keeps P (pure a)
  unfolding pure
  pure-Keeps a = record { keeps = λ w p. p }

  pub gets-Keeps : {A : Type 0} (f : World D S → A) → Keeps P (gets f)
  unfolding gets
  gets-Keeps f = record { keeps = λ w p. p }

  pub return-Keeps : {A : Type 0} (b : Bool) → Keeps P {A = A} (return b)
  unfolding return
  return-Keeps b = record { keeps = λ w p. p }

  pub if-Keeps :
      {A : Type 0} (c : Bool) (m k : Act D S A)
      → Keeps P m
      → Keeps P k
      → Keeps P (if c then m else k)
  if-Keeps true m k first second = first
  if-Keeps false m k first second = second

  pub modify_server-Keeps :
      (f : MtpServerState → MtpServerState)
      → ((w : World D S) → P w → P (record w { server = f w.server }))
      → Keeps P (modify_server f)
  unfolding modify_server
  modify_server-Keeps f still = record { keeps = still }

  pub modify_db-Keeps :
      (f : ObjectDb → ObjectDb)
      → ((w : World D S) → P w → P (record w { db = f w.db }))
      → Keeps P (modify_db f)
  unfolding modify_db
  modify_db-Keeps f still = record { keeps = still }

  pub on_db-Keeps :
      {A : Type 0} (f : ObjectDb → A × ObjectDb)
      → ((w : World D S) → P w → P (record w { db = (f w.db).1 }))
      → Keeps P (on_db f)
  unfolding on_db
  on_db-Keeps f still = record { keeps = still }

  pub modify_stores-Keeps :
      (f : S.State → S.State)
      → ((w : World D S) → P w → P (record w { stores = f w.stores }))
      → Keeps P (modify_stores f)
  unfolding modify_stores
  modify_stores-Keeps f still = record { keeps = still }

  pub on_stores-Keeps :
      {A : Type 0} (f : S.State → A × S.State)
      → ((w : World D S) → P w → P (record w { stores = (f w.stores).1 }))
      → Keeps P (on_stores f)
  unfolding on_stores
  on_stores-Keeps f still = record { keeps = still }

  pub ruleset steps = (
    bind_option-Keeps, bind-Keeps, pure-Keeps, gets-Keeps, return-Keeps, if-Keeps,
    modify_server-Keeps, modify_db-Keeps, on_db-Keeps, modify_stores-Keeps, on_stores-Keeps,
  )

module _ {D : Device} {S : Stores} (P : World D S → Type 0)
    (device : (w : World D S) (d : D.State) → P w → P (record w { device = d }))
    (stats : (w : World D S) (f : MtpServerStats → MtpServerStats)
      → P w
      → P (record w { server = record (w.server) { stats = f w.server.stats } })) where
  pub usb_read-Keeps : (n : ℕ) → Keeps P (usb_read n)
  unfolding usb_read
  usb_read-Keeps n = record { keeps = λ w p. device w _ p }

  pub usb_write-Keeps : (bytes : Bytes) → Keeps P (usb_write bytes)
  unfolding usb_write
  usb_write-Keeps bytes = record { keeps = λ w p. device w _ p }

  pub modify_stats-Keeps : (f : MtpServerStats → MtpServerStats) → Keeps P (modify_stats f)
  unfolding modify_stats
  modify_stats-Keeps f = modify_server-Keeps _ (λ w p. stats w f p)

  ruleset transfers = (usb_read-Keeps, usb_write-Keeps, modify_stats-Keeps, steps)

  pub send_response-Keeps : (t code : ℕ) (params : List ℕ) → Keeps P (send_response t code params)
  unfolding send_response
  send_response-Keeps t code params = search transfers depth 20

  pub end_packet-Keeps : (total : ℕ) → Keeps P (end_packet total)
  unfolding end_packet
  end_packet-Keeps total = search transfers depth 20

  pub send_data-Keeps : (code t : ℕ) (payload : Bytes) → Keeps P (send_data code t payload)
  unfolding send_data
  send_data-Keeps code t payload = search (end_packet-Keeps, transfers) depth 20

  recv_rest-Keeps : (fuel left : ℕ) (payload : Bytes) → Keeps P (recv_rest fuel left payload)
  unfolding recv_rest
  recv_rest-Keeps zero left payload = search steps
  recv_rest-Keeps (suc fuel) left payload = search (recv_rest-Keeps fuel, transfers) depth 20

  pub recv_to_payload-Keeps : Keeps P recv_to_payload
  unfolding recv_to_payload
  recv_to_payload-Keeps = search (recv_rest-Keeps, transfers) depth 20

  recv_chunks-Keeps :
      (sink : Bytes → Act D S Bool)
      → ((chunk : Bytes) → Keeps P (sink chunk))
      → (known_length : Bool) (mps fuel left delivered : ℕ)
      → Keeps P (recv_chunks sink known_length mps fuel left delivered)
  unfolding recv_chunks
  recv_chunks-Keeps sink taken known_length mps zero left delivered = search steps
  recv_chunks-Keeps sink taken known_length mps (suc fuel) left delivered =
      search (recv_chunks-Keeps sink taken known_length mps fuel, transfers) depth 20

  pub note_rate-Keeps : (n : ℕ) → Keeps P (note_rate n)
  unfolding note_rate
  note_rate-Keeps n = search transfers depth 20

  recv_stream-Keeps :
      (sink : Bytes → Act D S Bool)
      → ((chunk : Bytes) → Keeps P (sink chunk))
      → (len first : ℕ) → Keeps P (recv_stream sink len first)
  unfolding recv_stream
  recv_stream-Keeps sink taken len first =
      search (recv_chunks-Keeps sink taken, note_rate-Keeps, steps) depth 20

  pub recv_streamed-Keeps :
      (sink : Bytes → Act D S Bool)
      → ((chunk : Bytes) → Keeps P (sink chunk))
      → Keeps P (recv_streamed sink)
  unfolding recv_streamed
  recv_streamed-Keeps sink taken = search (recv_stream-Keeps sink taken, transfers) depth 20

  pub stream_begin-Keeps :
      (code t total : ℕ) (first : Bytes) → Keeps P (stream_begin code t total first)
  unfolding stream_begin
  stream_begin-Keeps code t total first = search transfers depth 20

  pub stream_chunk-Keeps : (sent : ℕ) (bytes : Bytes) → Keeps P (stream_chunk sent bytes)
  unfolding stream_chunk
  stream_chunk-Keeps sent bytes = search transfers depth 20
