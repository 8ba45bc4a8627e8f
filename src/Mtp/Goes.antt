-- ===== src/Mtp/Goes.antt =====
-- The data phase of src/mtp/mtp_server.c always comes back to the operation that receives it.
use nx_nexus.Base.{ℕ, zero, suc, Bool, true, false, Option, none, some, if◌then◌else◌, Bytes}
use nx_nexus.Mtp.World.{
  Device, Stores, World, MtpServerStats, Step, goes, returns, Act, then_step, ◌>>=◌, pure, gets,
  modify_server, modify_stats, on_stores, usb_read,
}
use nx_nexus.Mtp.Transport.{recv_chunks, note_rate, recv_stream, recv_streamed}
use nx_nexus.Mtp.Keeps.{Keeps, after}
use nx_nexus.Mtp.Switch.{Leads}

abbrev IsGoing : {D : Device} {S : Stores} {A : Type 0} → Step D S A → Type 0
IsGoing (goes a w) = Unit {0}
IsGoing (returns b w) = ⊥

-- The operation does not return from the one that runs it.
pub record Goes {D : Device} {S : Stores} {A : Type 0} (m : Act D S A) : Type 0 where
  pub goes_on : (w : World D S) → IsGoing (m w)

module _ {D : Device} {S : Stores} where
  then_step-IsGoing :
      {A B : Type 0} (s : Step D S A) (f : A → Act D S B)
      → ((a : A) → Goes (f a))
      → IsGoing s
      → IsGoing (then_step s f)
  then_step-IsGoing (goes a w) f each h = (each a).goes_on w
  then_step-IsGoing (returns b w) f each h = h

  bind-Goes :
      {A B : Type 0} (m : Act D S A) (f : A → Act D S B)
      → Goes m
      → ((a : A) → Goes (f a))
      → Goes (m >>= f)
  bind-Goes m f first each = record {
    goes_on = λ w. then_step-IsGoing (m w) f each (first.goes_on w);
  }

  bind_option-Goes :
      {A B : Type 0} (m : Act D S (Option A)) (f : Option A → Act D S B)
      → Goes m
      → Goes (f none)
      → ((a : A) → Goes (f (some a)))
      → Goes (m >>= f)
  bind_option-Goes m f first without each =
      bind-Goes m f first (λ o. elim o as (λ o'. Goes (f o')) [ none ↦ without | some a ↦ each a ])

  pure-Goes : {A : Type 0} (a : A) → Goes {D = D} {S = S} (pure a)
  unfolding pure
  pure-Goes a = record { goes_on = λ w. tt }

  gets-Goes : {A : Type 0} (f : World D S → A) → Goes (gets f)
  unfolding gets
  gets-Goes f = record { goes_on = λ w. tt }

  pub on_stores-Goes : {A : Type 0} (f : S.State → A × S.State) → Goes {D = D} (on_stores {S = S} f)
  unfolding on_stores
  on_stores-Goes f = record { goes_on = λ w. tt }

  modify_stats-Goes : (f : MtpServerStats → MtpServerStats) → Goes {D = D} {S = S} (modify_stats f)
  unfolding modify_stats modify_server
  modify_stats-Goes f = record { goes_on = λ w. tt }

  usb_read-Goes : (n : ℕ) → Goes {D = D} {S = S} (usb_read n)
  unfolding usb_read
  usb_read-Goes n = record { goes_on = λ w. tt }

  if-Goes : {A : Type 0} (c : Bool) (m k : Act D S A) → Goes m → Goes k → Goes (if c then m else k)
  if-Goes true m k first second = first
  if-Goes false m k first second = second

  ruleset going =
      (bind_option-Goes, bind-Goes, pure-Goes, gets-Goes, modify_stats-Goes, usb_read-Goes, if-Goes)

  recv_chunks-Goes :
      (sink : Bytes → Act D S Bool)
      → ((chunk : Bytes) → Goes (sink chunk))
      → (known_length : Bool) (mps fuel left delivered : ℕ)
      → Goes (recv_chunks sink known_length mps fuel left delivered)
  unfolding recv_chunks
  recv_chunks-Goes sink taken known_length mps zero left delivered = search going
  recv_chunks-Goes sink taken known_length mps (suc fuel) left delivered =
      search (recv_chunks-Goes sink taken known_length mps fuel, going) depth 20

  note_rate-Goes : (n : ℕ) → Goes {D = D} {S = S} (note_rate n)
  unfolding note_rate
  note_rate-Goes n = search going depth 20

  recv_stream-Goes :
      (sink : Bytes → Act D S Bool)
      → ((chunk : Bytes) → Goes (sink chunk))
      → (len first : ℕ) → Goes (recv_stream sink len first)
  unfolding recv_stream
  recv_stream-Goes sink taken len first =
      search (recv_chunks-Goes sink taken, note_rate-Goes, going) depth 20

  pub recv_streamed-Goes :
      (sink : Bytes → Act D S Bool)
      → ((chunk : Bytes) → Goes (sink chunk))
      → Goes (recv_streamed sink)
  unfolding recv_streamed
  recv_streamed-Goes sink taken = search (recv_stream-Goes sink taken, going) depth 20

  goes_on-Leads :
      {P Q : World D S → Type 0} {A B : Type 0} (s : Step D S A) (f : A → Act D S B)
      → ((a : A) → Leads P Q (f a))
      → IsGoing s
      → P (after s)
      → Q (after (then_step s f))
  goes_on-Leads (goes a w) f each h p = (each a).leads w p
  goes_on-Leads (returns b w) f each h p = absurd h

  -- What follows an operation that goes on starts from what that operation keeps.
  pub going-Leads :
      {P Q : World D S → Type 0} {A B : Type 0} (m : Act D S A) (f : A → Act D S B)
      → Goes m
      → Keeps P m
      → ((a : A) → Leads P Q (f a))
      → Leads P Q (m >>= f)
  going-Leads m f on first each = record {
    leads = λ w p. goes_on-Leads (m w) f each (on.goes_on w) (first.keeps w p);
  }
