-- ===== src/Mtp/Says.antt =====
-- What a handler says to the host: data blocks, and then one response as the last thing.
use nx_nexus.Base.{
  ℕ, zero, suc, ◌≡◌, refl, Bool, true, false, List, [], ◌++◌, Option, none, some, if◌then◌else◌,
  length, Bytes, ◌==◌,
}
use nx_nexus.Mtp.Codes.{container_data, container_response}
use nx_nexus.Mtp.Container.{serialize, header_bytes}
use nx_nexus.Mtp.World.{
  Device, Stores, World, add_out, modify_stats, MtpServerState, MtpServerStats, Step, goes, returns,
  Act, then_step, ◌>>=◌, ◌>>◌, pure, return, gets, modify_server, modify_db, modify_stores, on_db,
  on_stores, usb_read, usb_write,
}
use nx_nexus.Mtp.Transport.{
  count_error, recv_rest, recv_to_payload, recv_chunks, note_rate, recv_stream, recv_streamed,
  end_packet, send_data, send_response, respond,
}
use nx_nexus.ObjectDb.{ObjectDb}

module _ (D : Device) (S : Stores) (transaction_id : ℕ) where
  -- Transfers in which no response was sent: reads, data blocks of this transaction, and the empty
  -- packets that end them.
  pub data Quiet : D.State → D.State → Type 0 where
    rest : (d : D.State) → Quiet d d
    reads : (d e : D.State) (n : ℕ) → Quiet d e → Quiet d (D.usb_read n e).1
    block :
        (d e : D.State) (len code : ℕ) (payload : Bytes)
        → Quiet d e
        → Quiet d (D.usb_write (header_bytes len container_data code transaction_id ++ payload) e).1
    ends : (d e : D.State) → Quiet d e → Quiet d (D.usb_write [] e).1

  abbrev pub response : ℕ → List ℕ → Bytes
  response code params =
      serialize
        (record {
          len = 0;
          container_type = container_response;
          code = code;
          transaction_id = transaction_id;
          params = params;
        })
        0x1000

  -- One response was given to the device as the last thing, and its transfer was not reported as failed.
  -- The code does not compare `sent`, the count of bytes that the device took, with the length.
  pub record Answered (d e : D.State) : Type 0 where
    pub before : D.State
    pub code : ℕ
    pub params : List ℕ
    pub sent : ℕ
    pub quiet : Quiet d before
    pub last : D.usb_write (response code params) before ≡ (some sent, e)

  -- There was no response, or the transfer of the one at the end was reported as failed.
  pub data Lost (d e : D.State) : Type 0 where
    unanswered : Quiet d e → Lost d e
    unsent :
        (before : D.State) (code : ℕ) (params : List ℕ)
        → Quiet d before
        → D.usb_write (response code params) before ≡ (none, e)
        → Lost d e

  abbrev pub Talks : {A : Type 0} → D.State → Step D S A → Type 0
  Talks d (goes a w) = Quiet d w.device
  Talks d (returns true w) = Answered d w.device
  Talks d (returns false w) = Lost d w.device

  pub record Says {A : Type 0} (m : Act D S A) : Type 0 where
    pub talks : (d : D.State) (w : World D S) → Quiet d w.device → Talks d (m w)

-- What `mtpSendResponse` does with the outcome `r` of the transfer.
abbrev answered : {D : Device} {S : Stores} → ℕ → World D S → Option ℕ × D.State → Step D S Bool
answered code w r = then_step (goes r.0 (record w { device = r.1 })) (λ sent. elim sent [
  | none ↦ pure false
  | some n ↦ do modify_stats (λ stats. count_error code (add_out n stats)); pure true
])

module _ {D : Device} {S : Stores} {t : ℕ} where
  then_step-Talks :
      {A B : Type 0} (d : D.State) (s : Step D S A) (f : A → Act D S B)
      → ((a : A) → Says D S t (f a))
      → Talks D S t d s
      → Talks D S t d (then_step s f)
  then_step-Talks d (goes a w) f each quiet = (each a).talks d w quiet
  then_step-Talks d (returns true w) f each answered = answered
  then_step-Talks d (returns false w) f each lost = lost

  pub bind-Says :
      {A B : Type 0} (m : Act D S A) (f : A → Act D S B)
      → Says D S t m
      → ((a : A) → Says D S t (f a))
      → Says D S t (m >>= f)
  bind-Says m f says each = record {
    talks = λ d w quiet. then_step-Talks d (m w) f each (says.talks d w quiet);
  }

  pub pure-Says : {A : Type 0} (a : A) → Says D S t (pure a)
  unfolding pure
  pure-Says a = record { talks = λ d w quiet. quiet }

  pub gets-Says : {A : Type 0} (f : World D S → A) → Says D S t (gets f)
  unfolding gets
  gets-Says f = record { talks = λ d w quiet. quiet }

  pub fails-Says : {A : Type 0} → Says D S t {A = A} (return false)
  unfolding return
  fails-Says = record { talks = λ d w quiet. unanswered quiet }

  pub modify_server-Says : (f : MtpServerState → MtpServerState) → Says D S t (modify_server f)
  unfolding modify_server
  modify_server-Says f = record { talks = λ d w quiet. quiet }

  pub modify_stats-Says : (f : MtpServerStats → MtpServerStats) → Says D S t (modify_stats f)
  unfolding modify_stats
  modify_stats-Says f = modify_server-Says _

  pub modify_db-Says : (f : ObjectDb → ObjectDb) → Says D S t (modify_db f)
  unfolding modify_db
  modify_db-Says f = record { talks = λ d w quiet. quiet }

  pub modify_stores-Says : (f : S.State → S.State) → Says D S t (modify_stores f)
  unfolding modify_stores
  modify_stores-Says f = record { talks = λ d w quiet. quiet }

  pub on_db-Says : {A : Type 0} (f : ObjectDb → A × ObjectDb) → Says D S t (on_db f)
  unfolding on_db
  on_db-Says f = record { talks = λ d w quiet. quiet }

  pub on_stores-Says : {A : Type 0} (f : S.State → A × S.State) → Says D S t (on_stores f)
  unfolding on_stores
  on_stores-Says f = record { talks = λ d w quiet. quiet }

  pub usb_read-Says : (n : ℕ) → Says D S t (usb_read n)
  unfolding usb_read
  usb_read-Says n = record { talks = λ d w quiet. reads d w.device n quiet }

  pub if-Says :
      {A : Type 0} (c : Bool) (m k : Act D S A)
      → Says D S t m
      → Says D S t k
      → Says D S t (if c then m else k)
  if-Says true m k says other = says
  if-Says false m k says other = other

  pub bind_option-Says :
      {A B : Type 0} (m : Act D S (Option A)) (f : Option A → Act D S B)
      → Says D S t m
      → Says D S t (f none)
      → ((a : A) → Says D S t (f (some a)))
      → Says D S t (m >>= f)
  bind_option-Says m f says without each =
      bind-Says m f says
        (λ o. elim o as (λ o'. Says D S t (f o')) [ none ↦ without | some a ↦ each a ])

  pub ruleset operations = (
    bind_option-Says, bind-Says, pure-Says, gets-Says, fails-Says, modify_server-Says,
    modify_stats-Says, modify_db-Says, modify_stores-Says, on_db-Says, on_stores-Says,
    usb_read-Says, if-Says,
  )

  recv_rest-Says : (fuel left : ℕ) (payload : Bytes) → Says D S t (recv_rest fuel left payload)
  unfolding recv_rest
  recv_rest-Says zero left payload = search operations
  recv_rest-Says (suc fuel) left payload = search (operations, recv_rest-Says fuel) depth 20

  pub recv_to_payload-Says : Says D S t recv_to_payload
  unfolding recv_to_payload
  recv_to_payload-Says = search (operations, recv_rest-Says) depth 20

  pub recv_chunks-Says :
      (sink : Bytes → Act D S Bool)
      → ((chunk : Bytes) → Says D S t (sink chunk))
      → (known_length : Bool) (mps fuel left delivered : ℕ)
      → Says D S t (recv_chunks sink known_length mps fuel left delivered)
  unfolding recv_chunks
  recv_chunks-Says sink says known_length mps zero left delivered = search operations
  recv_chunks-Says sink says known_length mps (suc fuel) left delivered =
      search (operations, recv_chunks-Says sink says known_length mps fuel) depth 20

  note_rate-Says : (n : ℕ) → Says D S t (note_rate n)
  unfolding note_rate
  note_rate-Says n = search operations depth 20

  recv_stream-Says :
      (sink : Bytes → Act D S Bool)
      → ((chunk : Bytes) → Says D S t (sink chunk))
      → (len first : ℕ) → Says D S t (recv_stream sink len first)
  unfolding recv_stream
  recv_stream-Says sink says len first =
      search (operations, recv_chunks-Says sink says, note_rate-Says) depth 20

  pub recv_streamed-Says :
      (sink : Bytes → Act D S Bool)
      → ((chunk : Bytes) → Says D S t (sink chunk))
      → Says D S t (recv_streamed sink)
  unfolding recv_streamed
  recv_streamed-Says sink says = search (operations, recv_stream-Says sink says) depth 20

  -- What is sent besides a response.
  sent-Says :
      {A : Type 0} (bytes : Bytes) (f : Option ℕ → Act D S A)
      → ((d e : D.State) → Quiet D S t d e → Quiet D S t d (D.usb_write bytes e).1)
      → Says D S t (f none)
      → ((n : ℕ) → Says D S t (f (some n)))
      → Says D S t (usb_write bytes >>= f)
  unfolding usb_write
  sent-Says bytes f quietly without each =
      let either : (o : Option ℕ) → Says D S t (f o) =
        (λ o. elim o as (λ o'. Says D S t (f o')) [ none ↦ without | some n ↦ each n ]) in
      record {
        talks = λ d w quiet.
            (either (D.usb_write bytes w.device).0).talks d _ (quietly d w.device quiet);
      }

  end_packet-Says : (total : ℕ) → Says D S t (end_packet total)
  unfolding end_packet
  end_packet-Says total = search (operations, sent-Says, ends) depth 20

  pub send_data-Says : (code : ℕ) (payload : Bytes) → Says D S t (send_data code t payload)
  unfolding send_data
  send_data-Says code payload =
      sent-Says _ _ (λ d e. block d e _ code payload) fails-Says
        (search (operations, end_packet-Says))

  answered-Talks :
      (A : Type 0) (code : ℕ) (params : List ℕ) (d : D.State) (w : World D S)
      → Quiet D S t d w.device
      → (r : Option ℕ × D.State) → D.usb_write (response D S t code params) w.device ≡ r
      → Talks D S t d (then_step (answered code w r) (return {A = A}))
  unfolding pure return modify_server modify_stats
  answered-Talks A code params d w quiet (none, e) h = unsent w.device code params quiet h
  answered-Talks A code params d w quiet (some n, e) h = record {
    before = w.device;
    code = code;
    params = params;
    sent = n;
    quiet = quiet;
    last = h;
  }

  either-Talks :
      (A : Type 0) (nothing : Bool) (code : ℕ) (params : List ℕ) (d : D.State) (w : World D S)
      → Quiet D S t d w.device
      → Talks D S t d (
          then_step
            ((if nothing
                then pure false
                else (λ w'. answered code w' (D.usb_write (response D S t code params) w'.device)))
              w)
            (return {A = A}))
  unfolding pure return
  either-Talks A true code params d w quiet = unanswered quiet
  either-Talks A false code params d w quiet =
      answered-Talks A code params d w quiet (D.usb_write (response D S t code params) w.device)
        refl

  pub respond-Says :
      {A : Type 0} (code : ℕ) (params : List ℕ) → Says D S t {A = A} (respond t code params)
  unfolding send_response usb_write
  respond-Says {A = A} code params = record {
    talks = either-Talks A (length (response D S t code params) == 0) code params;
  }
