-- ===== src/Mtp/Transport.antt =====
-- The data and response phases of src/mtp/mtp_server.c.
use nx_nexus.Base.{
  ℕ, zero, suc, ◌+◌, ◌-◌, ◌*◌, ◌/◌, ◌%◌, ◌^◌, min, Bool, true, false, not, ◌&&◌, List, [], ◌++◌,
  Option, none, some, ltb, leb, ◌==◌, if◌then◌else◌, length, drop, slice, Bytes,
}
use nx_nexus.Format.{le}
use nx_nexus.Mtp.Codes.{res_ok, container_data, container_response, container_header_size}
use nx_nexus.Mtp.Container.{serialize, header_bytes}
use nx_nexus.Mtp.World.{
  Device, Stores, World, MtpServerStats, Act, ◌>>=◌, ◌>>◌, pure, return, gets, modify_stats, add_in,
  add_out, usb_read, usb_write,
}

abbrev pub payload_buf_size : ℕ
payload_buf_size = 1024 * 1024

abbrev pub cmd_buf_size : ℕ
cmd_buf_size = 0x1000

-- A length of 32 bits on the wire.
abbrev pub wire_length : ℕ → ℕ
wire_length total = if ltb 0xFFFFFFFF total then 0xFFFFFFFF else total

abbrev pub count_error : ℕ → MtpServerStats → MtpServerStats
count_error code stats =
    if code == res_ok then stats else record stats { errors = (stats.errors + 1) % 2 ^ 32 }

-- What the first transfer of a data phase holds: the declared length and the payload in it.
abbrev pub data_block : Bytes → Option (ℕ × Bytes)
data_block block =
    if ltb (length block) container_header_size
    then none
    else if not (le (slice 4 2 block) == container_data)
    then none
    else some (le (slice 0 4 block), drop container_header_size block)

module _ {D : Device} {S : Stores} where
  -- `mtpSendResponse`: whether it answers 0.
  unfoldable pub send_response : ℕ → ℕ → List ℕ → Act D S Bool
  send_response transaction_id code params =
      let bytes =
        serialize
          (record {
            len = 0;
            container_type = container_response;
            code = code;
            transaction_id = transaction_id;
            params = params;
          })
          cmd_buf_size in
      if length bytes == 0 then pure false else (do
        sent ← usb_write bytes
        elim sent [
          | none ↦ pure false
          | some n ↦ do modify_stats (λ stats. count_error code (add_out n stats)); pure true
        ])

  -- `return mtpSendResponse(…);`
  abbrev pub respond : {A : Type 0} → ℕ → ℕ → List ℕ → Act D S A
  respond transaction_id code params = send_response transaction_id code params >>= return

  -- A data phase of a multiple of the packet size ends with an empty packet.
  unfoldable pub end_packet : ℕ → Act D S (Unit {0})
  end_packet total = do
    mps ← gets (λ (w : World D S). D.packet_size w.device)
    if not (total == 0) && (total % mps == 0) then (usb_write [] >>= λ _. pure tt) else pure tt

  -- `mtpSendDataFromPayload`, with `if (R_FAILED(rc)) return rc;`
  unfoldable pub send_data : ℕ → ℕ → Bytes → Act D S (Unit {0})
  send_data code transaction_id payload = do
    let total = container_header_size + length payload
    sent ←
        usb_write (header_bytes (wire_length total) container_data code transaction_id ++ payload)
    elim sent [ none ↦ return false | some n ↦ do modify_stats (add_out n); end_packet total ]

  -- The streamed data block. What `g_stream_sent` holds is passed on: `mtpSendDataStreamBegin` and
  -- `mtpSendDataStreamChunk`, with `if (R_FAILED(rc)) return rc;`
  unfoldable pub stream_begin : ℕ → ℕ → ℕ → Bytes → Act D S ℕ
  stream_begin code transaction_id total_payload first = do
    let total = (container_header_size + total_payload) % 2 ^ 64
    sent ← usb_write (header_bytes (wire_length total) container_data code transaction_id ++ first)
    elim sent [ none ↦ return false | some n ↦ do modify_stats (add_out n); pure n ]

  unfoldable pub stream_chunk : ℕ → Bytes → Act D S ℕ
  stream_chunk stream_sent bytes = do
    sent ← usb_write bytes
    elim sent [
      | none ↦ return false
      | some n ↦ do modify_stats (add_out n); pure ((stream_sent + n) % 2 ^ 64)
    ]

  -- The rate of a transfer of `n` bytes is noted.
  unfoldable pub note_rate : ℕ → Act D S (Unit {0})
  note_rate n = do
    elapsed_ns ← gets (λ (w : World D S). D.elapsed w.device)
    if ltb 0 elapsed_ns
        then modify_stats
            (λ stats. record stats { last_rate_bps = (n * 1000000000) % 2 ^ 64 / elapsed_ns })
        else pure tt

  -- The loop that pulls the remainder of a dataset: `left` bytes after `payload`.
  unfoldable pub recv_rest : ℕ → ℕ → Bytes → Act D S (Option Bytes)
  recv_rest zero left payload = pure (some payload)
  recv_rest (suc fuel) left payload = if left == 0 then pure (some payload) else (do
    got ← usb_read left
    elim got [
      | none ↦ pure none
      | some chunk ↦ if length chunk == 0 then pure (some payload) else (do
        modify_stats (add_in (length chunk))
        recv_rest fuel (left - length chunk) (payload ++ chunk))
    ])

  -- `mtpRecvDataToPayload`; `none` is a failure.
  unfoldable pub recv_to_payload : Act D S (Option Bytes)
  recv_to_payload = do
    block ← usb_read payload_buf_size
    elim block [
      | none ↦ pure none
      | some bytes ↦ if ltb (length bytes) container_header_size then pure none else (do
        modify_stats (add_in (length bytes))
        opened ← pure (data_block bytes)
        elim opened [
          | none ↦ pure none
          | some head ↦
              if not (head.0 == 0xFFFFFFFF) && ltb (length bytes) head.0
              then if ltb payload_buf_size head.0
                then pure none
                else recv_rest (head.0 - length bytes) (head.0 - length bytes) head.1
              else pure (some head.1)
        ])
    ]

  -- The loop of `mtpRecvDataStreamed`, with `left` bytes expected. A length that the host did not tell
  -- counts as the greatest, and then a short packet marks the end.
  unfoldable pub recv_chunks : (Bytes → Act D S Bool) → Bool → ℕ → ℕ → ℕ → ℕ → Act D S (Option ℕ)
  recv_chunks sink known_length mps zero left delivered = pure (some delivered)
  recv_chunks sink known_length mps (suc fuel) left delivered =
      if left == 0 then pure (some delivered) else (do
        got ← usb_read (min left payload_buf_size)
        elim got [
          | none ↦ pure none
          | some chunk ↦ if length chunk == 0 then pure (some delivered) else (do
            modify_stats (add_in (length chunk))
            taken ← sink chunk
            if not taken
                then pure none
                else if not known_length && not (length chunk % mps == 0)
                then pure (some (delivered + length chunk))
                else recv_chunks sink known_length mps fuel (left - length chunk)
                    (delivered + length chunk))
        ])

  -- What follows the first transfer.
  unfoldable pub recv_stream : (Bytes → Act D S Bool) → ℕ → ℕ → Act D S (Option ℕ)
  recv_stream sink len first = do
    let known_length = not (len == 0xFFFFFFFF) && leb container_header_size len
    let expected = if known_length then len - container_header_size else 2 ^ 64 - 1
    mps ← gets (λ (w : World D S). D.packet_size w.device)
    delivered ← recv_chunks sink known_length mps (expected - first) (expected - first) first
    elim delivered [ none ↦ pure none | some n ↦ do note_rate n; pure (some n) ]

  -- `mtpRecvDataStreamed`: how much was delivered to the sink; `none` is a failure.
  unfoldable pub recv_streamed : (Bytes → Act D S Bool) → Act D S (Option ℕ)
  recv_streamed sink = do
    block ← usb_read payload_buf_size
    elim block [
      | none ↦ pure none
      | some bytes ↦ if ltb (length bytes) container_header_size then pure none else (do
        modify_stats (add_in (length bytes))
        opened ← pure (data_block bytes)
        elim opened [
          | none ↦ pure none
          | some head ↦ if length head.1 == 0 then recv_stream sink head.0 0 else (do
            taken ← sink head.1
            if taken then recv_stream sink head.0 (length head.1) else pure none)
        ])
    ]
