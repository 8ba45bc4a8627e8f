-- ===== src/Ticket/Bounds.antt =====
-- The ticket parser stays in the buffer, and reads the title id big-endian.
use mathlib.Core.Path.{subst}
use nx_nexus.Base.{
  ℕ, ◌+◌, ◌*◌, ◌/◌, ◌%◌, ◌^◌, ◌≤◌, ◌<◌, ◌≡◌, ◌≢◌, refl, ap, ◌∙◌, arith, ◌∷◌, ◌++◌, length, take,
  drop, slice, Bytes, ltb, length-slice,
}
use nx_nexus.Outcome.{
  ok, fault, truncated, reject, reject-ne-fault, >>=-eq-ok, >>=-ne-fault, ok-injective,
}
use nx_nexus.Format.{read, rd_u8, rd_u16, rd_u32, rd_u64}
use nx_nexus.Format.Words.{rd-ne-fault, read-ne-fault, read-eq-ok}
use nx_nexus.Ncz.{block_bytes}
use nx_nexus.Ticket.{
  TicketContext, sig_and_pad, get_sig_data_size, read_ticket, init, shift_in, get_title_id,
}

-- The ticket data of every known signature type starts on a 0x40 boundary.
sig_aligned :
    (sig_type : ℕ) {size : ℕ}
    → get_sig_data_size sig_type ≡ ok size
    → (size % 0x40 ≡ 0) × (size ≤ 0x240)
unfolding get_sig_data_size sig_and_pad
sig_aligned sig_type h = ground arith

get_sig_data_size-ne-fault : (sig_type : ℕ) → get_sig_data_size sig_type ≢ fault
unfolding get_sig_data_size sig_and_pad
get_sig_data_size-ne-fault sig_type h = ground arith

read_ticket-ne-fault :
    (blob : Bytes) (sig_type td : ℕ)
    → td + 0x2C0 ≤ length blob
    → read_ticket blob sig_type td ≢ fault
unfolding read_ticket
read_ticket-ne-fault blob sig_type td h =
    >>=-ne-fault (rd_u8 blob (td + 0x140)) _ (rd-ne-fault 1 (td + 0x140) blob (omega arith)) λ _ _.
      >>=-ne-fault (rd_u8 blob (td + 0x141)) _ (rd-ne-fault 1 (td + 0x141) blob (omega arith))
        λ _ _.
          >>=-ne-fault (rd_u16 blob (td + 0x142)) _ (rd-ne-fault 2 (td + 0x142) blob (omega arith))
            λ _ _.
              >>=-ne-fault (rd_u8 blob (td + 0x144)) _
                (rd-ne-fault 1 (td + 0x144) blob (omega arith))
                λ _ _.
                  >>=-ne-fault (rd_u8 blob (td + 0x145)) _
                    (rd-ne-fault 1 (td + 0x145) blob (omega arith))
                    λ _ _.
                      >>=-ne-fault (rd_u16 blob (td + 0x146)) _
                        (rd-ne-fault 2 (td + 0x146) blob (omega arith))
                        λ _ _.
                          >>=-ne-fault (rd_u64 blob (td + 0x150)) _
                            (rd-ne-fault 8 (td + 0x150) blob (omega arith))
                            λ _ _.
                              >>=-ne-fault (rd_u64 blob (td + 0x158)) _
                                (rd-ne-fault 8 (td + 0x158) blob (omega arith))
                                λ _ _.
                                  >>=-ne-fault (rd_u32 blob (td + 0x170)) _
                                    (rd-ne-fault 4 (td + 0x170) blob (omega arith))
                                    λ _ _.
                                      >>=-ne-fault (read 0x10 blob (td + 0x160)) _
                                        (read-ne-fault 0x10 (td + 0x160) blob (omega arith))
                                        λ _ _ e. cc

-- `ticketInit` reads inside the buffer, whatever the buffer holds.
pub ticket_init-ne-fault : (blob : Bytes) → init blob ≢ fault
unfolding init
ticket_init-ne-fault blob =
    >>=-ne-fault (reject (ltb (length blob) 4) truncated) _ (reject-ne-fault _ _) λ _ long.
      >>=-ne-fault (rd_u32 blob 0) _ (rd-ne-fault 4 0 blob (ground arith)) λ sig_type _.
        >>=-ne-fault (get_sig_data_size sig_type) _ (get_sig_data_size-ne-fault sig_type) λ td _.
          >>=-ne-fault (reject (ltb (length blob) (td + 0x2C0)) truncated) _ (reject-ne-fault _ _)
            λ _ fits. read_ticket-ne-fault blob sig_type td (ground arith)

-- What an accepted ticket is known to satisfy.
pub record IsTicket (blob : Bytes) (ctx : TicketContext) : Type 0 where
  pub blob_is : ctx.blob ≡ blob
  pub aligned : ctx.sig_data_size % 0x40 ≡ 0
  pub total_is : ctx.total_size ≡ ctx.sig_data_size + 0x2C0
  pub inside : ctx.total_size ≤ length blob
  pub rights_are : ctx.rights_id ≡ slice (ctx.sig_data_size + 0x160) 0x10 blob
  pub rights_length : length ctx.rights_id ≡ 0x10

read_ticket-IsTicket :
    (blob : Bytes) (sig_type td : ℕ) {ctx : TicketContext}
    → td % 0x40 ≡ 0
    → td + 0x2C0 ≤ length blob
    → read_ticket blob sig_type td ≡ ok ctx
    → IsTicket blob ctx
unfolding read_ticket
read_ticket-IsTicket blob sig_type td al fits h =
    let (_, _, h1) = >>=-eq-ok (rd_u8 blob (td + 0x140)) _ h in
    let (_, _, h2) = >>=-eq-ok (rd_u8 blob (td + 0x141)) _ h1 in
    let (_, _, h3) = >>=-eq-ok (rd_u16 blob (td + 0x142)) _ h2 in
    let (_, _, h4) = >>=-eq-ok (rd_u8 blob (td + 0x144)) _ h3 in
    let (_, _, h5) = >>=-eq-ok (rd_u8 blob (td + 0x145)) _ h4 in
    let (_, _, h6) = >>=-eq-ok (rd_u16 blob (td + 0x146)) _ h5 in
    let (_, _, h7) = >>=-eq-ok (rd_u64 blob (td + 0x150)) _ h6 in
    let (_, _, h8) = >>=-eq-ok (rd_u64 blob (td + 0x158)) _ h7 in
    let (_, _, h9) = >>=-eq-ok (rd_u32 blob (td + 0x170)) _ h8 in
    let (rights, rr, e) = >>=-eq-ok (read 0x10 blob (td + 0x160)) _ h9 in
    let (_, s) = read-eq-ok 0x10 (td + 0x160) blob rr in
    subst (IsTicket blob) (ok-injective e) (record {
      blob_is = refl;
      aligned = al;
      total_is = refl;
      inside = fits;
      rights_are = s;
      rights_length = ap length s ∙ length-slice (td + 0x160) 0x10 blob (omega arith);
    })

-- An accepted ticket has its data on a 0x40 boundary, inside the buffer, and its rights id is the
-- sixteen bytes at 0x160 of that data.
pub init-IsTicket : (blob : Bytes) {ctx : TicketContext} → init blob ≡ ok ctx → IsTicket blob ctx
unfolding init
init-IsTicket blob h =
    let (_, _, h1) = >>=-eq-ok (reject (ltb (length blob) 4) truncated) _ h in
    let (sig_type, _, h2) = >>=-eq-ok (rd_u32 blob 0) _ h1 in
    let (td, rt, h3) = >>=-eq-ok (get_sig_data_size sig_type) _ h2 in
    let (_, fits, h4) = >>=-eq-ok (reject (ltb (length blob) (td + 0x2C0)) truncated) _ h3 in
    let (al, _) = sig_aligned sig_type rt in
    read_ticket-IsTicket blob sig_type td al (ground arith) h4

-- One round of the loop puts the next eight bits below those read before.
shift_step :
    (high next byte : ℕ)
    → next < 2 ^ 64
    → high ≡ next / 256
    → byte ≡ next % 256
    → high * 256 % 2 ^ 64 + byte ≡ next
shift_step high next byte h eh eb = omega arith

shift_in_step :
    (high next byte : ℕ) (bs : Bytes)
    → next < 2 ^ 64
    → high ≡ next / 256
    → byte ≡ next % 256
    → shift_in high (byte ∷ bs) ≡ shift_in next bs
unfolding shift_in
shift_in_step high next byte bs h eh eb =
    ap (λ v. shift_in v bs) (shift_step high next byte h eh eb)

-- A rights id that starts with the big-endian bytes of a `u64` gives that number as the title id.
pub get_title_id_lem :
    (ctx : TicketContext) (id : ℕ) (rest : Bytes)
    → id < 2 ^ 64
    → ctx.rights_id ≡ block_bytes id ++ rest
    → get_title_id ctx ≡ id
unfolding get_title_id shift_in block_bytes
get_title_id_lem ctx id rest h e =
    ap (λ r. shift_in 0 (take 8 r)) e
    ∙ shift_in_step 0 (id / 2 ^ 56) (id / 2 ^ 56 % 256) (drop 1 (block_bytes id)) (omega arith)
        (omega arith) refl
    ∙ shift_in_step (id / 2 ^ 56) (id / 2 ^ 48) (id / 2 ^ 48 % 256) (drop 2 (block_bytes id))
        (omega arith) (omega arith) refl
    ∙ shift_in_step (id / 2 ^ 48) (id / 2 ^ 40) (id / 2 ^ 40 % 256) (drop 3 (block_bytes id))
        (omega arith) (omega arith) refl
    ∙ shift_in_step (id / 2 ^ 40) (id / 2 ^ 32) (id / 2 ^ 32 % 256) (drop 4 (block_bytes id))
        (omega arith) (omega arith) refl
    ∙ shift_in_step (id / 2 ^ 32) (id / 2 ^ 24) (id / 2 ^ 24 % 256) (drop 5 (block_bytes id))
        (omega arith) (omega arith) refl
    ∙ shift_in_step (id / 2 ^ 24) (id / 2 ^ 16) (id / 2 ^ 16 % 256) (drop 6 (block_bytes id))
        (omega arith) (omega arith) refl
    ∙ shift_in_step (id / 2 ^ 16) (id / 2 ^ 8) (id / 2 ^ 8 % 256) (drop 7 (block_bytes id))
        (omega arith) (omega arith) refl
    ∙ shift_in_step (id / 2 ^ 8) id (id % 256) (drop 8 (block_bytes id)) h (omega arith) refl
