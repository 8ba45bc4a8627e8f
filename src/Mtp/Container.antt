-- ===== src/Mtp/Container.antt =====
-- Command and response blocks of src/mtp/mtp_container.c. A container holds its parameters as the list
-- of the first `param_count` of the array.
use nx_nexus.Base.{
  ℕ, zero, suc, ◌+◌, ◌-◌, ◌*◌, ◌/◌, min, List, [], ◌∷◌, ◌++◌, Option, none, some, ltb, ◌||◌,
  if◌then◌else◌, length, take, drop, slice, Bytes,
}
use nx_nexus.Format.{le, le_bytes}
use nx_nexus.Mtp.Codes.{container_header_size, max_params}

pub record MtpContainer : Type 0 where
  pub len : ℕ
  pub container_type : ℕ
  pub code : ℕ
  pub transaction_id : ℕ
  pub params : List ℕ

-- `n` parameters from the bytes.
unfoldable pub read_params : ℕ → Bytes → List ℕ
read_params zero p = []
read_params (suc n) p = le (take 4 p) ∷ read_params n (drop 4 p)

-- How many parameters a block of this declared length brings in a buffer of this size.
abbrev pub param_count : ℕ → ℕ → ℕ
param_count len size = min ((min len size - container_header_size) / 4) max_params

-- `mtpContainerParse`; the buffer is the bytes that arrived.
unfoldable pub parse : Bytes → Option MtpContainer
parse p =
    let len = le (slice 0 4 p) in
    if ltb (length p) container_header_size || ltb len container_header_size
    then none
    else some (record {
      len = len;
      container_type = le (slice 4 2 p);
      code = le (slice 6 2 p);
      transaction_id = le (slice 8 4 p);
      params = read_params (param_count len (length p)) (drop container_header_size p);
    })

unfoldable pub param_bytes : List ℕ → Bytes
param_bytes [] = []
param_bytes (v ∷ vs) = le_bytes 4 v ++ param_bytes vs

-- The twelve bytes before parameters or payload.
abbrev pub header_bytes : ℕ → ℕ → ℕ → ℕ → Bytes
header_bytes len kind code transaction_id =
    le_bytes 4 len ++ (le_bytes 2 kind ++ (le_bytes 2 code ++ le_bytes 4 transaction_id))

-- `mtpContainerSerialize`: the bytes that are written, none when the buffer of `out_size` is too small.
unfoldable pub serialize : MtpContainer → ℕ → Bytes
serialize c out_size =
    let params = take max_params c.params in
    let total = container_header_size + length params * 4 in
    if ltb out_size total
    then []
    else header_bytes total c.container_type c.code c.transaction_id ++ param_bytes params
