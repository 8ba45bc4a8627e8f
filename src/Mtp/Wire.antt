-- ===== src/Mtp/Wire.antt =====
-- Containers of src/mtp/mtp_container.c on the wire.
use nx_nexus.Base.{
  ℕ, zero, suc, ◌+◌, ◌*◌, ◌≤◌, ◌<◌, ◌≡◌, refl, ◌∙◌, List, [], ◌∷◌, ◌++◌, Option, none, some, false,
  arith, ltb, ◌||◌, if◌then◌else◌, length, take, Bytes, All, length-append, length-take,
  append_assoc,
}
use nx_nexus.Format.{le_bytes}
use nx_nexus.Format.Words.{le-le_bytes}
use nx_nexus.Mtp.Codes.{max_params}
use nx_nexus.Mtp.Container.{
  MtpContainer, read_params, param_count, parse, param_bytes, header_bytes, serialize,
}

-- What fits into the fields of a block.
pub record FitsWire (c : MtpContainer) : Type 0 where
  pub type_fits : c.container_type < 65536
  pub code_fits : c.code < 65536
  pub id_fits : c.transaction_id < 4294967296
  pub params_fit : All (λ v. v < 4294967296) c.params

pub length-param_bytes : (vs : List ℕ) → length (param_bytes vs) ≡ length vs * 4
unfolding param_bytes le_bytes
length-param_bytes [] = refl
length-param_bytes (v ∷ vs) = omega (arith, length-param_bytes vs)

read_params-param_bytes :
    (vs : List ℕ) (tail : Bytes)
    → All (λ v. v < 4294967296) vs
    → read_params (length vs) (param_bytes vs ++ tail) ≡ vs
unfolding read_params param_bytes le_bytes
read_params-param_bytes [] tail h = refl
read_params-param_bytes (v ∷ vs) tail (h, hs) =
    λ i. le-le_bytes 4 v h i ∷ read_params-param_bytes vs tail hs i

All-take : (P : ℕ → Type 0) (n : ℕ) (vs : List ℕ) → All P vs → All P (take n vs)
All-take P zero vs h = tt
All-take P (suc n) [] h = tt
All-take P (suc n) (v ∷ vs) (h, hs) = (h, All-take P n vs hs)

-- How many parameters a block of `n` of them brings.
param_count_lem : (n size : ℕ) → n ≤ 5 → 12 + n * 4 ≤ size → param_count (12 + n * 4) size ≡ n
param_count_lem n size few long = omega arith

-- What `mtpContainerParse` makes of the fields, once they are read.
unfoldable parsed : ℕ → ℕ → ℕ → ℕ → ℕ → Bytes → Option MtpContainer
parsed size len kind code transaction_id rest =
    if ltb size 12 || ltb len 12
    then none
    else some (record {
      len = len;
      container_type = kind;
      code = code;
      transaction_id = transaction_id;
      params = read_params (param_count len size) rest;
    })

parse_block :
    (len kind code id : ℕ) (rest : Bytes)
    → len < 4294967296
    → kind < 65536
    → code < 65536
    → id < 4294967296
    → parse (header_bytes len kind code id ++ rest)
      ≡ parsed (length (header_bytes len kind code id ++ rest)) len kind code id rest
unfolding parse parsed le_bytes
parse_block len kind code id rest l k c t = λ i.
    parsed (length (header_bytes len kind code id ++ rest)) (le-le_bytes 4 len l i)
      (le-le_bytes 2 kind k i) (le-le_bytes 2 code c i) (le-le_bytes 4 id t i) rest

parsed_lem :
    (size kind code id : ℕ) (vs : List ℕ) (tail : Bytes)
    → length vs ≤ 5
    → 12 + length vs * 4 ≤ size
    → All (λ v. v < 4294967296) vs
    → parsed size (12 + length vs * 4) kind code id (param_bytes vs ++ tail)
      ≡ some (record {
        len = 12 + length vs * 4;
        container_type = kind;
        code = code;
        transaction_id = id;
        params = vs;
      })
unfolding parsed
parsed_lem size kind code id vs tail few long fit =
    let a : ltb size 12 ≡ false = ground arith in
    let b : ltb (12 + length vs * 4) 12 ≡ false = ground arith in
    rw (a, b, param_count_lem (length vs) size few long, read_params-param_bytes vs tail fit)

-- A block that is written is read back, whatever follows it in the buffer. Let the type, the code, the
-- transaction id and the parameters fit into their fields, and the output have room. Then
-- `mtpContainerParse` of what `mtpContainerSerialize` wrote gives the container, with its length filled
-- in and the first five parameters.
pub parse-serialize :
    (c : MtpContainer) (out_size : ℕ) (tail : Bytes)
    → FitsWire c
    → 12 + length (take max_params c.params) * 4 ≤ out_size
    → parse (serialize c out_size ++ tail)
      ≡ some (record c {
        len = 12 + length (take max_params c.params) * 4;
        params = take max_params c.params;
      })
unfolding serialize le_bytes
parse-serialize c out_size tail fits room =
    let vs = take max_params c.params in
    let few : length vs ≤ 5 = omega (arith, length-take max_params c.params) in
    let a : ltb out_size (12 + length vs * 4) ≡ false = ground arith in
    rw (a, append_assoc)
      (parse_block _ _ _ _ _ (omega arith) fits.type_fits fits.code_fits fits.id_fits
        ∙ parsed_lem _ _ _ _ vs tail few
            (omega (arith, length-append (param_bytes vs) tail, length-param_bytes vs))
            (All-take _ max_params c.params fits.params_fit))
