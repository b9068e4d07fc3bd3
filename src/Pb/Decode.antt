-- ===== src/Pb/Decode.antt =====
-- `PbCodeC::decode`: find a package in the buffer, take it out, and read its fields.
-- An index below 0 or past the vector, a copy past a local array, a string of negative length and
-- an `int` overflow are faults.
pub mod Layout
pub mod Fields
pub mod RoundTrip
pub mod Size
use corpc.Base.{
  ℕ, zero, suc, ◌+◌, ◌-◌, ◌^◌, Bool, ◌&&◌, true, false, Option, none, some, List, [], ◌∷◌, ◌++◌,
  length, replicate, get_elem?, ltb, leb, ◌==◌, ◌>>=◌, ◌>>◌, require, if◌then◌else◌, read_at, not,
}
use corpc.Base.Int.{ℤ, pos, negsuc, ◌+ℤ◌, ◌-ℤ◌, ltb_ℤ, sub_ℕ}
use corpc.Byte.{get_int32_from_net_byte}
use corpc.Buffer.{TcpBuffer, recycle_read}
use corpc.Pb.Package.{PbStruct, pb_start, pb_end}

-- The nonnegative value of an `int` that is an index or a size.
pub as_index : ℤ → Option ℕ
as_index (pos n) = some n
as_index (negsuc _) = none

-- Where a package was found: `start_index`, `end_index` and its `pk_len`.
pub record Found : Type 0 where
  pub start_index : ℕ
  pub end_index : ℕ
  pub pk_len : ℤ

-- What the byte at `i`, a start byte with a length after it, leads to: `j = i + pk_len - 1`.
pub candidate : List ℕ → ℕ → ℕ → Option (Option Found)
unfolding as_index ◌+ℤ◌ ◌-ℤ◌
candidate tmp write_index i = do
  pk_len ← get_int32_from_net_byte tmp (i + 1)
  require (ltb_ℤ (pos i +ℤ pk_len) (pos (2 ^ 31)))
  let j = pos i +ℤ pk_len -ℤ pos 1
  if not (ltb_ℤ j (pos write_index)) then some none else do
    end_index ← as_index j
    last ← get_elem? tmp end_index
    some (
        if last == pb_end
        then some (record { start_index = i; end_index = end_index; pk_len = pk_len })
        else none)

-- One round of the loop.
pub look_at : List ℕ → ℕ → ℕ → Option (Option Found)
unfolding candidate
look_at tmp write_index i = do
  first ← get_elem? tmp i
  if (first == pb_start) && ltb (i + 1) write_index then candidate tmp write_index i else some none

-- The loop from `i`, with `n` the rounds that are left up to the write index.
unfoldable pub find_package : List ℕ → ℕ → ℕ → ℕ → Option (Option Found)
unfolding look_at
find_package tmp write_index i zero = some none
find_package tmp write_index i (suc n) =
    let rest = find_package tmp write_index (i + 1) n in
    look_at tmp write_index i >>= λ found. elim found [ some f ↦ some (some f) | none ↦ rest ]

-- `std::string(array)` for a `char array[limit] = {0}` into which `bytes` were copied: the bytes up to
-- the first 0, and a fault if there is none in the array.
pub up_to_zero : List ℕ → Option (List ℕ)
up_to_zero [] = none
up_to_zero (c ∷ cs) =
    let rest = up_to_zero cs in if c == 0 then some [] else (rest >>= λ s. some (c ∷ s))

-- `memcpy(&array[0], &tmp[i], len)` for an array of `limit` zeros, then the array as a string.
pub copy_string : List ℕ → ℕ → ℤ → ℕ → Option (List ℕ × ℕ)
unfolding as_index up_to_zero
copy_string tmp i len limit = do
  n ← as_index len
  bytes ← read_at tmp i n
  require (leb n limit)
  text ← up_to_zero (bytes ++ replicate (limit - n) 0)
  some (text, n)

-- `std::string pb_data_str(&tmp[pb_data_index], pb_data_len)`, the last field.
pub parse_pb_data : List ℕ → ℕ → ℕ → PbStruct → Option PbStruct
unfolding as_index ◌-ℤ◌
parse_pb_data tmp end_index pb_data_index d = if leb end_index pb_data_index then some d else do
  n ←
      as_index
        (d.pk_len -ℤ d.service_name_len -ℤ d.msg_req_len -ℤ d.err_info_len -ℤ pos 2 -ℤ pos 24)
  pb_data ← read_at tmp pb_data_index n
  some (record d { pb_data = pb_data; decode_succ = true })

pub parse_err : List ℕ → ℕ → ℕ → PbStruct → Option PbStruct
unfolding copy_string parse_pb_data
parse_err tmp end_index err_code_index d = do
  err_code ← get_int32_from_net_byte tmp err_code_index
  let err_info_len_index = err_code_index + 4
  let d = record d { err_code = err_code }
  if leb end_index err_info_len_index then some d else do
    err_info_len ← get_int32_from_net_byte tmp err_info_len_index
    (err_info, n) ← copy_string tmp (err_info_len_index + 4) err_info_len 512
    parse_pb_data tmp end_index (err_info_len_index + 4 + n)
        (record d { err_info_len = err_info_len; err_info = err_info })

pub parse_service : List ℕ → ℕ → ℕ → PbStruct → Option PbStruct
unfolding copy_string parse_err
parse_service tmp end_index service_name_len_index d =
    let service_name_index = service_name_len_index + 4 in
    if leb end_index service_name_len_index
    then some d
    else if leb end_index service_name_index
    then some d
    else do
      service_name_len ← get_int32_from_net_byte tmp service_name_len_index
      let d = record d { service_name_len = service_name_len }
      if ltb_ℤ d.pk_len service_name_len then some d else do
        (name, n) ← copy_string tmp service_name_index service_name_len 512
        parse_err tmp end_index (service_name_index + n) (record d { service_full_name = name })

pub is_zero : ℤ → Bool
is_zero (pos n) = n == 0
is_zero (negsuc _) = false

pub parse_msg_req : List ℕ → ℕ → ℕ → PbStruct → Option PbStruct
unfolding is_zero copy_string parse_service
parse_msg_req tmp start_index end_index d =
    let msg_req_len_index = start_index + 1 + 4 in
    if leb end_index msg_req_len_index then some d else do
      msg_req_len ← get_int32_from_net_byte tmp msg_req_len_index
      let d = record d { msg_req_len = msg_req_len }
      if is_zero msg_req_len then some d else do
        (msg_req, n) ← copy_string tmp (msg_req_len_index + 4) msg_req_len 50
        parse_service tmp end_index (msg_req_len_index + 4 + n) (record d { msg_req = msg_req })

-- What follows the search: the package leaves the buffer, whatever its fields turn out to be.
pub take_package : TcpBuffer → PbStruct → Option Found → Option (TcpBuffer × PbStruct)
unfolding parse_msg_req
take_package buf d none = some (buf, d)
take_package buf d (some f) = do
  buf' ← recycle_read buf (pos (f.end_index + 1) -ℤ pos f.start_index)
  d' ←
      parse_msg_req buf.buffer f.start_index f.end_index
        (record d { pk_len = f.pk_len; decode_succ = false })
  some (buf', d')

-- `decode` on a buffer and a `PbStruct` that are not null.
unfoldable pub decode : TcpBuffer → PbStruct → Option (TcpBuffer × PbStruct)
unfolding take_package
decode buf d = do
  found ← find_package buf.buffer buf.write_index buf.read_index (buf.write_index - buf.read_index)
  take_package buf d found
