-- ===== src/Pb/Package.antt =====
-- `PbStruct` and `PbCodeC::encode`.
use corpc.Base.{
  ℕ, ◌+◌, ◌*◌, ◌^◌, Bool, ◌||◌, not, true, false, Option, none, some, List, [], ◌∷◌, ◌++◌, length,
  ltb, ◌==◌, ◌>>=◌, ◌>>◌, require, if◌then◌else◌,
}
use corpc.Base.Int.{ℤ, pos, negsuc}
use corpc.Byte.{net_bytes}
use corpc.Buffer.{TcpBuffer, write_to_buffer}

-- A `std::string` is the list of its bytes; the `int32_t` fields are integers.
-- The two flags are those of `AbstractData`.
pub record PbStruct : Type 0 where
  pub pk_len : ℤ
  pub msg_req_len : ℤ
  pub msg_req : List ℕ
  pub service_name_len : ℤ
  pub service_full_name : List ℕ
  pub err_code : ℤ
  pub err_info_len : ℤ
  pub err_info : List ℕ
  pub pb_data : List ℕ
  pub check_num : ℤ
  pub decode_succ : Bool
  pub encode_succ : Bool

abbrev pub blank : PbStruct
blank = record {
  pk_len = pos 0;
  msg_req_len = pos 0;
  msg_req = [];
  service_name_len = pos 0;
  service_full_name = [];
  err_code = pos 0;
  err_info_len = pos 0;
  err_info = [];
  pb_data = [];
  check_num = negsuc 0;
  decode_succ = false;
  encode_succ = false;
}

abbrev pub pb_start : ℕ
pb_start = 0x02

abbrev pub pb_end : ℕ
pb_end = 0x03

-- The size that `encodePbData` computes for `malloc`.
abbrev pub package_length : PbStruct → ℕ
package_length d =
    2 + 6 * 4 + length d.pb_data + length d.service_full_name + length d.msg_req + length d.err_info

-- The bytes that the copies lay down one after the other; the checksum is always 1.
unfoldable pub package_bytes : PbStruct → List ℕ
package_bytes d =
    (pb_start ∷ [])
    ++ (net_bytes (pos (package_length d))
        ++ (net_bytes (pos (length d.msg_req))
            ++ (d.msg_req
                ++ (net_bytes (pos (length d.service_full_name))
                    ++ (d.service_full_name
                        ++ (net_bytes d.err_code
                            ++ (net_bytes (pos (length d.err_info))
                                ++ (d.err_info
                                    ++ (d.pb_data ++ (net_bytes (pos 1) ++ (pb_end ∷ [])))))))))))

-- A missing request number is filled in; `fresh` is what `MsgReqUtil::genMsgNumber` returns.
number_request : List ℕ → PbStruct → PbStruct
number_request fresh d =
    if length d.msg_req == 0
    then record d { msg_req = fresh; msg_req_len = pos (length fresh) }
    else d

-- The lengths that `encodePbData` stores once the bytes are written.
store_lengths : PbStruct → PbStruct
store_lengths d = record d {
  pk_len = pos (package_length d);
  msg_req_len = pos (length d.msg_req);
  service_name_len = pos (length d.service_full_name);
  err_info_len = pos (length d.err_info);
  check_num = pos 1;
  encode_succ = true;
}

-- `encodePbData`: no bytes for a package without a service name. A package of 2^31 bytes or more
-- does not fit the `int32_t` of its length, and is a fault.
unfoldable pub encode_pb_data : List ℕ → PbStruct → Option (PbStruct × Option (List ℕ))
unfolding number_request store_lengths
encode_pb_data fresh d =
    if length d.service_full_name == 0 then some (record d { encode_succ = false }, none) else do
      let numbered = number_request fresh d
      require (ltb (package_length numbered) (2 ^ 31))
      some (store_lengths numbered, some (package_bytes numbered))

-- `encode` once `encodePbData` has returned: what there is goes to the buffer.
write_package : TcpBuffer → PbStruct × Option (List ℕ) → Option (TcpBuffer × PbStruct)
write_package buf (d, none) = some (buf, record d { encode_succ = false })
write_package buf (d, some bytes) =
    if length bytes == 0 || not d.encode_succ
    then some (buf, record d { encode_succ = false })
    else do buf' ← write_to_buffer buf bytes; some (buf', d)

-- `encode` on a buffer and a `PbStruct` that are not null.
unfoldable pub encode : List ℕ → TcpBuffer → PbStruct → Option (TcpBuffer × PbStruct)
unfolding write_package
encode fresh buf d = do result ← encode_pb_data fresh d; write_package buf result
