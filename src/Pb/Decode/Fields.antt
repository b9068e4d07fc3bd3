-- ===== src/Pb/Decode/Fields.antt =====
-- Where the bytes of a package stand, the decoder reads back each field.
use corpc.Base.{
  ℕ, ◌+◌, ◌^◌, ◌<◌, ◌≡◌, refl, true, false, some, List, ◌++◌, length, leb, ◌==◌, arith, At,
  At-read_at, At-append_left,
}
use corpc.Base.Int.{pos, ◌-ℤ◌, int_laws, ltb_ℤ}
use corpc.Byte.{net_bytes, IsInt32}
use corpc.Pb.Package.{PbStruct, package_length}
use corpc.Pb.Decode.{parse_pb_data, parse_err, parse_service, parse_msg_req}
use corpc.Pb.Decode.Layout.{NoZero, At-int32, At-text}

-- What an encoder must be given for its package to be readable: the decoder copies the texts into
-- arrays of 50, 512 and 512 bytes that end at the first 0.
pub record IsReadable (d : PbStruct) : Type 0 where
  pub numbered : 0 < length d.msg_req
  pub msg_req_fits : length d.msg_req < 50
  pub service_fits : length d.service_full_name < 512
  pub err_info_fits : length d.err_info < 512
  pub msg_req_text : NoZero d.msg_req
  pub service_text : NoZero d.service_full_name
  pub err_info_text : NoZero d.err_info
  pub err_code_fits : IsInt32 d.err_code
  pub small : package_length d < 2 ^ 31

-- The decoder's remainder of the length is the length of the data.
pb_data_len :
    (d : PbStruct)
    → pos (package_length d)
        -ℤ pos (length d.service_full_name)
        -ℤ pos (length d.msg_req)
        -ℤ pos (length d.err_info)
        -ℤ pos 2
        -ℤ pos 24
      ≡ pos (length d.pb_data)
pb_data_len d = omega int_laws

module _ (tmp : List ℕ) (end_index : ℕ) (d : PbStruct) (readable : IsReadable d)
    (rest : List ℕ) where
  abbrev from_data : List ℕ
  from_data = d.pb_data ++ (net_bytes (pos 1) ++ rest)

  abbrev from_err : List ℕ
  from_err =
      net_bytes d.err_code ++ (net_bytes (pos (length d.err_info)) ++ (d.err_info ++ from_data))

  abbrev from_service : List ℕ
  from_service = net_bytes (pos (length d.service_full_name)) ++ (d.service_full_name ++ from_err)

  -- The decoder's struct once it has the lengths.
  abbrev parsed_data : PbStruct → PbStruct
  parsed_data s = record s { pb_data = d.pb_data; decode_succ = true }

  abbrev parsed_err : PbStruct → PbStruct
  parsed_err s = parsed_data (record s {
    err_code = d.err_code;
    err_info_len = pos (length d.err_info);
    err_info = d.err_info;
  })

  abbrev parsed_service : PbStruct → PbStruct
  parsed_service s = parsed_err (record s {
    service_name_len = pos (length d.service_full_name);
    service_full_name = d.service_full_name;
  })

  parse_pb_data-At :
      (i : ℕ) (s : PbStruct)
      → At tmp i from_data
      → i < end_index
      → s.pk_len ≡ pos (package_length d)
      → s.service_name_len ≡ pos (length d.service_full_name)
      → s.msg_req_len ≡ pos (length d.msg_req)
      → s.err_info_len ≡ pos (length d.err_info)
      → parse_pb_data tmp end_index i s ≡ some (parsed_data s)
  unfolding parse_pb_data
  parse_pb_data-At i s at h p q r t =
      let inside : leb end_index i ≡ false = ground arith in
      rw (inside, p, q, r, t, pb_data_len d)
        (rw (
          At-read_at tmp i d.pb_data
            (At-append_left tmp i d.pb_data (net_bytes (pos 1) ++ rest) at)))

  parse_err-At :
      (i : ℕ) (s : PbStruct)
      → At tmp i from_err
      → i + 8 + length d.err_info < end_index
      → s.pk_len ≡ pos (package_length d)
      → s.service_name_len ≡ pos (length d.service_full_name)
      → s.msg_req_len ≡ pos (length d.msg_req)
      → parse_err tmp end_index i s ≡ some (parsed_err s)
  unfolding parse_err
  parse_err-At i s at h p q r =
      let (code, at₁) = At-int32 tmp i d.err_code _ readable.err_code_fits at in
      let (len, at₂) =
        At-int32 tmp (i + 4) (pos (length d.err_info)) _ (omega (arith, readable.err_info_fits))
          at₁ in
      let (info, at₃) =
        At-text tmp (i + 4 + 4) d.err_info _ 512 readable.err_info_text readable.err_info_fits
          at₂ in
      let inside : leb end_index (i + 4) ≡ false = ground arith in
      rw code (
        rw (inside, len)
          (rw info (
            parse_pb_data-At (i + 4 + 4 + length d.err_info)
              (record s {
                err_code = d.err_code;
                err_info_len = pos (length d.err_info);
                err_info = d.err_info;
              })
              at₃ (omega arith) p q r refl)))

  parse_service-At :
      (i : ℕ) (s : PbStruct)
      → At tmp i from_service
      → i + 12 + length d.service_full_name + length d.err_info < end_index
      → s.pk_len ≡ pos (package_length d)
      → s.msg_req_len ≡ pos (length d.msg_req)
      → parse_service tmp end_index i s ≡ some (parsed_service s)
  unfolding parse_service
  parse_service-At i s at h p q =
      let (len, at₁) =
        At-int32 tmp i (pos (length d.service_full_name)) _ (omega (arith, readable.service_fits))
          at in
      let (name, at₂) =
        At-text tmp (i + 4) d.service_full_name _ 512 readable.service_text readable.service_fits
          at₁ in
      let inside : leb end_index i ≡ false = ground arith in
      let inside' : leb end_index (i + 4) ≡ false = ground arith in
      let fits : ltb_ℤ s.pk_len (pos (length d.service_full_name)) ≡ false = rw p (ground arith) in
      rw (inside, inside', len)
        (rw fits (
          rw name (
            parse_err-At (i + 4 + length d.service_full_name)
              (record s {
                service_name_len = pos (length d.service_full_name);
                service_full_name = d.service_full_name;
              })
              at₂ (omega arith) p refl q)))

  -- The decoder's struct after a package has been read.
  abbrev pub parsed : PbStruct → PbStruct
  parsed s = parsed_service (record s { msg_req_len = pos (length d.msg_req); msg_req = d.msg_req })

  pub parse_msg_req-At :
      (start : ℕ) (s : PbStruct)
      → At tmp (start + 1 + 4) (net_bytes (pos (length d.msg_req)) ++ (d.msg_req ++ from_service))
      → start + 21 + length d.msg_req + length d.service_full_name + length d.err_info < end_index
      → s.pk_len ≡ pos (package_length d)
      → parse_msg_req tmp start end_index s ≡ some (parsed s)
  unfolding parse_msg_req
  parse_msg_req-At start s at h p =
      let (len, at₁) =
        At-int32 tmp (start + 1 + 4) (pos (length d.msg_req)) _
          (omega (arith, readable.msg_req_fits)) at in
      let (req, at₂) =
        At-text tmp (start + 1 + 4 + 4) d.msg_req _ 50 readable.msg_req_text readable.msg_req_fits
          at₁ in
      let inside : leb end_index (start + 1 + 4) ≡ false = ground arith in
      let given : (length d.msg_req == 0) ≡ false = ground (arith, readable.numbered) in
      rw (inside, len)
        (rw given (
          rw req (
            parse_service-At (start + 1 + 4 + 4 + length d.msg_req)
              (record s { msg_req_len = pos (length d.msg_req); msg_req = d.msg_req }) at₂
              (omega arith) p refl)))
