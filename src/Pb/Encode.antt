-- ===== src/Pb/Encode.antt =====
-- What `encode` does on each of its branches, and that `decode` undoes it.
use corpc.Base.{
  ℕ, ◌^◌, ◌<◌, ◌≡◌, sym, ◌∙◌, true, false, some, List, [], ◌++◌, length, lt→ltb, ltb, ◌==◌,
  if◌then◌else◌, arith, append-nil,
}
use corpc.Base.Int.{pos}
use corpc.Buffer.{TcpBuffer}
use corpc.Buffer.Invariant.{IsValid, contents}
use corpc.Buffer.Refine.{write_to_buffer-Leaves}
use corpc.Pb.Package.{PbStruct, package_bytes, package_length, encode, encode_pb_data}
use corpc.Pb.Decode.{decode}
use corpc.Pb.Decode.Layout.{length-package_bytes}
use corpc.Pb.Decode.Fields.{IsReadable}
use corpc.Pb.Decode.RoundTrip.{decoded, decode-package_bytes}

-- The struct with its request number, which is generated if there is none.
abbrev pub with_number : List ℕ → PbStruct → PbStruct
with_number fresh d =
    if length d.msg_req == 0
    then record d { msg_req = fresh; msg_req_len = pos (length fresh) }
    else d

-- What `encode` leaves in the struct of a package that it has written.
abbrev pub encoded : PbStruct → PbStruct
encoded d = record d {
  pk_len = pos (package_length d);
  msg_req_len = pos (length d.msg_req);
  service_name_len = pos (length d.service_full_name);
  err_info_len = pos (length d.err_info);
  check_num = pos 1;
  encode_succ = true;
}

-- A package without a service name is refused, and the buffer stays.
pub encode_nameless :
    (fresh : List ℕ) (b : TcpBuffer) (d : PbStruct)
    → d.service_full_name ≡ []
    → encode fresh b d ≡ some (b, record d { encode_succ = false })
unfolding encode encode_pb_data
encode_nameless fresh b d e =
    let nameless : (length d.service_full_name == 0) ≡ true = rw e in rw nameless

encode_pb_data-some :
    (fresh : List ℕ) (d : PbStruct)
    → 0 < length d.service_full_name
    → package_length (with_number fresh d) < 2 ^ 31
    → encode_pb_data fresh d
      ≡ some (encoded (with_number fresh d), some (package_bytes (with_number fresh d)))
unfolding encode_pb_data
encode_pb_data-some fresh d named small =
    let has_name : (length d.service_full_name == 0) ≡ false = ground arith in
    let fits : ltb (package_length (with_number fresh d)) (2 ^ 31) ≡ true = lt→ltb _ _ small in
    rw has_name (rw fits)

-- Any other is written behind what the buffer holds, and the copies never leave the buffer.
pub encode_appends :
    (fresh : List ℕ) (b : TcpBuffer) (d : PbStruct)
    → IsValid b
    → 0 < length d.service_full_name
    → package_length (with_number fresh d) < 2 ^ 31
    → (b' : TcpBuffer) × (encode fresh b d ≡ some (b', encoded (with_number fresh d)))
      × IsValid b'
      × (contents b' ≡ contents b ++ package_bytes (with_number fresh d))
unfolding encode
encode_appends fresh b d v named small =
    let (b', e, v', c) = write_to_buffer-Leaves b (package_bytes (with_number fresh d)) v in
    let bytes : (length (package_bytes (with_number fresh d)) == 0) ≡ false =
      ground (arith, length-package_bytes (with_number fresh d)) in
    (b', rw (encode_pb_data-some fresh d named small) (rw bytes (rw e)), v', c)

-- What is encoded into a valid empty buffer is decoded from it: the request number, which is generated
-- if there is none, the service name, the error code and text, the data and all lengths come back,
-- `decode_succ` is set, and the buffer is valid and empty again; `check_num` stays what it was in the
-- struct that is decoded into. The struct fits the decoder's arrays: its number is not empty and has
-- less than 50 characters, its service name is not empty, and the name and the error text have less
-- than 512 characters each; none of the three texts has a NUL, the error code is an int32_t, and the
-- length of the package and the write index behind it stay below 2^31.
pub decode-encode :
    (fresh : List ℕ) (b b₁ : TcpBuffer) (d d₁ s : PbStruct)
    → IsValid b
    → contents b ≡ []
    → 0 < length d.service_full_name
    → IsReadable (with_number fresh d)
    → encode fresh b d ≡ some (b₁, d₁)
    → b₁.write_index < 2 ^ 31
    → (b₂ : TcpBuffer) × (decode b₁ s ≡ some (b₂, decoded (with_number fresh d) s))
      × IsValid b₂
      × (contents b₂ ≡ [])
decode-encode fresh b b₁ d d₁ s v empty named readable e small =
    let (b', e', v', c) = encode_appends fresh b d v named readable.small in
    let same : b' ≡ b₁ = cc in
    decode-package_bytes b₁ (with_number fresh d) s [] (rw same at v') readable small
      (rw same at c ∙ rw empty (sym (append-nil _)))
