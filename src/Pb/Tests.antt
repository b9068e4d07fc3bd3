-- ===== src/Pb/Tests.antt =====
-- A package of a small call, and the theorems of the codec at it.
use corpc.Base.{
  ℕ, ◌≡◌, refl, false, some, List, [], ◌∷◌, ◌++◌, arith, length, drop, replicate, write_at,
}
use corpc.Base.Int.{negsuc}
use corpc.Byte.{net_bytes}
use corpc.Buffer.{TcpBuffer, write_to_buffer}
use corpc.Buffer.Invariant.{IsValid, contents}
use corpc.Pb.Package.{PbStruct, blank, package_bytes, encode, encode_pb_data}
use corpc.Pb.Decode.{decode}
use corpc.Pb.Decode.Layout.{length-package_bytes}
use corpc.Pb.Decode.RoundTrip.{decoded, decode-package_bytes, decode-skipped}
use corpc.Pb.Encode.{encode_nameless, encode_appends, decode-encode, encoded}

-- Request "17" of service "S.f", with error -2, "no", and data 9 3 2.
abbrev request : PbStruct
request = record blank {
  msg_req = b'1' ∷ b'7' ∷ [];
  service_full_name = b'S' ∷ b'.' ∷ b'f' ∷ [];
  err_code = negsuc 1;
  err_info = b'n' ∷ b'o' ∷ [];
  pb_data = 9 ∷ 3 ∷ 2 ∷ [];
}

abbrev wire : List ℕ
wire =
    2 ∷ 0 ∷ 0 ∷ 0 ∷ 36 ∷ 0 ∷ 0 ∷ 0 ∷ 2 ∷ b'1' ∷ b'7' ∷ 0 ∷ 0 ∷ 0 ∷ 3 ∷ b'S' ∷ b'.' ∷ b'f' ∷ 255
    ∷ 255 ∷ 255 ∷ 254 ∷ 0 ∷ 0 ∷ 0 ∷ 2 ∷ b'n' ∷ b'o' ∷ 9 ∷ 3 ∷ 2 ∷ 0 ∷ 0 ∷ 0 ∷ 1 ∷ 3 ∷ []

package_bytes-request : package_bytes request ≡ wire
unfolding package_bytes net_bytes
package_bytes-request = refl

abbrev fresh : TcpBuffer
fresh = record { read_index = 0; write_index = 0; buffer = replicate 40 0 }

-- The package, and one more byte.
abbrev received : TcpBuffer
received = record { read_index = 0; write_index = 37; buffer = wire ++ (7 ∷ []) }

-- Two bytes that are no package stand before it.
abbrev shifted : TcpBuffer
shifted = record { read_index = 0; write_index = 38; buffer = 5 ∷ 6 ∷ wire }

abbrev filled : TcpBuffer
filled = record { read_index = 0; write_index = 36; buffer = wire ++ (0 ∷ 0 ∷ 0 ∷ 0 ∷ []) }

encode-request : encode [] fresh request ≡ some (filled, encoded request)
unfolding encode encode_pb_data write_to_buffer package_bytes net_bytes write_at
encode-request = refl

decode-package_bytes_example :
    (b' : TcpBuffer) × (decode received blank ≡ some (b', decoded request blank))
    × IsValid b'
    × (contents b' ≡ 7 ∷ [])
unfolding package_bytes net_bytes
decode-package_bytes_example =
    decode-package_bytes received request blank (7 ∷ []) (omega arith) (omega arith) (omega arith)
      refl

decode-skipped_example :
    (b' : TcpBuffer) × (decode shifted blank ≡ some (b', decoded request blank))
    × IsValid b'
    × (contents b' ≡ drop 36 ((5 ∷ 6 ∷ []) ++ (package_bytes request ++ [])))
unfolding package_bytes net_bytes
decode-skipped_example =
    decode-skipped shifted request blank (5 ∷ 6 ∷ []) [] (omega arith) (omega arith) (omega arith)
      (omega arith) refl

encode_nameless_example : encode [] fresh blank ≡ some (fresh, record blank { encode_succ = false })
encode_nameless_example = encode_nameless [] fresh blank refl

encode_appends_example :
    (b' : TcpBuffer) × (encode [] received request ≡ some (b', encoded request))
    × IsValid b'
    × (contents b' ≡ contents received ++ package_bytes request)
encode_appends_example =
    encode_appends [] received request (omega arith) (omega arith) (omega arith)

decode-encode_example :
    (b₂ : TcpBuffer) × (decode filled blank ≡ some (b₂, decoded request blank))
    × IsValid b₂
    × (contents b₂ ≡ [])
decode-encode_example =
    decode-encode [] fresh filled request (encoded request) blank (omega arith) refl (omega arith)
      (omega arith) encode-request (omega arith)

length-package_bytes_example : length (package_bytes request) ≡ 36
length-package_bytes_example = length-package_bytes request
