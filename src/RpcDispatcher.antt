-- ===== src/RpcDispatcher.antt =====
-- corpc/net/pb/pb_rpc_dispatcher.{h,cc}: the server's side of a call. The services, and protobuf
-- behind them, are arguments; messages and methods are numbers, the identities of their objects.
pub mod Answers
pub mod Serving
mod Tests
use corpc.Base.{
  ℕ, ◌+◌, ◌-◌, ◌^◌, Bool, true, false, Option, none, some, List, [], ◌∷◌, ◌++◌, length, codes, ◌==◌,
  if◌then◌else◌, ◌>>=◌, same_text,
}
use corpc.Base.Int.{ℤ, pos}
use corpc.Buffer.{TcpBuffer}
use corpc.Pb.Package.{PbStruct, blank, encode}
use corpc.Text.{substr, sub_size, find}

-- corpc/net/comm/error_code.h
abbrev pub error_failed_serialize : ℤ
error_failed_serialize = pos 10000004

abbrev pub error_service_not_found : ℤ
error_service_not_found = pos 10000008

abbrev pub error_method_not_found : ℤ
error_method_not_found = pos 10000009

abbrev pub error_parse_service_name : ℤ
error_parse_service_name = pos 10000010

-- What the dispatcher asks of a google::protobuf::Service and its messages: FindMethodByName, the full
-- name of a request, ParseFromString, CallMethod with the response it fills, and SerializeToString.
pub record Service : Type 0 where
  pub find_method : List ℕ → Option ℕ
  pub request_name : ℕ → List ℕ
  pub parse_request : ℕ → List ℕ → Option ℕ
  pub call_method : ℕ → ℕ → ℕ
  pub serialize_response : ℕ → Option (List ℕ)

-- `m_service_map`; `none` for a name that is not in it, or whose pointer is null.
abbrev pub ServiceMap : Type 0
ServiceMap = List ℕ → Option Service

abbrev pub register_service : ServiceMap → List ℕ → Service → ServiceMap
register_service services full_name service name =
    if same_text name full_name then some service else services name

-- `parseServiceFullName`, with the early returns as `none`.
unfoldable pub parse_service_full_name : List ℕ → Option (List ℕ × List ℕ)
parse_service_full_name full_name = find full_name (codes ".") >>= λ i.
    substr full_name 0 i >>= λ service_name.
    substr full_name (i + 1) (sub_size (sub_size (length full_name) i) 1) >>= λ method_name.
    some (service_name, method_name)

abbrev pub fail : PbStruct → ℤ → List ℕ → PbStruct
fail reply err_code err_info = record reply { err_code = err_code; err_info = err_info }

-- The end of `dispatch`: the response of the method, serialized.
unfoldable pub reply_data : PbStruct → Option (List ℕ) → PbStruct
reply_data reply none =
    fail (record reply { pb_data = [] }) error_failed_serialize
      (codes "failed to serilize relpy data")
reply_data reply (some bytes) = record reply { pb_data = bytes }

unfoldable pub call_with : Service → ℕ → PbStruct → Option ℕ → PbStruct
call_with service method reply none = fail reply error_failed_serialize (
    codes "faild to parse request data, request.name:["
    ++ (service.request_name method ++ codes "]"))
call_with service method reply (some request) =
    reply_data reply (service.serialize_response (service.call_method method request))

unfoldable pub call_found : Service → List ℕ → List ℕ → PbStruct → Option ℕ → PbStruct
call_found service method_name pb_data reply none =
    fail reply error_method_not_found
      (codes "not found method_name:[" ++ (method_name ++ codes "]"))
call_found service method_name pb_data reply (some method) =
    call_with service method reply (service.parse_request method pb_data)

unfoldable pub call_service : List ℕ → List ℕ → List ℕ → PbStruct → Option Service → PbStruct
call_service service_name method_name pb_data reply none =
    fail reply error_service_not_found
      (codes "not found service_name:[" ++ (service_name ++ codes "]"))
call_service service_name method_name pb_data reply (some service) =
    call_found service method_name pb_data reply (service.find_method method_name)

unfoldable pub call_named : ServiceMap → PbStruct → PbStruct → Option (List ℕ × List ℕ) → PbStruct
call_named services tmp reply none =
    fail reply error_parse_service_name
      (codes "cannot parse service_name:[" ++ (tmp.service_full_name ++ codes "]"))
call_named services tmp reply (some (service_name, method_name)) =
    call_service service_name method_name tmp.pb_data reply (services service_name)

-- The reply before any error; `generated` is what `MsgReqUtil::genMsgNumber` returns.
abbrev pub new_reply : List ℕ → PbStruct → PbStruct
new_reply generated tmp = record blank {
  service_full_name = tmp.service_full_name;
  msg_req = if length tmp.msg_req == 0 then generated else tmp.msg_req;
}

unfoldable pub make_reply : ServiceMap → List ℕ → PbStruct → PbStruct
make_reply services generated tmp =
    call_named services tmp (new_reply generated tmp)
      (parse_service_full_name tmp.service_full_name)

-- `dispatch` of a PbStruct on a connection with the write buffer `out`: each branch ends with the
-- encoding of the reply. `again` is the number that `encode` would generate.
unfoldable pub dispatch : ServiceMap → List ℕ → List ℕ → PbStruct → TcpBuffer → Option TcpBuffer
dispatch services generated again tmp out =
    encode again out (make_reply services generated tmp) >>= λ written. some written.0
