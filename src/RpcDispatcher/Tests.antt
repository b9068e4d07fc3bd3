-- ===== src/RpcDispatcher/Tests.antt =====
-- A service "S" with the method "f", which answers with the request's data doubled.
use corpc.Base.{
  ◌+◌, ◌≡◌, refl, none, some, [], ◌∷◌, ◌++◌, arith, length, codes, replicate, same_text,
  if◌then◌else◌,
}
use corpc.Buffer.{TcpBuffer}
use corpc.Buffer.Invariant.{IsValid, contents}
use corpc.Pb.Package.{PbStruct, blank, package_bytes}
use corpc.Pb.Encode.{with_number}
use corpc.Text.{find, starts_with, substr}
use corpc.RpcDispatcher.{
  error_parse_service_name, error_method_not_found, Service, ServiceMap, register_service,
  parse_service_full_name, make_reply, dispatch, call_named, call_service, call_found, call_with,
  reply_data,
}
use corpc.RpcDispatcher.Answers.{Reply, dispatch-Reply, dispatch_nameless}

abbrev double : Service
double = record {
  find_method = λ name. if same_text name (codes "f") then some 1 else none;
  request_name = λ method. codes "R";
  parse_request = λ method bytes. some (length bytes);
  call_method = λ method request. request + request;
  serialize_response = λ response. some (replicate response 7);
}

abbrev services : ServiceMap
services = register_service (λ name. none) (codes "S") double

abbrev request : PbStruct
request = record blank {
  service_full_name = codes "S.f";
  msg_req = codes "17";
  pb_data = 1 ∷ 2 ∷ [];
}

abbrev empty : TcpBuffer
empty = record { read_index = 0; write_index = 0; buffer = replicate 60 0 }

doubled : make_reply services [] request ≡ record blank {
  service_full_name = codes "S.f";
  msg_req = codes "17";
  pb_data = 7 ∷ 7 ∷ 7 ∷ 7 ∷ [];
}
unfolding make_reply call_named call_service call_found call_with reply_data parse_service_full_name
    find starts_with substr same_text
doubled = refl

no_method_g :
    (make_reply services [] (record request { service_full_name = codes "S.g" })).err_code
    ≡ error_method_not_found
unfolding make_reply call_named call_service call_found call_with reply_data parse_service_full_name
    find starts_with substr same_text
no_method_g = refl

dispatch-Reply_example :
    (reply : PbStruct) × (out' : TcpBuffer) × Reply services [] request reply
    × (dispatch services [] [] request empty ≡ some out')
    × IsValid out'
    × (contents out' ≡ contents empty ++ package_bytes (with_number [] reply))
unfolding make_reply call_named call_service call_found call_with reply_data parse_service_full_name
    find starts_with substr same_text
dispatch-Reply_example =
    dispatch-Reply services [] [] request empty (omega arith) (omega arith) (omega arith)
      (omega arith)

dispatch_nameless_example :
    ((make_reply services [] (record request { service_full_name = [] })).err_code
      ≡ error_parse_service_name)
    × (dispatch services [] [] (record request { service_full_name = [] }) empty ≡ some empty)
dispatch_nameless_example =
    dispatch_nameless services [] [] (record request { service_full_name = [] }) empty refl
