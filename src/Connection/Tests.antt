-- ===== src/Connection/Tests.antt =====
-- A connection of a server, and one of a client.
use corpc.Base.{
  ◌≡◌, refl, true, none, some, [], ◌∷◌, ◌++◌, arith, length, write_at, codes, replicate, same_text,
  if◌then◌else◌,
}
use corpc.Byte.{net_bytes}
use corpc.Buffer.{TcpBuffer, create, recycle_write, adjust_buffer}
use corpc.Buffer.Fill.{fill}
use corpc.Connection.Loop.{server_round, server_round-answers}
use corpc.Buffer.Invariant.{IsValid, contents}
use corpc.Pb.Package.{PbStruct, blank, package_bytes}
use corpc.Text.{find, starts_with, substr}
use corpc.RpcDispatcher.{
  Service, ServiceMap, register_service, parse_service_full_name, make_reply, call_named,
  call_service, call_found, call_with, reply_data,
}
use corpc.RpcDispatcher.Serving.{pb_dispatcher}
use corpc.Connection.{TcpConnection, connected, server_side}
use corpc.Connection.Socket.{got, read, send, took, failed}
use corpc.Connection.Input.{drained, Received, input_loop, make_room, after_read, Clock}
use corpc.Connection.Execute.{execute, wire, answers, execute-answers}
use corpc.Connection.Output.{output, output_whole, output_short, output_failed}

-- A service "S" whose method "f" echoes the data of the request.
abbrev echo : Service
echo = record {
  find_method = λ name. if same_text name (codes "f") then some 1 else none;
  request_name = λ method. codes "R";
  parse_request = λ method bytes. some (length bytes);
  call_method = λ method request. request;
  serialize_response = λ response. some (replicate response 1);
}

abbrev services : ServiceMap
services = register_service (λ name. none) (codes "S") echo

abbrev request : PbStruct
request = record blank {
  service_full_name = codes "S.f";
  msg_req = codes "17";
  pb_data = 1 ∷ 2 ∷ [];
}

abbrev asked : TcpBuffer
asked = record {
  read_index = 0;
  write_index = 66;
  buffer = wire (request ∷ request ∷ []) ++ (0 ∷ 0 ∷ []);
}

abbrev open_ : TcpConnection
open_ = record (server_side 8) {
  read_buffer = record { read_index = 2; write_index = 4; buffer = 1 ∷ 2 ∷ 3 ∷ 4 ∷ [] };
}

abbrev served : TcpConnection
served = record (server_side 8) { read_buffer = asked }

abbrev full : TcpConnection
full = record (server_side 8) {
  write_buffer = record { read_index = 0; write_index = 3; buffer = 5 ∷ 6 ∷ 7 ∷ 0 ∷ [] };
}

abbrev clock : Clock
clock = record { now = 12000; interval = 10000; slot_lives = true }

execute-answers_example :
    (c' : TcpConnection) × (execute (pb_dispatcher services [] []).dispatch served ≡ some c')
    × IsValid c'.read_buffer
    × (contents c'.read_buffer ≡ [])
    × IsValid c'.write_buffer
    × (contents c'.write_buffer
        ≡ contents served.write_buffer
          ++ answers (pb_dispatcher services [] []) (request ∷ request ∷ []))
unfolding server_side create wire package_bytes net_bytes make_reply call_named call_service
    call_found call_with reply_data parse_service_full_name find starts_with substr same_text
execute-answers_example =
    execute-answers (pb_dispatcher services [] []) served (request ∷ request ∷ []) refl
      (omega arith) (omega arith) (omega arith) refl
      (omega arith, omega arith, (omega arith, omega arith, tt))

output_whole_example :
    (left : TcpBuffer) × (output full (took 9 ∷ []) 1
      ≡ some (contents full.write_buffer, record full { write_buffer = left }))
    × IsValid left
    × (contents left ≡ [])
unfolding server_side create
output_whole_example = output_whole full 9 [] 0 refl refl (omega arith) (omega arith) (omega arith)

output_short_example :
    (send (took 1 ∷ took 2 ∷ took 1 ∷ []) (5 ∷ 6 ∷ 7 ∷ [])
      ≡ some (record { out = 5 ∷ 6 ∷ 7 ∷ []; rt = 2; later = took 1 ∷ [] }))
    × (c' : TcpConnection) × (output full (took 1 ∷ took 2 ∷ took 1 ∷ []) 2
        ≡ some (5 ∷ 6 ∷ 7 ∷ 7 ∷ [], c'))
unfolding server_side create
output_short_example =
    output_short full 1 2 1 [] 0 refl refl (omega arith) (omega arith) (omega arith) (omega arith)
      (omega arith)

output_failed_example :
    (left : TcpBuffer) × (output full (failed ∷ []) 1
      ≡ some ([], record full { write_buffer = left }))
    × (contents left ≡ [])
unfolding server_side create
output_failed_example = output_failed full [] 0 refl refl (omega arith) (omega arith)

-- A new connection, to which the request comes.
abbrev arrived : Received
arrived = record {
  buffer = record {
    read_index = 0;
    write_index = 33;
    buffer = wire (request ∷ []) ++ replicate 95 0;
  };
  bytes = wire (request ∷ []);
  ending = drained;
}

arrives : input_loop 2 (create 128) (got (wire (request ∷ [])) ∷ []) 5 ≡ some arrived
unfolding input_loop make_room after_read read create wire package_bytes net_bytes fill write_at
    recycle_write adjust_buffer
arrives = refl

server_round-answers_example :
    (c' : TcpConnection) × (server_round
        (pb_dispatcher services [] []).dispatch
        (server_side 128)
        clock
        (got (wire (request ∷ [])) ∷ [])
        5
        (took 99 ∷ [])
      ≡ some (answers (pb_dispatcher services [] []) (request ∷ []), c'))
    × (contents c'.read_buffer ≡ [])
    × (contents c'.write_buffer ≡ [])
    × (c'.state ≡ connected)
unfolding server_side create wire package_bytes net_bytes make_reply call_named call_service
    call_found call_with reply_data parse_service_full_name find starts_with substr same_text
    answers
server_round-answers_example =
    server_round-answers (pb_dispatcher services [] []) (server_side 128) clock
      (got (wire (request ∷ [])) ∷ []) 5 99 [] (request ∷ []) arrived refl refl refl (omega arith)
      (omega arith) refl refl arrives refl refl (omega arith) (omega arith, omega arith, tt)
      (omega arith) (omega arith)
