-- ===== src/Client/Tests.antt =====
-- A client that calls the method f of a service S.
use corpc.Base.{
  ℕ, ◌≡◌, ◌≢◌, refl, true, false, none, some, List, [], ◌∷◌, ◌++◌, codes, replicate, arith,
  write_at,
}
use corpc.Base.Int.{pos}
use corpc.Byte.{net_bytes}
use corpc.Buffer.{create, recycle_write, adjust_buffer}
use corpc.Buffer.Fill.{fill}
use corpc.Buffer.Invariant.{contents}
use corpc.Pb.Package.{PbStruct, blank, package_bytes}
use corpc.Pb.Decode.RoundTrip.{decoded}
use corpc.Connection.{client_side, server_side}
use corpc.Connection.Socket.{got, read}
use corpc.Connection.Input.{drained, Received, input_loop, make_room, after_read}
use corpc.Processor.{contains}
use corpc.Processor.Epoller.{del_event}
use corpc.Client.{
  error_peer_closed, error_rpc_call_timeout, error_failed_connect, TcpClient, refused, other_error,
  Round, World, Outcome, returns, err_deal, connect_loop, send_and_recv_pb,
}
use corpc.Client.Reply.{fair, send_and_recv_pb-reply}
use corpc.Client.Endings.{Settled, send_and_recv_pb-Settled}
use corpc.Client.Channel.{
  PbRpcController, new_controller, Method, call_returns, new_client, set_addresses, request_struct,
  call_method, call_method-answered,
}

abbrev server : List ℕ
server = codes "10.0.0.1:80"

-- Only the descriptors of the wake-ups and of the timer are registered.
abbrev world : World
world = record {
  epoller = record { fds = 4 ∷ 4 ∷ 3 ∷ []; timer_fd = 3; wake_fd = 4; active_events_size = 16 };
  fd = 9;
  removed = true;
  sys_error = codes "?";
  attempts =
      record { result = other_error; late = false }
      ∷ record { result = refused; late = false }
      ∷ [];
  writes = [];
  late = 0;
  rounds = [];
}

abbrev reply : PbStruct
reply = record blank { service_full_name = codes "S.f"; msg_req = codes "17"; pb_data = 7 ∷ [] }

abbrev reading : Round
reading = record {
  clock = record { now = 0; interval = 0; slot_lives = false };
  reads = got (package_bytes reply) ∷ [];
  late = 5;
}

abbrev arrived : Received
arrived = record {
  buffer = record {
    read_index = 0;
    write_index = 32;
    buffer = package_bytes reply ++ replicate 96 0;
  };
  bytes = package_bytes reply;
  ending = drained;
}

arrives : input_loop 2 (create 128) (got (package_bytes reply) ∷ []) 5 ≡ some arrived
unfolding input_loop make_room after_read read create package_bytes net_bytes fill write_at
    recycle_write adjust_buffer
arrives = refl

abbrev method : Method
method = record { full_name = codes "S.f"; request_data = some (1 ∷ []); parses = λ bytes. true }

abbrev controller : PbRpcController
controller = record new_controller { msg_req = codes "17" }

call_method-answered_example :
    call_method (fair world 2 [] 99 [] reading []) method controller true server [] []
    ≡ some (
        call_returns (record {
          controller = set_addresses controller server;
          response = some (7 ∷ []);
          done_run = true;
          sent = package_bytes (request_struct method (1 ∷ []) (codes "17"));
        }))
unfolding package_bytes net_bytes
call_method-answered_example =
    call_method-answered world method controller true server [] [] (1 ∷ []) reply 2 99 [] [] reading
      [] arrived refl (omega arith) refl (omega arith) (omega arith) (omega arith) refl refl arrives
      refl refl (omega arith)

-- A client that has three bytes to send.
abbrev asking : TcpClient
asking = record (new_client server) {
  connection = record (client_side 128) {
    write_buffer = record { read_index = 0; write_index = 3; buffer = 5 ∷ 6 ∷ 7 ∷ [] };
  };
}

send_and_recv_pb-reply_example :
    (o : Outcome) × (send_and_recv_pb (fair world 1 [] 3 [] reading []) asking reply.msg_req
      ≡ some (returns o))
    × (o.rt ≡ pos 0)
    × (o.res ≡ some (decoded reply blank))
    × (o.sent ≡ 5 ∷ 6 ∷ 7 ∷ [])
    × (o.event_pending ≡ false)
    × (contents o.client.connection.read_buffer ≡ [])
unfolding client_side server_side create
send_and_recv_pb-reply_example =
    send_and_recv_pb-reply world asking reply 1 3 [] [] reading [] arrived refl refl refl refl
      (omega arith) (omega arith) (omega arith) (omega arith) refl (omega arith) arrives refl refl
      (omega arith)

abbrev refusal : Outcome
refusal = record {
  rt = error_peer_closed;
  res = none;
  client = record asking { err_info = codes "connect error, peer[ 10.0.0.1:80 ] closed." };
  sent = [];
  event_pending = false;
}

refuses : send_and_recv_pb world asking [] ≡ some (returns refusal)
unfolding send_and_recv_pb connect_loop client_side server_side
refuses = refl

send_and_recv_pb-Settled_example :
    Settled refusal × (refusal.rt ≢ error_rpc_call_timeout) × (refusal.rt ≢ error_failed_connect)
unfolding contains
send_and_recv_pb-Settled_example = send_and_recv_pb-Settled world refl asking [] refusal refuses

-- The timeout comes while it connects.
times_out :
    send_and_recv_pb
      (record world { attempts = record { result = other_error; late = true } ∷ [] })
      asking
      []
    ≡ none
unfolding send_and_recv_pb connect_loop err_deal del_event contains client_side server_side
times_out = refl
