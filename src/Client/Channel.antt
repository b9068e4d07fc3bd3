-- ===== src/Client/Channel.antt =====
-- corpc/net/pb/pb_rpc_channel.cc, pb_rpc_controller.{h,cc} and pb_rpc_closure.h: `CallMethod`. What
-- protobuf does with the two messages is an argument. An address is its text.
use corpc.Base.{
  ℕ, zero, suc, ◌^◌, ◌≤◌, ◌<◌, ◌≡◌, refl, sym, ap, ◌∙◌, Bool, true, false, Option, none, some, List,
  [], ◌++◌, codes, length, arith, ◌==◌, if◌then◌else◌, ◌>>=◌,
}
use corpc.Base.Int.{ℤ, pos}
use corpc.Buffer.{TcpBuffer, create}
use corpc.Buffer.Invariant.{IsValid, contents}
use corpc.Pb.Package.{PbStruct, blank, package_bytes, package_length, encode}
use corpc.Pb.Decode.Layout.{length-package_bytes}
use corpc.Pb.Decode.Fields.{IsReadable}
use corpc.Pb.Decode.RoundTrip.{decoded}
use corpc.Pb.Encode.{with_number, encoded, encode_appends}
use corpc.Connection.{client_side, server_side}
use corpc.Connection.Socket.{Write}
use corpc.Connection.Input.{drained, Received, input_loop}
use corpc.Client.{
  TcpClient, Attempt, Round, World, Outcome, Result, hangs, returns, send_and_recv_pb,
}
use corpc.Client.Reply.{fair, send_and_recv_pb-reply}

-- corpc/net/comm/error_code.h
abbrev pub error_failed_deserialize : ℤ
error_failed_deserialize = pos 10000003

abbrev pub error_failed_encode : ℤ
error_failed_encode = pos 10000005

pub record PbRpcController : Type 0 where
  pub error_code : ℤ
  pub error_info : List ℕ
  pub msg_req : List ℕ
  pub is_failed : Bool
  pub peer_addr : List ℕ
  pub local_addr : List ℕ
  pub timeout : ℕ

abbrev pub new_controller : PbRpcController
new_controller = record {
  error_code = pos 0;
  error_info = [];
  msg_req = [];
  is_failed = false;
  peer_addr = [];
  local_addr = [];
  timeout = 5000;
}

abbrev pub set_failed : PbRpcController → List ℕ → PbRpcController
set_failed c reason = record c { is_failed = true; error_info = reason }

abbrev pub set_error : PbRpcController → ℤ → List ℕ → PbRpcController
set_error c err_code err_info = record (set_failed c err_info) { error_code = err_code }

-- The method's full name, SerializeToString of the request, and ParseFromString of the response.
pub record Method : Type 0 where
  pub full_name : List ℕ
  pub request_data : Option (List ℕ)
  pub parses : List ℕ → Bool

-- What a call leaves: the controller, the data that the response was parsed from, whether the closure
-- was run, and what was sent.
pub record Called : Type 0 where
  pub controller : PbRpcController
  pub response : Option (List ℕ)
  pub done_run : Bool
  pub sent : List ℕ

pub data CallResult : Type 0 where
  call_hangs : CallResult
  call_returns : Called → CallResult

-- A new client, with a connection that has two buffers of 128 bytes.
abbrev pub new_client : List ℕ → TcpClient
new_client peer = record {
  peer = peer;
  max_timeout = 10000;
  err_info = [];
  connection = client_side 128;
}

abbrev pub set_addresses : PbRpcController → List ℕ → PbRpcController
set_addresses c peer = record c { local_addr = codes "127.0.0.1:0"; peer_addr = peer }

-- A controller without a number gets the one that `MsgReqUtil::genMsgNumber` generates.
abbrev pub number_call : PbRpcController → List ℕ → PbRpcController
number_call c generated = if length c.msg_req == 0 then record c { msg_req = generated } else c

abbrev pub request_struct : Method → List ℕ → List ℕ → PbStruct
request_struct m pb_data msg_req = record blank {
  service_full_name = m.full_name;
  pb_data = pb_data;
  msg_req = msg_req;
}

abbrev pub is_zero : ℤ → Bool
is_zero (pos zero) = true
is_zero _ = false

abbrev pub failed_call : PbRpcController → Option (List ℕ) → List ℕ → ℤ → List ℕ → CallResult
failed_call c response sent err_code err_info = call_returns (record {
  controller = set_error c err_code err_info;
  response = response;
  done_run = false;
  sent = sent;
})

-- What follows a return of 0.
unfoldable pub take_response : Method → PbRpcController → Bool → List ℕ → PbStruct → CallResult
take_response m c done sent res =
    let unparsed =
      failed_call c none sent error_failed_deserialize
        (codes "failed to deserialize data from server") in
    let told = failed_call c (some res.pb_data) sent res.err_code res.err_info in
    let answered =
      call_returns
        (record { controller = c; response = some res.pb_data; done_run = done; sent = sent }) in
    if m.parses res.pb_data then (if is_zero res.err_code then answered else told) else unparsed

-- `none` is the access through a null pointer, which a return of 0 does not lead to.
abbrev pub take_res : Method → PbRpcController → Bool → List ℕ → Option PbStruct → Option CallResult
take_res m c done sent none = none
take_res m c done sent (some res) = some (take_response m c done sent res)

abbrev pub after_call : Method → PbRpcController → Bool → Result → Option CallResult
after_call m c done hangs = some call_hangs
after_call m c done (returns o) =
    let taken = take_res m c done o.sent o.res in
    if is_zero o.rt then taken else some (failed_call c none o.sent o.rt o.client.err_info)

-- The client's side from the test of `encode_succ` on.
abbrev pub send_call :
    World → Method → PbRpcController → Bool → TcpClient → TcpBuffer × PbStruct → Option CallResult
send_call w m c done t (out, pb_struct) =
    let called =
      send_and_recv_pb w
        (record t {
          max_timeout = c.timeout;
          connection = record t.connection { write_buffer = out };
        })
        pb_struct.msg_req
      >>= after_call m c done in
    if pb_struct.encode_succ
    then called
    else some (failed_call c none [] error_failed_encode (codes "encode pb data error"))

unfoldable pub call_serialized :
    World → Method → PbRpcController → Bool → List ℕ → List ℕ → List ℕ → List ℕ → Option CallResult
call_serialized w m c done peer generated again pb_data =
    let c' = number_call c generated in
    let t = new_client peer in
    encode again t.connection.write_buffer (request_struct m pb_data c'.msg_req)
    >>= send_call w m c' done t

abbrev pub call_with_controller :
    World
    → Method
    → PbRpcController
    → Bool
    → List ℕ
    → List ℕ
    → List ℕ
    → Option (List ℕ)
    → Option CallResult
call_with_controller w m c done peer generated again none =
    some (call_returns (record { controller = c; response = none; done_run = false; sent = [] }))
call_with_controller w m c done peer generated again (some pb_data) =
    call_serialized w m c done peer generated again pb_data

-- `CallMethod` with a controller of the right class. `generated` and `again` are what genMsgNumber
-- returns to the channel and would return to the codec; `done` says that there is a closure.
unfoldable pub call_method :
    World → Method → PbRpcController → Bool → List ℕ → List ℕ → List ℕ → Option CallResult
call_method w m c done peer generated again =
    call_with_controller w m (set_addresses c peer) done peer generated again m.request_data

after_call-reply :
    (m : Method) (c : PbRpcController) (done : Bool) (o : Outcome) (d : PbStruct)
    → o.rt ≡ pos 0
    → o.res ≡ some (decoded d blank)
    → d.err_code ≡ pos 0
    → m.parses d.pb_data ≡ true
    → after_call m c done (returns o)
      ≡ some (
          call_returns
            (record { controller = c; response = some d.pb_data; done_run = done; sent = o.sent }))
unfolding take_response
after_call-reply m c done o d rt res fine parsed = rw (rt, res) (rw (parsed, fine) refl)

numbered : (again : List ℕ) (q : PbStruct) → 0 < length q.msg_req → with_number again q ≡ q
numbered again q h = let test : (length q.msg_req == 0) ≡ false = ground arith in rw test refl

bound_call :
    (m : Method) (c : PbRpcController) (done : Bool) {called : Option Result} {o : Outcome}
    → called ≡ some (returns o)
    → (called >>= after_call m c done) ≡ after_call m c done (returns o)
bound_call m c done e = ap (λ called. called >>= after_call m c done) e

fresh_buffer : IsValid (create 128) × (contents (create 128) ≡ [])
unfolding create
fresh_buffer = (omega arith, refl)

-- A whole call: with a client of its own `CallMethod` sends exactly the package of the request, with the
-- controller's number or the generated one, and when the package of a reply to this number comes in
-- time, states no error and parses, then the response is parsed from its data, the closure is run if
-- there is one, and no error is put into the controller, which gets the addresses and the number. The
-- request serializes, the full name of its method is not empty, and its package fits an `int32_t`; the
-- kernel's answers are those of a call that goes well. The reply fits the decoder's arrays: its number
-- is not empty and has less than 50 characters, its service name and its error text have less than 512
-- each, none of the three has a NUL, its length and the write index of the read buffer stay below
-- 2^31, and it is all that arrives.
pub call_method-answered :
    (w : World) (m : Method) (c : PbRpcController) (done : Bool) (peer generated again : List ℕ)
    (pb_data : List ℕ) (d : PbStruct) (k n : ℕ) (attempts : List Attempt) (writes : List Write)
    (r : Round) (rounds : List Round) (arrived : Received)
    → m.request_data ≡ some pb_data
    → 0 < length m.full_name
    → d.msg_req ≡ (number_call (set_addresses c peer) generated).msg_req
    → package_length (request_struct m pb_data d.msg_req) < 2 ^ 31
    → length (package_bytes (request_struct m pb_data d.msg_req)) ≤ n
    → IsReadable d
    → d.err_code ≡ pos 0
    → m.parses d.pb_data ≡ true
    → input_loop (suc (length r.reads)) (create 128) r.reads r.late ≡ some arrived
    → arrived.ending ≡ drained
    → arrived.bytes ≡ package_bytes d
    → arrived.buffer.write_index < 2 ^ 31
    → call_method (fair w k attempts n writes r rounds) m c done peer generated again
      ≡ some (
          call_returns (record {
            controller = number_call (set_addresses c peer) generated;
            response = some d.pb_data;
            done_run = done;
            sent = package_bytes (request_struct m pb_data d.msg_req);
          }))
unfolding call_method call_serialized client_side server_side
call_method-answered w m c done peer generated again pb_data d k n attempts writes r rounds arrived
      serialized named number small enough readable fine parsed looped ends all bound =
    let c' = number_call (set_addresses c peer) generated in
    let q = request_struct m pb_data d.msg_req in
    let same = numbered again q readable.numbered in
    let (out, written, v, holds) =
      encode_appends again (create 128) q fresh_buffer.0 named (rw same small) in
    let bytes : contents out ≡ package_bytes q =
      holds
      ∙ ap (λ l. l ++ package_bytes (with_number again q)) fresh_buffer.1
      ∙ ap package_bytes same in
    let size = ap length bytes in
    let t = record (new_client peer) {
      max_timeout = c'.timeout;
      connection = record (client_side 128) { write_buffer = out };
    } in
    let (o, got, rt, res, sent, _, _) =
      send_and_recv_pb-reply w t d k n attempts writes r rounds arrived refl refl refl refl v
        (omega (arith, size, length-package_bytes q)) (omega (arith, size, enough)) fresh_buffer.0
        fresh_buffer.1 readable looped ends all bound in
    let w' = fair w k attempts n writes r rounds in
    ap (call_with_controller w' m (set_addresses c peer) done peer generated again) serialized
    ∙ ap (λ e. e >>= send_call w' m c' done (new_client peer))
        (ap (λ key. encode again (create 128) (request_struct m pb_data key)) (sym number)
          ∙ written
          ∙ ap (λ (d : PbStruct). some (out, encoded d)) same)
    ∙ bound_call m c' done got
    ∙ after_call-reply m c' done o d rt res fine parsed
    ∙ ap
        (λ bytes. some (
          call_returns
            (record { controller = c'; response = some d.pb_data; done_run = done; sent = bytes })))
        (sent ∙ bytes)
