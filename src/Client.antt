-- ===== src/Client.antt =====
-- corpc/net/tcp/tcp_client.{h,cc}: `sendAndRecvPb`, the client's side of a call, on the connection of
-- Connection. What the kernel answers to connect, write and read, and when the callback of the timeout
-- runs, are arguments.
pub mod Reply
pub mod Endings
pub mod Channel
mod Tests
use corpc.Base.{
  ℕ, suc, Bool, true, false, Option, none, some, List, [], ◌∷◌, ◌++◌, codes, if◌then◌else◌, ◌>>=◌,
}
use corpc.Base.Int.{ℤ, pos}
use corpc.Pb.Package.{PbStruct}
use corpc.Http.{to_text}
use corpc.Connection.{
  TcpConnection, TcpConnectionState, is_closed, set_up_client, set_over_time_flag,
  get_res_package_data,
}
use corpc.Connection.Socket.{Read, Write}
use corpc.Connection.Input.{Ending, over_time, waiting, Clock, Inputted, input}
use corpc.Connection.Output.{is_connected, output}
use corpc.Connection.Execute.{execute}
use corpc.Processor.Epoller.{Epoller, del_event}

-- corpc/net/comm/error_code.h
abbrev pub error_peer_closed : ℤ
error_peer_closed = pos 10000000

abbrev pub error_failed_connect : ℤ
error_failed_connect = pos 10000001

abbrev pub error_rpc_call_timeout : ℤ
error_rpc_call_timeout = pos 10000007

abbrev pub error_connect_sys_err : ℤ
error_connect_sys_err = pos 10000012

-- `peer` is the text of m_peer_addr.
pub record TcpClient : Type 0 where
  pub peer : List ℕ
  pub max_timeout : ℕ
  pub err_info : List ℕ
  pub connection : TcpConnection

-- What `toConnect` comes to: 0, or -1 with one of the two values of errno that the loop asks for, or
-- with another; and whether the callback of the timeout has run by then.
pub data ConnectResult : Type 0 where
  succeeded refused unsupported other_error : ConnectResult

pub record Attempt : Type 0 where
  pub result : ConnectResult
  pub late : Bool

-- One call of `input`.
pub record Round : Type 0 where
  pub clock : Clock
  pub reads : List Read
  pub late : ℕ

-- The system's side of a call: the descriptor with the processor's epoller, what epoll_ctl answers,
-- the text of errno, the attempts, the writes, how many rounds of `output` are left when the timeout
-- comes, and the reads.
pub record World : Type 0 where
  pub epoller : Epoller
  pub fd : ℕ
  pub removed : Bool
  pub sys_error : List ℕ
  pub attempts : List Attempt
  pub writes : List Write
  pub late : ℕ
  pub rounds : List Round

-- What `sendAndRecvPb` returns and leaves, with what it has sent and whether its timer event still is
-- pending.
pub record Outcome : Type 0 where
  pub rt : ℤ
  pub res : Option PbStruct
  pub client : TcpClient
  pub sent : List ℕ
  pub event_pending : Bool

-- `hangs` is a coroutine that waits for an answer that is not in the lists.
pub data Result : Type 0 where
  hangs : Result
  returns : Outcome → Result

abbrev pub flag : Bool → TcpClient → TcpClient
flag true c = record c { connection = set_over_time_flag c.connection true }
flag false c = c

-- The failures that delete the timer event.
abbrev pub fail_with : TcpClient → ℤ → List ℕ → Option Result
fail_with c rt err_info = some (
    returns (record {
      rt = rt;
      res = none;
      client = record c { err_info = err_info };
      sent = [];
      event_pending = false;
    }))

-- What follows the label `err_deal`.
abbrev pub err_text : TcpClient → Bool → List ℕ
err_text c true = codes "call corpc falied, over " ++ (to_text c.max_timeout ++ codes " ms")
err_text c false = codes "call corpc falied, peer closed [" ++ (c.peer ++ codes "]")

abbrev pub err_outcome : TcpClient → List ℕ → Bool → Outcome
err_outcome c sent true = record {
  rt = error_rpc_call_timeout;
  res = none;
  client = record c {
    err_info = err_text c true;
    connection = set_over_time_flag c.connection false;
  };
  sent = sent;
  event_pending = false;
}
err_outcome c sent false = record {
  rt = error_peer_closed;
  res = none;
  client = record c { err_info = err_text c false };
  sent = sent;
  event_pending = true;
}

unfoldable pub err_deal : World → TcpClient → List ℕ → Bool → Option Result
err_deal w c sent is_timeout =
    del_event w.epoller w.fd w.removed >>= λ deleted. some (returns (err_outcome c sent is_timeout))

-- The reply was there.
abbrev pub reply_outcome : TcpClient → List ℕ → PbStruct → TcpConnection → Outcome
reply_outcome c sent reply connection = record {
  rt = pos 0;
  res = some reply;
  client = record c { err_info = []; connection = connection };
  sent = sent;
  event_pending = false;
}

-- The flag that the callback sets while `input` runs.
abbrev pub flag_input : Ending → TcpConnection → TcpConnection
flag_input over_time c = set_over_time_flag c true
flag_input _ c = c

-- The tests behind `input`, and `execute`; a client's connection hands nothing to a dispatcher.
abbrev pub after_input :
    World → TcpClient → List ℕ → (TcpConnection → Option Result) → TcpConnection → Option Result
after_input w c sent again connection =
    let closed_ = err_deal w (record c { connection = connection }) sent false in
    let next = execute (λ d out. none) connection >>= again in
    if connection.is_over_time
    then err_deal w (record c { connection = connection }) sent true
    else (if is_closed connection.state then closed_ else next)

abbrev pub ended_input :
    World
    → TcpClient
    → List ℕ
    → (TcpConnection → Option Result)
    → Ending
    → TcpConnection
    → Option Result
ended_input w c sent again waiting connection = some hangs
ended_input w c sent again ending connection =
    after_input w c sent again (flag_input ending connection)

-- The loop over getResPackageData, which has asked the connection already.
unfoldable pub recv_loop :
    World
    → TcpClient
    → List ℕ
    → List ℕ
    → List Round
    → Option PbStruct × TcpConnection
    → Option Result
recv_loop w c sent msg_no rounds (some reply, connection) =
    some (returns (reply_outcome c sent reply connection))
recv_loop w c sent msg_no [] (none, connection) = some hangs
recv_loop w c sent msg_no (r ∷ rounds) (none, connection) =
    input connection r.clock r.reads r.late >>= λ i.
    ended_input w c sent
      (λ connection'. recv_loop w c sent msg_no rounds (get_res_package_data connection' msg_no))
      i.ending i.connection

-- From `output` on.
unfoldable pub exchange : World → TcpClient → List ℕ → Option Result
exchange w c msg_no = output c.connection w.writes w.late >>= λ (sent, connection).
    (let c' = record c { connection = connection } in
      let received =
        recv_loop w c' sent msg_no w.rounds (get_res_package_data c'.connection msg_no) in
      if c'.connection.is_over_time then err_deal w c' sent true else received)

-- Behind the loop of attempts.
unfoldable pub after_connect : World → TcpClient → List ℕ → Option Result
after_connect w c msg_no =
    let failed =
      fail_with c error_failed_connect
        (codes "connect peer addr[" ++ (c.peer ++ (codes "] error. sys error=" ++ w.sys_error))) in
    let connected_ = exchange w (record c { connection = set_up_client c.connection }) msg_no in
    if is_connected c.connection.state then connected_ else failed

-- An attempt that failed, with the rest of the loop.
abbrev pub after_failure : World → TcpClient → ConnectResult → Option Result → Option Result
after_failure w c refused again =
    fail_with c error_peer_closed (codes "connect error, peer[ " ++ (c.peer ++ codes " ] closed."))
after_failure w c unsupported again =
    fail_with c error_connect_sys_err
      (codes "connect cur sys ror, errinfo is " ++ (w.sys_error ++ codes " ] closed."))
after_failure w c _ again = again

abbrev pub after_attempt :
    World → TcpClient → List ℕ → Attempt → ConnectResult → Option Result → Option Result
after_attempt w c msg_no a succeeded again =
    let c' = flag a.late c in
    after_connect w (record c' { connection = set_up_client c'.connection }) msg_no
after_attempt w c msg_no a result again =
    if a.late then err_deal w (flag true c) [] true else after_failure w c result again

-- The loop of attempts of a client that is not connected.
unfoldable pub connect_loop : World → TcpClient → List ℕ → List Attempt → Option Result
connect_loop w c msg_no [] = some hangs
connect_loop w c msg_no (a ∷ attempts) =
    let again = connect_loop w c msg_no attempts in after_attempt w c msg_no a a.result again

unfoldable pub send_and_recv_pb : World → TcpClient → List ℕ → Option Result
send_and_recv_pb w c msg_no =
    let connecting = connect_loop w c msg_no w.attempts in
    if is_connected c.connection.state then after_connect w c msg_no else connecting
