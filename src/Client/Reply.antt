-- ===== src/Client/Reply.antt =====
-- A call that gets its reply.
use corpc.Base.{
  ℕ, zero, suc, ◌^◌, ◌≤◌, ◌<◌, ◌≡◌, refl, sym, ap, ◌∙◌, Bool, true, false, Option, none, some, List,
  [], ◌∷◌, ◌++◌, append-nil, length, arith, replicate, ◌==◌, same_text, same_text_self,
  if◌then◌else◌, ◌>>=◌,
}
use corpc.Base.Int.{pos}
use corpc.Buffer.{TcpBuffer, read_able}
use corpc.Buffer.Invariant.{IsValid, contents, length-contents}
use corpc.Pb.Package.{PbStruct, blank, package_bytes}
use corpc.Pb.Decode.Layout.{length-package_bytes}
use corpc.Pb.Decode.Fields.{IsReadable}
use corpc.Pb.Decode.RoundTrip.{decoded, decode-package_bytes}
use corpc.Connection.{
  TcpConnection, ConnectionType, server_connection, client_connection, connected, not_connected,
  is_closed, is_gone, ReplyMap, insert_reply, get_res_package_data, set_up_client,
}
use corpc.Connection.Socket.{Write, took}
use corpc.Connection.Input.{drained, Received, input_loop, Clock, after_loop, input}
use corpc.Connection.Input.Rounds.{input_loop-keeps}
use corpc.Connection.Input.Keeps.{input_open}
use corpc.Connection.Output.{is_connected, output_whole}
use corpc.Connection.Execute.{serve, execute_loop, execute}
use corpc.Client.{
  TcpClient, Attempt, Round, World, Outcome, Result, returns, succeeded, other_error, reply_outcome,
  err_deal, recv_loop, exchange, after_connect, connect_loop, send_and_recv_pb,
}

-- A client's connection keeps what it decodes as a reply.
serve_client :
    (dispatch : PbStruct → TcpBuffer → Option TcpBuffer) (kind : ConnectionType) (c : TcpConnection)
    (d : PbStruct)
    → kind ≡ client_connection
    → serve dispatch kind c d
      ≡ some (record c { reply_datas = insert_reply c.reply_datas d.msg_req d })
serve_client dispatch client_connection c d e = refl
serve_client dispatch server_connection c d e = cc

execute_done :
    (dispatch : PbStruct → TcpBuffer → Option TcpBuffer) (fuel : ℕ) (c : TcpConnection)
    → 0 < fuel
    → (read_able c.read_buffer == 0) ≡ true
    → execute_loop dispatch fuel c ≡ some c
unfolding execute_loop
execute_done dispatch zero c h e = absurd (omega arith)
execute_done dispatch (suc fuel) c h e = rw e refl

execute_package :
    (dispatch : PbStruct → TcpBuffer → Option TcpBuffer) (c : TcpConnection) (d : PbStruct)
    → c.connection_type ≡ client_connection
    → IsValid c.read_buffer
    → c.read_buffer.write_index < 2 ^ 31
    → IsReadable d
    → contents c.read_buffer ≡ package_bytes d
    → (rest : TcpBuffer) × (execute dispatch c
        ≡ some (record c {
          read_buffer = rest;
          reply_datas = insert_reply c.reply_datas d.msg_req (decoded d blank);
        }))
      × IsValid rest
      × (contents rest ≡ [])
unfolding execute execute_loop
execute_package dispatch c d client v small readable e =
    let size = length-contents c.read_buffer v in
    let some_bytes = length-package_bytes d in
    let held = ap length e in
    let more : (read_able c.read_buffer == 0) ≡ false = ground (arith, size, some_bytes, held) in
    let (rest, taken, v', left) =
      decode-package_bytes c.read_buffer d blank [] v readable small (e ∙ sym (append-nil _)) in
    let none_left : (read_able rest == 0) ≡ true =
      ground (arith, length-contents rest v', ap length left) in
    (
      rest,
      rw (more, taken)
          (rw
            (serve_client dispatch c.connection_type (record c { read_buffer = rest })
              (decoded d blank) client)
            (execute_done dispatch (read_able c.read_buffer) _
              (omega (arith, size, some_bytes, held)) none_left)),
      v',
      left,
    )

-- What `input` of a client leaves when it has read all that is there.
drained_client :
    (kind : ConnectionType) (c : TcpConnection) (clock : Clock) (bytes : List ℕ)
    → c.connection_type ≡ kind
    → kind ≡ client_connection
    → after_loop c clock bytes drained
      ≡ record { connection = c; bytes = bytes; ending = drained; refreshed = false }
drained_client client_connection c clock bytes same e = rw same refl
drained_client server_connection c clock bytes same e = cc

after_input-execute :
    (w : World) (t : TcpClient) (sent : List ℕ) (again : TcpConnection → Option Result)
    (c c' : TcpConnection) (late closed_ : Bool)
    → late ≡ false
    → closed_ ≡ false
    → execute (λ d out. none) c ≡ some c'
    → (if late
        then err_deal w (record t { connection = c }) sent true
        else (if closed_
            then err_deal w (record t { connection = c }) sent false
            else (execute (λ d out. none) c >>= again)))
      ≡ again c'
after_input-execute w t sent again c c' late closed_ a b e = rw (a, b, e) refl

get_res_package_data-some :
    (c : TcpConnection) (key : List ℕ) (d : PbStruct)
    → c.reply_datas key ≡ some d
    → get_res_package_data c key
      ≡ (some d, record c { reply_datas = λ k. if same_text k key then none else c.reply_datas k })
unfolding get_res_package_data
get_res_package_data-some c key d e = rw (e, get_res_package_data) refl

get_res_package_data-none :
    (c : TcpConnection) (key : List ℕ)
    → c.reply_datas key ≡ none
    → get_res_package_data c key ≡ (none, c)
unfolding get_res_package_data
get_res_package_data-none c key e = rw (e, get_res_package_data) refl

insert_reply-new :
    (replies : ReplyMap) (key : List ℕ) (d : PbStruct)
    → replies key ≡ none
    → insert_reply replies key d key ≡ some d
unfolding insert_reply
insert_reply-new replies key d e = let here = same_text_self key in rw (here, e) refl

-- The loop over the replies: the package arrives in one call of `input`.
module _ (w : World) (t : TcpClient) (sent : List ℕ) (c : TcpConnection) (d : PbStruct)
    (client : c.connection_type ≡ client_connection) (up : c.state ≡ connected)
    (in_time : c.is_over_time ≡ false) (new : c.reply_datas d.msg_req ≡ none) where
  abbrev Replied : Option Result → Type 0
  Replied result =
      (c' : TcpConnection) × (result ≡ some (returns (reply_outcome t sent (decoded d blank) c')))
      × IsValid c'.read_buffer
      × (contents c'.read_buffer ≡ [])

  recv_loop-reply :
      (r : Round) (rounds : List Round) (arrived : Received)
      → input_loop (suc (length r.reads)) c.read_buffer r.reads r.late ≡ some arrived
      → arrived.ending ≡ drained
      → IsValid arrived.buffer
      → arrived.buffer.write_index < 2 ^ 31
      → IsReadable d
      → contents arrived.buffer ≡ package_bytes d
      → Replied (recv_loop w t sent d.msg_req (r ∷ rounds) (get_res_package_data c d.msg_req))
  unfolding recv_loop input
  recv_loop-reply r rounds arrived looped ends v small readable e =
      let c₁ = record c { read_buffer = arrived.buffer } in
      let (rest, done, v', none_left) =
        execute_package (λ d out. none) c₁ d client v small readable e in
      let c₂ = record c₁ {
        read_buffer = rest;
        reply_datas = insert_reply c.reply_datas d.msg_req (decoded d blank);
      } in
      let again : TcpConnection → Option Result =
        λ c'. recv_loop w t sent d.msg_req rounds (get_res_package_data c' d.msg_req) in
      let read_all : input c r.clock r.reads r.late
          ≡ some (record {
            connection = c₁;
            bytes = arrived.bytes;
            ending = drained;
            refreshed = false;
          }) =
        input_open c r.clock r.reads r.late arrived c.is_over_time (is_gone c.state) in_time
          (ap is_gone up) looped
        ∙ ap (λ ending. some (after_loop c₁ r.clock arrived.bytes ending)) ends
        ∙ ap some (drained_client c.connection_type c₁ r.clock arrived.bytes refl client) in
      let next : again c₂ ≡ _ =
        ap (λ got. recv_loop w t sent d.msg_req rounds got)
          (get_res_package_data-some c₂ d.msg_req (decoded d blank)
            (insert_reply-new c.reply_datas d.msg_req (decoded d blank) new)) in
      (
        record c₂ { reply_datas = λ k. if same_text k d.msg_req then none else c₂.reply_datas k },
        rw (get_res_package_data-none c d.msg_req new) (
              rw read_all (
                after_input-execute w t sent again c₁ c₂ c.is_over_time (is_closed c.state) in_time
                  (ap is_closed up) done))
            ∙ next,
        v',
        none_left,
      )

-- The kernel's answers of a call that goes well: the connection stands behind some failures, the write
-- takes all, and the timeout does not come before that.
abbrev pub fair : World → ℕ → List Attempt → ℕ → List Write → Round → List Round → World
fair w k attempts n writes r rounds = record w {
  attempts =
      replicate k (record { result = other_error; late = false })
      ++ record { result = succeeded; late = false } ∷ attempts;
  writes = took n ∷ writes;
  late = suc w.late;
  rounds = r ∷ rounds;
}

connect_loop-succeeded :
    (w : World) (t : TcpClient) (msg_no : List ℕ) (k : ℕ) (attempts : List Attempt)
    → connect_loop w t msg_no (
        replicate k (record { result = other_error; late = false })
        ++ record { result = succeeded; late = false } ∷ attempts)
      ≡ after_connect w (record t { connection = set_up_client t.connection }) msg_no
unfolding connect_loop
connect_loop-succeeded w t msg_no zero attempts = refl
connect_loop-succeeded w t msg_no (suc k) attempts = connect_loop-succeeded w t msg_no k attempts

on_time :
    (late : Bool) (over next : Option Result) → late ≡ false → (if late then over else next) ≡ next
on_time late over next e = rw e refl

-- A call that has its answer in time: the client connects, after any number of failures that are no
-- refusal, the kernel takes the write buffer in one write, and the first call of `input` reads, in
-- whatever pieces, exactly the package of the reply. Then `sendAndRecvPb` returns 0 and the reply with
-- its fields as they were encoded, what was sent is what the write buffer held, the timer event is
-- deleted, and the read buffer is empty again. No reply with this number was there before, and the
-- reply is readable.
pub send_and_recv_pb-reply :
    (w : World) (t : TcpClient) (d : PbStruct) (k n : ℕ) (attempts : List Attempt)
    (writes : List Write) (r : Round) (rounds : List Round) (arrived : Received)
    → t.connection.state ≡ not_connected
    → t.connection.connection_type ≡ client_connection
    → t.connection.is_over_time ≡ false
    → t.connection.reply_datas d.msg_req ≡ none
    → IsValid t.connection.write_buffer
    → 0 < length (contents t.connection.write_buffer)
    → length (contents t.connection.write_buffer) ≤ n
    → IsValid t.connection.read_buffer
    → contents t.connection.read_buffer ≡ []
    → IsReadable d
    → input_loop (suc (length r.reads)) t.connection.read_buffer r.reads r.late ≡ some arrived
    → arrived.ending ≡ drained
    → arrived.bytes ≡ package_bytes d
    → arrived.buffer.write_index < 2 ^ 31
    → (o : Outcome) × (send_and_recv_pb (fair w k attempts n writes r rounds) t d.msg_req
        ≡ some (returns o))
      × (o.rt ≡ pos 0)
      × (o.res ≡ some (decoded d blank))
      × (o.sent ≡ contents t.connection.write_buffer)
      × (o.event_pending ≡ false)
      × (contents o.client.connection.read_buffer ≡ [])
unfolding send_and_recv_pb after_connect exchange
send_and_recv_pb-reply w t d k n attempts writes r rounds arrived apart client in_time new v held
      enough v' empty readable looped ends all small =
    let w' = fair w k attempts n writes r rounds in
    let c = record t.connection { state = connected } in
    let (left, put, _, _) = output_whole c n writes w.late refl in_time v held enough in
    let c₁ = record c { write_buffer = left } in
    let t₁ = record t { connection = c₁ } in
    let (valid, has) = input_loop-keeps t.connection.read_buffer r.reads r.late arrived v' looped in
    let bytes : contents arrived.buffer ≡ package_bytes d = has ∙ rw empty all in
    let (c₂, got, _, none_left) =
      recv_loop-reply w' t₁ (contents t.connection.write_buffer) c₁ d client refl in_time new r
        rounds arrived looped ends valid small readable bytes in
    (
      reply_outcome t₁ (contents t.connection.write_buffer) (decoded d blank) c₂,
      rw (ap is_connected apart) (
          connect_loop-succeeded w' t d.msg_req k attempts
          ∙ rw put (on_time t.connection.is_over_time _ _ in_time ∙ got)),
      refl,
      refl,
      refl,
      refl,
      none_left,
    )
