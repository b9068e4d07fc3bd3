-- ===== src/Http/Serving.antt =====
-- `TcpConnection::execute` of corpc/net/tcp/tcp_connection.cpp with the HTTP codec and dispatcher.
use corpc.Base.{
  ℕ, zero, suc, ◌+◌, ◌^◌, ◌≤◌, ◌<◌, ◌≡◌, refl, sym, ap, ◌∙◌, Bool, true, false, Option, none, some,
  List, [], ◌∷◌, ◌++◌, append_assoc, append-nil, arith, length, length-append, ◌==◌, if◌then◌else◌,
  ◌>>=◌,
}
use corpc.Buffer.{TcpBuffer, read_able}
use corpc.Buffer.Invariant.{IsValid, contents, length-contents}
use corpc.Text.Pairs.{IsFree}
use corpc.Text.{is_empty}
use corpc.Http.{g_crlf, HttpMethod, HttpRequest}
use corpc.Http.Codec.{decode, response_text}
use corpc.Http.Requests.{Request, request_text, IsRequest, received, length-request_text}
use corpc.Http.Decode.{decode-request}
use corpc.Http.Partial.{decode-line_only}
use corpc.Http.Dispatcher.{
  ServletMap, new_response, make_response, dispatch, dispatch-Leaves, dispatch-write_index,
}
use corpc.Connection.{ConnectionType, server_connection, client_connection, TcpConnection}

-- `std::make_shared<HttpRequest>()`, whose method is what the memory holds.
abbrev pub new_request : HttpMethod → HttpRequest
new_request unset = record {
  request_method = unset;
  request_path = [];
  request_query = [];
  request_version = [];
  request_header = λ key. none;
  request_body = [];
  query_maps = λ key. none;
  decode_succ = false;
}

module _ (servlets : ServletMap) (unset_code : ℕ) (unset_method : HttpMethod) where
  -- A request that was decoded; a client keeps replies of the other protocol only.
  abbrev pub serve : ConnectionType → TcpConnection → HttpRequest → Option TcpConnection
  serve server_connection c req = dispatch servlets unset_code req c.write_buffer >>= λ out.
      some (record c { write_buffer = out })
  serve client_connection c req = some c

  -- The loop, with fuel; the result says whether the loop has ended.
  unfoldable pub execute_loop : ℕ → TcpConnection → Option (Bool × TcpConnection)
  execute_loop zero c = some (false, c)
  execute_loop (suc fuel) c =
      let round = decode c.read_buffer (new_request unset_method) >>= λ (rest, req).
      (let c' = record c { read_buffer = rest } in
        let next = serve c.connection_type c' req >>= execute_loop fuel in
        if req.decode_succ then next else some (true, c')) in
      if read_able c.read_buffer == 0 then some (true, c) else round

  unfoldable pub execute : TcpConnection → Option (Bool × TcpConnection)
  execute c = execute_loop (suc (read_able c.read_buffer)) c

  -- Requests and their methods, one behind the other.
  unfoldable pub wire : List (HttpMethod × Request) → List ℕ
  wire [] = []
  wire ((m, q) ∷ qs) = request_text q ++ wire qs

  abbrev pub AreRequests : List (HttpMethod × Request) → Type 0
  AreRequests [] = Unit
  AreRequests ((m, q) ∷ qs) = IsRequest (new_request unset_method) m q × AreRequests qs

  abbrev pub answer : HttpMethod × Request → List ℕ
  answer (m, q) =
      response_text (make_response servlets unset_code (received (new_request unset_method) m q))

  unfoldable pub answers : List (HttpMethod × Request) → List ℕ
  answers [] = []
  answers (p ∷ qs) = answer p ++ answers qs

  Served : TcpConnection → List (HttpMethod × Request) → Option (Bool × TcpConnection) → Type 0
  Served c qs r =
      (c' : TcpConnection) × (r ≡ some (true, c'))
      × IsValid c'.read_buffer
      × (contents c'.read_buffer ≡ [])
      × IsValid c'.write_buffer
      × (contents c'.write_buffer ≡ contents c.write_buffer ++ answers qs)
      × (c'.write_buffer.write_index ≤ c.write_buffer.write_index + length (answers qs))

  serve-server :
      (c : TcpConnection) (req : HttpRequest) (out : TcpBuffer) (kind : ConnectionType)
      → kind ≡ server_connection
      → dispatch servlets unset_code req c.write_buffer ≡ some out
      → serve kind c req ≡ some (record c { write_buffer = out })
  serve-server c req out server_connection server put = rw put refl
  serve-server c req out client_connection server put = cc

  execute_loop-Served :
      (qs : List (HttpMethod × Request)) (fuel : ℕ) (c : TcpConnection)
      → length (wire qs) < fuel
      → c.connection_type ≡ server_connection
      → IsValid c.read_buffer
      → IsValid c.write_buffer
      → length (contents c.read_buffer) < 2 ^ 31
      → contents c.read_buffer ≡ wire qs
      → AreRequests qs
      → Served c qs (execute_loop fuel c)
  unfolding execute_loop Served wire answers received
  execute_loop-Served qs zero c enough server v w small e are = absurd (omega arith)
  execute_loop-Served [] (suc fuel) c enough server v w small e are =
      let empty : (read_able c.read_buffer == 0) ≡ true =
        ground (arith, length-contents c.read_buffer v, ap length e) in
      rw empty (c, refl, v, e, w, sym (append-nil (contents c.write_buffer)), omega arith)
  execute_loop-Served ((m, q) ∷ qs) (suc fuel) c enough server v w small e are =
      let size = length-append (request_text q) (wire qs) in
      let some_bytes = length-request_text q in
      let more : (read_able c.read_buffer == 0) ≡ false =
        ground (arith, length-contents c.read_buffer v, ap length e, size, some_bytes) in
      let req = received (new_request unset_method) m q in
      let (rest, taken, v', left) =
        decode-request c.read_buffer (new_request unset_method) m q (wire qs) are.0 v e small in
      let (out, put, w', said) = dispatch-Leaves servlets unset_code req c.write_buffer w in
      let c' = record c { read_buffer = rest; write_buffer = out } in
      let filled = dispatch-write_index servlets unset_code req c.write_buffer put in
      let (c'', done, v'', none_left, w'', said', filled') =
        execute_loop-Served qs fuel c' (omega arith) server v' w'
          (omega (arith, ap length left, ap length e)) left are.1 in
      let answered : serve c.connection_type (record c { read_buffer = rest }) req ≡ some c' =
        serve-server (record c { read_buffer = rest }) req out c.connection_type server put in
      rw more (
        rw taken (
          rw answered (
            c'',
            done,
            v'',
            none_left,
            w'',
            said'
                ∙ ap (λ bytes. bytes ++ answers qs) said
                ∙ append_assoc (contents c.write_buffer) (answer (m, q)) (answers qs),
            omega (arith, filled, filled', length-append (answer (m, q)) (answers qs)),
          )))

  -- A server's connection whose read buffer holds whole requests, one behind the other, serves all of
  -- them in their order: `execute` ends, the read buffer is empty, and the write buffer has the
  -- responses in that order behind what it held. Each request has a method and a version that the
  -- server knows, a path, behind a scheme and a host, and then not empty, or alone, and then without
  -- ://, with or without a query of pairs key=value with & between them and with or without one behind the last, one or more header lines
  -- key:value of together at least 4 characters, and a body of the length that Content-Length states;
  -- a GET has none. No key has a NUL, no separator stands inside of a part, and the line has no CR.
  -- Both buffers are valid. The requests are shorter than 2^31 bytes together, and the write index and the responses stay below 2^30 together; so does the write index
  -- in the end.
  pub execute-answers_requests :
      (c : TcpConnection) (qs : List (HttpMethod × Request))
      → c.connection_type ≡ server_connection
      → IsValid c.read_buffer
      → IsValid c.write_buffer
      → length (contents c.read_buffer) < 2 ^ 31
      → contents c.read_buffer ≡ wire qs
      → AreRequests qs
      → c.write_buffer.write_index + length (answers qs) < 2 ^ 30
      → (c' : TcpConnection) × (execute c ≡ some (true, c'))
        × IsValid c'.read_buffer
        × (contents c'.read_buffer ≡ [])
        × IsValid c'.write_buffer
        × (contents c'.write_buffer ≡ contents c.write_buffer ++ answers qs)
        × (c'.write_buffer.write_index < 2 ^ 30)
  unfolding execute Served
  execute-answers_requests c qs server v w small e are short =
      let (c', done, v', none_left, w', said, filled) =
        execute_loop-Served qs (suc (read_able c.read_buffer)) c
          (omega (arith, length-contents c.read_buffer v, ap length e)) server v w small e are in
      (c', done, v', none_left, w', said, omega (arith, filled))

  -- What a request that was not parsed is answered with.
  abbrev pub blank_answer : List ℕ
  blank_answer = response_text (new_response unset_code)

  unfoldable pub blank_answers : ℕ → List ℕ
  blank_answers zero = []
  blank_answers (suc n) = blank_answer ++ blank_answers n

  unparsed : HttpRequest
  unparsed = record (new_request unset_method) { decode_succ = true }

  unparsed-answer : response_text (make_response servlets unset_code unparsed) ≡ blank_answer
  unfolding make_response unparsed is_empty
  unparsed-answer = refl

  -- When only the first line of a request and its CR LF have arrived, `execute` of a server's
  -- connection does not end of itself: after any number of rounds whose responses leave the write
  -- index below 2^30, so that no size in the write buffer overflows an int, the loop goes on, the read
  -- buffer is as it was, and every round has put one more response to nothing into the write buffer.
  -- The line has no CR in it and is shorter than 2^31 bytes, and both buffers are valid.
  pub execute-endless :
      (line : List ℕ) (rounds : ℕ) (c : TcpConnection)
      → IsFree 13 line
      → c.connection_type ≡ server_connection
      → IsValid c.read_buffer
      → IsValid c.write_buffer
      → contents c.read_buffer ≡ line ++ g_crlf
      → length (contents c.read_buffer) < 2 ^ 31
      → c.write_buffer.write_index + length (blank_answers rounds) < 2 ^ 30
      → (c' : TcpConnection) × (execute_loop rounds c ≡ some (false, c'))
        × (c'.read_buffer ≡ c.read_buffer)
        × (contents c'.write_buffer ≡ contents c.write_buffer ++ blank_answers rounds)
        × (c'.write_buffer.write_index < 2 ^ 30)
  unfolding execute_loop blank_answers unparsed
  execute-endless line zero c free server v w e small short =
      (c, refl, refl, sym (append-nil (contents c.write_buffer)), omega arith)
  execute-endless line (suc rounds) c free server v w e small short =
      let more : (read_able c.read_buffer == 0) ≡ false =
        ground (arith, length-contents c.read_buffer v, ap length e, length-append line g_crlf) in
      let taken = decode-line_only c.read_buffer (new_request unset_method) line free v e small in
      let (out, put, w', said) = dispatch-Leaves servlets unset_code unparsed c.write_buffer w in
      let c' = record c { write_buffer = out } in
      let filled : out.write_index ≤ c.write_buffer.write_index + length blank_answer =
        rw (← unparsed-answer)
          (dispatch-write_index servlets unset_code unparsed c.write_buffer put) in
      let short' : out.write_index + length (blank_answers rounds) < 2 ^ 30 =
        omega (arith, filled, length-append blank_answer (blank_answers rounds)) in
      let (c'', going, same, said', under) =
        execute-endless line rounds c' free server v w' e small short' in
      let answered : serve c.connection_type c unparsed ≡ some c' =
        serve-server c unparsed out c.connection_type server put in
      rw more (
        rw taken (
          rw answered (
            c'',
            going,
            same,
            said'
                ∙ ap (λ bytes. bytes ++ blank_answers rounds)
                    (said ∙ ap (◌++◌ (contents c.write_buffer)) unparsed-answer)
                ∙ append_assoc (contents c.write_buffer) blank_answer (blank_answers rounds),
            under,
          )))
