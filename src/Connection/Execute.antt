-- ===== src/Connection/Execute.antt =====
-- `TcpConnection::execute` with the Pb codec: every complete package of the read buffer is served.
use corpc.Base.{
  ℕ, zero, suc, ◌^◌, ◌<◌, ◌≡◌, refl, sym, ap, ◌∙◌, true, false, Option, none, some, List, [], ◌∷◌,
  ◌++◌, append_assoc, append-nil, arith, length, length-append, ◌==◌, if◌then◌else◌, ◌>>=◌,
}
use corpc.Buffer.{TcpBuffer, read_able, get_size}
use corpc.Buffer.Invariant.{IsValid, contents, length-contents}
use corpc.Buffer.Refine.{Leaves}
use corpc.Pb.Package.{PbStruct, blank, package_bytes}
use corpc.Pb.Decode.{decode}
use corpc.Pb.Decode.Fields.{IsReadable}
use corpc.Pb.Decode.Layout.{length-package_bytes}
use corpc.Pb.Decode.RoundTrip.{decoded, decode-package_bytes}
use corpc.Pb.Decode.Size.{decode-get_size}
use corpc.Connection.{
  ConnectionType, server_connection, client_connection, TcpConnection, insert_reply,
}

-- What the connection asks of the server's dispatcher: it takes some requests, and for those it
-- appends an answer to the write buffer.
pub record Dispatcher : Type 1 where
  pub dispatch : PbStruct → TcpBuffer → Option TcpBuffer
  pub Takes : PbStruct → Type 0
  pub answer : PbStruct → List ℕ
  pub appends :
      (d : PbStruct) (out : TcpBuffer)
      → Takes d
      → IsValid out
      → Leaves (contents out ++ answer d) (dispatch d out)

module _ (dispatch : PbStruct → TcpBuffer → Option TcpBuffer) where
  -- A package that was decoded: dispatched, or kept as a reply.
  abbrev pub serve : ConnectionType → TcpConnection → PbStruct → Option TcpConnection
  serve server_connection c d =
      dispatch d c.write_buffer >>= λ out. some (record c { write_buffer = out })
  serve client_connection c d =
      some (record c { reply_datas = insert_reply c.reply_datas d.msg_req d })

  -- The loop, with fuel; `execute` has one more than the bytes to read.
  unfoldable pub execute_loop : ℕ → TcpConnection → Option TcpConnection
  execute_loop zero c = none
  execute_loop (suc fuel) c =
      let round = decode c.read_buffer blank >>= λ (rest, d).
      (let c' = record c { read_buffer = rest } in
        let next = serve c.connection_type c' d >>= execute_loop fuel in
        if d.decode_succ then next else some c') in
      if read_able c.read_buffer == 0 then some c else round

  unfoldable pub execute : TcpConnection → Option TcpConnection
  execute c = execute_loop (suc (read_able c.read_buffer)) c

-- Packages one behind the other.
unfoldable pub wire : List PbStruct → List ℕ
wire [] = []
wire (d ∷ ds) = package_bytes d ++ wire ds

module _ (service : Dispatcher) where
  open service use {dispatch, Takes, answer, appends}

  abbrev pub AreServed : List PbStruct → Type 0
  AreServed [] = Unit
  AreServed (d ∷ ds) = IsReadable d × Takes (decoded d blank) × AreServed ds

  unfoldable pub answers : List PbStruct → List ℕ
  answers [] = []
  answers (d ∷ ds) = answer (decoded d blank) ++ answers ds

  -- What is left once the loop has served the packages `ds`.
  Served : TcpConnection → List PbStruct → Option TcpConnection → Type 0
  Served c ds r =
      (c' : TcpConnection) × (r ≡ some c')
      × IsValid c'.read_buffer
      × (contents c'.read_buffer ≡ [])
      × IsValid c'.write_buffer
      × (contents c'.write_buffer ≡ contents c.write_buffer ++ answers ds)

  serve-server :
      (c : TcpConnection) (d : PbStruct) (out : TcpBuffer) (kind : ConnectionType)
      → kind ≡ server_connection
      → dispatch d c.write_buffer ≡ some out
      → serve dispatch kind c d ≡ some (record c { write_buffer = out })
  serve-server c d out server_connection server put = rw put refl
  serve-server c d out client_connection server put = cc

  execute_loop-Served :
      (ds : List PbStruct) (fuel : ℕ) (c : TcpConnection)
      → length (wire ds) < fuel
      → c.connection_type ≡ server_connection
      → IsValid c.read_buffer
      → IsValid c.write_buffer
      → get_size c.read_buffer < 2 ^ 31
      → contents c.read_buffer ≡ wire ds
      → AreServed ds
      → Served c ds (execute_loop dispatch fuel c)
  unfolding execute_loop Served wire answers
  execute_loop-Served ds zero c enough server v w small e served = absurd (omega arith)
  execute_loop-Served [] (suc fuel) c enough server v w small e served =
      let empty : (read_able c.read_buffer == 0) ≡ true =
        ground (arith, length-contents c.read_buffer v, ap length e) in
      rw empty (c, refl, v, e, w, sym (append-nil (contents c.write_buffer)))
  execute_loop-Served (d ∷ ds) (suc fuel) c enough server v w small e served =
      let size = length-append (package_bytes d) (wire ds) in
      let some_bytes = length-package_bytes d in
      let more : (read_able c.read_buffer == 0) ≡ false =
        ground (arith, length-contents c.read_buffer v, ap length e, size, some_bytes) in
      let (rest, taken, v', left) =
        decode-package_bytes c.read_buffer d blank (wire ds) v served.0
          (omega (arith, v.write_in_buffer)) e in
      let (out, put, w', said) = appends (decoded d blank) c.write_buffer served.1 w in
      let c' = record c { read_buffer = rest; write_buffer = out } in
      let (c'', done, v'', none_left, w'', said') =
        execute_loop-Served ds fuel c' (omega arith) server v' w'
          (omega (arith, decode-get_size c.read_buffer blank taken)) left served.2 in
      let answered : serve dispatch c.connection_type (record c { read_buffer = rest })
            (decoded d blank)
          ≡ some c' =
        serve-server (record c { read_buffer = rest }) (decoded d blank) out c.connection_type
          server put in
      rw more (
        rw taken (
          rw answered (
            c'',
            done,
            v'',
            none_left,
            w'',
            said'
                ∙ ap (λ bytes. bytes ++ answers ds) said
                ∙ append_assoc (contents c.write_buffer) (answer (decoded d blank)) (answers ds),
          )))

  -- A server's connection whose read buffer holds complete packages, one behind the other, serves all
  -- of them in their order: `execute` returns, the read buffer is empty, and the write buffer has the
  -- answers of the dispatcher in that order behind what it held. The packages are readable and the
  -- dispatcher takes them; the vector of the read buffer is smaller than 2^31 bytes.
  pub execute-answers :
      (c : TcpConnection) (ds : List PbStruct)
      → c.connection_type ≡ server_connection
      → IsValid c.read_buffer
      → IsValid c.write_buffer
      → get_size c.read_buffer < 2 ^ 31
      → contents c.read_buffer ≡ wire ds
      → AreServed ds
      → (c' : TcpConnection) × (execute dispatch c ≡ some c')
        × IsValid c'.read_buffer
        × (contents c'.read_buffer ≡ [])
        × IsValid c'.write_buffer
        × (contents c'.write_buffer ≡ contents c.write_buffer ++ answers ds)
  unfolding execute Served
  execute-answers c ds server v w small e served =
      execute_loop-Served ds (suc (read_able c.read_buffer)) c
        (omega (arith, length-contents c.read_buffer v, ap length e)) server v w small e served
