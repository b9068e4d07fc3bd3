-- ===== src/Connection/Loop.antt =====
-- A round of `TcpConnection::MainServerLoopCorFunc`: input, execute and output.
use corpc.Base.{
  ℕ, zero, suc, ◌^◌, ◌<◌, ◌≤◌, ◌≡◌, refl, ap, subst, ◌∙◌, Bool, true, false, Option, none, some,
  List, [], ◌∷◌, ◌++◌, length, arith, ◌==◌, if◌then◌else◌, ◌>>=◌,
}
use corpc.Buffer.{TcpBuffer, read_able, get_size}
use corpc.Buffer.Invariant.{IsValid, contents}
use corpc.Pb.Package.{PbStruct, blank}
use corpc.Pb.Decode.{decode}
use corpc.Connection.{
  TcpConnectionState, connected, ConnectionType, server_connection, client_connection,
  TcpConnection, is_gone,
}
use corpc.Connection.Socket.{Read, Write, took}
use corpc.Connection.Input.{
  drained, Received, input_loop, Clock, refreshes, after_loop, Inputted, input,
}
use corpc.Connection.Input.Rounds.{input_loop-keeps}
use corpc.Connection.Input.Keeps.{input_open}
use corpc.Connection.Execute.{
  Dispatcher, serve, execute_loop, execute, wire, AreServed, answers, execute-answers,
}
use corpc.Connection.Output.{output, output_whole}

-- The body of the loop, which runs until the connection is stopped. Nothing sets the flag of the timeout
-- while a server's `output` runs: the flag comes behind more rounds than there are answers.
unfoldable pub server_round :
    (PbStruct → TcpBuffer → Option TcpBuffer)
    → TcpConnection
    → Clock
    → List Read
    → ℕ
    → List Write
    → Option (List ℕ × TcpConnection)
server_round dispatch c clock reads late writes = input c clock reads late >>= λ i.
    execute dispatch i.connection >>= λ c'. output c' writes (suc (length writes))

-- `execute` changes neither the state nor the flag of the timeout.
Keeps : TcpConnectionState → Bool → Option TcpConnection → Type 0
Keeps s b none = Unit
Keeps s b (some c) = (c.state ≡ s) × (c.is_over_time ≡ b)

module _ (dispatch : PbStruct → TcpBuffer → Option TcpBuffer) (s : TcpConnectionState)
    (b : Bool) where
  abbrev Alike : TcpConnection → Type 0
  Alike c = (c.state ≡ s) × (c.is_over_time ≡ b)

  if-Keeps :
      (test : Bool) (x y : Option TcpConnection)
      → Keeps s b x
      → Keeps s b y
      → Keeps s b (if test then x else y)
  if-Keeps true x y p q = p
  if-Keeps false x y p q = q

  serve-Keeps :
      (kind : ConnectionType) (c : TcpConnection) (d : PbStruct)
      (next : TcpConnection → Option TcpConnection)
      → Alike c
      → ((c' : TcpConnection) → Alike c' → Keeps s b (next c'))
      → Keeps s b (serve dispatch kind c d >>= next)
  unfolding Keeps
  serve-Keeps client_connection c d next alike h = h _ alike
  serve-Keeps server_connection c d next alike h = put (dispatch d c.write_buffer)
    where
      put :
          (m : Option TcpBuffer)
          → Keeps s b ((m >>= λ out. some (record c { write_buffer = out })) >>= next)
      put none = tt
      put (some out) = h (record c { write_buffer = out }) alike

  execute_loop-Keeps :
      (fuel : ℕ) (c : TcpConnection) → Alike c → Keeps s b (execute_loop dispatch fuel c)
  unfolding execute_loop Keeps
  execute_loop-Keeps zero c alike = tt
  execute_loop-Keeps (suc fuel) c alike =
      if-Keeps (read_able c.read_buffer == 0) _ _ alike
        (taken (execute_loop-Keeps fuel) (decode c.read_buffer blank))
    where
      taken :
          ((c' : TcpConnection) → Alike c' → Keeps s b (execute_loop dispatch fuel c'))
          → (m : Option (TcpBuffer × PbStruct))
          → Keeps s b (
              m >>= λ (rest, d).
              (let c' = record c { read_buffer = rest } in
                let next = serve dispatch c.connection_type c' d >>= execute_loop dispatch fuel in
                if d.decode_succ then next else some c'))
      taken again none = tt
      taken again (some (rest, d)) =
          if-Keeps d.decode_succ _ _
            (serve-Keeps c.connection_type (record c { read_buffer = rest }) d
              (execute_loop dispatch fuel) alike again)
            alike

-- What `input` of a server leaves when it has read all that is there.
drained_server :
    (kind : ConnectionType) (c : TcpConnection) (clock : Clock) (bytes : List ℕ)
    → c.connection_type ≡ kind
    → kind ≡ server_connection
    → after_loop c clock bytes drained ≡ record {
      connection = record c { last_active_time = clock.now };
      bytes = bytes;
      ending = drained;
      refreshed = refreshes server_connection c clock;
    }
drained_server server_connection c clock bytes same e = rw same refl
drained_server client_connection c clock bytes same e = cc

round_of :
    (dispatch : PbStruct → TcpBuffer → Option TcpBuffer) (c : TcpConnection) (clock : Clock)
    (reads : List Read) (late : ℕ) (writes : List Write) {i : Inputted} {c' : TcpConnection}
    {o : List ℕ × TcpConnection}
    → input c clock reads late ≡ some i
    → execute dispatch i.connection ≡ some c'
    → output c' writes (suc (length writes)) ≡ some o
    → server_round dispatch c clock reads late writes ≡ some o
unfolding server_round
round_of dispatch c clock reads late writes a b put = rw a (rw b put)

-- A round of the loop of a server's connection that is connected and not over time: when `input` reads
-- all that is there, in whatever pieces, and that is complete packages, one behind the other, the round sends exactly the answers of the dispatcher in their order, both buffers are empty
-- again, and the connection stays connected. Both buffers were empty, the packages are readable and the
-- dispatcher takes them, there is something to answer, and the kernel takes it in one write; the vector
-- of the read buffer is smaller than 2^31 bytes.
pub server_round-answers :
    (service : Dispatcher) (c : TcpConnection) (clock : Clock) (reads : List Read) (late n : ℕ)
    (writes : List Write) (ds : List PbStruct) (arrived : Received)
    → c.state ≡ connected
    → c.connection_type ≡ server_connection
    → c.is_over_time ≡ false
    → IsValid c.read_buffer
    → IsValid c.write_buffer
    → contents c.read_buffer ≡ []
    → contents c.write_buffer ≡ []
    → input_loop (suc (length reads)) c.read_buffer reads late ≡ some arrived
    → arrived.ending ≡ drained
    → arrived.bytes ≡ wire ds
    → get_size arrived.buffer < 2 ^ 31
    → AreServed service ds
    → 0 < length (answers service ds)
    → length (answers service ds) ≤ n
    → (c' : TcpConnection) × (server_round service.dispatch c clock reads late (took n ∷ writes)
        ≡ some (answers service ds, c'))
      × (contents c'.read_buffer ≡ [])
      × (contents c'.write_buffer ≡ [])
      × (c'.state ≡ connected)
unfolding input execute Keeps
server_round-answers service c clock reads late n writes ds arrived up server in_time v w empty
      blank_ looped ends all small served some_ enough =
    let (valid, has) = input_loop-keeps c.read_buffer reads late arrived v looped in
    let bytes : contents arrived.buffer ≡ wire ds = has ∙ rw empty all in
    let c₁ = record c { read_buffer = arrived.buffer } in
    let c₂ = record c₁ { last_active_time = clock.now } in
    let read_all : input c clock reads late ≡ _ =
      input_open c clock reads late arrived c.is_over_time (is_gone c.state) in_time (ap is_gone up)
        looped
      ∙ ap (λ ending. some (after_loop c₁ clock arrived.bytes ending)) ends
      ∙ ap some (drained_server c.connection_type c₁ clock arrived.bytes refl server) in
    let (c₃, done, _, none_left, w', said) =
      execute-answers service c₂ ds server valid w small bytes served in
    let out : contents c₃.write_buffer ≡ answers service ds =
      said ∙ ap (λ l. l ++ answers service ds) blank_ in
    let (still, timely) = subst (Keeps connected false) done (
      execute_loop-Keeps service.dispatch connected false (suc (read_able c₂.read_buffer)) c₂
        (up, in_time)) in
    let size = ap length out in
    let (left, put, _, rest) =
      output_whole c₃ n writes (suc (length writes)) still timely w' (omega (arith, size))
        (omega (arith, size)) in
    (
      record c₃ { write_buffer = left },
      round_of service.dispatch c clock reads late (took n ∷ writes) read_all done
          (put ∙ ap (λ bytes. some (bytes, record c₃ { write_buffer = left })) out),
      none_left,
      rest,
      still,
    )
