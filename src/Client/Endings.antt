-- ===== src/Client/Endings.antt =====
-- What a call can come to while the client's descriptor is not registered with the epoller.
use corpc.Base.{
  ℕ, ◌≡◌, ◌≢◌, refl, sym, ap, ◌∙◌, arith, subst, Bool, true, false, Option, none, some, List, [],
  ◌∷◌, if◌then◌else◌, ◌>>=◌, ◌⊎◌, inl, inr, Bool-cases,
}
use corpc.Base.Int.{ℤ, pos, negsuc}
use corpc.Pb.Package.{PbStruct}
use corpc.Connection.{TcpConnection, is_closed, set_up_client, get_res_package_data}
use corpc.Connection.Input.{Ending, drained, over_time, close_flag, waiting, skipped, input}
use corpc.Connection.Output.{is_connected, output}
use corpc.Connection.Execute.{execute}
use corpc.Processor.{contains}
use corpc.Processor.Epoller.{del_event}
use corpc.Client.{
  error_peer_closed, error_rpc_call_timeout, error_connect_sys_err, error_failed_connect, TcpClient,
  ConnectResult, succeeded, refused, unsupported, other_error, Attempt, Round, World, Outcome,
  Result, hangs, returns, flag, flag_input, err_deal, after_input, ended_input, recv_loop, exchange,
  after_connect, after_failure, after_attempt, connect_loop, send_and_recv_pb,
}

-- A reply, or one of the errors of connect, before anything was sent; the timer event is deleted.
abbrev pub Settled : Outcome → Type 0
Settled o =
    (o.event_pending ≡ false)
    × (((o.rt ≡ pos 0) × (reply : PbStruct) × (o.res ≡ some reply))
        ⊎ ((o.rt ≡ error_peer_closed) × (o.sent ≡ []))
        ⊎ ((o.rt ≡ error_connect_sys_err) × (o.sent ≡ [])))

Ends : Option Result → Type 0
Ends none = Unit
Ends (some hangs) = Unit
Ends (some (returns o)) = Settled o

if-Ends : (b : Bool) (x y : Option Result) → Ends x → Ends y → Ends (if b then x else y)
if-Ends true x y p q = p
if-Ends false x y p q = q

module _ {A : Type 0} where
  bind-Ends : (m : Option A) (f : A → Option Result) → ((a : A) → Ends (f a)) → Ends (m >>= f)
  unfolding Ends
  bind-Ends none f h = tt
  bind-Ends (some a) f h = h a

module _ (w : World) (apart : contains w.epoller.fds w.fd ≡ false) where
  -- `delEvent` fails its assertion.
  err_deal-Ends : (t : TcpClient) (sent : List ℕ) (late : Bool) → Ends (err_deal w t sent late)
  unfolding err_deal del_event Ends
  err_deal-Ends t sent late = rw apart tt

  after_input-Ends :
      (t : TcpClient) (sent : List ℕ) (again : TcpConnection → Option Result) (c : TcpConnection)
      → ((c' : TcpConnection) → Ends (again c'))
      → Ends (after_input w t sent again c)
  after_input-Ends t sent again c h =
      if-Ends c.is_over_time _ _ (err_deal-Ends (record t { connection = c }) sent true) (
        if-Ends (is_closed c.state) _ _ (err_deal-Ends (record t { connection = c }) sent false)
          (bind-Ends (execute (λ d out. none) c) again h))

  ended_input-Ends :
      (t : TcpClient) (sent : List ℕ) (again : TcpConnection → Option Result) (ending : Ending)
      (c : TcpConnection)
      → ((c' : TcpConnection) → Ends (again c'))
      → Ends (ended_input w t sent again ending c)
  unfolding Ends
  ended_input-Ends t sent again waiting c h = tt
  ended_input-Ends t sent again drained c h = after_input-Ends t sent again c h
  ended_input-Ends t sent again over_time c h =
      after_input-Ends t sent again (flag_input over_time c) h
  ended_input-Ends t sent again close_flag c h = after_input-Ends t sent again c h
  ended_input-Ends t sent again skipped c h = after_input-Ends t sent again c h

  recv_loop-Ends :
      (t : TcpClient) (sent msg_no : List ℕ) (rounds : List Round)
      (got : Option PbStruct × TcpConnection)
      → Ends (recv_loop w t sent msg_no rounds got)
  unfolding recv_loop Ends
  recv_loop-Ends t sent msg_no rounds (some reply, c) = (refl, inl (refl, reply, refl))
  recv_loop-Ends t sent msg_no [] (none, c) = tt
  recv_loop-Ends t sent msg_no (r ∷ rounds) (none, c) =
      bind-Ends (input c r.clock r.reads r.late) _ (λ i.
        ended_input-Ends t sent _ i.ending i.connection
          (λ c'. recv_loop-Ends t sent msg_no rounds (get_res_package_data c' msg_no)))

  exchange-Ends : (t : TcpClient) (msg_no : List ℕ) → Ends (exchange w t msg_no)
  unfolding exchange
  exchange-Ends t msg_no = bind-Ends (output t.connection w.writes w.late) _ (λ (sent, c).
      let t' = record t { connection = c } in
      if-Ends t'.connection.is_over_time _ _ (err_deal-Ends t' sent true)
        (recv_loop-Ends t' sent msg_no w.rounds (get_res_package_data t'.connection msg_no)))

  connected-Ends :
      (t : TcpClient) (msg_no : List ℕ)
      → is_connected t.connection.state ≡ true
      → Ends (after_connect w t msg_no)
  unfolding after_connect
  connected-Ends t msg_no up =
      rw up (exchange-Ends (record t { connection = set_up_client t.connection }) msg_no)

  after_failure-Ends :
      (t : TcpClient) (result : ConnectResult) (again : Option Result)
      → Ends again
      → Ends (after_failure w t result again)
  unfolding Ends
  after_failure-Ends t refused again h = (refl, inr (inl (refl, refl)))
  after_failure-Ends t unsupported again h = (refl, inr (inr (refl, refl)))
  after_failure-Ends t succeeded again h = h
  after_failure-Ends t other_error again h = h

  after_attempt-Ends :
      (t : TcpClient) (msg_no : List ℕ) (a : Attempt) (result : ConnectResult)
      (again : Option Result)
      → Ends again
      → Ends (after_attempt w t msg_no a result again)
  after_attempt-Ends t msg_no a succeeded again h =
      connected-Ends
        (record (flag a.late t) { connection = set_up_client (flag a.late t).connection }) msg_no
        refl
  after_attempt-Ends t msg_no a refused again h =
      if-Ends a.late _ _ (err_deal-Ends (flag true t) [] true)
        (after_failure-Ends t refused again h)
  after_attempt-Ends t msg_no a unsupported again h =
      if-Ends a.late _ _ (err_deal-Ends (flag true t) [] true)
        (after_failure-Ends t unsupported again h)
  after_attempt-Ends t msg_no a other_error again h =
      if-Ends a.late _ _ (err_deal-Ends (flag true t) [] true)
        (after_failure-Ends t other_error again h)

  connect_loop-Ends :
      (t : TcpClient) (msg_no : List ℕ) (attempts : List Attempt)
      → Ends (connect_loop w t msg_no attempts)
  unfolding connect_loop Ends
  connect_loop-Ends t msg_no [] = tt
  connect_loop-Ends t msg_no (a ∷ attempts) =
      after_attempt-Ends t msg_no a a.result _ (connect_loop-Ends t msg_no attempts)

  send_and_recv_pb-Ends : (t : TcpClient) (msg_no : List ℕ) → Ends (send_and_recv_pb w t msg_no)
  unfolding send_and_recv_pb
  send_and_recv_pb-Ends t msg_no = elim (Bool-cases (is_connected t.connection.state)) [
    | inl up ↦ rw up (connected-Ends t msg_no up)
    | inr down ↦ rw down (connect_loop-Ends t msg_no w.attempts)
  ]

  size : ℤ → ℕ
  size (pos n) = n
  size (negsuc n) = 0

  -- While the client's descriptor is not registered with the epoller, which it is only while its
  -- coroutine waits, a call that returns has a reply, or failed to connect and has sent nothing, and its
  -- timer event is deleted. A timeout and a peer that closes are never returned: `delEvent` fails its
  -- assertion first.
  pub send_and_recv_pb-Settled :
      (t : TcpClient) (msg_no : List ℕ) (o : Outcome)
      → send_and_recv_pb w t msg_no ≡ some (returns o)
      → Settled o × (o.rt ≢ error_rpc_call_timeout) × (o.rt ≢ error_failed_connect)
  unfolding Ends size
  send_and_recv_pb-Settled t msg_no o e =
      let settled : Settled o = subst Ends e (send_and_recv_pb-Ends t msg_no) in
      let (late, failed) = codes_of settled.1 in (settled, late, failed)
    where
      other :
          (n : ℕ)
          → o.rt ≡ pos n
          → n ≢ 10000007
          → n ≢ 10000001
          → (o.rt ≢ error_rpc_call_timeout) × (o.rt ≢ error_failed_connect)
      other n rt a b =
          (λ late. a (ap size (sym rt ∙ late)), λ failed. b (ap size (sym rt ∙ failed)))

      codes_of :
          ((o.rt ≡ pos 0) × (reply : PbStruct) × (o.res ≡ some reply))
            ⊎ ((o.rt ≡ error_peer_closed) × (o.sent ≡ []))
            ⊎ ((o.rt ≡ error_connect_sys_err) × (o.sent ≡ []))
          → (o.rt ≢ error_rpc_call_timeout) × (o.rt ≢ error_failed_connect)
      codes_of (inl (rt, _, _)) = other 0 rt (omega arith) (omega arith)
      codes_of (inr (inl (rt, _))) = other 10000000 rt (omega arith) (omega arith)
      codes_of (inr (inr (rt, _))) = other 10000012 rt (omega arith) (omega arith)
