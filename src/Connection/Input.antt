-- ===== src/Connection/Input.antt =====
-- `TcpConnection::input`.
pub mod Rounds
pub mod Keeps
use corpc.Base.{
  ℕ, zero, suc, ◌+◌, ◌-◌, ◌*◌, ◌≤◌, ◌<◌, ◌≡◌, refl, sym, ap, ◌∙◌, inl, inr, Bool, true, false,
  Option, none, some, List, [], ◌∷◌, ◌++◌, append_assoc, append-nil, arith, length, length-take,
  take_all, leb, ltb, ◌^◌, ◌⊎◌, subst, ◌==◌, if◌then◌else◌, ◌&&◌, ◌>>=◌, Bool-cases,
}
use corpc.Buffer.{TcpBuffer, write_able, get_size, resize_buffer}
use corpc.Buffer.Invariant.{IsValid, contents, length-contents}
use corpc.Buffer.Refine.{resize_buffer-Leaves}
use corpc.Buffer.Fill.{fill, fill-Leaves}
use corpc.Buffer.Growth.{resize_buffer-write_index, fill-write_index}
use corpc.Connection.{
  TcpConnectionState, connected, half_closing, closed, not_connected, ConnectionType,
  server_connection, client_connection, TcpConnection, is_closed, is_gone, clear_client,
}
use corpc.Connection.Socket.{Read, got, empty, ReadResult, waits, returned, read}

-- How `input` ends: the socket is drained, the timeout has come, the peer is gone, the coroutine still
-- waits in `read`, or nothing was done.
pub data Ending : Type 0 where
  drained over_time close_flag waiting skipped : Ending

-- The read buffer after the loop, and the bytes that arrived.
pub record Received : Type 0 where
  pub buffer : TcpBuffer
  pub bytes : List ℕ
  pub ending : Ending

abbrev pub prepend : List ℕ → Option Received → Option Received
prepend bytes none = none
prepend bytes (some r) = some (record r { bytes = bytes ++ r.bytes })

-- The top of the round; `none` is the overflow of the int that is twice the size.
unfoldable pub make_room : TcpBuffer → Option TcpBuffer
make_room b =
    let doubled =
      if ltb (2 * get_size b) (2 ^ 31) then resize_buffer b (2 * get_size b) else none in
    if write_able b == 0 then doubled else some b

-- `late` tells how many rounds are left when the timeout's callback sets the flag. No bytes stand for a
-- result that is 0 or less.
unfoldable pub after_read :
    (TcpBuffer → List Read → Option Received) → TcpBuffer → ℕ → ReadResult → Option Received
after_read again roomy late waits = some (record { buffer = roomy; bytes = []; ending = waiting })
after_read again roomy late (returned [] later) =
    some
      (record { buffer = roomy; bytes = []; ending = if late == 0 then over_time else close_flag })
after_read again roomy late (returned (byte ∷ rest) later) =
    let bytes = byte ∷ rest in
    fill roomy bytes >>= λ filled.
    (let next = prepend bytes (again filled later) in
      if late == 0
      then some (record { buffer = filled; bytes = bytes; ending = over_time })
      else (if length bytes == write_able roomy
          then next
          else some (record { buffer = filled; bytes = bytes; ending = drained })))

-- The loop, with fuel: each round takes one of the kernel's answers.
unfoldable pub input_loop : ℕ → TcpBuffer → List Read → ℕ → Option Received
input_loop zero b reads late = none
input_loop (suc fuel) b reads late = make_room b >>= λ roomy.
    after_read (λ filled later. input_loop fuel filled later (late - 1)) roomy late
      (read reads (write_able roomy))

-- What `input` leaves, and whether it put the connection into the time wheel again.
pub record Inputted : Type 0 where
  pub connection : TcpConnection
  pub bytes : List ℕ
  pub ending : Ending
  pub refreshed : Bool

-- The time and the interval of the wheel, in milliseconds, and whether the slot of the wheel still lives.
pub record Clock : Type 0 where
  pub now : ℕ
  pub interval : ℕ
  pub slot_lives : Bool

abbrev pub refreshes : ConnectionType → TcpConnection → Clock → Bool
refreshes server_connection c clock =
    leb (c.last_active_time + clock.interval) clock.now && clock.slot_lives
refreshes client_connection c clock = false

abbrev pub refreshed_at : ConnectionType → TcpConnection → ℕ → TcpConnection
refreshed_at server_connection c now = record c { last_active_time = now }
refreshed_at client_connection c now = c

-- What follows the loop.
abbrev pub after_loop : TcpConnection → Clock → List ℕ → Ending → Inputted
after_loop c clock bytes close_flag = record {
  connection = (clear_client c).0;
  bytes = bytes;
  ending = close_flag;
  refreshed = false;
}
after_loop c clock bytes drained = record {
  connection = refreshed_at c.connection_type c clock.now;
  bytes = bytes;
  ending = drained;
  refreshed = refreshes c.connection_type c clock;
}
after_loop c clock bytes ending = record {
  connection = c;
  bytes = bytes;
  ending = ending;
  refreshed = false;
}

unfoldable pub input : TcpConnection → Clock → List Read → ℕ → Option Inputted
input c clock reads late =
    let skip = some (record { connection = c; bytes = []; ending = skipped; refreshed = false }) in
    let looped = input_loop (suc (length reads)) c.read_buffer reads late >>= λ r.
    some (after_loop (record c { read_buffer = r.buffer }) clock r.bytes r.ending) in
    if c.is_over_time then skip else (if is_gone c.state then skip else looped)
