-- ===== src/Connection/Input/Keeps.antt =====
-- `TcpConnection::input` keeps what arrives, and no int overflows.
use corpc.Base.{ℕ, suc, ◌≡◌, refl, Bool, true, false, some, List, [], length, if◌then◌else◌, ◌>>=◌}
use corpc.Connection.{closed, TcpConnection}
use corpc.Connection.Socket.{Read}
use corpc.Connection.Input.{Ending, Received, input_loop, Clock, after_loop, close_flag, skipped}

-- The close flag closes the connection and stops its loop; any other end leaves both alone.
abbrev pub EndsAs : Ending → TcpConnection → TcpConnection → Type 0
EndsAs close_flag c c' = (c'.state ≡ closed) × (c'.stop ≡ true)
EndsAs _ c c' = (c'.state ≡ c.state) × (c'.stop ≡ c.stop)

pub input_open :
    (c : TcpConnection) (clock : Clock) (reads : List Read) (late : ℕ) (r : Received)
    (flag gone : Bool)
    → flag ≡ false
    → gone ≡ false
    → input_loop (suc (length reads)) c.read_buffer reads late ≡ some r
    → (if flag
        then some (record { connection = c; bytes = []; ending = skipped; refreshed = false })
        else (if gone
            then some (record { connection = c; bytes = []; ending = skipped; refreshed = false })
            else (input_loop (suc (length reads)) c.read_buffer reads late >>= λ r.
                some (after_loop (record c { read_buffer = r.buffer }) clock r.bytes r.ending))))
      ≡ some (after_loop (record c { read_buffer = r.buffer }) clock r.bytes r.ending)
input_open c clock reads late r flag gone f g e = rw (f, g, e) refl
