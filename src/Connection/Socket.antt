-- ===== src/Connection/Socket.antt =====
-- corpc/net/net_socket.cc: `NetSocket::read` and `NetSocket::send`. The kernel's answers come as a
-- list, one for each system call.
use corpc.Base.{ℕ, Option, none, some, List, [], ◌∷◌, ◌++◌, length, take, drop, leb, if◌then◌else◌}

-- `write` returns how many bytes it took, at most those given, or fails.
pub data Write : Type 0 where
  took : ℕ → Write
  failed : Write

-- What `send` did: the bytes that went out, what it returns, and the answers left.
pub record Sent : Type 0 where
  pub out : List ℕ
  pub rt : ℕ
  pub later : List Write

abbrev pub after_bytes : List ℕ → Option Sent → Option Sent
after_bytes bytes none = none
after_bytes bytes (some s) = some (record s { out = bytes ++ s.out })

-- The result of `write` goes into a size_t, where -1 is the largest number and `sendIdx >= count`
-- holds. After a short write the coroutine waits, and `send` is called for the rest and returns what
-- that call returns; `none` if no answer is left, and it waits for good.
unfoldable pub send : List Write → List ℕ → Option Sent
send [] bytes = none
send (failed ∷ later) bytes = some (record { out = []; rt = length bytes; later = later })
send (took n ∷ later) bytes =
    let rest = after_bytes (take n bytes) (send later (drop n bytes)) in
    if leb (length bytes) n
    then some (record { out = bytes; rt = length bytes; later = later })
    else rest

-- `read` gives bytes, none of them at the end of the stream, or fails.
pub data Read : Type 0 where
  got : List ℕ → Read
  empty : Read

-- The result of `NetSocket::read` and the answers left: bytes, where none stand for 0 and for -1, or
-- the coroutine waits.
pub data ReadResult : Type 0 where
  waits : ReadResult
  returned : List ℕ → List Read → ReadResult

-- After a failure the coroutine waits, and reads once more.
unfoldable pub read : List Read → ℕ → ReadResult
read [] count = waits
read (got bytes ∷ later) count = returned (take count bytes) later
read (empty ∷ []) count = waits
read (empty ∷ (got bytes ∷ later)) count = returned (take count bytes) later
read (empty ∷ (empty ∷ later)) count = returned [] later
