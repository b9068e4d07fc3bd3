-- ===== src/Connection/Output.antt =====
-- `TcpConnection::output`.
use corpc.Base.{
  ℕ, zero, suc, ◌+◌, ◌-◌, ◌≤◌, ◌<◌, ◌≡◌, refl, ap, ◌∙◌, Bool, true, false, Option, none, some, List,
  [], ◌∷◌, ◌++◌, append-nil, arith, ap₂, take-append-drop, read_at-eq-some, length, length-drop,
  drop, leb, ◌==◌, if◌then◌else◌, ◌>>=◌, read_at, drop_all,
}
use corpc.Base.Int.{pos}
use corpc.Buffer.{TcpBuffer, read_able, recycle_read}
use corpc.Buffer.Invariant.{IsValid, contents, length-contents}
use corpc.Buffer.Consume.{recycle_read-Leaves}
use corpc.Connection.{TcpConnectionState, connected, TcpConnection}
use corpc.Connection.Socket.{Write, took, failed, Sent, send}

-- `state != Connected`
abbrev pub is_connected : TcpConnectionState → Bool
is_connected connected = true
is_connected _ = false

-- The loop of `output`, with the rounds that are left; it gives the bytes that went out. Each round
-- takes at least one of the kernel's answers. `late` tells how many rounds are left when the timeout's
-- callback sets the flag, while `send` waits.
unfoldable pub output_loop : ℕ → TcpConnection → List Write → ℕ → Option (List ℕ × TcpConnection)
output_loop zero c writes late = none
output_loop (suc fuel) c writes late =
    let round =
      read_at c.write_buffer.buffer c.write_buffer.read_index (read_able c.write_buffer)
      >>= λ bytes. send writes bytes >>= λ s. recycle_read c.write_buffer (pos s.rt) >>= λ left.
          (let next =
              output_loop fuel (record c { write_buffer = left }) s.later (late - 1)
              >>= λ (out, c'). some (s.out ++ out, c') in
            if late == 0
            then some (s.out, record c { write_buffer = left; is_over_time = true })
            else next) in
    if is_connected c.state
    then (if read_able c.write_buffer == 0 then some ([], c) else round)
    else some ([], c)

unfoldable pub output : TcpConnection → List Write → ℕ → Option (List ℕ × TcpConnection)
output c writes late =
    if c.is_over_time then some ([], c) else output_loop (suc (length writes)) c writes late

abbrev prefixed : List ℕ → Option (List ℕ × TcpConnection) → Option (List ℕ × TcpConnection)
prefixed bytes none = none
prefixed bytes (some (out, c)) = some (bytes ++ out, c)

abbrev with_buffer : TcpConnection → TcpBuffer → TcpConnection
with_buffer c left = record c { write_buffer = left }

is_connected_lem : (state : TcpConnectionState) → state ≡ connected → is_connected state ≡ true
is_connected_lem state e = ap is_connected e

module _ (c : TcpConnection) (up : c.state ≡ connected) where
  output_done :
      (b : TcpBuffer) (fuel : ℕ) (writes : List Write) (late : ℕ)
      → IsValid b
      → contents b ≡ []
      → output_loop (suc fuel) (with_buffer c b) writes late ≡ some ([], with_buffer c b)
  unfolding output_loop
  output_done b fuel writes late v e =
      let nothing : (read_able b == 0) ≡ true = ground (arith, length-contents b v, ap length e) in
      rw (is_connected_lem c.state up, nothing) refl

  -- A round sends what the buffer holds, and drops as many bytes as `send` returns.
  output_round :
      (b : TcpBuffer) (fuel : ℕ) (writes : List Write) (late : ℕ) (s : Sent)
      → IsValid b
      → 0 < length (contents b)
      → send writes (contents b) ≡ some s
      → s.rt ≤ length (contents b)
      → (left : TcpBuffer) × IsValid left
        × (contents left ≡ drop s.rt (contents b))
        × (output_loop (suc fuel) (with_buffer c b) writes (suc late)
            ≡ prefixed s.out (output_loop fuel (with_buffer c left) s.later late))
  unfolding output_loop
  output_round b fuel writes late s v held sent few =
      let size = length-contents b v in
      let (left, moved, v', rest) = recycle_read-Leaves b s.rt v (omega arith) in
      let more : (read_able b == 0) ≡ false = ground arith in
      let in_time : (suc late == 0) ≡ false = ground arith in
      let less : suc late - 1 ≡ late = omega arith in
      let bytes : read_at b.buffer b.read_index (read_able b) ≡ some (contents b) =
        read_at-eq-some b.buffer b.read_index (read_able b)
          (omega (arith, v.read_before_write, v.write_in_buffer)) in
      (
        left,
        v',
        rest,
        rw (is_connected_lem c.state up, more, bytes, sent, moved)
            (rw (in_time, less) (last (output_loop fuel (with_buffer c left) s.later late))),
      )
    where
      last :
          (r : Option (List ℕ × TcpConnection))
          → (r >>= λ (out, c'). some (s.out ++ out, c')) ≡ prefixed s.out r
      last none = refl
      last (some (out, c')) = refl

send_whole :
    (bytes : List ℕ) (n : ℕ) (later : List Write)
    → length bytes ≤ n
    → send (took n ∷ later) bytes ≡ some (record { out = bytes; rt = length bytes; later = later })
unfolding send
send_whole bytes n later h = let test : leb (length bytes) n ≡ true = ground arith in rw test refl

send_twice :
    (bytes : List ℕ) (k n : ℕ) (later : List Write)
    → k < length bytes
    → length bytes ≤ k + n
    → send (took k ∷ (took n ∷ later)) bytes
      ≡ some (record { out = bytes; rt = length bytes - k; later = later })
unfolding send
send_twice bytes k n later short enough =
    let test : leb (length bytes) k ≡ false = ground arith in
    let size = length-drop k bytes in
    let rest : leb (length (drop k bytes)) n ≡ true = ground arith in
    rw (test, rest)
      (ap₂ (λ out rt. some (record { out = out; rt = rt; later = later }))
        (take-append-drop k bytes) size)

output_in_time :
    (c : TcpConnection) (writes : List Write) (late : ℕ)
    → c.is_over_time ≡ false
    → output c writes late ≡ output_loop (suc (length writes)) c writes late
unfolding output
output_in_time c writes late e =
    ap (λ flag. if flag then some ([], c) else output_loop (suc (length writes)) c writes late) e

-- When the kernel takes all that the write buffer holds in one write, before the timeout, `output` sends it once and the
-- buffer is empty.
pub output_whole :
    (c : TcpConnection) (n : ℕ) (later : List Write) (late : ℕ)
    → c.state ≡ connected
    → c.is_over_time ≡ false
    → IsValid c.write_buffer
    → 0 < length (contents c.write_buffer)
    → length (contents c.write_buffer) ≤ n
    → (left : TcpBuffer) × (output c (took n ∷ later) (suc late)
        ≡ some (contents c.write_buffer, record c { write_buffer = left }))
      × IsValid left
      × (contents left ≡ [])
output_whole c n later late up in_time v held enough =
    let bytes = contents c.write_buffer in
    let s : Sent = record { out = bytes; rt = length bytes; later = later } in
    let (left, v', rest, round) =
      output_round c up c.write_buffer (suc (length later)) (took n ∷ later) late s v held
        (send_whole bytes n later enough) (omega arith) in
    let none_left : contents left ≡ [] = rest ∙ drop_all bytes (length bytes) (omega arith) in
    (
      left,
      output_in_time c (took n ∷ later) (suc late) in_time
          ∙ round
          ∙ ap (prefixed bytes) (output_done c up left (length later) later late v' none_left)
          ∙ ap (λ out. some (out, with_buffer c left)) (append-nil bytes),
      v',
      none_left,
    )

-- When the kernel takes only the first `k` bytes of what the write buffer holds and the rest with the
-- second write, `send` returns the size of the second part only. `output` then drops so many bytes, and
-- sends the last `k` bytes once more, if the kernel takes them in one write. The connection is connected
-- and not over time, its write buffer valid, `k` is not 0 and less than what the buffer holds, and the
-- timeout does not come meanwhile.
pub output_short :
    (c : TcpConnection) (k n m : ℕ) (later : List Write) (late : ℕ)
    → c.state ≡ connected
    → c.is_over_time ≡ false
    → IsValid c.write_buffer
    → 0 < k
    → k < length (contents c.write_buffer)
    → length (contents c.write_buffer) ≤ k + n
    → k ≤ m
    → (send (took k ∷ (took n ∷ (took m ∷ later))) (contents c.write_buffer)
        ≡ some (record {
          out = contents c.write_buffer;
          rt = length (contents c.write_buffer) - k;
          later = took m ∷ later;
        }))
      × (c' : TcpConnection) × (output c (took k ∷ (took n ∷ (took m ∷ later))) (suc (suc late))
          ≡ some (
            contents c.write_buffer
                ++ drop (length (contents c.write_buffer) - k) (contents c.write_buffer),
            c',
          ))
output_short c k n m later late up in_time v some_bytes short enough again =
    let bytes = contents c.write_buffer in
    let fuel = suc (suc (length later)) in
    let s : Sent = record { out = bytes; rt = length bytes - k; later = took m ∷ later } in
    let (left, v', rest, round) =
      output_round c up c.write_buffer (suc fuel) (took k ∷ (took n ∷ (took m ∷ later))) (suc late)
        s v (omega arith) (send_twice bytes k n (took m ∷ later) short enough) (omega arith) in
    let size : length (contents left) ≡ k =
      ap length rest ∙ omega (arith, length-drop (length bytes - k) bytes) in
    let s' : Sent = record { out = contents left; rt = length (contents left); later = later } in
    let (left', v'', rest', round') =
      output_round c up left fuel (took m ∷ later) late s' v' (omega arith)
        (send_whole (contents left) m later (omega arith)) (omega arith) in
    let none_left : contents left' ≡ [] =
      rest' ∙ drop_all (contents left) (length (contents left)) (omega arith) in
    (
      send_twice bytes k n (took m ∷ later) short enough,
      with_buffer c left',
      output_in_time c (took k ∷ (took n ∷ (took m ∷ later))) (suc (suc late)) in_time
          ∙ round
          ∙ ap (prefixed bytes) (
              round'
              ∙ ap (prefixed (contents left))
                  (output_done c up left' (suc (length later)) later late v'' none_left))
          ∙ ap (λ out. some (bytes ++ out, with_buffer c left'))
              (append-nil (contents left) ∙ rest),
    )

-- When the write fails, as it does while the socket's own buffer is full, nothing goes out and the
-- write buffer is empty all the same: its bytes are lost.
pub output_failed :
    (c : TcpConnection) (later : List Write) (late : ℕ)
    → c.state ≡ connected
    → c.is_over_time ≡ false
    → IsValid c.write_buffer
    → 0 < length (contents c.write_buffer)
    → (left : TcpBuffer) × (output c (failed ∷ later) (suc late)
        ≡ some ([], record c { write_buffer = left }))
      × (contents left ≡ [])
unfolding send
output_failed c later late up in_time v held =
    let bytes = contents c.write_buffer in
    let s : Sent = record { out = []; rt = length bytes; later = later } in
    let (left, v', rest, round) =
      output_round c up c.write_buffer (suc (length later)) (failed ∷ later) late s v held refl
        (omega arith) in
    let none_left : contents left ≡ [] = rest ∙ drop_all bytes (length bytes) (omega arith) in
    (
      left,
      output_in_time c (failed ∷ later) (suc late) in_time
          ∙ round
          ∙ ap (prefixed []) (output_done c up left (length later) later late v' none_left),
      none_left,
    )
