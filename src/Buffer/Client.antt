-- ===== src/Buffer/Client.antt =====
-- A client of a buffer sees a queue of bytes: any calls, in any order, on any sizes.
use corpc.Base.{
  ℕ, ◌+◌, ◌^◌, ◌<◌, ◌≤◌, Bool, true, leb, ltb, ◌||◌, require, ◌>>◌, ◌≡◌, refl, sym, ◌∙◌, ap, Option,
  some, List, [], ◌∷◌, ◌++◌, length, take, drop, ◌==◌, if◌then◌else◌, ◌>>=◌, arith, take_all,
}
use corpc.Base.Int.{pos}
use corpc.Buffer.Growth.{
  write_to_buffer-write_index, read_from_buffer-write_index, recycle_read-write_index,
}
use corpc.Buffer.{
  TcpBuffer, write_able, grown_size, write_to_buffer, read_from_buffer, recycle_read,
  get_buffer_string,
}
use corpc.Buffer.Invariant.{IsValid, contents, length-contents}
use corpc.Buffer.Refine.{write_to_buffer-Leaves}
use corpc.Buffer.Consume.{recycle_read-Leaves, read_from_buffer-Leaves, get_buffer_string-contents}

-- `recycles` is `recycleRead`, `peeks` is `getBufferString`.
pub data Call : Type 0 where
  writes : List ℕ → Call
  reads : ℕ → Call
  recycles : ℕ → Call
  peeks : Call

-- The new size that `writeToBuffer` computes, if it needs one, fits an int.
abbrev pub size_fits : TcpBuffer → ℕ → Bool
size_fits b size = leb size (write_able b) || ltb (grown_size b size) (2 ^ 31)

-- The bytes that a call hands out, and the buffer after it; an overflow of the new size is a fault.
pub call : TcpBuffer → Call → Option (List ℕ × TcpBuffer)
call b (writes bytes) = do
  require (size_fits b (length bytes))
  b' ← write_to_buffer b bytes
  some ([], b')
call b (reads size) = read_from_buffer b [] size
call b (recycles k) = do b' ← recycle_read b (pos k); some ([], b')
call b peeks = do bytes ← get_buffer_string b; some (bytes, b)

pub run : TcpBuffer → List Call → Option (List (List ℕ))
run b [] = some []
run b (c ∷ cs) = do (out, b') ← call b c; outs ← run b' cs; some (out ∷ outs)

-- The queue that a buffer stands for, and what it hands out.
abbrev pub queue_call : List ℕ → Call → List ℕ × List ℕ
queue_call q (writes bytes) = ([], q ++ bytes)
queue_call q (reads size) = (take size q, drop size q)
queue_call q (recycles k) = ([], drop k q)
queue_call q peeks = (q, q)

unfoldable pub queue_run : List ℕ → List Call → List (List ℕ)
queue_run q [] = []
queue_run q (c ∷ cs) = let (out, q') = queue_call q c in out ∷ queue_run q' cs

-- No call of `recycleRead` skips bytes that are not there.
abbrev pub Allowed : List ℕ → Call → Type 0
Allowed q (recycles k) = k ≤ length q
Allowed q c = Unit

abbrev pub Fits : List ℕ → List Call → Type 0
Fits q [] = Unit
Fits q (c ∷ cs) = Allowed q c × Fits (queue_call q c).1 cs

-- How many bytes are written.
abbrev pub bytes_of : Call → ℕ
bytes_of (writes bytes) = length bytes
bytes_of c = 0

abbrev pub written : List Call → ℕ
written [] = 0
written (c ∷ cs) = bytes_of c + written cs

-- With nothing to read the caller's empty vector is the queue's answer.
take_nothing : (size : ℕ) (q : List ℕ) → (if length q == 0 then [] else take size q) ≡ take size q
take_nothing size [] = sym (take_all [] size (omega arith))
take_nothing size (x ∷ q) = ground arith

call_refines :
    (b : TcpBuffer) (c : Call)
    → IsValid b
    → Allowed (contents b) c
    → b.write_index + bytes_of c < 2 ^ 30
    → (b' : TcpBuffer) × (call b c ≡ some ((queue_call (contents b) c).0, b'))
      × IsValid b'
      × (contents b' ≡ (queue_call (contents b) c).1)
      × (b'.write_index ≤ b.write_index + bytes_of c)
unfolding call
call_refines b (writes bytes) v h bound =
    let (b', e, v', c) = write_to_buffer-Leaves b bytes v in
    let fits : size_fits b (length bytes) ≡ true = ground arith in
    (b', rw fits (rw e), v', c, write_to_buffer-write_index b bytes e)
call_refines b (reads size) v h bound =
    let (b', e, v', c) = read_from_buffer-Leaves b [] size v in
    (
      b',
      e ∙ ap (λ out. some (out, b')) (take_nothing size (contents b)),
      v',
      c,
      omega (arith, read_from_buffer-write_index b [] size e),
    )
call_refines b (recycles k) v h bound =
    let (b', e, v', c) = recycle_read-Leaves b k v (omega (arith, length-contents b v)) in
    (b', rw e, v', c, omega (arith, recycle_read-write_index b (pos k) e))
call_refines b peeks v h bound = (b, rw (get_buffer_string-contents b v), v, refl, omega arith)

-- Any calls of a valid buffer whose `recycleRead`s skip no more than the unread bytes, while the write
-- index and all the bytes that the calls write stay below 2^30 together: none faults, also by an int
-- that overflows, and they hand out what the queue of the unread bytes would.
pub run_refines :
    (cs : List Call) (b : TcpBuffer)
    → IsValid b
    → Fits (contents b) cs
    → b.write_index + written cs < 2 ^ 30
    → run b cs ≡ some (queue_run (contents b) cs)
unfolding run queue_run
run_refines [] b v h bound = refl
run_refines (c ∷ cs) b v h bound =
    let (b', e, v', q, moved) = call_refines b c v h.0 (omega arith) in
    rw (e, run_refines cs b' v' (rw q h.1) (omega (arith, moved)), q)
