-- ===== src/Buffer/Consume.antt =====
-- What the calls that read, and those that move an index, leave of the unread bytes.
use corpc.Base.{
  ℕ, ◌+◌, ◌/◌, ◌≤◌, ◌<◌, min, ◌≡◌, refl, sym, ◌∙◌, ap, inl, inr, none, some, List, [], ◌++◌, length,
  take, drop, slice, read_at-eq-some, slice-append-slice, Bool-cases, false, true, leb, ltb,
  take-take, eq_nil_of_length, drop-eq_of_min, ◌==◌, if◌then◌else◌, arith, drop-slice, drop_all,
}
use corpc.Base.Int.{pos, +ℤ_pos}
use corpc.Buffer.{
  TcpBuffer, read_able, get_size, write_able, adjust_buffer, read_count, read_bytes,
  read_from_buffer, recycle_read, recycle_write, get_buffer_string,
}
use corpc.Buffer.Invariant.{IsValid, contents, length-contents, read_count_lem}
use corpc.Buffer.Refine.{Leaves, adjust_buffer-Leaves}

-- Moving the read index on by `k` unread bytes drops them.
forward-IsValid :
    (b : TcpBuffer) (k : ℕ)
    → IsValid b
    → k ≤ read_able b
    → IsValid (record b { read_index = b.read_index + k })
      × (contents (record b { read_index = b.read_index + k }) ≡ drop k (contents b))
forward-IsValid b k v h = (
  record { read_before_write = omega arith; write_in_buffer = omega arith },
  ap (slice b.buffer (b.read_index + k)) (omega arith)
      ∙ sym (drop-slice b.buffer b.read_index k (read_able b)),
)

forward-Leaves :
    (b : TcpBuffer) (k : ℕ)
    → IsValid b
    → k ≤ read_able b
    → Leaves (drop k (contents b)) (adjust_buffer (record b { read_index = b.read_index + k }))
forward-Leaves b k v h =
    let (v', c) = forward-IsValid b k v h in
    rw (← c) (adjust_buffer-Leaves (record b { read_index = b.read_index + k }) v')

-- `recycleRead` of at most the unread bytes drops that many.
pub recycle_read-Leaves :
    (b : TcpBuffer) (k : ℕ)
    → IsValid b
    → k ≤ read_able b
    → Leaves (drop k (contents b)) (recycle_read b (pos k))
unfolding recycle_read
recycle_read-Leaves b k v h =
    let short : ltb (get_size b) (b.read_index + k) ≡ false = ground arith in
    rw (+ℤ_pos b.read_index k, recycle_read) (rw short (forward-Leaves b k v h))

-- `recycleWrite` takes over the bytes that the caller has stored behind the write index.
pub recycle_write-Leaves :
    (b : TcpBuffer) (k : ℕ)
    → IsValid b
    → k ≤ write_able b
    → Leaves (contents b ++ slice b.buffer b.write_index k) (recycle_write b k)
unfolding recycle_write
recycle_write-Leaves b k v h =
    let short : ltb (get_size b) (b.write_index + k) ≡ false = ground arith in
    rw (short, ← joined)
      (adjust_buffer-Leaves longer
        (record { read_before_write = omega arith; write_in_buffer = omega arith }))
  where
    longer : TcpBuffer
    longer = record b { write_index = b.write_index + k }

    joined : contents longer ≡ contents b ++ slice b.buffer b.write_index k
    joined =
        ap (slice b.buffer b.read_index) (omega arith)
        ∙ sym (slice-append-slice b.buffer b.read_index (read_able b) k)
        ∙ ap (λ i. contents b ++ slice b.buffer i k) (omega arith)

-- `getBufferString` is the unread bytes.
pub get_buffer_string-contents :
    (b : TcpBuffer) → IsValid b → get_buffer_string b ≡ some (contents b)
unfolding get_buffer_string
get_buffer_string-contents b v =
    rw (read_count_lem b v) (read_at-eq-some b.buffer b.read_index (read_able b) (omega arith))

read_bytes-Leaves :
    (b : TcpBuffer) (size : ℕ)
    → IsValid b
    → (b' : TcpBuffer) × (read_bytes b size (read_able b) ≡ some (take size (contents b), b'))
      × IsValid b'
      × (contents b' ≡ drop size (contents b))
unfolding read_bytes
read_bytes-Leaves b size v =
    let (b', e, v', c) = forward-Leaves b count v (ground arith) in
    (
      b',
      rw (read_at-eq-some b.buffer b.read_index count (ground arith)) (rw (e, taken)),
      v',
      c ∙ ap (λ k. drop k (contents b)) least ∙ drop-eq_of_min (contents b) size,
    )
  where
    count : ℕ
    count = if ltb size (read_able b) then size else read_able b

    least : count ≡ min size (length (contents b))
    least = rw (length-contents b v) (ground arith)

    taken : slice b.buffer b.read_index count ≡ take size (contents b)
    taken = sym (
        take-take (drop b.read_index b.buffer) size (read_able b)
        ∙ ap (λ k. take k (drop b.read_index b.buffer)) (ground arith))

-- `readFromBuffer` hands out the oldest bytes, `size` of them if there are as many, and leaves
-- the others; with nothing to read the caller's vector stays as it is.
pub read_from_buffer-Leaves :
    (b : TcpBuffer) (re : List ℕ) (size : ℕ)
    → IsValid b
    → (b' : TcpBuffer) × (read_from_buffer b re size
        ≡ some (if length (contents b) == 0 then re else take size (contents b), b'))
      × IsValid b'
      × (contents b' ≡ drop size (contents b))
unfolding read_from_buffer
read_from_buffer-Leaves b re size v = elim (Bool-cases (read_able b == 0)) [
  | inl nothing ↦
      let empty : contents b ≡ [] =
        eq_nil_of_length (contents b) (ground (arith, length-contents b v)) in
      rw (length-contents b v, read_count_lem b v, nothing)
        (b, refl, v, rw empty (sym (drop_all [] size (omega arith))))
  | inr something ↦
      rw (length-contents b v, read_count_lem b v, something) (read_bytes-Leaves b size v)
]

-- `recycleRead` past the unread bytes: beyond the vector it leaves the buffer as it is; inside the
-- vector, but behind its first third, the move to the front copies a negative number of bytes.
pub recycle_read_past :
    (b : TcpBuffer) (k : ℕ)
    → IsValid b
    → read_able b < k
    → get_size b / 3 < b.read_index + k
    → recycle_read b (pos k) ≡ (if ltb (get_size b) (b.read_index + k) then some b else none)
unfolding recycle_read adjust_buffer read_count
recycle_read_past b k v h far =
    let late : ltb (get_size b / 3) (b.read_index + k) ≡ true = ground arith in
    let negative : leb (b.read_index + k) b.write_index ≡ false = ground arith in
    rw (+ℤ_pos b.read_index k, recycle_read) (rw late (rw negative))
