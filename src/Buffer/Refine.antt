-- ===== src/Buffer/Refine.antt =====
-- A valid buffer behaves as the queue of its unread bytes, and no operation copies outside it.
use corpc.Base.{
  ℕ, ◌+◌, ◌-◌, ◌/◌, ◌≤◌, min, ◌≡◌, refl, ◌∙◌, ap, inl, inr, Option, some, List, ◌++◌, length, take,
  drop, replicate, slice, read_at, write_at, read_at-eq-some, write_at-eq-some, length-replicate,
  length-written, length-slice, slice-written, Bool-cases, ltb, ◌>>=◌, arith, take-append_self,
  take-take, take_all,
}
use corpc.Buffer.{
  TcpBuffer, read_able, get_size, write_able, resize_buffer, grown_size, append_bytes,
  write_to_buffer, adjust_buffer, move_to_front,
}
use corpc.Buffer.Invariant.{IsValid, contents, length-contents, read_count_lem}

-- A call that returns, and leaves a valid buffer that holds the given bytes.
abbrev pub Leaves : List ℕ → Option TcpBuffer → Type 0
Leaves bytes r = (b : TcpBuffer) × (r ≡ some b) × IsValid b × (contents b ≡ bytes)

-- The same, with the bytes at the front of a buffer of `n` bytes.
abbrev Fronts : List ℕ → ℕ → Option TcpBuffer → Type 0
Fronts bytes n r =
    (b : TcpBuffer) × (r ≡ some b)
    × IsValid b
    × (contents b ≡ bytes)
    × (b.read_index ≡ 0)
    × (get_size b ≡ n)

Fronts-Leaves : {bytes : List ℕ} {n : ℕ} (r : Option TcpBuffer) → Fronts bytes n r → Leaves bytes r
Fronts-Leaves r (b, e, v, c, _, _) = (b, e, v, c)

-- The copy that `resizeBuffer` and `adjustBuffer` share: `c` bytes to the front of `n` zeros.
abbrev moved : List ℕ → ℕ → ℕ → ℕ → Option TcpBuffer
moved buffer start c n = do
  chunk ← read_at buffer start c
  tmp ← write_at (replicate n 0) 0 chunk
  some (record { read_index = 0; write_index = c; buffer = tmp })

moved-Fronts :
    (buffer : List ℕ) (start c n : ℕ)
    → start + c ≤ length buffer
    → c ≤ n
    → Fronts (slice buffer start c) n (moved buffer start c n)
moved-Fronts buffer start c n hc hn =
    rw (read_at-eq-some buffer start c hc, write_at-eq-some zeros 0 chunk fits)
      (
        record { read_index = 0; write_index = c; buffer = tmp },
        refl,
        record {
          read_before_write = omega arith;
          write_in_buffer = omega (arith, whole, length-replicate {0} n);
        },
        front,
        refl,
        whole ∙ length-replicate n 0,
      )
  where
    chunk : List ℕ
    chunk = slice buffer start c

    zeros : List ℕ
    zeros = replicate n 0

    tmp : List ℕ
    tmp = chunk ++ drop (0 + length chunk) zeros

    size : length chunk ≡ c
    size = length-slice buffer start c hc

    fits : 0 + length chunk ≤ length zeros
    fits = rw (size, length-replicate n) (omega arith)

    whole : length tmp ≡ length zeros
    whole = length-written zeros 0 chunk fits

    front : take (c - 0) tmp ≡ chunk
    front =
        ap (λ k. take k tmp) (omega (arith, size))
        ∙ take-append_self chunk (drop (0 + length chunk) zeros)

resize_buffer-Fronts :
    (b : TcpBuffer) (size : ℕ)
    → IsValid b
    → Fronts (take size (contents b)) size (resize_buffer b size)
unfolding resize_buffer
resize_buffer-Fronts b size v =
    rw (read_count_lem b v, take-take (drop b.read_index b.buffer) size (read_able b))
      (moved-Fronts b.buffer b.read_index (min size (read_able b)) size (omega arith) (omega arith))

-- `resizeBuffer` keeps the first `size` unread bytes.
pub resize_buffer-Leaves :
    (b : TcpBuffer) (size : ℕ) → IsValid b → Leaves (take size (contents b)) (resize_buffer b size)
resize_buffer-Leaves b size v = Fronts-Leaves (resize_buffer b size) (resize_buffer-Fronts b size v)

-- `adjustBuffer` keeps the unread bytes.
pub adjust_buffer-Leaves : (b : TcpBuffer) → IsValid b → Leaves (contents b) (adjust_buffer b)
unfolding adjust_buffer
adjust_buffer-Leaves b v = elim (Bool-cases (ltb (get_size b / 3) b.read_index)) [
  | inl late ↦
      rw (late, move_to_front, read_count_lem b v)
        (Fronts-Leaves _ (
          moved-Fronts b.buffer b.read_index (read_able b) (get_size b) (omega arith)
            (omega arith)))
  | inr early ↦ rw early (b, refl, v, refl)
]

pub append_bytes-Leaves :
    (b : TcpBuffer) (bytes : List ℕ)
    → IsValid b
    → length bytes ≤ write_able b
    → Leaves (contents b ++ bytes) (append_bytes b bytes)
unfolding append_bytes
append_bytes-Leaves b bytes v h = rw (write_at-eq-some b.buffer b.write_index bytes (omega arith)) (
  record b { write_index = b.write_index + length bytes; buffer = buffer },
  refl,
  record { read_before_write = omega arith; write_in_buffer = omega (arith, whole) },
  slice-written b.buffer b.read_index b.write_index bytes rest (omega arith) (omega arith),
)
  where
    rest : List ℕ
    rest = drop (b.write_index + length bytes) b.buffer

    buffer : List ℕ
    buffer = take b.write_index b.buffer ++ (bytes ++ rest)

    whole : length buffer ≡ get_size b
    whole = length-written b.buffer b.write_index bytes (omega arith)

-- A buffer that `writeToBuffer` grows has room for the bytes.
grown-Leaves :
    (b : TcpBuffer) (bytes : List ℕ)
    → IsValid b
    → (roomy : TcpBuffer) × (resize_buffer b (grown_size b (length bytes)) ≡ some roomy)
      × IsValid roomy
      × (contents roomy ≡ contents b)
      × (length bytes ≤ write_able roomy)
grown-Leaves b bytes v =
    let (roomy, e, v', c, front, size) = resize_buffer-Fronts b (grown_size b (length bytes)) v in
    let kept : contents roomy ≡ contents b =
      c
      ∙ take_all (contents b) (grown_size b (length bytes)) (omega (arith, length-contents b v)) in
    (
      roomy,
      e,
      v',
      kept,
      omega (arith, front, size, v', ap length kept, length-contents b v, length-contents roomy v'),
    )

-- `writeToBuffer` never copies outside the buffer, and appends the bytes to the unread ones.
pub write_to_buffer-Leaves :
    (b : TcpBuffer) (bytes : List ℕ)
    → IsValid b
    → Leaves (contents b ++ bytes) (write_to_buffer b bytes)
unfolding write_to_buffer
write_to_buffer-Leaves b bytes v = elim (Bool-cases (ltb (write_able b) (length bytes))) [
  | inl full ↦
      let (roomy, e, v', c, room) = grown-Leaves b bytes v in
      rw full (rw (e, ← c) (append_bytes-Leaves roomy bytes v' room))
  | inr fits ↦ rw fits (append_bytes-Leaves b bytes v (ground arith))
]
