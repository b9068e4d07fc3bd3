-- ===== src/Buffer/Growth.antt =====
-- How far the write index moves: at most by the bytes that are written.
use corpc.Base.{
  ℕ, ◌+◌, ◌/◌, if◌then◌else◌, ◌≤◌, ◌≡◌, sym, ap, inl, inr, none, some, List, length, min, arith,
  ltb, leb, ◌==◌, replicate, read_at, write_at, require, >>=-eq-some, Bool-cases, ◌>>=◌,
}
use corpc.Base.Int.{ℤ, pos, negsuc, ◌+ℤ◌}
use corpc.Buffer.{
  TcpBuffer, get_size, write_able, read_able, grown_size, read_count, resize_buffer, append_bytes,
  write_to_buffer, move_to_front, adjust_buffer, read_bytes, read_from_buffer, seek_read,
  recycle_read, recycle_write,
}
use corpc.Buffer.Fill.{fill}

read_count-le : (b : TcpBuffer) {k : ℕ} → read_count b ≡ some k → k ≤ b.write_index
unfolding read_count
read_count-le b {k} e =
    let (_, _, e₁) = >>=-eq-some (require (leb b.read_index b.write_index)) _ e in
    let same : read_able b ≡ k = cc in omega (arith, same)

pub adjust_buffer-write_index :
    (b : TcpBuffer) {b' : TcpBuffer} → adjust_buffer b ≡ some b' → b'.write_index ≤ b.write_index
unfolding adjust_buffer move_to_front
adjust_buffer-write_index b {b'} e = elim (Bool-cases (ltb (get_size b / 3) b.read_index)) [
  | inl late ↦
      let moved : move_to_front b ≡ some b' = rw late at e in
      let (count, counted, e₁) = >>=-eq-some (read_count b) _ moved in
      let (chunk, _, e₂) = >>=-eq-some (read_at b.buffer b.read_index count) _ e₁ in
      let (new_buffer, _, e₃) = >>=-eq-some (write_at (replicate (get_size b) 0) 0 chunk) _ e₂ in
      let same : record { read_index = 0; write_index = count; buffer = new_buffer } ≡ b' = cc in
      omega (arith, ap (λ (b : TcpBuffer). b.write_index) same, read_count-le b counted)
  | inr early ↦
      let e' : some b ≡ some b' = rw early at e in
      let same : b ≡ b' = cc in omega (arith, ap (λ (b : TcpBuffer). b.write_index) same)
]

pub resize_buffer-write_index :
    (b : TcpBuffer) (size : ℕ) {b' : TcpBuffer}
    → resize_buffer b size ≡ some b'
    → b'.write_index ≤ b.write_index
unfolding resize_buffer
resize_buffer-write_index b size {b'} e =
    let (count, counted, e₁) = >>=-eq-some (read_count b) _ e in
    let (chunk, _, e₂) = >>=-eq-some (read_at b.buffer b.read_index (min size count)) _ e₁ in
    let (tmp, _, e₃) = >>=-eq-some (write_at (replicate size 0) 0 chunk) _ e₂ in
    let same : record { read_index = 0; write_index = min size count; buffer = tmp } ≡ b' = cc in
    omega (arith, ap (λ (b : TcpBuffer). b.write_index) same, read_count-le b counted)

append_bytes-write_index :
    (b : TcpBuffer) (bytes : List ℕ) {b' : TcpBuffer}
    → append_bytes b bytes ≡ some b'
    → b'.write_index ≡ b.write_index + length bytes
unfolding append_bytes
append_bytes-write_index b bytes {b'} e =
    let (buffer, _, e₁) = >>=-eq-some (write_at b.buffer b.write_index bytes) _ e in
    let same : record b { buffer = buffer; write_index = b.write_index + length bytes } ≡ b' = cc in
    sym (ap (λ (b : TcpBuffer). b.write_index) same)

pub write_to_buffer-write_index :
    (b : TcpBuffer) (bytes : List ℕ) {b' : TcpBuffer}
    → write_to_buffer b bytes ≡ some b'
    → b'.write_index ≤ b.write_index + length bytes
unfolding write_to_buffer
write_to_buffer-write_index b bytes {b'} e = elim (Bool-cases (ltb (write_able b) (length bytes))) [
  | inl little ↦
      let e' : (resize_buffer b (grown_size b (length bytes)) >>= λ roomy. append_bytes roomy bytes)
          ≡ some b' =
        rw little at e in
      let (roomy, made, e₁) = >>=-eq-some (resize_buffer b (grown_size b (length bytes))) _ e' in
      omega (
        arith,
        resize_buffer-write_index b (grown_size b (length bytes)) made,
        append_bytes-write_index roomy bytes e₁,
      )
  | inr enough ↦
      let e' : append_bytes b bytes ≡ some b' = rw enough at e in
      omega (arith, append_bytes-write_index b bytes e')
]

pub read_from_buffer-write_index :
    (b : TcpBuffer) (re : List ℕ) (size : ℕ) {out : List ℕ} {b' : TcpBuffer}
    → read_from_buffer b re size ≡ some (out, b')
    → b'.write_index ≤ b.write_index
unfolding read_from_buffer read_bytes
read_from_buffer-write_index b re size {out} {b'} e =
    let (count, _, e₁) = >>=-eq-some (read_count b) _ e in
    elim (Bool-cases (count == 0)) [
      | inl empty ↦
          let e₂ : some (re, b) ≡ some (out, b') = rw empty at e₁ in
          let same : b ≡ b' = cc in omega (arith, ap (λ (b : TcpBuffer). b.write_index) same)
      | inr held ↦
          let read_size = if ltb size count then size else count in
          let e₂ : read_bytes b size count ≡ some (out, b') = rw held at e₁ in
          let (tmp, _, e₃) = >>=-eq-some (read_at b.buffer b.read_index read_size) _ e₂ in
          let moved = record b { read_index = b.read_index + read_size } in
          let (b'', adjusted, e₄) = >>=-eq-some (adjust_buffer moved) _ e₃ in
          let same : b'' ≡ b' = cc in
          omega (
            arith,
            ap (λ (b : TcpBuffer). b.write_index) same,
            adjust_buffer-write_index moved adjusted,
          )
    ]

pub recycle_read-write_index :
    (b : TcpBuffer) (index : ℤ) {b' : TcpBuffer}
    → recycle_read b index ≡ some b'
    → b'.write_index ≤ b.write_index
unfolding recycle_read seek_read
recycle_read-write_index b index {b'} e = seek (pos b.read_index +ℤ index) e
  where
    seek : (j : ℤ) → seek_read b j ≡ some b' → b'.write_index ≤ b.write_index
    seek (negsuc j) h = absurd (none_some h)
      where
        none_some : none ≡ some b' → ⊥
        none_some e = cc
    seek (pos j) h = elim (Bool-cases (ltb (get_size b) j)) [
      | inl past ↦
          let h' : some b ≡ some b' = rw past at h in
          let same : b ≡ b' = cc in omega (arith, ap (λ (b : TcpBuffer). b.write_index) same)
      | inr inside ↦
          let h' : adjust_buffer (record b { read_index = j }) ≡ some b' = rw inside at h in
          adjust_buffer-write_index (record b { read_index = j }) h'
    ]

pub fill-write_index :
    (b : TcpBuffer) (bytes : List ℕ) {b' : TcpBuffer}
    → fill b bytes ≡ some b'
    → b'.write_index ≤ b.write_index + length bytes
unfolding fill recycle_write
fill-write_index b bytes {b'} e =
    let (buffer, _, e₁) = >>=-eq-some (write_at b.buffer b.write_index bytes) _ e in
    let stored = record b { buffer = buffer } in
    elim (Bool-cases (ltb (get_size stored) (b.write_index + length bytes))) [
      | inl past ↦
          let e₂ : some stored ≡ some b' = rw past at e₁ in
          let same : stored ≡ b' = cc in omega (arith, ap (λ (b : TcpBuffer). b.write_index) same)
      | inr inside ↦
          let longer = record stored { write_index = b.write_index + length bytes } in
          let e₂ : adjust_buffer longer ≡ some b' = rw inside at e₁ in
          adjust_buffer-write_index longer e₂
    ]
