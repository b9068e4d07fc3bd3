-- ===== src/Buffer/Size.antt =====
-- Reading keeps the size of the vector.
use corpc.Base.{
  ℕ, ◌+◌, ◌/◌, ◌≤◌, ◌≡◌, sym, ap, ◌∙◌, inl, inr, none, some, List, ◌++◌, arith, length,
  length-append, length-take, length-drop, length-replicate, take, drop, replicate, ltb, leb,
  read_at, write_at, >>=-eq-some, Bool-cases,
}
use corpc.Base.Int.{ℤ, pos, negsuc, ◌+ℤ◌}
use corpc.Buffer.{
  TcpBuffer, get_size, read_count, move_to_front, adjust_buffer, seek_read, recycle_read,
}

pub length-write_at :
    (xs : List ℕ) (i : ℕ) (ys : List ℕ) {zs : List ℕ}
    → write_at xs i ys ≡ some zs
    → length zs ≡ length xs
unfolding write_at
length-write_at xs i ys {zs} e = elim (Bool-cases (leb (i + length ys) (length xs))) [
  | inl fits ↦
      let inside : i + length ys ≤ length xs = ground arith in
      let e' : some (take i xs ++ (ys ++ drop (i + length ys) xs)) ≡ some zs = rw fits at e in
      let same : take i xs ++ (ys ++ drop (i + length ys) xs) ≡ zs = cc in
      ap length (sym same)
      ∙ omega (
        arith,
        length-append (take i xs) (ys ++ drop (i + length ys) xs),
        length-append ys (drop (i + length ys) xs),
        length-take i xs,
        length-drop (i + length ys) xs,
      )
  | inr outside ↦ let e' : none ≡ some zs = rw outside at e in cc
]

adjust_buffer-get_size :
    (b : TcpBuffer) {b' : TcpBuffer} → adjust_buffer b ≡ some b' → get_size b' ≡ get_size b
unfolding adjust_buffer move_to_front
adjust_buffer-get_size b {b'} e = elim (Bool-cases (ltb (get_size b / 3) b.read_index)) [
  | inl late ↦
      let moved : move_to_front b ≡ some b' = rw late at e in
      let (count, _, e₁) = >>=-eq-some (read_count b) _ moved in
      let (chunk, _, e₂) = >>=-eq-some (read_at b.buffer b.read_index count) _ e₁ in
      let (new_buffer, written, e₃) =
        >>=-eq-some (write_at (replicate (get_size b) 0) 0 chunk) _ e₂ in
      let same : record { read_index = 0; write_index = count; buffer = new_buffer } ≡ b' = cc in
      ap get_size (sym same)
      ∙ length-write_at (replicate (get_size b) 0) 0 chunk written
      ∙ length-replicate (get_size b) 0
  | inr early ↦
      let e' : some b ≡ some b' = rw early at e in let same : b ≡ b' = cc in ap get_size (sym same)
]

pub recycle_read-get_size :
    (b : TcpBuffer) (index : ℤ) {b' : TcpBuffer}
    → recycle_read b index ≡ some b'
    → get_size b' ≡ get_size b
unfolding recycle_read
recycle_read-get_size b index {b'} e = seek (pos b.read_index +ℤ index) e
  where
    seek : (j : ℤ) → seek_read b j ≡ some b' → get_size b' ≡ get_size b
    seek (negsuc j) h = cc
    seek (pos j) h = elim (Bool-cases (ltb (get_size b) j)) [
      | inl past ↦
          let h' : some b ≡ some b' = rw past at h in
          let same : b ≡ b' = cc in ap get_size (sym same)
      | inr inside ↦
          let h' : adjust_buffer (record b { read_index = j }) ≡ some b' = rw inside at h in
          adjust_buffer-get_size (record b { read_index = j }) h'
    ]
