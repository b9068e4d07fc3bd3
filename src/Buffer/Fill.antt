-- ===== src/Buffer/Fill.antt =====
-- Bytes that a read stored behind the write index, and `recycleWrite` for them.
use corpc.Base.{
  Option, ℕ, ◌+◌, ◌≤◌, ◌≡◌, refl, sym, ap, ◌∙◌, false, some, List, ◌++◌, length, ltb, arith,
  write_at, write_at-eq-some, take, drop, ◌>>=◌,
}
use corpc.Buffer.{TcpBuffer, get_size, write_able, append_bytes, adjust_buffer, recycle_write}
use corpc.Buffer.Invariant.{IsValid, contents}
use corpc.Buffer.Refine.{Leaves, append_bytes-Leaves, adjust_buffer-Leaves}
use corpc.Buffer.Size.{length-write_at}

-- `read(&m_buffer[m_write_index], ...)` with the bytes that arrive, then `recycleWrite` of their number.
unfoldable pub fill : TcpBuffer → List ℕ → Option TcpBuffer
fill b bytes = write_at b.buffer b.write_index bytes >>= λ buffer.
    recycle_write (record b { buffer = buffer }) (length bytes)

only : (b b' : TcpBuffer) → some b ≡ some b' → b ≡ b'
only b b' e = cc

pub fill-Leaves :
    (b : TcpBuffer) (bytes : List ℕ)
    → IsValid b
    → length bytes ≤ write_able b
    → Leaves (contents b ++ bytes) (fill b bytes)
unfolding fill append_bytes recycle_write
fill-Leaves b bytes v h =
    let stored =
      take b.write_index b.buffer ++ (bytes ++ drop (b.write_index + length bytes) b.buffer) in
    let written : write_at b.buffer b.write_index bytes ≡ some stored =
      write_at-eq-some b.buffer b.write_index bytes (omega (arith, v.write_in_buffer)) in
    let size : length stored ≡ get_size b = length-write_at b.buffer b.write_index bytes written in
    let inside : ltb (length stored) (b.write_index + length bytes) ≡ false =
      ground (arith, v.write_in_buffer) in
    let (b₁, appended, v₁, c₁) = append_bytes-Leaves b bytes v h in
    let longer : TcpBuffer = record b {
      buffer = stored;
      write_index = b.write_index + length bytes;
    } in
    let done : append_bytes b bytes ≡ some longer = rw (written, append_bytes) refl in
    let same : longer ≡ b₁ = only longer b₁ (sym done ∙ appended) in
    let (b₂, adjusted, v₂, c₂) = adjust_buffer-Leaves b₁ v₁ in
    (b₂, rw written (rw inside (ap adjust_buffer same ∙ adjusted)), v₂, c₂ ∙ c₁)
