-- ===== src/Buffer/Invariant.antt =====
-- The indices of a buffer are in order, and what a buffer holds.
use corpc.Base.{ℕ, ◌≤◌, ◌≡◌, List, slice, length, length-slice, arith, some}
use corpc.Buffer.{TcpBuffer, read_able, get_size, read_count}

-- read index ≤ write index ≤ size
pub record IsValid (b : TcpBuffer) : Type 0 where
  pub read_before_write : b.read_index ≤ b.write_index
  pub write_in_buffer : b.write_index ≤ get_size b

-- The bytes that are written and not yet read, oldest first.
abbrev pub contents : TcpBuffer → List ℕ
contents b = slice b.buffer b.read_index (read_able b)

pub length-contents : (b : TcpBuffer) → IsValid b → length (contents b) ≡ read_able b
length-contents b v = length-slice b.buffer b.read_index (read_able b) (omega arith)

-- In a valid buffer `readAble()` is not negative.
pub read_count_lem : (b : TcpBuffer) → IsValid b → read_count b ≡ some (read_able b)
unfolding read_count
read_count_lem b v = ground arith
