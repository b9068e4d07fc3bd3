-- ===== src/Buffer.antt =====
-- corpc/net/tcp/tcp_buffer.{h,cc}: the byte buffer between a socket and a codec.
-- Sizes and indices are `int`s that stay nonnegative (`Invariant` proves it), so they are ℕ; a call
-- that would set a negative index, or that copies outside `m_buffer`, is a fault.
pub mod Invariant
pub mod Refine
pub mod Consume
pub mod Size
pub mod Fill
pub mod Growth
pub mod Client
mod Tests
use corpc.Base.{
  ℕ, ◌+◌, ◌-◌, ◌*◌, ◌/◌, min, Bool, Option, none, some, List, [], ◌++◌, length, replicate, ltb,
  ◌==◌, if◌then◌else◌, leb, require, read_at, write_at, ◌>>=◌, ◌>>◌,
}
use corpc.Base.Int.{ℤ, pos, negsuc, ◌+ℤ◌}

-- `m_size` is written nowhere and read nowhere, and is left out.
pub record TcpBuffer : Type 0 where
  pub read_index : ℕ
  pub write_index : ℕ
  pub buffer : List ℕ

-- `std::vector<char>(size)` holds zeros.
unfoldable pub create : ℕ → TcpBuffer
create size = record { read_index = 0; write_index = 0; buffer = replicate size 0 }

abbrev pub read_able : TcpBuffer → ℕ
read_able b = b.write_index - b.read_index

-- `readAble()` where it is the size of a copy or of a new object: a negative one faults there.
pub read_count : TcpBuffer → Option ℕ
read_count b = do require (leb b.read_index b.write_index); some (read_able b)

abbrev pub get_size : TcpBuffer → ℕ
get_size b = length b.buffer

abbrev pub write_able : TcpBuffer → ℕ
write_able b = get_size b - b.write_index

unfoldable pub resize_buffer : TcpBuffer → ℕ → Option TcpBuffer
unfolding read_count
resize_buffer b size = do
  count ← read_count b
  let c = min size count
  chunk ← read_at b.buffer b.read_index c
  tmp ← write_at (replicate size 0) 0 chunk
  some (record { read_index = 0; write_index = c; buffer = tmp })

-- `(int)(1.5 * (m_write_index + size))`
abbrev pub grown_size : TcpBuffer → ℕ → ℕ
grown_size b size = 3 * (b.write_index + size) / 2

-- The copy of `writeToBuffer` and the step of the write index.
pub append_bytes : TcpBuffer → List ℕ → Option TcpBuffer
append_bytes b bytes = do
  buffer ← write_at b.buffer b.write_index bytes
  some (record b { buffer = buffer; write_index = b.write_index + length bytes })

unfoldable pub write_to_buffer : TcpBuffer → List ℕ → Option TcpBuffer
unfolding append_bytes
write_to_buffer b bytes = do
  roomy ←
      if ltb (write_able b) (length bytes)
      then resize_buffer b (grown_size b (length bytes))
      else some b
  append_bytes roomy bytes

-- The body of the test of `adjustBuffer`: the unread bytes move to the front of a new vector.
pub move_to_front : TcpBuffer → Option TcpBuffer
unfolding read_count
move_to_front b = do
  count ← read_count b
  chunk ← read_at b.buffer b.read_index count
  new_buffer ← write_at (replicate (get_size b) 0) 0 chunk
  some (record { read_index = 0; write_index = count; buffer = new_buffer })

unfoldable pub adjust_buffer : TcpBuffer → Option TcpBuffer
unfolding move_to_front
adjust_buffer b = if ltb (get_size b / 3) b.read_index then move_to_front b else some b

-- `readFromBuffer` where `readAble()` is not 0.
read_bytes : TcpBuffer → ℕ → ℕ → Option (List ℕ × TcpBuffer)
read_bytes b size count = do
  let read_size = if ltb size count then size else count
  tmp ← read_at b.buffer b.read_index read_size
  b' ← adjust_buffer (record b { read_index = b.read_index + read_size })
  some (tmp, b')

-- `re` is the caller's vector, which the function replaces if there is anything to read.
unfoldable pub read_from_buffer : TcpBuffer → List ℕ → ℕ → Option (List ℕ × TcpBuffer)
unfolding read_count read_bytes
read_from_buffer b re size = do
  count ← read_count b
  if count == 0 then some (re, b) else read_bytes b size count

unfoldable pub clear_buffer : TcpBuffer → TcpBuffer
clear_buffer b = record { read_index = 0; write_index = 0; buffer = [] }

-- `recycleRead` once `j = m_read_index + index` is known.
pub seek_read : TcpBuffer → ℤ → Option TcpBuffer
seek_read b (negsuc _) = none
seek_read b (pos j) =
    if ltb (get_size b) j then some b else adjust_buffer (record b { read_index = j })

unfoldable pub recycle_read : TcpBuffer → ℤ → Option TcpBuffer
unfolding seek_read ◌+ℤ◌
recycle_read b index = seek_read b (pos b.read_index +ℤ index)

unfoldable pub recycle_write : TcpBuffer → ℕ → Option TcpBuffer
recycle_write b index =
    let j = b.write_index + index in
    if ltb (get_size b) j then some b else adjust_buffer (record b { write_index = j })

unfoldable pub get_buffer_string : TcpBuffer → Option (List ℕ)
unfolding read_count
get_buffer_string b = do count ← read_count b; read_at b.buffer b.read_index count

abbrev pub get_buffer_vector : TcpBuffer → List ℕ
get_buffer_vector b = b.buffer
