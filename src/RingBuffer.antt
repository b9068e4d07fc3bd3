-- ===== src/RingBuffer.antt =====
-- corpc/coroutine/lock_free_ring_buffer.h: a ring of `Capacity` slots between one producer and one
-- consumer, and all interleavings of their atomic steps. The positions are 64-bit words; a capacity
-- of at most 2^63 keeps `pos + 1` from wrapping.
pub mod Window
pub mod Queue
pub mod Steps
mod Tests
use corpc.Base.{
  ℕ, ◌+◌, ◌%◌, ◌^◌, Bool, true, false, Option, none, some, List, length, get_elem?, set, replicate,
  ◌==◌, if◌then◌else◌,
}

-- `Capacity` is the length of the array.
pub record Ring : Type 0 where
  pub read_pos : ℕ
  pub write_pos : ℕ
  pub buffer : List ℕ

abbrev pub capacity : Ring → ℕ
capacity r = length r.buffer

abbrev pub increment_pos : Ring → ℕ → ℕ
increment_pos r pos = (pos + 1) % 2 ^ 64 % capacity r

-- The constructor. The array starts with arbitrary values, here zeros.
unfoldable pub create : ℕ → Ring
create n = record { read_pos = 0; write_pos = 0; buffer = replicate n 0 }

-- `push` with nobody else at work. Items are pointers, here numbers.
unfoldable pub push : Ring → ℕ → Ring × Bool
push r item =
    let next_write_pos = increment_pos r r.write_pos in
    if next_write_pos == r.read_pos
    then (r, false)
    else (record r { buffer = set r.buffer r.write_pos item; write_pos = next_write_pos }, true)

-- `pop` with nobody else at work; an empty ring leaves `item` as it is.
unfoldable pub pop : Ring → Ring × Option ℕ
pop r =
    if r.read_pos == r.write_pos
    then (r, none)
    else (record r { read_pos = increment_pos r r.read_pos }, get_elem? r.buffer r.read_pos)
