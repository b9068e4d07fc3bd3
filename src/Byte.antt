-- ===== src/Byte.antt =====
-- corpc/net/byte.h, and `htonl` with `memcpy` as the codec uses them: an `int32_t` as four bytes in
-- network order. An `int32_t` is the integer that it stands for.
use corpc.Base.{
  ℕ, ◌+◌, ◌-◌, ◌*◌, ◌/◌, ◌%◌, ◌^◌, ◌≡◌, Option, none, some, List, [], ◌∷◌, ltb, if◌then◌else◌,
  read_at, length, refl, arith, ◌>>=◌, At, At-read_at,
}
use corpc.Base.Int.{ℤ, pos, negsuc, ◌≤ℤ◌}

-- The bit pattern of an `int32_t`.
abbrev pub pattern32 : ℤ → ℕ
pattern32 (pos n) = n % 2 ^ 32
pattern32 (negsuc n) = 2 ^ 32 - 1 - n % 2 ^ 32

-- The `int32_t` with a bit pattern.
abbrev pub signed32 : ℕ → ℤ
signed32 p = if ltb p (2 ^ 31) then pos p else negsuc (2 ^ 32 - 1 - p)

-- `htonl`, then `memcpy` of the four bytes.
unfoldable pub net_bytes : ℤ → List ℕ
net_bytes z =
    (pattern32 z / 2 ^ 24 % 256)
    ∷ (pattern32 z / 2 ^ 16 % 256)
    ∷ (pattern32 z / 2 ^ 8 % 256)
    ∷ (pattern32 z % 256)
    ∷ []

from_net : List ℕ → Option ℤ
from_net (a ∷ b ∷ c ∷ d ∷ []) = some (signed32 (a * 2 ^ 24 + b * 2 ^ 16 + c * 2 ^ 8 + d))
from_net _ = none

-- `getInt32FromNetByte(&mem[i])`
unfoldable pub get_int32_from_net_byte : List ℕ → ℕ → Option ℤ
unfolding from_net
get_int32_from_net_byte mem i = do chunk ← read_at mem i 4; from_net chunk

-- The values of an `int32_t`.
abbrev pub IsInt32 : ℤ → Type 0
IsInt32 z = (negsuc (2 ^ 31 - 1) ≤ℤ z) × (z ≤ℤ pos (2 ^ 31 - 1))

pub length-net_bytes : (z : ℤ) → length (net_bytes z) ≡ 4
unfolding net_bytes
length-net_bytes z = refl

from_net-net_bytes : (z : ℤ) → IsInt32 z → from_net (net_bytes z) ≡ some z
unfolding net_bytes from_net
from_net-net_bytes (pos n) h = ground arith
from_net-net_bytes (negsuc n) h = ground arith

-- An `int32_t` that stands in memory in network order is read back, negative ones too.
pub get_int32-net_bytes :
    (mem : List ℕ) (i : ℕ) (z : ℤ)
    → IsInt32 z
    → At mem i (net_bytes z)
    → get_int32_from_net_byte mem i ≡ some z
unfolding get_int32_from_net_byte
get_int32-net_bytes mem i z h at =
    rw (rw (length-net_bytes z) at (At-read_at mem i (net_bytes z) at)) (from_net-net_bytes z h)
