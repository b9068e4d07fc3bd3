-- ===== src/Pb/Decode/Layout.antt =====
-- Reading back the parts of a package from the place where it stands.
use corpc.Base.{
  ℕ, suc, ◌+◌, ◌-◌, ◌<◌, ◌≡◌, refl, ap, some, List, [], ◌∷◌, ◌++◌, length, replicate, get_elem?,
  arith, At, At-read_at, At-append_left, At-append_right, At-get_elem?, length-append,
}
use corpc.Base.Int.{ℤ, pos}
use corpc.Byte.{net_bytes, get_int32_from_net_byte, IsInt32, length-net_bytes, get_int32-net_bytes}
use corpc.Pb.Package.{PbStruct, package_bytes, package_length}
use corpc.Pb.Decode.{copy_string, up_to_zero}

-- No byte of a C string is 0.
abbrev pub NoZero : List ℕ → Type 0
NoZero [] = Unit
NoZero (c ∷ cs) = (0 < c) × NoZero cs

up_to_zero-append : (text rest : List ℕ) → NoZero text → up_to_zero (text ++ (0 ∷ rest)) ≡ some text
unfolding up_to_zero
up_to_zero-append [] rest h = refl
up_to_zero-append (c ∷ cs) rest h = ground (arith, up_to_zero-append cs rest h.1)

zeros-cons :
    (limit n : ℕ) → n < limit → replicate {A = ℕ} (limit - n) 0 ≡ 0 ∷ replicate (limit - n - 1) 0
zeros-cons limit n h =
    let room : limit - n ≡ suc (limit - n - 1) = omega arith in
    rw room (ap {B = List ℕ} (λ k. 0 ∷ replicate k 0) (omega arith))

module _ (mem : List ℕ) (i : ℕ) where
  pub At-byte :
      (x : ℕ) (rest : List ℕ)
      → At mem i ((x ∷ []) ++ rest)
      → (get_elem? mem i ≡ some x) × At mem (i + 1) rest
  At-byte x rest at = (
    At-get_elem? mem i x (At-append_left mem i (x ∷ []) rest at),
    At-append_right mem i (x ∷ []) rest at,
  )

  pub At-int32 :
      (z : ℤ) (rest : List ℕ)
      → IsInt32 z
      → At mem i (net_bytes z ++ rest)
      → (get_int32_from_net_byte mem i ≡ some z) × At mem (i + 4) rest
  At-int32 z rest h at = (
    get_int32-net_bytes mem i z h (At-append_left mem i (net_bytes z) rest at),
    rw (length-net_bytes z) at (At-append_right mem i (net_bytes z) rest at),
  )

  -- A text without zeros that leaves room in the local array is read back whole.
  pub At-text :
      (text rest : List ℕ) (limit : ℕ)
      → NoZero text
      → length text < limit
      → At mem i (text ++ rest)
      → (copy_string mem i (pos (length text)) limit ≡ some (text, length text))
        × At mem (i + length text) rest
  unfolding copy_string
  At-text text rest limit h fits at = (
    rw (At-read_at mem i text (At-append_left mem i text rest at)) (
        rw (zeros-cons limit (length text) fits)
          (rw (up_to_zero-append text (replicate (limit - length text - 1) 0) h) (ground arith))),
    At-append_right mem i text rest at,
  )

-- The copies of `encodePbData` fill exactly the block that it allocates.
pub length-package_bytes : (d : PbStruct) → length (package_bytes d) ≡ package_length d
unfolding package_bytes
length-package_bytes d = simp (length-append, length-net_bytes) (omega arith)
