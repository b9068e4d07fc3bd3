-- ===== src/RingBuffer/Window.antt =====
-- The slots between two positions of a ring, and how a position moves on.
use corpc.Base.{
  ℕ, zero, suc, ◌+◌, ◌-◌, ◌%◌, ◌^◌, ◌≤◌, ◌<◌, ◌≡◌, ◌≢◌, refl, ap, ◌∙◌, inl, inr, Option, List, [],
  ◌∷◌, ◌++◌, arith, length, get_elem?, set, length-set, get_elem?-set_ne, leb, ◌==◌, if◌then◌else◌,
  Bool-cases, ==_iff,
}
use native.Mathlib.Nat.{mod-eq_of_lt}
use corpc.RingBuffer.{Ring, capacity, increment_pos}

-- The position after `i` in a ring of `n` slots.
abbrev pub next : ℕ → ℕ → ℕ
next n i = if i + 1 == n then 0 else i + 1

-- How many slots lie from one position up to another, going round.
abbrev pub distance : ℕ → ℕ → ℕ → ℕ
distance n from to = if leb from to then to - from else to + n - from

mod_self : (n : ℕ) → 0 < n → n % n ≡ 0
mod_self n h = grind arith

-- The positions of the code are those of the ring.
pub increment_pos-next :
    (r : Ring) (i : ℕ)
    → capacity r ≤ 2 ^ 63
    → i < capacity r
    → increment_pos r i ≡ next (capacity r) i
increment_pos-next r i small h = elim (Bool-cases (i + 1 == capacity r)) [
  | inl last ↦
      rw last
        (in_word ∙ rw ((==_iff (i + 1) (capacity r)).0 last) (mod_self (capacity r) (omega arith)))
  | inr inside ↦ rw inside (in_word ∙ mod-eq_of_lt (ground arith))
]
  where
    in_word : increment_pos r i ≡ (i + 1) % capacity r
    in_word = ap (λ k. k % capacity r) (omega arith)

-- The contents of `n` slots from `i` on.
abbrev pub window : List ℕ → ℕ → ℕ → List (Option ℕ)
window buffer i zero = []
window buffer i (suc n) = get_elem? buffer i ∷ window buffer (next (length buffer) i) n

pub length-window : (buffer : List ℕ) (i n : ℕ) → length (window buffer i n) ≡ n
length-window buffer i zero = refl
length-window buffer i (suc n) = ap suc (length-window buffer (next (length buffer) i) n)

pub distance-next :
    (n i to : ℕ) → i < n → to < n → i ≢ to → distance n i to ≡ suc (distance n (next n i) to)
distance-next n i to hi ht ne = ground arith

-- A write at the end of a window leaves it as it was.
pub window-set :
    (buffer : List ℕ) (to x d i : ℕ)
    → i < length buffer
    → to < length buffer
    → d ≤ distance (length buffer) i to
    → window (set buffer to x) i d ≡ window buffer i d
window-set buffer to x zero i hi ht hd = refl
window-set buffer to x (suc d) i hi ht hd =
    let other : to ≢ i = ground arith in
    rw (get_elem?-set_ne buffer x other, length-set buffer to x)
      (ap (◌∷◌ (get_elem? buffer i)) (
        window-set buffer to x d (next (length buffer) i) (ground arith) ht
          (ground (arith, distance-next (length buffer) i to hi ht))))

-- A window grows by the slot at its end.
pub window-suc :
    (buffer : List ℕ) (to d i : ℕ)
    → i < length buffer
    → to < length buffer
    → d ≡ distance (length buffer) i to
    → window buffer i (suc d) ≡ window buffer i d ++ (get_elem? buffer to ∷ [])
window-suc buffer to zero i hi ht hd = let same : i ≡ to = ground arith in rw same
window-suc buffer to (suc d) i hi ht hd = ap (◌∷◌ (get_elem? buffer i)) (
    window-suc buffer to d (next (length buffer) i) (ground arith) ht
      (ground (arith, distance-next (length buffer) i to hi ht)))

-- Moving the end on by one, or the beginning.
pub distance-next_to :
    (n from to : ℕ)
    → from < n
    → to < n
    → next n to ≢ from
    → distance n from (next n to) ≡ suc (distance n from to)
distance-next_to n from to hf ht ne = ground arith

pub distance-lt : (n from to : ℕ) → from < n → to < n → distance n from to < n
distance-lt n from to hf ht = ground arith

pub next-injective : (n i j : ℕ) → i < n → j < n → next n i ≡ next n j → i ≡ j
next-injective n i j hi hj e = ground arith
