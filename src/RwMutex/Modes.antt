-- ===== src/RwMutex/Modes.antt =====
-- What the coroutines are doing, and how many hold the lock.
use corpc.Base.{
  ℕ, zero, suc, ◌+◌, ◌≤◌, ◌<◌, ◌≡◌, ◌≢◌, refl, ap, ◌∙◌, ◌⊎◌, inl, inr, some, List, [], ◌∷◌, ◌++◌,
  arith, length, get_elem?, set,
}

pub data Access : Type 0 where
  reader writer : Access

-- Outside of the calls, waiting in the queue, woken and about to call again, or holding the lock.
pub data Mode : Type 0 where
  outside : Mode
  waiting : Access → Mode
  woken : Access → Mode
  holding : Access → Mode

abbrev pub wake : Mode → Mode
wake (waiting a) = woken a
wake m = m

abbrev pub read_weight : Mode → ℕ
read_weight (holding reader) = 1
read_weight _ = 0

abbrev pub write_weight : Mode → ℕ
write_weight (holding writer) = 1
write_weight _ = 0

abbrev pub hold_weight : Mode → ℕ
hold_weight m = read_weight m + write_weight m

-- A woken coroutine changes its mode only if it was waiting.
abbrev pub wake_at : List Mode → ℕ → List Mode
wake_at [] i = []
wake_at (m ∷ l) zero = wake m ∷ l
wake_at (m ∷ l) (suc i) = m ∷ wake_at l i

unfoldable pub wake_each : List Mode → List ℕ → List Mode
wake_each l [] = l
wake_each l (i ∷ q) = wake_each (wake_at l i) q

abbrev pub Has : ℕ → List ℕ → Type 0
Has i [] = ⊥
Has i (j ∷ q) = (j ≡ i) ⊎ Has i q

pub Has-snoc : (i j : ℕ) (q : List ℕ) → (Has i q ⊎ (j ≡ i)) → Has i (q ++ j ∷ [])
Has-snoc i j [] (inl h) = absurd h
Has-snoc i j [] (inr e) = inl e
Has-snoc i j (k ∷ q) (inl (inl e)) = inl e
Has-snoc i j (k ∷ q) (inl (inr h)) = inr (Has-snoc i j q (inl h))
Has-snoc i j (k ∷ q) (inr e) = inr (Has-snoc i j q (inr e))

module _ (w : Mode → ℕ) where
  unfoldable pub total : List Mode → ℕ
  total [] = 0
  total (m ∷ l) = w m + total l

  pub total-set :
      (l : List Mode) (i : ℕ) (old new : Mode)
      → get_elem? l i ≡ some old
      → total (set l i new) + w old ≡ total l + w new
  unfolding total
  total-set [] i old new e = cc
  total-set (m ∷ l) zero old new e = let same : m ≡ old = cc in omega (arith, ap w same)
  total-set (m ∷ l) (suc i) old new e = omega (arith, total-set l i old new e)

  pub total-one : (l : List Mode) (i : ℕ) (m : Mode) → get_elem? l i ≡ some m → w m ≤ total l
  unfolding total
  total-one [] i m e = cc
  total-one (x ∷ l) zero m e = let same : x ≡ m = cc in omega (arith, ap w same)
  total-one (x ∷ l) (suc i) m e = omega (arith, total-one l i m e)

  pub total-two :
      (l : List Mode) (i j : ℕ) (m m' : Mode)
      → i ≢ j
      → get_elem? l i ≡ some m
      → get_elem? l j ≡ some m'
      → w m + w m' ≤ total l
  unfolding total
  total-two [] i j m m' ne e e' = cc
  total-two (x ∷ l) zero zero m m' ne e e' = absurd (ne refl)
  total-two (x ∷ l) zero (suc j) m m' ne e e' =
      let same : x ≡ m = cc in omega (arith, ap w same, total-one l j m' e')
  total-two (x ∷ l) (suc i) zero m m' ne e e' =
      let same : x ≡ m' = cc in omega (arith, ap w same, total-one l i m e)
  total-two (x ∷ l) (suc i) (suc j) m m' ne e e' =
      omega (arith, total-two l i j m m' (λ same. ne (ap suc same)) e e')

  total-wake_at :
      ((m : Mode) → w (wake m) ≡ w m) → (l : List Mode) (i : ℕ) → total (wake_at l i) ≡ total l
  unfolding total
  total-wake_at h [] i = refl
  total-wake_at h (m ∷ l) zero = omega (arith, h m)
  total-wake_at h (m ∷ l) (suc i) = omega (arith, total-wake_at h l i)

  pub total-wake_each :
      ((m : Mode) → w (wake m) ≡ w m)
      → (q : List ℕ) (l : List Mode) → total (wake_each l q) ≡ total l
  unfolding wake_each
  total-wake_each h [] l = refl
  total-wake_each h (i ∷ q) l = total-wake_each h q (wake_at l i) ∙ total-wake_at h l i

pub read_weight-wake : (m : Mode) → read_weight (wake m) ≡ read_weight m
read_weight-wake outside = refl
read_weight-wake (waiting a) = refl
read_weight-wake (woken a) = refl
read_weight-wake (holding a) = refl

pub write_weight-wake : (m : Mode) → write_weight (wake m) ≡ write_weight m
write_weight-wake outside = refl
write_weight-wake (waiting a) = refl
write_weight-wake (woken a) = refl
write_weight-wake (holding a) = refl

-- Who still waits was not woken.
wake_at_waiting :
    (l : List Mode) (i j : ℕ) (a : Access)
    → get_elem? (wake_at l i) j ≡ some (waiting a)
    → (get_elem? l j ≡ some (waiting a)) × (i ≢ j)
wake_at_waiting [] i j a e = cc
wake_at_waiting (waiting b ∷ l) zero zero a e = cc
wake_at_waiting (outside ∷ l) zero zero a e = cc
wake_at_waiting (woken b ∷ l) zero zero a e = cc
wake_at_waiting (holding b ∷ l) zero zero a e = cc
wake_at_waiting (m ∷ l) zero (suc j) a e = (e, λ same. omega arith)
wake_at_waiting (m ∷ l) (suc i) zero a e = (e, λ same. omega arith)
wake_at_waiting (m ∷ l) (suc i) (suc j) a e =
    let (there, ne) = wake_at_waiting l i j a e in (there, λ same. ne (omega arith))

pub wake_each_waiting :
    (q : List ℕ) (l : List Mode) (j : ℕ) (a : Access)
    → get_elem? (wake_each l q) j ≡ some (waiting a)
    → (get_elem? l j ≡ some (waiting a)) × (¬ Has j q)
unfolding wake_each
wake_each_waiting [] l j a e = (e, λ h. h)
wake_each_waiting (i ∷ q) l j a e =
    let (there, rest) = wake_each_waiting q (wake_at l i) j a e in
    let (here, ne) = wake_at_waiting l i j a there in
    (here, λ h. elim h [ inl same ↦ ne same | inr more ↦ rest more ])

pub lt_of_get_elem? : (l : List Mode) (i : ℕ) (m : Mode) → get_elem? l i ≡ some m → i < length l
lt_of_get_elem? [] i m e = cc
lt_of_get_elem? (x ∷ l) zero m e = omega arith
lt_of_get_elem? (x ∷ l) (suc i) m e = omega (arith, lt_of_get_elem? l i m e)
