-- ===== src/MemPool/Regions.antt =====
-- Parts of memory that do not overlap.
use corpc.Base.{ℕ, ◌+◌, ◌≤◌, ◌⊎◌, inl, inr, List, [], ◌∷◌, ◌++◌, arith}

abbrev pub All : (ℕ → Type 0) → List ℕ → Type 0
All P [] = Unit
All P (x ∷ xs) = P x × All P xs

pub All-map : {P Q : ℕ → Type 0} (xs : List ℕ) → ((x : ℕ) → P x → Q x) → All P xs → All Q xs
All-map [] f v = tt
All-map (x ∷ xs) f (p, v) = (f x p, All-map xs f v)

pub All-append : (P : ℕ → Type 0) (xs ys : List ℕ) → All P xs → All P ys → All P (xs ++ ys)
All-append P [] ys v w = w
All-append P (x ∷ xs) ys (p, v) w = (p, All-append _ xs ys v w)

pub All-append_left : (P : ℕ → Type 0) (xs ys : List ℕ) → All P (xs ++ ys) → All P xs
All-append_left P [] ys v = tt
All-append_left P (x ∷ xs) ys (p, v) = (p, All-append_left _ xs ys v)

pub All-append_right : (P : ℕ → Type 0) (xs ys : List ℕ) → All P (xs ++ ys) → All P ys
All-append_right P [] ys v = v
All-append_right P (x ∷ xs) ys (p, v) = All-append_right _ xs ys v

-- The parts of `k` bytes at `a` and of `s` bytes at `b`.
abbrev pub Apart : ℕ → ℕ → ℕ → ℕ → Type 0
Apart a k b s = (a + k ≤ b) ⊎ (b + s ≤ a)

-- A part of memory and blocks of `s` bytes.
abbrev pub ApartFrom : ℕ → ℕ → ℕ → List ℕ → Type 0
ApartFrom s a k = All (λ b. Apart a k b s)

abbrev pub AllApart : ℕ → List ℕ → Type 0
AllApart s [] = Unit
AllApart s (b ∷ bs) = ApartFrom s b s bs × AllApart s bs

abbrev pub Across : ℕ → List ℕ → List ℕ → Type 0
Across s [] ys = Unit
Across s (b ∷ bs) ys = ApartFrom s b s ys × Across s bs ys

pub Apart-symm : (a k b s : ℕ) → Apart a k b s → Apart b s a k
Apart-symm a k b s (inl h) = inr h
Apart-symm a k b s (inr h) = inl h

pub ApartFrom-part :
    (s a k a' k' : ℕ) (bs : List ℕ)
    → a ≤ a'
    → a' + k' ≤ a + k
    → ApartFrom s a k bs
    → ApartFrom s a' k' bs
ApartFrom-part s a k a' k' bs h h' = All-map bs part
  where
    part : (b : ℕ) → Apart a k b s → Apart a' k' b s
    part b (inl e) = inl (omega arith)
    part b (inr e) = inr (omega arith)

-- One more on the right.
pub Across-cons :
    (s b : ℕ) (xs ys : List ℕ) → ApartFrom s b s xs → Across s xs ys → Across s xs (b ∷ ys)
Across-cons s b [] ys v w = tt
Across-cons s b (x ∷ xs) ys (p, v) (q, w) = ((Apart-symm b s x s p, q), Across-cons s b xs ys v w)

pub Across-nil : (s : ℕ) (xs : List ℕ) → Across s xs []
Across-nil s [] = tt
Across-nil s (x ∷ xs) = (tt, Across-nil s xs)

-- One taken out of the middle.
pub AllApart-out : (s b : ℕ) (xs ys : List ℕ) → AllApart s (xs ++ b ∷ ys) → AllApart s (xs ++ ys)
AllApart-out s b [] ys (p, v) = v
AllApart-out s b (x ∷ xs) ys (p, v) = (
  All-append _ xs ys (All-append_left _ xs (b ∷ ys) p) (All-append_right _ xs (b ∷ ys) p).1,
  AllApart-out s b xs ys v,
)

pub AllApart-rest :
    (s b : ℕ) (xs ys : List ℕ) → AllApart s (xs ++ b ∷ ys) → ApartFrom s b s (xs ++ ys)
AllApart-rest s b [] ys (p, v) = p
AllApart-rest s b (x ∷ xs) ys (p, v) =
    (Apart-symm x s b s (All-append_right _ xs (b ∷ ys) p).0, AllApart-rest s b xs ys v)

pub Across-out : (s b : ℕ) (fs xs ys : List ℕ) → Across s fs (xs ++ b ∷ ys) → Across s fs (xs ++ ys)
Across-out s b [] xs ys v = tt
Across-out s b (f ∷ fs) xs ys (p, v) = (
  All-append _ xs ys (All-append_left _ xs (b ∷ ys) p) (All-append_right _ xs (b ∷ ys) p).1,
  Across-out s b fs xs ys v,
)

pub Across-at : (s b : ℕ) (fs xs ys : List ℕ) → Across s fs (xs ++ b ∷ ys) → ApartFrom s b s fs
Across-at s b [] xs ys v = tt
Across-at s b (f ∷ fs) xs ys (p, v) =
    (Apart-symm f s b s (All-append_right _ xs (b ∷ ys) p).0, Across-at s b fs xs ys v)
