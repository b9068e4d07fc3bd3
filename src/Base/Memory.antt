-- ===== src/Base/Memory.antt =====
-- `memcpy` on byte arrays: a copy out of and into an array, which faults outside it.
use Prim.Native.Nat.{ℕ, zero, suc, ◌+◌, ◌-◌, ◌≤◌, min}
use mathlib.Core.Path.{◌≡◌, refl, sym, ap, ◌∙◌}
use mathlib.Core.Option.{Option, none, some}
use mathlib.Core.List.{List, [], ◌∷◌, ◌++◌}
use native.Mathlib.Omega.{arith}
use corpc.Base.Tests.{leb, if◌then◌else◌}
use corpc.Base.Lists.{length, take, drop, get_elem?, length-append, length-take, length-drop}

module _ {ℓ} {A : Type ℓ} where
  -- The `n` elements from index `i` on, as far as they exist.
  abbrev pub slice : List A → ℕ → ℕ → List A
  slice xs i n = take n (drop i xs)

  -- `memcpy(out, &xs[i], n)`
  unfoldable pub read_at : List A → ℕ → ℕ → Option (List A)
  read_at xs i n = if leb (i + n) (length xs) then some (slice xs i n) else none

  -- `memcpy(&xs[i], ys, n)` with `n` the length of `ys`
  unfoldable pub write_at : List A → ℕ → List A → Option (List A)
  write_at xs i ys =
      if leb (i + length ys) (length xs)
      then some (take i xs ++ (ys ++ drop (i + length ys) xs))
      else none

  pub read_at-eq-some :
      (xs : List A) (i n : ℕ) → i + n ≤ length xs → read_at xs i n ≡ some (slice xs i n)
  unfolding read_at
  read_at-eq-some xs i n h = ground arith

  pub write_at-eq-some :
      (xs : List A) (i : ℕ) (ys : List A)
      → i + length ys ≤ length xs
      → write_at xs i ys ≡ some (take i xs ++ (ys ++ drop (i + length ys) xs))
  unfolding write_at
  write_at-eq-some xs i ys h = ground arith

  pub length-slice : (xs : List A) (i n : ℕ) → i + n ≤ length xs → length (slice xs i n) ≡ n
  length-slice xs i n h = omega (arith, length-take n (drop i xs), length-drop i xs)

  pub length-written :
      (xs : List A) (i : ℕ) (ys : List A)
      → i + length ys ≤ length xs
      → length (take i xs ++ (ys ++ drop (i + length ys) xs)) ≡ length xs
  length-written xs i ys h = omega (
    arith,
    length-append (take i xs) (ys ++ drop (i + length ys) xs),
    length-append ys (drop (i + length ys) xs),
    length-take i xs,
    length-drop (i + length ys) xs,
  )

  pub take_all : (xs : List A) (n : ℕ) → length xs ≤ n → take n xs ≡ xs
  take_all [] zero h = refl
  take_all [] (suc n) h = refl
  take_all (x ∷ xs) zero h = absurd (omega arith)
  take_all (x ∷ xs) (suc n) h = ap (◌∷◌ x) (take_all xs n (omega arith))

  pub drop_all : (xs : List A) (n : ℕ) → length xs ≤ n → drop n xs ≡ []
  drop_all [] zero h = refl
  drop_all [] (suc n) h = refl
  drop_all (x ∷ xs) zero h = absurd (omega arith)
  drop_all (x ∷ xs) (suc n) h = drop_all xs n (omega arith)

  pub take-append_left : (xs ys : List A) (n : ℕ) → n ≤ length xs → take n (xs ++ ys) ≡ take n xs
  take-append_left xs ys zero h = refl
  take-append_left [] ys (suc n) h = absurd (omega arith)
  take-append_left (x ∷ xs) ys (suc n) h = ap (◌∷◌ x) (take-append_left xs ys n (omega arith))

  pub take-append_right :
      (xs ys : List A) (n : ℕ) → length xs ≤ n → take n (xs ++ ys) ≡ xs ++ take (n - length xs) ys
  take-append_right [] ys n h = ap (λ k. take k ys) (omega arith)
  take-append_right (x ∷ xs) ys zero h = absurd (omega arith)
  take-append_right (x ∷ xs) ys (suc n) h =
      ap (◌∷◌ x) (take-append_right xs ys n (omega arith) ∙ ap (λ k. xs ++ take k ys) (omega arith))

  pub drop-append_left :
      (xs ys : List A) (n : ℕ) → n ≤ length xs → drop n (xs ++ ys) ≡ drop n xs ++ ys
  drop-append_left xs ys zero h = refl
  drop-append_left [] ys (suc n) h = absurd (omega arith)
  drop-append_left (x ∷ xs) ys (suc n) h = drop-append_left xs ys n (omega arith)

  pub drop-append_right :
      (xs ys : List A) (n : ℕ) → length xs ≤ n → drop n (xs ++ ys) ≡ drop (n - length xs) ys
  drop-append_right [] ys n h = ap (λ k. drop k ys) (omega arith)
  drop-append_right (x ∷ xs) ys zero h = absurd (omega arith)
  drop-append_right (x ∷ xs) ys (suc n) h =
      drop-append_right xs ys n (omega arith) ∙ ap (λ k. drop k ys) (omega arith)

  pub drop-append_self : (xs ys : List A) → drop (length xs) (xs ++ ys) ≡ ys
  drop-append_self [] ys = refl
  drop-append_self (x ∷ xs) ys = drop-append_self xs ys

  pub drop-take : (xs : List A) (i n : ℕ) → drop i (take n xs) ≡ take (n - i) (drop i xs)
  drop-take xs zero n = ap (λ k. take k xs) (omega arith)
  drop-take [] (suc i) zero = let none_left : zero - suc i ≡ 0 = omega arith in rw none_left
  drop-take [] (suc i) (suc n) = sym (take_all [] (suc n - suc i) (omega arith))
  drop-take (x ∷ xs) (suc i) zero = let none_left : zero - suc i ≡ 0 = omega arith in rw none_left
  drop-take (x ∷ xs) (suc i) (suc n) = drop-take xs i n ∙ ap (λ k. take k (drop i xs)) (omega arith)

  pub drop-drop : (xs : List A) (i j : ℕ) → drop i (drop j xs) ≡ drop (j + i) xs
  drop-drop xs i zero = ap (λ k. drop k xs) (omega arith)
  drop-drop [] zero (suc j) = sym (drop_all [] (suc j + 0) (omega arith))
  drop-drop [] (suc i) (suc j) = sym (drop_all [] (suc j + suc i) (omega arith))
  drop-drop (x ∷ xs) i (suc j) =
      let next : suc j + i ≡ suc (j + i) = omega arith in rw next (drop-drop xs i j)

  take-append-take-drop :
      (xs : List A) (m n : ℕ) → take m xs ++ take n (drop m xs) ≡ take (m + n) xs
  take-append-take-drop xs zero n = ap (λ k. take k xs) (omega arith)
  take-append-take-drop [] (suc m) n =
      take_all [] n (omega arith) ∙ sym (take_all [] (suc m + n) (omega arith))
  take-append-take-drop (x ∷ xs) (suc m) n =
      let next : suc m + n ≡ suc (m + n) = omega arith in
      rw next (ap (◌∷◌ x) (take-append-take-drop xs m n))

  -- A slice followed by the next one is one slice.
  pub slice-append-slice :
      (xs : List A) (i m n : ℕ) → slice xs i m ++ slice xs (i + m) n ≡ slice xs i (m + n)
  slice-append-slice xs i m n = rw (← drop-drop xs m i) (take-append-take-drop (drop i xs) m n)

  -- The slice at the place where `ys` was written.
  pub take-append_self : (xs ys : List A) → take (length xs) (xs ++ ys) ≡ xs
  take-append_self [] ys = refl
  take-append_self (x ∷ xs) ys = ap (◌∷◌ x) (take-append_self xs ys)

  -- Elements just written behind a slice extend it.
  pub slice-written :
      (xs : List A) (r w : ℕ) (ys zs : List A)
      → r ≤ w
      → w ≤ length xs
      → slice (take w xs ++ (ys ++ zs)) r (w + length ys - r) ≡ slice xs r (w - r) ++ ys
  slice-written xs r w ys zs hr hw =
      rw (drop-append_left (take w xs) (ys ++ zs) r (omega (arith, length-take w xs))) (
        rw
          (
            take-append_right (drop r (take w xs)) (ys ++ zs) (w + length ys - r)
                (omega (arith, kept)),
            drop-take xs r w,
          )
          (ap (◌++◌ (slice xs r (w - r)))
            (ap (λ k. take k (ys ++ zs)) (omega (arith, kept')) ∙ take-append_self ys zs)))
    where
      kept : length (drop r (take w xs)) ≡ w - r
      kept = omega (arith, length-drop r (take w xs), length-take w xs)

      kept' : length (slice xs r (w - r)) ≡ w - r
      kept' = length-slice xs r (w - r) (omega arith)

  pub take-take : (xs : List A) (m n : ℕ) → take m (take n xs) ≡ take (min m n) xs
  take-take xs zero n = let least : min zero n ≡ 0 = omega arith in rw least
  take-take xs (suc m) zero = let least : min (suc m) zero ≡ 0 = omega arith in rw least
  take-take [] (suc m) (suc n) = sym (take_all [] (min (suc m) (suc n)) (omega arith))
  take-take (x ∷ xs) (suc m) (suc n) =
      let next : min (suc m) (suc n) ≡ suc (min m n) = omega arith in
      rw next (ap (◌∷◌ x) (take-take xs m n))

  -- The first `n` elements of a slice, and what is left of it.
  pub take-slice : (xs : List A) (i m n : ℕ) → m ≤ n → take m (slice xs i n) ≡ slice xs i m
  take-slice xs i m n h = take-take (drop i xs) m n ∙ ap (λ k. take k (drop i xs)) (omega arith)

  pub drop-slice : (xs : List A) (i m n : ℕ) → drop m (slice xs i n) ≡ slice xs (i + m) (n - m)
  drop-slice xs i m n = rw (drop-take (drop i xs) m n, drop-drop xs m i)

  pub eq_nil_of_length : (xs : List A) → length xs ≡ 0 → xs ≡ []
  eq_nil_of_length [] h = refl
  eq_nil_of_length (x ∷ xs) h = absurd (omega arith)

  pub drop-eq_of_min : (xs : List A) (m : ℕ) → drop (min m (length xs)) xs ≡ drop m xs
  drop-eq_of_min [] m = drop_all [] (min m 0) (omega arith) ∙ sym (drop_all [] m (omega arith))
  drop-eq_of_min (x ∷ xs) zero =
      let least : min zero (suc (length xs)) ≡ 0 = omega arith in rw least
  drop-eq_of_min (x ∷ xs) (suc m) =
      let next : min (suc m) (suc (length xs)) ≡ suc (min m (length xs)) = omega arith in
      rw next (drop-eq_of_min xs m)

  -- `xs` stands in the array from index `i` on.
  pub record At (mem : List A) (i : ℕ) (xs : List A) : Type ℓ where
    pub inside : i + length xs ≤ length mem
    pub same : slice mem i (length xs) ≡ xs

  pub At-read_at :
      (mem : List A) (i : ℕ) (xs : List A) → At mem i xs → read_at mem i (length xs) ≡ some xs
  At-read_at mem i xs h = read_at-eq-some mem i (length xs) h.inside ∙ ap some h.same

  pub At-append_left : (mem : List A) (i : ℕ) (xs ys : List A) → At mem i (xs ++ ys) → At mem i xs
  At-append_left mem i xs ys h = record {
    inside = omega (arith, h.inside, length-append xs ys);
    same =
        sym (take-slice mem i (length xs) (length (xs ++ ys)) (omega (arith, length-append xs ys)))
        ∙ ap (take (length xs)) h.same
        ∙ take-append_self xs ys;
  }

  pub At-append_right :
      (mem : List A) (i : ℕ) (xs ys : List A) → At mem i (xs ++ ys) → At mem (i + length xs) ys
  At-append_right mem i xs ys h = record {
    inside = omega (arith, h.inside, length-append xs ys);
    same =
        ap (slice mem (i + length xs)) (omega (arith, length-append xs ys))
        ∙ sym (drop-slice mem i (length xs) (length (xs ++ ys)))
        ∙ ap (drop (length xs)) h.same
        ∙ drop-append_right xs ys (length xs) (omega arith)
        ∙ (let none_left : length xs - length xs ≡ 0 = omega arith in rw none_left);
  }

  pub At-get_elem? : (mem : List A) (i : ℕ) (x : A) → At mem i (x ∷ []) → get_elem? mem i ≡ some x
  At-get_elem? mem i x h = first mem i h.same
    where
      head? : List A → Option A
      head? [] = none
      head? (y ∷ ys) = some y

      first : (mem : List A) (i : ℕ) → slice mem i 1 ≡ x ∷ [] → get_elem? mem i ≡ some x
      first [] zero e = ap head? e
      first [] (suc i) e = ap head? e
      first (y ∷ mem) zero e = ap head? e
      first (y ∷ mem) (suc i) e = first mem i e
