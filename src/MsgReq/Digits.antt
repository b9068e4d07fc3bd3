-- ===== src/MsgReq/Digits.antt =====
-- Texts of digits: the last one that is not a nine, and the number that a text stands for.
use corpc.Base.{
  ℕ, zero, suc, ◌+◌, ◌-◌, ◌*◌, ◌%◌, ◌^◌, ◌≤◌, ◌<◌, ◌≡◌, ◌≢◌, refl, sym, ap, ◌∙◌, ◌⊎◌, inl, inr,
  false, some, List, [], ◌∷◌, ◌++◌, append_assoc, arith, length, length-append, length-replicate,
  get_elem?, set, replicate, ◌==◌, Bool-cases, ==_iff,
}
use corpc.MsgReq.{skip_at, skip_nines, add_one_at, zero_from, step_at}

abbrev pub IsDigits : List ℕ → Type 0
IsDigits [] = Unit
IsDigits (c ∷ t) = (48 ≤ c) × (c ≤ 57) × IsDigits t

-- The number whose decimal digits follow those of `acc`.
unfoldable pub number_from : ℕ → List ℕ → ℕ
number_from acc [] = acc
number_from acc (c ∷ t) = number_from (acc * 10 + (c - 48)) t

abbrev pub nines : ℕ → List ℕ
nines k = replicate k 57

abbrev pub zeros : ℕ → List ℕ
zeros k = replicate k 48

-- A text is all nines, or it has a last character that is not a nine.
pub last_cases :
    (t : List ℕ)
    → (t ≡ nines (length t))
      ⊎ ((pre : List ℕ) × (d : ℕ) × (k : ℕ) × (t ≡ pre ++ d ∷ nines k) × (d ≢ 57))
last_cases [] = inl refl
last_cases (c ∷ t) = elim (last_cases t) [
  | inr (pre, d, k, e, ne) ↦ inr (c ∷ pre, d, k, ap (λ l. c ∷ l) e, ne)
  | inl e ↦ elim (Bool-cases (c == 57)) [
    | inl nine ↦ let same : c ≡ 57 = (==_iff c 57).0 nine in inl (rw same (ap (λ l. 57 ∷ l) e))
    | inr other ↦ inr ([], c, length t, ap (λ l. c ∷ l) e, λ same. ground arith)
  ]
]

get_elem?-append : (pre t : List ℕ) (i : ℕ) → get_elem? (pre ++ t) (length pre + i) ≡ get_elem? t i
get_elem?-append [] t i = let e : 0 + i ≡ i = omega arith in rw e refl
get_elem?-append (c ∷ pre) t i =
    let e : length (c ∷ pre) + i ≡ suc (length pre + i) = omega arith in
    rw e (get_elem?-append pre t i)

get_elem?-nines : (k j : ℕ) → j < k → get_elem? (nines k) j ≡ some 57
get_elem?-nines zero j h = absurd (omega arith)
get_elem?-nines (suc k) zero h = refl
get_elem?-nines (suc k) (suc j) h = get_elem?-nines k j (omega arith)

module _ (pre : List ℕ) (d k : ℕ) (other : d ≢ 57) where
  -- The loop stops at the last character that is not a nine.
  skip_from :
      (j : ℕ) → j ≤ k → skip_nines (pre ++ d ∷ nines k) (suc (length pre + j)) ≡ some (length pre)
  unfolding skip_nines
  skip_from zero h =
      let test : (d == 57) ≡ false = ground arith in
      let at : length pre + 0 ≡ length pre = omega arith in
      ap (λ o. skip_at o (length pre + 0) (skip_nines (pre ++ d ∷ nines k) (length pre + 0)))
        (get_elem?-append pre (d ∷ nines k) 0)
      ∙ rw test (ap some at)
  skip_from (suc j) h =
      let at : length pre + suc j ≡ suc (length pre + j) = omega arith in
      ap
        (λ o. skip_at o (length pre + suc j) (skip_nines (pre ++ d ∷ nines k) (length pre + suc j)))
        (get_elem?-append pre (d ∷ nines k) (suc j) ∙ get_elem?-nines k j (omega arith))
      ∙ rw at (skip_from j (omega arith))

  pub skip_nines_last :
      skip_nines (pre ++ d ∷ nines k) (length (pre ++ d ∷ nines k)) ≡ some (length pre)
  skip_nines_last =
      let size : length (pre ++ d ∷ nines k) ≡ suc (length pre + k) =
        omega (arith, length-append pre (d ∷ nines k), length-replicate {A = ℕ} k 57) in
      rw size (skip_from k (omega arith))

add_one_at_end :
    (pre : List ℕ) (d : ℕ) (t : List ℕ)
    → add_one_at (pre ++ d ∷ t) (length pre) ≡ pre ++ (d + 1) % 2 ^ 8 ∷ t
unfolding add_one_at
add_one_at_end [] d t = refl
add_one_at_end (c ∷ pre) d t = ap (λ l. c ∷ l) (add_one_at_end pre d t)

set-append :
    (pre : List ℕ) (d c : ℕ) (t : List ℕ) → set (pre ++ d ∷ t) (length pre) c ≡ pre ++ c ∷ t
set-append [] d c t = refl
set-append (x ∷ pre) d c t = ap (λ l. x ∷ l) (set-append pre d c t)

pub zero_from_rest :
    (t pre : List ℕ) → zero_from (pre ++ t) (length pre) (length t) ≡ pre ++ zeros (length t)
unfolding zero_from
zero_from_rest [] pre = refl
zero_from_rest (d ∷ t) pre =
    let size : length (pre ++ 48 ∷ []) ≡ length pre + 1 = length-append pre (48 ∷ []) in
    let moved : pre ++ 48 ∷ t ≡ (pre ++ 48 ∷ []) ++ t = sym (append_assoc pre (48 ∷ []) t) in
    ap (λ l. zero_from l (length pre + 1) (length t)) (set-append pre d 48 t ∙ moved)
    ∙ ap (λ j. zero_from ((pre ++ 48 ∷ []) ++ t) j (length t)) (sym size)
    ∙ zero_from_rest t (pre ++ 48 ∷ [])
    ∙ append_assoc pre (48 ∷ []) (zeros (length t))

-- One step on a text whose last character below nine is `d`.
pub step_at_last :
    (pre : List ℕ) (d k : ℕ)
    → d ≢ 57
    → step_at (pre ++ d ∷ nines k) (skip_nines (pre ++ d ∷ nines k) (length (pre ++ d ∷ nines k)))
      ≡ some (pre ++ (d + 1) % 2 ^ 8 ∷ zeros k)
step_at_last pre d k other =
    let e = (d + 1) % 2 ^ 8 in
    let ks : length (nines k) ≡ k = length-replicate {A = ℕ} k 57 in
    let rest : length (pre ++ d ∷ nines k) - (length pre + 1) ≡ length (nines k) =
      omega (arith, length-append pre (d ∷ nines k)) in
    let size : length (pre ++ e ∷ []) ≡ length pre + 1 = length-append pre (e ∷ []) in
    ap (step_at (pre ++ d ∷ nines k)) (skip_nines_last pre d k other)
    ∙ ap some (
        ap (λ n. zero_from (add_one_at (pre ++ d ∷ nines k) (length pre)) (length pre + 1) n) rest
        ∙ ap (λ l. zero_from l (length pre + 1) (length (nines k)))
            (add_one_at_end pre d (nines k) ∙ sym (append_assoc pre (e ∷ []) (nines k)))
        ∙ ap (λ j. zero_from ((pre ++ e ∷ []) ++ nines k) j (length (nines k))) (sym size)
        ∙ zero_from_rest (nines k) (pre ++ e ∷ [])
        ∙ append_assoc pre (e ∷ []) (zeros (length (nines k)))
        ∙ ap (λ n. pre ++ e ∷ zeros n) ks)

number_from-append :
    (pre t : List ℕ) (acc : ℕ) → number_from acc (pre ++ t) ≡ number_from (number_from acc pre) t
unfolding number_from
number_from-append [] t acc = refl
number_from-append (c ∷ pre) t acc = number_from-append pre t (acc * 10 + (c - 48))

number_from-nines : (k acc : ℕ) → number_from (acc + 1) (zeros k) ≡ number_from acc (nines k) + 1
unfolding number_from
number_from-nines zero acc = refl
number_from-nines (suc k) acc =
    let e : (acc + 1) * 10 + (48 - 48) ≡ acc * 10 + (57 - 48) + 1 = omega arith in
    ap (λ a. number_from a (zeros k)) e ∙ number_from-nines k (acc * 10 + (57 - 48))

-- The text after the step stands for the next number.
pub number_from_step :
    (pre : List ℕ) (d k : ℕ)
    → 48 ≤ d
    → d < 57
    → number_from 0 (pre ++ (d + 1) % 2 ^ 8 ∷ zeros k) ≡ number_from 0 (pre ++ d ∷ nines k) + 1
unfolding number_from
number_from_step pre d k low high =
    let p = number_from 0 pre in
    let e : p * 10 + ((d + 1) % 2 ^ 8 - 48) ≡ p * 10 + (d - 48) + 1 = omega arith in
    number_from-append pre ((d + 1) % 2 ^ 8 ∷ zeros k) 0
    ∙ ap (λ a. number_from a (zeros k)) e
    ∙ number_from-nines k (p * 10 + (d - 48))
    ∙ ap (λ n. n + 1) (sym (number_from-append pre (d ∷ nines k) 0))

pub IsDigits-append : (pre t : List ℕ) → IsDigits (pre ++ t) → IsDigits pre × IsDigits t
IsDigits-append [] t v = (tt, v)
IsDigits-append (c ∷ pre) t (low, high, v) =
    let (w, w') = IsDigits-append pre t v in ((low, high, w), w')

pub append-IsDigits : (pre t : List ℕ) → IsDigits pre → IsDigits t → IsDigits (pre ++ t)
append-IsDigits [] t v w = w
append-IsDigits (c ∷ pre) t (low, high, v) w = (low, high, append-IsDigits pre t v w)

pub zeros-IsDigits : (k : ℕ) → IsDigits (zeros k)
zeros-IsDigits zero = tt
zeros-IsDigits (suc k) = (omega arith, omega arith, zeros-IsDigits k)
