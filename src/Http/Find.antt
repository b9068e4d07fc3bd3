-- ===== src/Http/Find.antt =====
-- Where std::string finds a text or a character in a longer text.
use corpc.Base.{
  ℕ, suc, ◌+◌, ◌≤◌, ◌≡◌, ◌≢◌, refl, sym, ap, ◌∙◌, inl, inr, true, false, Option, none, some, List,
  [], ◌∷◌, ◌++◌, arith, length, ◌==◌, ==_iff, ◌&&◌, Bool-cases,
}
use corpc.Text.{is_one_of, next_index, find_first_of, starts_with, find}
use corpc.Text.Pairs.{IsFree, differ}
use corpc.Http.Line.{find_last_of}

pub starts_with-length : (s p : List ℕ) → starts_with s p ≡ true → length p ≤ length s
unfolding starts_with
starts_with-length s [] e = omega arith
starts_with-length [] (d ∷ p) e = absurd (ground arith)
starts_with-length (c ∷ s) (d ∷ p) e = elim (Bool-cases (c == d)) [
  | inl same ↦
      let e' : starts_with s p ≡ true = rw same at e in omega (arith, starts_with-length s p e')
  | inr other ↦ let e' : false ≡ true = rw other at e in absurd (ground arith)
]

starts_with-append :
    (s x p : List ℕ) → length p ≤ length s → starts_with (s ++ x) p ≡ starts_with s p
unfolding starts_with
starts_with-append s x [] h = lem s
  where
    lem : (s : List ℕ) → starts_with (s ++ x) [] ≡ starts_with s []
    lem s = refl
starts_with-append [] x (d ∷ p) h = absurd (omega arith)
starts_with-append (c ∷ s) x (d ∷ p) h =
    ap (λ t. (c == d) && t) (starts_with-append s x p (omega arith))

next_index-some :
    (r : Option ℕ) (i : ℕ) → next_index r ≡ some i → (j : ℕ) × (r ≡ some j) × (i ≡ suc j)
next_index-some none i e = absurd (cc)
next_index-some (some j) i e = (j, refl, cc)

find-length : (s p : List ℕ) (i : ℕ) → find s p ≡ some i → i + length p ≤ length s
unfolding find
find-length [] p i e = elim (Bool-cases (starts_with [] p)) [
  | inl here ↦
      let e' : some 0 ≡ some i = rw here at e in
      let z : i ≡ 0 = cc in omega (arith, starts_with-length [] p here)
  | inr other ↦ let e' : none ≡ some i = rw other at e in absurd (cc)
]
find-length (c ∷ s) p i e = elim (Bool-cases (starts_with (c ∷ s) p)) [
  | inl here ↦
      let e' : some 0 ≡ some i = rw here at e in
      let z : i ≡ 0 = cc in omega (arith, starts_with-length (c ∷ s) p here)
  | inr other ↦
      let e' : next_index (find s p) ≡ some i = rw other at e in
      let (j, there, z) = next_index-some (find s p) i e' in omega (arith, find-length s p j there)
]

-- What a text holds is found where it is, whatever follows the text.
pub find-append : (s x p : List ℕ) (i : ℕ) → find s p ≡ some i → find (s ++ x) p ≡ some i
unfolding find starts_with
find-append [] x p i e = elim (Bool-cases (starts_with [] p)) [
  | inl here ↦
      empty_part x p i (starts_with-length [] p here)
        (let e' : some 0 ≡ some i = rw here at e in cc)
  | inr other ↦ let e' : none ≡ some i = rw other at e in absurd (cc)
]
  where
    empty_part : (x p : List ℕ) (i : ℕ) → length p ≤ 0 → i ≡ 0 → find x p ≡ some i
    empty_part x (d ∷ p) i h z = absurd (omega arith)
    empty_part [] [] i h z = ap some (sym z)
    empty_part (c ∷ x) [] i h z = ap some (sym z)
find-append (c ∷ s) x p i e = elim (Bool-cases (starts_with (c ∷ s) p)) [
  | inl here ↦
      let same = starts_with-append (c ∷ s) x p (starts_with-length (c ∷ s) p here) in
      let e' : some 0 ≡ some i = rw here at e in rw (same, here) e'
  | inr other ↦
      let e' : next_index (find s p) ≡ some i = rw other at e in
      let (j, there, z) = next_index-some (find s p) i e' in
      let same = starts_with-append (c ∷ s) x p (omega (arith, find-length s p j there)) in
      rw (same, other) (rw (find-append s x p j there) (ap some (sym z)))
]

find_last_of-IsFree : (c : ℕ) (t : List ℕ) → IsFree c t → find_last_of t (c ∷ []) ≡ none
unfolding find_last_of is_one_of
find_last_of-IsFree c [] v = refl
find_last_of-IsFree c (d ∷ t) (ne, v) = rw (find_last_of-IsFree c t v, differ c d ne) refl

pub find_last_of-append :
    (c : ℕ) (x t : List ℕ) → IsFree c t → find_last_of (x ++ c ∷ t) (c ∷ []) ≡ some (length x)
unfolding find_last_of is_one_of
find_last_of-append c [] t v =
    let e : (c == c) ≡ true = (==_iff c c).1 refl in rw (find_last_of-IsFree c t v, e) refl
find_last_of-append c (d ∷ x) t v = rw (find_last_of-append c x t v) refl

pub find_first_of-IsFree : (c : ℕ) (t : List ℕ) → IsFree c t → find_first_of t (c ∷ []) ≡ none
unfolding find_first_of is_one_of
find_first_of-IsFree c [] v = refl
find_first_of-IsFree c (d ∷ t) (ne, v) =
    rw (differ c d ne) (ap next_index (find_first_of-IsFree c t v))

starts_with_self : (p x : List ℕ) → starts_with (p ++ x) p ≡ true
unfolding starts_with
starts_with_self [] x = refl
starts_with_self (d ∷ p) x =
    let e : (d == d) ≡ true = (==_iff d d).1 refl in rw e (starts_with_self p x)

-- The search goes past a text that the first character is not in.
pub find_past :
    (c : ℕ) (p t x : List ℕ) (i : ℕ)
    → IsFree c t
    → find x (c ∷ p) ≡ some i
    → find (t ++ x) (c ∷ p) ≡ some (length t + i)
unfolding find starts_with
find_past c p [] x i v e = e ∙ ap some (omega arith)
find_past c p (d ∷ t) x i (ne, v) e =
    let ne' : (d == c) ≡ false = differ d c (λ e. ne (sym e)) in
    rw ne' (ap next_index (find_past c p t x i v e) ∙ ap some (omega arith))

pub find_here : (c : ℕ) (p x : List ℕ) → find (c ∷ (p ++ x)) (c ∷ p) ≡ some 0
unfolding find
find_here c p x = rw (starts_with_self (c ∷ p) x) refl

pub find_behind :
    (c : ℕ) (p t x : List ℕ) → IsFree c t → find (t ++ (c ∷ (p ++ x))) (c ∷ p) ≡ some (length t)
find_behind c p t x v = find_past c p t (c ∷ (p ++ x)) 0 v (find_here c p x) ∙ ap some (omega arith)

-- An end of a line that another line follows is no empty line.
pub find_next :
    (c : ℕ) (x : List ℕ) (i : ℕ)
    → 13 ≢ c
    → find (c ∷ x) (13 ∷ 10 ∷ 13 ∷ 10 ∷ []) ≡ some i
    → find (13 ∷ 10 ∷ c ∷ x) (13 ∷ 10 ∷ 13 ∷ 10 ∷ []) ≡ some (suc (suc i))
unfolding find starts_with
find_next c x i ne e =
    let ne' : (c == 13) ≡ false = differ c 13 (λ e. ne (sym e)) in
    let later : find (c ∷ x) (13 ∷ 10 ∷ 13 ∷ 10 ∷ []) ≡ some i = e in
    rw ne' (rw ne' at (ap next_index (ap next_index later)))
