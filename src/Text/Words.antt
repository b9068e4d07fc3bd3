-- ===== src/Text/Words.antt =====
-- What a separator of one character does.
use corpc.Base.{
  ℕ, ltb, ◌%◌, zero, suc, ◌+◌, ◌-◌, ◌^◌, ◌≤◌, ◌<◌, ◌≡◌, refl, sym, ap, ◌∙◌, ◌⊎◌, inl, inr, true,
  false, none, some, List, [], ◌∷◌, ◌++◌, append_assoc, append-nil, arith, length, length-append,
  take, drop, take_all, take-append_self, drop-append_right, leb, ◌==◌, ==_iff, if◌then◌else◌,
  ◌>>=◌, Bool-cases, same_text,
}
use corpc.Text.{
  as_int, sub_size, substr, is_one_of, next_index, find_first_of, push_piece, with_end, split_loop,
  split_str_to_vector,
}

-- The pieces of a text between the characters `c` that are not empty; `cur` is the piece begun.
unfoldable pub words : ℕ → List ℕ → List ℕ → List (List ℕ)
words c cur [] = push_piece cur []
words c cur (d ∷ t) = if c == d then push_piece cur (words c [] t) else words c (cur ++ d ∷ []) t

module _ (c : ℕ) where
  -- The pieces that a separator closes.
  closed : List ℕ → List ℕ → List (List ℕ)
  closed cur [] = []
  closed cur (d ∷ t) = if c == d then push_piece cur (closed [] t) else closed (cur ++ d ∷ []) t

  closed-end : (t cur : List ℕ) → closed cur (t ++ c ∷ []) ≡ words c cur t
  unfolding closed words
  closed-end [] cur = let e : (c == c) ≡ true = (==_iff c c).1 refl in rw e refl
  closed-end (d ∷ t) cur = elim (Bool-cases (c == d)) [
    | inl same ↦ rw same (ap (push_piece cur) (closed-end t []))
    | inr other ↦ rw other (closed-end t (cur ++ d ∷ []))
  ]

  pub words-end : (t cur : List ℕ) → words c cur (t ++ c ∷ []) ≡ words c cur t
  unfolding words
  words-end [] cur = let e : (c == c) ≡ true = (==_iff c c).1 refl in rw e refl
  words-end (d ∷ t) cur = elim (Bool-cases (c == d)) [
    | inl same ↦ rw same (ap (push_piece cur) (words-end t []))
    | inr other ↦ rw other (words-end t (cur ++ d ∷ []))
  ]

  -- Where the first separator is, and what it closes.
  First : List ℕ → Type 0
  First t =
      ((find_first_of t (c ∷ []) ≡ none) × ((cur : List ℕ) → closed cur t ≡ []))
      ⊎ ((x : List ℕ) × (rest : List ℕ) × (t ≡ x ++ c ∷ rest)
          × (find_first_of t (c ∷ []) ≡ some (length x))
          × ((cur : List ℕ) → closed cur t ≡ push_piece (cur ++ x) (closed [] rest)))

  First-separator : (t : List ℕ) → First t
  unfolding First find_first_of is_one_of closed
  First-separator [] = inl (refl, λ cur. refl)
  First-separator (d ∷ t) = elim (Bool-cases (c == d)) [
    | inl same ↦
        let e : c ≡ d = (==_iff c d).0 same in
        inr ([], t, ap (λ a. a ∷ t) (sym e), rw same refl, λ cur. rw (same, append-nil cur) refl)
    | inr other ↦ elim (First-separator t) [
      | inl (nowhere, z) ↦
          inl (rw other (ap next_index nowhere), λ cur. rw other (z (cur ++ d ∷ [])))
      | inr (x, rest, e, there, z) ↦ inr (
        d ∷ x,
        rest,
        ap (λ l. d ∷ l) e,
        rw other (ap next_index there),
        λ cur. rw other (
            z (cur ++ d ∷ [])
            ∙ ap (λ y. push_piece y (closed [] rest)) (append_assoc cur (d ∷ []) x)),
      )
    ]
  ]

pub substr_front : (x t : List ℕ) → substr (x ++ t) 0 (length x) ≡ some x
unfolding substr
substr_front x t =
    let test : leb 0 (length (x ++ t)) ≡ true = ground arith in
    rw test (ap some (take-append_self x t))

pub substr_rest :
    (x : List ℕ) (c : ℕ) (t : List ℕ) (n : ℕ)
    → length t ≤ n
    → substr (x ++ c ∷ t) (length x + 1) n ≡ some t
unfolding substr
substr_rest x c t n h =
    let size = length-append x (c ∷ t) in
    let test : leb (length x + 1) (length (x ++ c ∷ t)) ≡ true = ground arith in
    let off : length x + 1 - length x ≡ 1 = omega arith in
    let dropped : drop (length x + 1) (x ++ c ∷ t) ≡ t =
      drop-append_right x (c ∷ t) (length x + 1) (omega arith) ∙ ap (λ k. drop k (c ∷ t)) off in
    rw test (ap some (ap (take n) dropped ∙ take_all t n h))

-- A length that fits an int.
pub as_int-fits : (n : ℕ) → n < 2 ^ 31 → as_int n ≡ n
unfolding as_int
as_int-fits n h =
    let small : n % 2 ^ 32 ≡ n = omega arith in
    let test : ltb n (2 ^ 31) ≡ true = ground arith in rw small (rw test refl)

-- A round of the loop at a separator.
split_loop_round :
    (fuel : ℕ) (x : List ℕ) (c : ℕ) (t : List ℕ) (res : List (List ℕ))
    → length (x ++ c ∷ t) < 2 ^ 31
    → find_first_of (x ++ c ∷ t) (c ∷ []) ≡ some (length x)
    → split_loop fuel t (c ∷ []) ≡ some res
    → split_loop (suc fuel) (x ++ c ∷ t) (c ∷ []) ≡ some (push_piece x res)
unfolding split_loop
split_loop_round fuel x c t res bound there rest =
    let n = sub_size (sub_size (length (x ++ c ∷ t)) (length x)) 1 in
    let size = length-append x (c ∷ t) in
    let long : length t ≤ n = omega arith in
    rw (there, as_int-fits (length (x ++ c ∷ t)) bound)
      (rw (substr_front x (c ∷ t), substr_rest x c t n long, rest) refl)

-- The loop returns what the separators close, if the fuel is more than the length of the text.
split_loop-closed :
    (c fuel : ℕ) (t : List ℕ)
    → length t < fuel
    → length t < 2 ^ 31
    → split_loop fuel t (c ∷ []) ≡ some (closed c [] t)
unfolding split_loop First
split_loop-closed c zero t enough bound = absurd (omega arith)
split_loop-closed c (suc fuel) t enough bound = elim (First-separator c t) [
  | inl (nowhere, z) ↦ rw nowhere (ap some (sym (z [])))
  | inr (x, rest, e, there, z) ↦
      let size = ap length e ∙ length-append x (c ∷ rest) in
      let ih = split_loop-closed c fuel rest (omega arith) (omega arith) in
      let at : find_first_of (x ++ c ∷ rest) (c ∷ []) ≡ some (length x) =
        ap (λ l. find_first_of l (c ∷ [])) (sym e) ∙ there in
      ap (λ l. split_loop (suc fuel) l (c ∷ [])) e
      ∙ split_loop_round fuel x c rest (closed c [] rest)
          (omega (arith, length-append x (c ∷ rest))) at ih
      ∙ ap some (sym (z []))
]

last_character : (c : ℕ) (t : List ℕ) → (u : List ℕ) × (d : ℕ) × (c ∷ t ≡ u ++ d ∷ [])
last_character c [] = ([], c, refl)
last_character c (c' ∷ t) = let (u, d, e) = last_character c' t in (c ∷ u, d, ap (λ l. c ∷ l) e)

substr_last : (u : List ℕ) (d : ℕ) → substr (u ++ d ∷ []) (length u) 1 ≡ some (d ∷ [])
unfolding substr
substr_last u d =
    let size = length-append u (d ∷ []) in
    let test : leb (length u) (length (u ++ d ∷ [])) ≡ true = ground arith in
    let off : length u - length u ≡ 0 = omega arith in
    let dropped : drop (length u) (u ++ d ∷ []) ≡ d ∷ [] =
      drop-append_right u (d ∷ []) (length u) (omega arith) ∙ ap (λ k. drop k (d ∷ [])) off in
    rw test (ap some (ap (take 1) dropped))

with_end-closed :
    (c d : ℕ) (u : List ℕ)
    → length (u ++ d ∷ []) + 1 < 2 ^ 31
    → (t : List ℕ) × (with_end (u ++ d ∷ []) (c ∷ []) ≡ some t)
      × (length t ≤ length (u ++ d ∷ []) + 1)
      × (closed c [] t ≡ words c [] (u ++ d ∷ []))
unfolding with_end same_text
with_end-closed c d u bound =
    let size = length-append u (d ∷ []) in
    let back : sub_size (length (u ++ d ∷ [])) 1 ≡ length u = omega arith in
    let tail : substr (u ++ d ∷ []) (sub_size (length (u ++ d ∷ [])) 1) 1 ≡ some (d ∷ []) =
      ap (λ k. substr (u ++ d ∷ []) k 1) back ∙ substr_last u d in
    elim (Bool-cases (d == c)) [
      | inl same ↦
          let e : d ≡ c = (==_iff d c).0 same in
          (
            u ++ d ∷ [],
            rw tail (rw same refl),
            omega arith,
            ap (λ a. closed c [] (u ++ a ∷ [])) e
                ∙ closed-end c u []
                ∙ sym (words-end c u [])
                ∙ ap (λ a. words c [] (u ++ a ∷ [])) (sym e),
          )
      | inr other ↦ (
        (u ++ d ∷ []) ++ c ∷ [],
        rw tail (rw other refl),
        omega (arith, length-append (u ++ d ∷ []) (c ∷ [])),
        closed-end c (u ++ d ∷ []) [],
      )
    ]

-- For a separator of one character, SplitStrToVector returns the pieces of the text between the
-- separators in their order, without the empty ones, whether or not the text ends with a separator.
-- The text is shorter than the largest size_t.
pub split_str_to_vector-words :
    (c : ℕ) (str : List ℕ)
    → length str + 1 < 2 ^ 31
    → split_str_to_vector str (c ∷ []) ≡ some (words c [] str)
unfolding split_str_to_vector words
split_str_to_vector-words c [] bound = refl
split_str_to_vector-words c (a ∷ str) bound =
    let (u, d, e) = last_character a str in
    let size = ap length e in
    let (t, ended, short, pieces) = with_end-closed c d u (omega arith) in
    let ended' : with_end (a ∷ str) (c ∷ []) ≡ some t = ap (λ l. with_end l (c ∷ [])) e ∙ ended in
    ap (λ o. o >>= λ tmp. split_loop (suc (length tmp)) tmp (c ∷ [])) ended'
    ∙ split_loop-closed c (suc (length t)) t (omega arith) (omega arith)
    ∙ ap some (pieces ∙ ap (words c []) (sym e))

-- A text that is not empty and shorter than the separator makes SplitStrToVector throw.
pub split_str_to_vector_short :
    (a : ℕ) (str split_str : List ℕ)
    → length (a ∷ str) < length split_str
    → length split_str < 2 ^ 31
    → split_str_to_vector (a ∷ str) split_str ≡ none
unfolding split_str_to_vector with_end substr
split_str_to_vector_short a str [] less bound = absurd (omega arith)
split_str_to_vector_short a str (d ∷ split_str) less bound =
    let far : length (a ∷ str) < sub_size (length (a ∷ str)) (length (d ∷ split_str)) =
      omega arith in
    let test : leb (sub_size (length (a ∷ str)) (length (d ∷ split_str))) (length (a ∷ str))
        ≡ false =
      ground arith in
    rw test refl
