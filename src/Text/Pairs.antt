-- ===== src/Text/Pairs.antt =====
-- Pairs of keys and values, written as texts and read back.
use corpc.Base.{
  ℕ, ◌+◌, ◌^◌, ◌≤◌, ◌<◌, ◌≡◌, ◌≢◌, refl, sym, ap, ◌∙◌, true, false, some, List, [], ◌∷◌, ◌++◌,
  append_assoc, append-nil, arith, length, length-append, map, ◌==◌, ==_iff, ◌>>=◌,
}
use corpc.Text.{
  sub_size, is_one_of, next_index, find_first_of, push_piece, TextMap, assign, c_str, add_pair_at,
  add_pairs, is_empty, split_str_to_map,
}
use corpc.Text.Words.{words, words-end, substr_front, substr_rest, split_str_to_vector-words}

-- The character `c` is not in the text.
abbrev pub IsFree : ℕ → List ℕ → Type 0
IsFree c [] = Unit
IsFree c (d ∷ t) = (c ≢ d) × IsFree c t

pub differ : (c d : ℕ) → c ≢ d → (c == d) ≡ false
differ c d ne = ground arith

pub append-IsFree : (c : ℕ) (x y : List ℕ) → IsFree c x → IsFree c y → IsFree c (x ++ y)
append-IsFree c [] y v w = w
append-IsFree c (d ∷ x) y (ne, v) w = (ne, append-IsFree c x y v w)

words-append :
    (c : ℕ) (x t cur : List ℕ)
    → IsFree c x
    → words c cur (x ++ c ∷ t) ≡ push_piece (cur ++ x) (words c [] t)
unfolding words
words-append c [] t cur v =
    let e : (c == c) ≡ true = (==_iff c c).1 refl in
    rw e (ap (λ y. push_piece y (words c [] t)) (sym (append-nil cur)))
words-append c (d ∷ x) t cur (ne, v) = rw (differ c d ne) (
    words-append c x t (cur ++ d ∷ []) v
    ∙ ap (λ y. push_piece y (words c [] t)) (append_assoc cur (d ∷ []) x))

pub find_first_of-append :
    (j : ℕ) (k t : List ℕ) → IsFree j k → find_first_of (k ++ j ∷ t) (j ∷ []) ≡ some (length k)
unfolding find_first_of is_one_of
find_first_of-append j [] t v = let e : (j == j) ≡ true = (==_iff j j).1 refl in rw e refl
find_first_of-append j (d ∷ k) t (ne, v) =
    rw (differ j d ne) (ap next_index (find_first_of-append j k t v))

pub c_str_free : (t : List ℕ) → IsFree 0 t → c_str t ≡ t
unfolding c_str
c_str_free [] v = refl
c_str_free (d ∷ t) (ne, v) =
    let test : (d == 0) ≡ false = differ d 0 (λ e. ne (sym e)) in
    rw test (ap (λ l. d ∷ l) (c_str_free t v))

-- A key and its value.
pub record Pair : Type 0 where
  pub first : ℕ
  pub more : List ℕ
  pub value : List ℕ

-- A key is not empty.
abbrev pub key : Pair → List ℕ
key p = p.first ∷ p.more

-- The map after the assignments in their order.
abbrev pub assign_all : TextMap → List Pair → TextMap
assign_all res [] = res
assign_all res (p ∷ ps) = assign_all (assign res (key p) p.value) ps

module _ (c j : ℕ) where
  abbrev pub piece : Pair → List ℕ
  piece p = key p ++ j ∷ p.value

  -- Each pair as key, joiner and value, with a separator after it.
  unfoldable pub query : List Pair → List ℕ
  query [] = []
  query (p ∷ ps) = piece p ++ c ∷ query ps

  -- The pairs with a separator between each two of them only.
  unfoldable pub joined : List Pair → List ℕ
  joined [] = []
  joined (p ∷ []) = piece p
  joined (p ∷ (q ∷ ps)) = piece p ++ c ∷ joined (q ∷ ps)

  joined-query : (p : Pair) (ps : List Pair) → joined (p ∷ ps) ++ c ∷ [] ≡ query (p ∷ ps)
  unfolding joined query
  joined-query p [] = refl
  joined-query p (q ∷ ps) =
      append_assoc (piece p) (c ∷ joined (q ∷ ps)) (c ∷ [])
      ∙ ap (λ t. piece p ++ c ∷ t) (joined-query q ps)

  -- The separator is in no part of the pair, the joiner not in the key, and the key has no NUL.
  pub record IsPlain (p : Pair) : Type 0 where
    pub key_pieces : IsFree c (key p)
    pub value_pieces : IsFree c p.value
    pub key_joiner : IsFree j (key p)
    pub key_ends : IsFree 0 (key p)

  abbrev pub ArePlain : List Pair → Type 0
  ArePlain [] = Unit
  ArePlain (p ∷ ps) = IsPlain p × ArePlain ps

  words-query : c ≢ j → (ps : List Pair) → ArePlain ps → words c [] (query ps) ≡ map piece ps
  unfolding words query
  words-query ne [] v = refl
  words-query ne (p ∷ ps) (v, vs) =
      words-append c (piece p) (query ps) []
        (append-IsFree c (key p) (j ∷ p.value) v.key_pieces (ne, v.value_pieces))
      ∙ ap (λ l. piece p ∷ l) (words-query ne ps vs)

  add_pair_at-piece :
      (res : TextMap) (p : Pair)
      → IsPlain p
      → length (piece p) < 2 ^ 64
      → add_pair_at res (j ∷ []) (piece p) (find_first_of (piece p) (j ∷ []))
        ≡ some (assign res (key p) p.value)
  unfolding add_pair_at
  add_pair_at-piece res p v bound =
      let n = sub_size (sub_size (length (piece p)) (length (key p))) 1 in
      let size = length-append (key p) (j ∷ p.value) in
      let long : length p.value ≤ n = omega arith in
      ap (add_pair_at res (j ∷ []) (piece p)) (find_first_of-append j (key p) p.value v.key_joiner)
      ∙ rw
          (
            substr_front (key p) (j ∷ p.value),
            substr_rest (key p) j p.value n long,
            c_str_free (key p) v.key_ends,
          )
          refl

  pub add_pairs-pieces :
      (ps : List Pair) (res : TextMap)
      → ArePlain ps
      → length (query ps) < 2 ^ 64
      → add_pairs res (j ∷ []) (map piece ps) ≡ some (assign_all res ps)
  unfolding add_pairs query
  add_pairs-pieces [] res v bound = refl
  add_pairs-pieces (p ∷ ps) res (v, vs) bound =
      let size = length-append (piece p) (c ∷ query ps) in
      ap (λ o. o >>= λ res'. add_pairs res' (j ∷ []) (map piece ps))
        (add_pair_at-piece res p v (omega arith))
      ∙ add_pairs-pieces ps (assign res (key p) p.value) vs (omega arith)

  pub length-joined-query :
      (p : Pair) (ps : List Pair) → length (query (p ∷ ps)) ≡ length (joined (p ∷ ps)) + 1
  length-joined-query p ps =
      sym (ap length (joined-query p ps)) ∙ length-append (joined (p ∷ ps)) (c ∷ [])

  length-joined : (p : Pair) (ps : List Pair) → 0 < length (joined (p ∷ ps))
  unfolding joined
  length-joined p [] = omega (arith, length-append (key p) (j ∷ p.value))
  length-joined p (q ∷ ps) = omega (arith, length-append (piece p) (c ∷ joined (q ∷ ps)))

  -- The text of some pairs, with the pieces that the vector has.
  split_str_to_map-pieces :
      c ≢ j
      → (p : Pair) (ps : List Pair) (res : TextMap) → ArePlain (p ∷ ps)
      → (t : List ℕ) → 0 < length t
      → words c [] t ≡ words c [] (query (p ∷ ps))
      → length t + 1 < 2 ^ 31
      → length (query (p ∷ ps)) < 2 ^ 64
      → split_str_to_map t (c ∷ []) (j ∷ []) res ≡ some (assign_all res (p ∷ ps))
  unfolding split_str_to_map is_empty
  split_str_to_map-pieces ne p ps res v [] long same bound bound' = absurd (omega arith)
  split_str_to_map-pieces ne p ps res v (a ∷ t) long same bound bound' =
      ap (λ o. o >>= add_pairs res (j ∷ []))
        (split_str_to_vector-words c (a ∷ t) bound ∙ ap some (same ∙ words-query ne (p ∷ ps) v))
      ∙ add_pairs-pieces (p ∷ ps) res v bound'

  -- A text that is written from pairs, each as key, joiner and value, with a separator between each two
  -- of them and one after the last or none, is read back by SplitStrToMap: the map gets the values of
  -- the keys in their order, a later one in place of an earlier one. There is a pair, the separator and
  -- the joiner are two different characters, the separator is in no key and no value, no key is empty or
  -- has the joiner or a NUL, and the text has less than 2^31 - 2 characters.
  pub split_str_to_map-query :
      c ≢ j
      → (p : Pair) (ps : List Pair) (res : TextMap) → ArePlain (p ∷ ps)
      → length (query (p ∷ ps)) + 1 < 2 ^ 31
      → (split_str_to_map (query (p ∷ ps)) (c ∷ []) (j ∷ []) res ≡ some (assign_all res (p ∷ ps)))
        × (split_str_to_map (joined (p ∷ ps)) (c ∷ []) (j ∷ []) res
            ≡ some (assign_all res (p ∷ ps)))
  split_str_to_map-query ne p ps res v bound =
      let t = joined (p ∷ ps) in
      let size = length-joined-query p ps in
      let long = length-joined p ps in
      (
        split_str_to_map-pieces ne p ps res v (query (p ∷ ps)) (omega arith) refl bound
            (omega arith),
        split_str_to_map-pieces ne p ps res v t (omega arith)
            (sym (words-end c t []) ∙ ap (words c []) (joined-query p ps)) (omega arith)
            (omega arith),
      )
