-- ===== src/Text/Lines.antt =====
-- Pairs of keys and values on lines, which two characters separate, as CR LF does.
use corpc.Base.{
  ℕ, zero, suc, ◌+◌, ◌^◌, ◌≤◌, ◌<◌, ◌≡◌, ◌≢◌, refl, sym, ap, ◌∙◌, inl, inr, true, false, some, List,
  [], ◌∷◌, ◌++◌, append_assoc, arith, ◌-◌, length, length-append, map, same_text, same_text_sound,
  Bool-cases, ◌==◌, ==_iff, ◌>>=◌, take, drop, leb, take_all, length-drop,
}
use corpc.Text.{
  sub_size, substr, is_one_of, next_index, find_first_of, TextMap, add_pairs, is_empty, with_end,
  split_loop, split_str_to_vector, split_str_to_map,
}
use corpc.Text.Words.{as_int-fits, substr_front}
use corpc.Text.Cuts.{substr_behind}
use corpc.Text.Pairs.{
  IsFree, differ, append-IsFree, Pair, key, piece, query, IsPlain, ArePlain, add_pairs-pieces,
  assign_all,
}

-- The last character, or `d` if there is none.
last_or : ℕ → List ℕ → ℕ
last_or d [] = d
last_or d (x ∷ xs) = last_or x xs

last_or-append :
    (d : ℕ) (xs : List ℕ) (y : ℕ) (ys : List ℕ) → last_or d (xs ++ y ∷ ys) ≡ last_or y ys
unfolding last_or
last_or-append d [] y ys = refl
last_or-append d (x ∷ xs) y ys = last_or-append x xs y ys

last_or-IsFree : (c d : ℕ) (t : List ℕ) → c ≢ d → IsFree c t → c ≢ last_or d t
unfolding last_or
last_or-IsFree c d [] ne v = ne
last_or-IsFree c d (x ∷ t) ne (ne', v) = last_or-IsFree c x t ne' v

last_or-drop : (n d e : ℕ) (t : List ℕ) → n < length t → last_or d (drop n t) ≡ last_or e t
unfolding last_or
last_or-drop n d e [] h = elim h [ ]
last_or-drop zero d e (x ∷ t) h = refl
last_or-drop (suc n) d e (x ∷ t) h = last_or-drop n d x t (omega arith)

-- The separator of two characters is found where its first character is.
find_first_of-either :
    (c d : ℕ) (x t : List ℕ)
    → IsFree c x
    → IsFree d x
    → find_first_of (x ++ c ∷ t) (c ∷ d ∷ []) ≡ some (length x)
unfolding find_first_of is_one_of
find_first_of-either c d [] t v w = let e : (c == c) ≡ true = (==_iff c c).1 refl in rw e refl
find_first_of-either c d (a ∷ x) t (ne, v) (ne', w) =
    rw (differ c a ne, differ d a ne') (ap next_index (find_first_of-either c d x t v w))

module _ (c d j : ℕ) where
  -- A pair on a line of its own: neither of the two characters that end a line is in it, and the
  -- joiner is not in the key.
  pub record IsLine (p : Pair) : Type 0 where
    pub plain : IsPlain c j p
    pub key_ends_not : IsFree d (key p)
    pub value_ends_not : IsFree d p.value

  abbrev pub AreLines : List Pair → Type 0
  AreLines [] = Unit
  AreLines (p ∷ ps) = IsLine p × AreLines ps

  AreLines-ArePlain : (ps : List Pair) → AreLines ps → ArePlain c j ps
  AreLines-ArePlain [] v = tt
  AreLines-ArePlain (p ∷ ps) (v, vs) = (v.plain, AreLines-ArePlain ps vs)

  -- The lines, each with its end.
  unfoldable pub lines : List Pair → List ℕ
  lines [] = []
  lines (p ∷ ps) = piece c j p ++ (c ∷ d ∷ lines ps)

  -- The lines with an end between each two of them.
  unfoldable pub lines_between : Pair → List Pair → List ℕ
  lines_between p [] = piece c j p
  lines_between p (q ∷ ps) = piece c j p ++ (c ∷ d ∷ lines_between q ps)

  lines_between-ended :
      (p : Pair) (ps : List Pair) → lines_between p ps ++ c ∷ d ∷ [] ≡ lines (p ∷ ps)
  unfolding lines lines_between
  lines_between-ended p [] = refl
  lines_between-ended p (q ∷ ps) =
      append_assoc (piece c j p) (c ∷ d ∷ lines_between q ps) (c ∷ d ∷ [])
      ∙ ap (λ t. piece c j p ++ (c ∷ d ∷ t)) (lines_between-ended q ps)

  length-query-le : (ps : List Pair) → length (query c j ps) ≤ length (lines ps)
  unfolding query lines
  length-query-le [] = omega arith
  length-query-le (p ∷ ps) = omega (
    arith,
    length-append (piece c j p) (c ∷ query c j ps),
    length-append (piece c j p) (c ∷ d ∷ lines ps),
    length-query-le ps,
  )

  piece-IsFree_end : d ≢ j → (p : Pair) → IsLine p → IsFree d (piece c j p)
  piece-IsFree_end dj p v =
      append-IsFree d (key p) (j ∷ p.value) v.key_ends_not (dj, v.value_ends_not)

  pub piece-IsFree : c ≢ j → (p : Pair) → IsLine p → IsFree c (piece c j p)
  piece-IsFree cj p v =
      append-IsFree c (key p) (j ∷ p.value) v.plain.key_pieces (cj, v.plain.value_pieces)

  -- The text does not end with the second character.
  last_or-lines_between :
      d ≢ j → (p : Pair) (ps : List Pair) → AreLines (p ∷ ps) → d ≢ last_or 0 (lines_between p ps)
  unfolding lines_between last_or
  last_or-lines_between dj p [] (v, vs) =
      let (ne, free) = piece-IsFree_end dj p v in
      last_or-IsFree d p.first (p.more ++ j ∷ p.value) ne free
  last_or-lines_between dj p (q ∷ ps) (v, vs) =
      let e = last_or-append 0 (piece c j p) c (d ∷ lines_between q ps) ∙ first q ps in
      rw e (last_or-lines_between dj q ps vs)
    where
      first :
          (q : Pair) (ps : List Pair)
          → last_or d (lines_between q ps) ≡ last_or 0 (lines_between q ps)
      first q [] = refl
      first q (q' ∷ ps) = refl

  split_loop-lines :
      c ≢ j
      → d ≢ j
      → (fuel : ℕ) (ps : List Pair) → AreLines ps
      → length (lines ps) < fuel
      → length (lines ps) < 2 ^ 31
      → split_loop fuel (lines ps) (c ∷ d ∷ []) ≡ some (map (piece c j) ps)
  unfolding split_loop lines find_first_of
  split_loop-lines cj dj zero ps vs enough bound = absurd (omega arith)
  split_loop-lines cj dj (suc fuel) [] vs enough bound = refl
  split_loop-lines cj dj (suc fuel) (p ∷ ps) (v, vs) enough bound =
      let x = piece c j p in
      let size = length-append x (c ∷ d ∷ lines ps) in
      let n = sub_size (sub_size (length (x ++ c ∷ d ∷ lines ps)) (length x)) 2 in
      let long : length (lines ps) ≤ n = omega arith in
      let there =
        find_first_of-either c d x (d ∷ lines ps) (piece-IsFree cj p v) (piece-IsFree_end dj p v) in
      let rest : substr (x ++ c ∷ d ∷ lines ps) (length x + 2) n ≡ some (lines ps) =
        ap (λ t. substr t (length x + 2) n) (sym (append_assoc x (c ∷ d ∷ []) (lines ps)))
        ∙ substr_behind (x ++ c ∷ d ∷ []) (lines ps) (length x + 2) n
            (omega (arith, length-append x (c ∷ d ∷ []))) long in
      rw (there, as_int-fits (length (x ++ c ∷ d ∷ lines ps)) bound)
        (rw
          (
            substr_front x (c ∷ d ∷ lines ps),
            rest,
            split_loop-lines cj dj fuel ps vs (omega arith) (omega arith),
          )
          refl)

  length-lines_between : (p : Pair) (ps : List Pair) → 2 ≤ length (lines_between p ps)
  unfolding lines_between
  length-lines_between p [] = omega (arith, length-append p.more (j ∷ p.value))
  length-lines_between p (q ∷ ps) =
      omega (arith, length-append (piece c j p) (c ∷ d ∷ lines_between q ps))

  with_end-lines :
      d ≢ j
      → (p : Pair) (ps : List Pair) → AreLines (p ∷ ps)
      → length (lines (p ∷ ps)) < 2 ^ 31
      → with_end (lines_between p ps) (c ∷ d ∷ []) ≡ some (lines (p ∷ ps))
  unfolding with_end substr last_or
  with_end-lines dj p ps vs bound =
      let t = lines_between p ps in
      let long = length-lines_between p ps in
      let size = sym (length-append t (c ∷ d ∷ [])) ∙ ap length (lines_between-ended p ps) in
      let k = length t - 2 in
      let back : sub_size (length t) 2 ≡ k = omega arith in
      let test : leb k (length t) ≡ true = ground arith in
      let whole : take 2 (drop k t) ≡ drop k t =
        take_all (drop k t) 2 (omega (arith, length-drop k t)) in
      let other : same_text (drop k t) (c ∷ d ∷ []) ≡ false =
        elim (Bool-cases (same_text (drop k t) (c ∷ d ∷ []))) [
          | inl same ↦
              let e = same_text_sound (drop k t) (c ∷ d ∷ []) same in
              absurd (
                last_or-lines_between dj p ps vs
                  (sym (ap (last_or 0) e) ∙ last_or-drop k 0 0 t (omega arith)))
          | inr no_end ↦ no_end
        ] in
      rw (back, test) (rw (whole, other) (ap some (lines_between-ended p ps)))

  -- Texts that are not empty go through the loop.
  split_str_to_vector-loop :
      (t : List ℕ)
      → 0 < length t
      → split_str_to_vector t (c ∷ d ∷ [])
        ≡ (with_end t (c ∷ d ∷ []) >>= λ tmp. split_loop (suc (length tmp)) tmp (c ∷ d ∷ []))
  unfolding split_str_to_vector
  split_str_to_vector-loop [] h = absurd (omega arith)
  split_str_to_vector-loop (a ∷ t) h = refl

  split_str_to_map-vector :
      (t : List ℕ) (res : TextMap)
      → 0 < length t
      → split_str_to_map t (c ∷ d ∷ []) (j ∷ []) res
        ≡ (split_str_to_vector t (c ∷ d ∷ []) >>= add_pairs res (j ∷ []))
  unfolding split_str_to_map is_empty
  split_str_to_map-vector [] res h = absurd (omega arith)
  split_str_to_map-vector (a ∷ t) res h = refl

  -- Pairs on lines with an end between each two of them are read back by SplitStrToMap: the map gets
  -- the values of the keys in their order.
  pub split_str_to_map-lines :
      c ≢ j
      → d ≢ j
      → (p : Pair) (ps : List Pair) (res : TextMap) → AreLines (p ∷ ps)
      → length (lines_between p ps) + 2 < 2 ^ 31
      → split_str_to_map (lines_between p ps) (c ∷ d ∷ []) (j ∷ []) res
        ≡ some (assign_all res (p ∷ ps))
  split_str_to_map-lines cj dj p ps res vs bound =
      let t = lines_between p ps in
      let long : 0 < length t = omega (arith, length-lines_between p ps) in
      let size = sym (length-append t (c ∷ d ∷ [])) ∙ ap length (lines_between-ended p ps) in
      let ls = lines (p ∷ ps) in
      split_str_to_map-vector t res long
      ∙ ap (λ o. o >>= add_pairs res (j ∷ []))
          (split_str_to_vector-loop t long
            ∙ ap (λ o. o >>= λ tmp. split_loop (suc (length tmp)) tmp (c ∷ d ∷ []))
                (with_end-lines dj p ps vs (omega arith))
            ∙ split_loop-lines cj dj (suc (length ls)) (p ∷ ps) vs (omega arith) (omega arith))
      ∙ add_pairs-pieces c j (p ∷ ps) res (AreLines-ArePlain (p ∷ ps) vs)
          (omega (arith, length-query-le (p ∷ ps)))
