-- ===== src/Text/Tests.antt =====
-- Small texts cut at separators.
use corpc.Base.{ℕ, ◌≡◌, refl, none, some, List, [], ◌∷◌, arith, same_text}
use corpc.Text.{
  as_int, TextMap, split_str_to_map, substr, is_one_of, find_first_of, with_end, split_loop,
  split_str_to_vector,
}
use corpc.Text.Words.{words, split_str_to_vector-words, split_str_to_vector_short}
use corpc.Text.Pairs.{joined, Pair, query, ArePlain, assign_all, split_str_to_map-query}

-- "a=1&&b" at '&'.
abbrev text : List ℕ
text = 97 ∷ 61 ∷ 49 ∷ 38 ∷ 38 ∷ 98 ∷ []

pieces : words 38 [] text ≡ (97 ∷ 61 ∷ 49 ∷ []) ∷ (98 ∷ []) ∷ []
unfolding words
pieces = refl

-- A separator of two characters is found at either of them: CR alone cuts, and takes the next
-- character with it. The text is "a", CR, "bc", CR, LF.
two_characters :
    split_str_to_vector (97 ∷ 13 ∷ 98 ∷ 99 ∷ 13 ∷ 10 ∷ []) (13 ∷ 10 ∷ [])
    ≡ some ((97 ∷ []) ∷ (99 ∷ []) ∷ [])
unfolding split_str_to_vector split_loop with_end substr find_first_of is_one_of same_text as_int
two_characters = refl

split_str_to_vector-words_example : split_str_to_vector text (38 ∷ []) ≡ some (words 38 [] text)
split_str_to_vector-words_example = split_str_to_vector-words 38 text (omega arith)

split_str_to_vector_short_example : split_str_to_vector (97 ∷ []) (13 ∷ 10 ∷ []) ≡ none
split_str_to_vector_short_example =
    split_str_to_vector_short 97 [] (13 ∷ 10 ∷ []) (omega arith) (omega arith)

-- "a=1&b=2=3&".
abbrev pairs : List Pair
pairs =
    record { first = 97; more = []; value = 49 ∷ [] }
    ∷ record { first = 98; more = []; value = 50 ∷ 61 ∷ 51 ∷ [] }
    ∷ []

abbrev no_texts : TextMap
no_texts k = none

pairs-ArePlain : ArePlain 38 61 pairs
pairs-ArePlain = (
  record {
    key_pieces = omega arith;
    value_pieces = omega arith;
    key_joiner = omega arith;
    key_ends = omega arith;
  },
  (
    record {
      key_pieces = omega arith;
      value_pieces = omega arith;
      key_joiner = omega arith;
      key_ends = omega arith;
    },
    tt,
  ),
)

split_str_to_map-query_example :
    (split_str_to_map (query 38 61 pairs) (38 ∷ []) (61 ∷ []) no_texts
      ≡ some (assign_all no_texts pairs))
    × (split_str_to_map (joined 38 61 pairs) (38 ∷ []) (61 ∷ []) no_texts
        ≡ some (assign_all no_texts pairs))
unfolding query
split_str_to_map-query_example =
    split_str_to_map-query 38 61 (λ e. omega arith)
      (record { first = 97; more = []; value = 49 ∷ [] })
      (record { first = 98; more = []; value = 50 ∷ 61 ∷ 51 ∷ [] } ∷ []) no_texts pairs-ArePlain
      (omega arith)
