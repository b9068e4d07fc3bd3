-- ===== src/Text.antt =====
-- corpc/net/comm/string_util.cc: texts cut at separators. A character is its code, and `none` is the
-- exception std::out_of_range.
pub mod Words
pub mod Pairs
pub mod Cuts
pub mod Lines
mod Tests
use corpc.Base.{
  same_text, ltb, ℕ, zero, suc, ◌+◌, ◌-◌, ◌%◌, ◌^◌, Bool, true, false, Option, none, some, List, [],
  ◌∷◌, ◌++◌, length, take, drop, leb, ◌==◌, ◌&&◌, ◌||◌, if◌then◌else◌, ◌>>=◌,
}

-- The difference of two lengths, of type size_t.
abbrev pub sub_size : ℕ → ℕ → ℕ
sub_size a b = (a + 2 ^ 64 - b) % 2 ^ 64

-- std::string::substr
unfoldable pub substr : List ℕ → ℕ → ℕ → Option (List ℕ)
substr str pos n = if leb pos (length str) then some (take n (drop pos str)) else none

unfoldable pub is_one_of : List ℕ → ℕ → Bool
is_one_of [] c = false
is_one_of (d ∷ chars) c = (d == c) || is_one_of chars c

abbrev pub next_index : Option ℕ → Option ℕ
next_index none = none
next_index (some i) = some (suc i)

-- std::string::find_first_of, `none` for npos: the first character that is one of `chars`.
unfoldable pub find_first_of : List ℕ → List ℕ → Option ℕ
find_first_of [] chars = none
find_first_of (c ∷ str) chars =
    if is_one_of chars c then some 0 else next_index (find_first_of str chars)

unfoldable pub starts_with : List ℕ → List ℕ → Bool
starts_with str [] = true
starts_with [] (d ∷ part) = false
starts_with (c ∷ str) (d ∷ part) = (c == d) && starts_with str part

-- std::string::find, `none` for npos: where the text `part` begins first.
unfoldable pub find : List ℕ → List ℕ → Option ℕ
find [] part = if starts_with [] part then some 0 else none
find (c ∷ str) part = if starts_with (c ∷ str) part then some 0 else next_index (find str part)

-- Empty pieces are not pushed.
abbrev pub push_piece : List ℕ → List (List ℕ) → List (List ℕ)
push_piece [] res = res
push_piece (c ∷ x) res = (c ∷ x) ∷ res

-- The text with a separator at its end.
unfoldable pub with_end : List ℕ → List ℕ → Option (List ℕ)
with_end str split_str =
    substr str (sub_size (length str) (length split_str)) (length split_str) >>= λ tail.
    some (if same_text tail split_str then str else str ++ split_str)

-- The loop, with fuel: each round that goes on makes the text shorter.
abbrev pub if_found : Option ℕ → (ℕ → Option (List (List ℕ))) → Option (List (List ℕ))
if_found none go_on = some []
if_found (some i) go_on = go_on i

-- `int l = tmp.length()`, as the size_t that it is converted to in the subtraction.
unfoldable pub as_int : ℕ → ℕ
as_int n = if ltb (n % 2 ^ 32) (2 ^ 31) then n % 2 ^ 32 else n % 2 ^ 32 + (2 ^ 64 - 2 ^ 32)

unfoldable pub split_loop : ℕ → List ℕ → List ℕ → Option (List (List ℕ))
split_loop zero tmp split_str = none
split_loop (suc fuel) tmp split_str = if_found (find_first_of tmp split_str) (λ i.
    substr tmp 0 i >>= λ x.
    substr tmp (i + length split_str)
      (sub_size (sub_size (as_int (length tmp)) i) (length split_str))
    >>= λ rest. split_loop fuel rest split_str >>= λ res. some (push_piece x res))

unfoldable pub split_str_to_vector : List ℕ → List ℕ → Option (List (List ℕ))
split_str_to_vector [] split_str = some []
split_str_to_vector (c ∷ str) [] = some []
split_str_to_vector (c ∷ str) (d ∷ split_str) =
    with_end (c ∷ str) (d ∷ split_str) >>= λ tmp. split_loop (suc (length tmp)) tmp (d ∷ split_str)

-- std::map from texts to texts.
abbrev pub TextMap : Type 0
TextMap = List ℕ → Option (List ℕ)

abbrev pub assign : TextMap → List ℕ → List ℕ → TextMap
assign res key value k = if same_text k key then some value else res k

-- `key.c_str()` as a text again: it ends before the first NUL.
unfoldable pub c_str : List ℕ → List ℕ
c_str [] = []
c_str (c ∷ t) = let rest = c_str t in if c == 0 then [] else c ∷ rest

-- The body of the loop of SplitStrToMap, for the index of the joiner in the piece `i`.
unfoldable pub add_pair_at : TextMap → List ℕ → List ℕ → Option ℕ → Option TextMap
add_pair_at res joiner i none = some res
add_pair_at res joiner i (some zero) = some res
add_pair_at res joiner i (some (suc j)) = substr i 0 (suc j) >>= λ key.
    substr i (suc j + length joiner) (sub_size (sub_size (length i) (suc j)) (length joiner))
    >>= λ value. some (assign res (c_str key) value)

-- An empty piece holds no joiner, so that the test for it changes nothing.
unfoldable pub add_pairs : TextMap → List ℕ → List (List ℕ) → Option TextMap
add_pairs res joiner [] = some res
add_pairs res joiner (i ∷ vec) =
    add_pair_at res joiner i (find_first_of i joiner) >>= λ res'. add_pairs res' joiner vec

unfoldable pub is_empty : List ℕ → Bool
is_empty [] = true
is_empty (c ∷ t) = false

unfoldable pub split_str_to_map : List ℕ → List ℕ → List ℕ → TextMap → Option TextMap
split_str_to_map str split_str joiner res =
    if is_empty str || is_empty split_str || is_empty joiner
    then some res
    else split_str_to_vector str split_str >>= add_pairs res joiner
