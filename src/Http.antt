-- ===== src/Http.antt =====
-- corpc/net/http/http_define.{h,cc}, http_request.h and http_response.h: the data of the HTTP codec.
pub mod Line
pub mod Codec
pub mod Find
pub mod Targets
pub mod RequestLine
pub mod Requests
pub mod Decode
pub mod Partial
pub mod Servlet
pub mod Dispatcher
pub mod Length
pub mod Serving
mod Tests
use corpc.Base.{
  ℕ, zero, suc, ◌+◌, ◌-◌, ◌*◌, ◌/◌, ◌%◌, ◌^◌, Bool, true, false, Option, none, some, List, [], ◌∷◌,
  ◌++◌, length, codes, ltb, leb, ◌==◌, ◌&&◌, ◌||◌, if◌then◌else◌, same_text, ◌>>=◌,
}
use corpc.Base.Int.{ℤ, pos, negsuc}
use corpc.Text.{TextMap, c_str}

abbrev pub g_crlf : List ℕ
g_crlf = codes "\r\n"

abbrev pub g_crlf_double : List ℕ
g_crlf_double = codes "\r\n\r\n"

pub data HttpMethod : Type 0 where
  get post : HttpMethod

-- The headers and the query of a request are maps that are only looked up.
pub record HttpRequest : Type 0 where
  pub request_method : HttpMethod
  pub request_path : List ℕ
  pub request_query : List ℕ
  pub request_version : List ℕ
  pub request_header : TextMap
  pub request_body : List ℕ
  pub query_maps : TextMap
  pub decode_succ : Bool

-- The headers of a response are written out in the order of their keys: a std::map as a sorted list.
pub record Field : Type 0 where
  pub key : List ℕ
  pub value : List ℕ

abbrev pub HttpHeader : Type 0
HttpHeader = List Field

-- `operator<` of std::string
unfoldable pub is_before : List ℕ → List ℕ → Bool
is_before t [] = false
is_before [] (d ∷ t') = true
is_before (c ∷ t) (d ∷ t') = let rest = is_before t t' in if c == d then rest else ltb c d

-- `m_maps[key] = value`
unfoldable pub assign_field : HttpHeader → List ℕ → List ℕ → HttpHeader
assign_field [] key value = record { key = key; value = value } ∷ []
assign_field (f ∷ maps) key value =
    let rest = assign_field maps key value in
    if same_text f.key key
    then record { key = key; value = value } ∷ maps
    else (if is_before f.key key
        then f ∷ rest
        else record { key = key; value = value } ∷ (f ∷ maps))

-- `m_maps.find(key)`
unfoldable pub find_field : HttpHeader → List ℕ → Option (List ℕ)
find_field [] key = none
find_field (f ∷ maps) key = if same_text f.key key then some f.value else find_field maps key

unfoldable pub set_key_value : HttpHeader → List ℕ → List ℕ → HttpHeader
set_key_value maps key value = assign_field maps (c_str key) value

-- `operator[]` of std::map: a key that is missing gets an empty text.
abbrev pub or_empty : Option (List ℕ) → List ℕ
or_empty none = []
or_empty (some value) = value

-- The value, and the map with the key in it.
unfoldable pub get_value : HttpHeader → List ℕ → List ℕ × HttpHeader
get_value maps key =
    let value = or_empty (find_field maps (c_str key)) in
    (value, assign_field maps (c_str key) value)

unfoldable pub to_http_string : HttpHeader → List ℕ
to_http_string [] = []
to_http_string (f ∷ maps) = f.key ++ (codes ":" ++ (f.value ++ (g_crlf ++ to_http_string maps)))

unfoldable pub get_header_total_length : HttpHeader → ℕ
get_header_total_length [] = 0
get_header_total_length (f ∷ maps) =
    length f.key + 1 + length f.value + 2 + get_header_total_length maps

-- A code is not negative.
pub record HttpResponse : Type 0 where
  pub response_version : List ℕ
  pub response_code : ℕ
  pub response_info : List ℕ
  pub response_header : HttpHeader
  pub response_body : List ℕ

unfoldable pub http_code_to_string : ℕ → List ℕ
http_code_to_string code =
    if code == 200
    then codes "OK"
    else if code == 400
    then codes "Bad Request"
    else if code == 403
    then codes "Forbidden"
    else if code == 404
    then codes "Not Found"
    else if code == 500
    then codes "Internal Server Error"
    else codes "UnKnown code"

-- std::to_string of a number, with fuel: a number has no more digits than its size.
unfoldable pub digits : ℕ → ℕ → List ℕ
digits zero n = []
digits (suc fuel) n =
    let front = digits fuel (n / 10) in
    if ltb n 10 then (48 + n) ∷ [] else front ++ ((48 + n % 10) ∷ [])

abbrev pub to_text : ℕ → List ℕ
to_text n = digits (suc n) n

abbrev pub is_digit : ℕ → Bool
is_digit c = leb 48 c && ltb c 58

-- The leading digits, after the number that those before them make.
unfoldable pub number_from : ℕ → List ℕ → ℕ
number_from n [] = n
number_from n (c ∷ t) =
    let rest = number_from (10 * n + (c - 48)) t in if is_digit c then rest else n

unfoldable pub skip_spaces : List ℕ → List ℕ
skip_spaces [] = []
skip_spaces (c ∷ t) =
    let rest = skip_spaces t in if (c == 32) || (leb 9 c && leb c 13) then rest else c ∷ t

abbrev pub negate : ℕ → ℤ
negate zero = pos zero
negate (suc n) = negsuc n

unfoldable pub signed : List ℕ → ℤ
signed [] = pos 0
signed (c ∷ t) =
    if c == 45
    then negate (number_from 0 t)
    else if c == 43
    then pos (number_from 0 t)
    else pos (number_from 0 (c ∷ t))

-- `none` if the value does not fit an int, for which std::atoi promises nothing.
abbrev pub fits_int : ℤ → Bool
fits_int (pos n) = ltb n (2 ^ 31)
fits_int (negsuc n) = ltb n (2 ^ 31)

unfoldable pub atoi : List ℕ → Option ℤ
atoi t = let value = signed (skip_spaces t) in if fits_int value then some value else none
