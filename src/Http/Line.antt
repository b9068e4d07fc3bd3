-- ===== src/Http/Line.antt =====
-- `HttpCodeC::parseHttpRequestLine`, cut at its early returns. A result is what the code returns and
-- the request as it stands then; `none` is the exception that substr throws.
use corpc.Base.{
  ℕ, suc, ◌+◌, ◌-◌, Bool, true, false, Option, none, some, List, [], ◌∷◌, length, codes, leb, ◌==◌,
  ◌&&◌, ◌||◌, if◌then◌else◌, same_text, ◌>>=◌,
}
use corpc.Text.{substr, sub_size, find, find_first_of, is_one_of, split_str_to_map}
use corpc.Http.{HttpMethod, get, post, HttpRequest}

abbrev pub or_here : Bool → Option ℕ → Option ℕ
or_here here (some i) = some (suc i)
or_here here none = if here then some 0 else none

-- std::string::find_last_of
unfoldable pub find_last_of : List ℕ → List ℕ → Option ℕ
find_last_of [] chars = none
find_last_of (c ∷ str) chars = or_here (is_one_of chars c) (find_last_of str chars)

abbrev pub to_upper : ℕ → ℕ
to_upper c = if leb 97 c && leb c 122 then c - 32 else c

unfoldable pub upper : List ℕ → List ℕ
upper [] = []
upper (c ∷ t) = to_upper c ∷ upper t

unfoldable pub method_of : List ℕ → Option HttpMethod
method_of method =
    if same_text method (codes "GET")
    then some get
    else if same_text method (codes "POST")
    then some post
    else none

unfoldable pub is_version : List ℕ → Bool
is_version version = same_text version (codes "HTTP/1.1") || same_text version (codes "HTTP/1.0")

abbrev pub Parsed : Type 0
Parsed = Bool × HttpRequest

abbrev pub fails : HttpRequest → Option Parsed
fails r = some (false, r)

abbrev pub at_query : HttpRequest → List ℕ → Option ℕ → Option Parsed
at_query r url none = some (true, record r { request_path = url })
at_query r url (some j) = substr url 0 j >>= λ path.
    substr url (j + 1) (sub_size (sub_size (length url) j) 1) >>= λ query.
    split_str_to_map query (codes "&") (codes "=") r.query_maps >>= λ maps.
    some (true, record r { request_path = path; request_query = query; query_maps = maps })

unfoldable pub parse_path : HttpRequest → List ℕ → Option Parsed
parse_path r url = at_query r url (find_first_of url (codes "?"))

-- `j == url.length() - 1` on a text that is not empty.
abbrev pub at_root : HttpRequest → List ℕ → Option ℕ → Option Parsed
at_root r url none = some (true, r)
at_root r url (some j) =
    let path = substr url (j + 1) (sub_size (sub_size (length url) j) 1) >>= parse_path r in
    if suc j == length url then some (true, r) else path

abbrev pub at_scheme : HttpRequest → List ℕ → ℕ → Option ℕ → Option Parsed
at_scheme r url size none = parse_path r url
at_scheme r url size (some j) =
    let host = substr url (j + 3) (sub_size (sub_size size j) 4) >>= λ rest.
    at_root r rest (find_first_of rest (codes "/")) in
    if leb (length url) (j + 3) then fails r else host

abbrev pub parse_url : HttpRequest → List ℕ → ℕ → ℕ → Option Parsed
parse_url r tmp s1 s2 = substr tmp (s1 + 1) (sub_size (sub_size s2 s1) 1) >>= λ url.
    at_scheme r url (sub_size s2 s1) (find url (codes "://"))

abbrev pub parse_version : HttpRequest → List ℕ → ℕ → ℕ → Option HttpMethod → Option Parsed
parse_version r tmp s1 s2 none = fails r
parse_version r tmp s1 s2 (some method) =
    substr tmp (s2 + 1) (sub_size (sub_size (length tmp) s2) 1) >>= λ version.
    (let next =
        parse_url (record r { request_method = method; request_version = upper version }) tmp s1
          s2 in
      if is_version (upper version) then next else fails (record r { request_method = method }))

abbrev pub at_spaces : HttpRequest → List ℕ → Option ℕ → Option ℕ → Option Parsed
at_spaces r tmp none s2 = fails r
at_spaces r tmp (some s1) none = fails r
at_spaces r tmp (some s1) (some s2) =
    let next = substr tmp 0 s1 >>= λ method. parse_version r tmp s1 s2 (method_of (upper method)) in
    if s1 == s2 then fails r else next

unfoldable pub parse_request_line : HttpRequest → List ℕ → Option Parsed
parse_request_line r tmp =
    at_spaces r tmp (find_first_of tmp (codes " ")) (find_last_of tmp (codes " "))
