-- ===== src/Http/Targets.antt =====
-- What a request line asks for: a path, with a query or without, as it stands or behind a scheme and
-- a host; its text, and how the codec reads it.
use corpc.Base.{
  ℕ, suc, ◌+◌, ◌^◌, ◌≤◌, ◌<◌, ◌≡◌, refl, sym, ap, ◌∙◌, Bool, true, false, none, some, List, [], ◌∷◌,
  ◌++◌, append_assoc, arith, length, length-append, codes, ◌==◌, leb,
}
use corpc.Text.{TextMap, split_str_to_map, sub_size, substr, find, find_first_of}
use corpc.Text.Words.{substr_front}
use corpc.Text.Cuts.{substr_behind}
use corpc.Text.Pairs.{
  IsFree, find_first_of-append, Pair, query, joined, length-joined-query, ArePlain, assign_all,
  split_str_to_map-query,
}
use corpc.Http.{HttpRequest}
use corpc.Http.Find.{find_first_of-IsFree, find_behind}
use corpc.Http.Line.{parse_path, at_root, at_scheme}

pub data Target : Type 0 where
  plain : List ℕ → Target
  asking : List ℕ → Pair → List Pair → Bool → Target

-- A query, with or without a separator behind its last pair.
abbrev pub query_text : Pair → List Pair → Bool → List ℕ
query_text p ps true = query 38 61 (p ∷ ps)
query_text p ps false = joined 38 61 (p ∷ ps)

unfoldable pub target_text : Target → List ℕ
target_text (plain path) = path
target_text (asking path p ps ended) = path ++ 63 ∷ query_text p ps ended

abbrev pub IsTarget : Target → Type 0
IsTarget (plain path) = IsFree 63 path
IsTarget (asking path p ps ended) = IsFree 63 path × ArePlain 38 61 (p ∷ ps)

-- What a request asks for is in its path, its query and the map of its query.
unfoldable pub asks : HttpRequest → Target → HttpRequest
asks r (plain path) = record r { request_path = path }
asks r (asking path p ps ended) = record r {
  request_path = path;
  request_query = query_text p ps ended;
  query_maps = assign_all r.query_maps (p ∷ ps);
}

query_text-maps :
    (p : Pair) (ps : List Pair) (ended : Bool) (res : TextMap)
    → ArePlain 38 61 (p ∷ ps)
    → length (query_text p ps ended) + 2 < 2 ^ 31
    → split_str_to_map (query_text p ps ended) (codes "&") (codes "=") res
      ≡ some (assign_all res (p ∷ ps))
query_text-maps p ps true res v bound =
    (split_str_to_map-query 38 61 (λ e. omega arith) p ps res v (omega arith)).0
query_text-maps p ps false res v bound =
    let size = length-joined-query 38 61 p ps in
    (split_str_to_map-query 38 61 (λ e. omega arith) p ps res v (omega arith)).1

pub parse_path-asks :
    (r : HttpRequest) (t : Target)
    → IsTarget t
    → length (target_text t) + 1 < 2 ^ 31
    → parse_path r (target_text t) ≡ some (true, asks r t)
unfolding parse_path target_text asks
parse_path-asks r (plain path) v bound = rw (find_first_of-IsFree 63 path v) refl
parse_path-asks r (asking path p ps ended) (v, w) bound =
    let q = query_text p ps ended in
    let size = length-append path (63 ∷ q) in
    let n = sub_size (sub_size (length (path ++ 63 ∷ q)) (length path)) 1 in
    let long : length q ≤ n = omega arith in
    let rest : substr (path ++ 63 ∷ q) (length path + 1) n ≡ some q =
      ap (λ t. substr t (length path + 1) n) (sym (append_assoc path (63 ∷ []) q))
      ∙ substr_behind (path ++ 63 ∷ []) q (length path + 1) n
          (omega (arith, length-append path (63 ∷ []))) long in
    rw (find_first_of-append 63 path q v) (
      rw (substr_front path (63 ∷ q), rest, query_text-maps p ps ended r.query_maps w (omega arith))
        refl)

-- A target as it stands, or behind a scheme and a host.
pub data Url : Type 0 where
  bare : Target → Url
  absolute : List ℕ → List ℕ → Target → Url

unfoldable pub url_text : Url → List ℕ
url_text (bare t) = target_text t
url_text (absolute scheme host t) = scheme ++ (codes "://" ++ (host ++ 47 ∷ target_text t))

abbrev pub IsUrl : Url → Type 0
IsUrl (bare t) = IsTarget t × (find (target_text t) (codes "://") ≡ none)
IsUrl (absolute scheme host t) =
    IsFree 58 scheme × IsFree 47 host × (0 < length (target_text t)) × IsTarget t

abbrev pub target_of : Url → Target
target_of (bare t) = t
target_of (absolute scheme host t) = t

at_root-asks :
    (r : HttpRequest) (host : List ℕ) (t : Target)
    → IsFree 47 host
    → 0 < length (target_text t)
    → IsTarget t
    → length (host ++ 47 ∷ target_text t) + 1 < 2 ^ 31
    → at_root r
        (host ++ 47 ∷ target_text t)
        (find_first_of (host ++ 47 ∷ target_text t) (codes "/"))
      ≡ some (true, asks r t)
at_root-asks r host t v long w bound =
    let x = target_text t in
    let size = length-append host (47 ∷ x) in
    let n = sub_size (sub_size (length (host ++ 47 ∷ x)) (length host)) 1 in
    let fits : length x ≤ n = omega arith in
    let rest : substr (host ++ 47 ∷ x) (length host + 1) n ≡ some x =
      ap (λ t. substr t (length host + 1) n) (sym (append_assoc host (47 ∷ []) x))
      ∙ substr_behind (host ++ 47 ∷ []) x (length host + 1) n
          (omega (arith, length-append host (47 ∷ []))) fits in
    let more : (suc (length host) == length (host ++ 47 ∷ x)) ≡ false = ground arith in
    rw (find_first_of-append 47 host x v) (rw (rest, more) (parse_path-asks r t w (omega arith)))

pub at_scheme-asks :
    (r : HttpRequest) (u : Url)
    → IsUrl u
    → length (url_text u) + 4 < 2 ^ 31
    → at_scheme r (url_text u) (length (url_text u) + 1) (find (url_text u) (codes "://"))
      ≡ some (true, asks r (target_of u))
unfolding url_text
at_scheme-asks r (bare t) (v, nowhere) bound = rw nowhere (parse_path-asks r t v (omega arith))
at_scheme-asks r (absolute scheme host t) (free, v, long, w) bound =
    let x = host ++ 47 ∷ target_text t in
    let size = length-append scheme (codes "://" ++ x) in
    let size' = length-append host (47 ∷ target_text t) in
    let n = sub_size (sub_size (length (scheme ++ (codes "://" ++ x)) + 1) (length scheme)) 4 in
    let fits : length x ≤ n = omega arith in
    let inside : leb (length (scheme ++ (codes "://" ++ x))) (length scheme + 3) ≡ false =
      ground arith in
    let rest : substr (scheme ++ (codes "://" ++ x)) (length scheme + 3) n ≡ some x =
      ap (λ t. substr t (length scheme + 3) n) (sym (append_assoc scheme (codes "://") x))
      ∙ substr_behind (scheme ++ codes "://") x (length scheme + 3) n
          (omega (arith, length-append scheme (codes "://"))) fits in
    rw (find_behind 58 (codes "//") scheme x free)
      (rw (inside, rest) (at_root-asks r host t v long w (omega arith)))
