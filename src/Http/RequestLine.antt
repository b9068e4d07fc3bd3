-- ===== src/Http/RequestLine.antt =====
-- Request lines as `parseHttpRequestLine` reads them: a method, a URL and a version.
use corpc.Base.{
  ℕ, suc, ◌+◌, ◌^◌, ◌≤◌, ◌<◌, ◌≡◌, sym, ap, ◌∙◌, true, false, some, List, [], ◌∷◌, ◌++◌,
  append_assoc, arith, length, length-append, codes, ◌==◌,
}
use corpc.Text.{sub_size, substr}
use corpc.Text.Words.{substr_front}
use corpc.Text.Cuts.{substr_behind, substr_inside}
use corpc.Text.Pairs.{IsFree, find_first_of-append}
use corpc.Http.{HttpMethod, HttpRequest}
use corpc.Http.Find.{find_last_of-append}
use corpc.Http.Line.{upper, method_of, is_version, find_last_of, parse_request_line}
use corpc.Http.Targets.{Url, url_text, IsUrl, target_of, asks, at_scheme-asks}

pub record RequestLine : Type 0 where
  pub method_name : List ℕ
  pub url : Url
  pub version_name : List ℕ

unfoldable pub line_text : RequestLine → List ℕ
line_text l = l.method_name ++ 32 ∷ (url_text l.url ++ 32 ∷ l.version_name)

-- The name of the method and the version are in any case of letters; CR is in no part.
pub record IsLine (m : HttpMethod) (l : RequestLine) : Type 0 where
  pub method_spaces : IsFree 32 l.method_name
  pub method_known : method_of (upper l.method_name) ≡ some m
  pub url_readable : IsUrl l.url
  pub version_spaces : IsFree 32 l.version_name
  pub version_known : is_version (upper l.version_name) ≡ true
  pub no_return : IsFree 13 (line_text l)

-- The request after its first line.
unfoldable pub with_line : HttpRequest → HttpMethod → RequestLine → HttpRequest
with_line r m l =
    asks (record r { request_method = m; request_version = upper l.version_name }) (target_of l.url)

pub parse_request_line-reads :
    (r : HttpRequest) (m : HttpMethod) (l : RequestLine)
    → IsLine m l
    → length (line_text l) + 4 < 2 ^ 31
    → parse_request_line r (line_text l) ≡ some (true, with_line r m l)
unfolding parse_request_line line_text with_line
parse_request_line-reads r m l v bound =
    let name = l.method_name in
    let url = url_text l.url in
    let version = l.version_name in
    let front = name ++ 32 ∷ url in
    let tmp = name ++ 32 ∷ (url ++ 32 ∷ version) in
    let whole : front ++ 32 ∷ version ≡ tmp = append_assoc name (32 ∷ url) (32 ∷ version) in
    let size = length-append name (32 ∷ (url ++ 32 ∷ version)) in
    let size' = length-append url (32 ∷ version) in
    let front_size : length front ≡ suc (length name + length url) =
      omega (arith, length-append name (32 ∷ url)) in
    let s2 = suc (length name + length url) in
    let last : find_last_of tmp (codes " ") ≡ some s2 =
      ap (λ t. find_last_of t (codes " ")) (sym whole)
      ∙ find_last_of-append 32 front version v.version_spaces
      ∙ ap some front_size in
    let two : (length name == s2) ≡ false = ground arith in
    let n = sub_size (sub_size (length tmp) s2) 1 in
    let long : length version ≤ n = omega arith in
    let read_version : substr tmp (s2 + 1) n ≡ some version =
      ap (λ t. substr t (s2 + 1) n)
        (sym (
          append_assoc name (32 ∷ (url ++ 32 ∷ [])) version
          ∙ ap (λ t. name ++ 32 ∷ t) (append_assoc url (32 ∷ []) version)))
      ∙ substr_behind (name ++ 32 ∷ (url ++ 32 ∷ [])) version (s2 + 1) n
          (omega (arith, length-append name (32 ∷ (url ++ 32 ∷ [])), length-append url (32 ∷ [])))
          long in
    let k = sub_size (sub_size s2 (length name)) 1 in
    let exact : k ≡ length url = omega arith in
    let read_url : substr tmp (length name + 1) k ≡ some url =
      ap (λ t. substr t (length name + 1) k)
        (sym (append_assoc name (32 ∷ []) (url ++ 32 ∷ version)))
      ∙ substr_inside (name ++ 32 ∷ []) url (32 ∷ version) (length name + 1) k
          (omega (arith, length-append name (32 ∷ []))) exact in
    let between : sub_size s2 (length name) ≡ length url + 1 = omega arith in
    rw (find_first_of-append 32 name (url ++ 32 ∷ version) v.method_spaces, last)
      (rw
        (
          two,
          substr_front name (32 ∷ (url ++ 32 ∷ version)),
          v.method_known,
          read_version,
          v.version_known,
          read_url,
          between,
        )
        (at_scheme-asks (record r { request_method = m; request_version = upper version }) l.url
          v.url_readable (omega arith)))
