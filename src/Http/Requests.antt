-- ===== src/Http/Requests.antt =====
-- Whole requests as `HttpCodeC::decode` reads them: a line, headers and content.
use corpc.Base.{
  ℕ, suc, ◌+◌, ◌-◌, ◌^◌, ◌≤◌, ◌<◌, ◌≡◌, ◌≢◌, refl, sym, ap, ◌∙◌, true, false, Option, some, List,
  [], ◌∷◌, ◌++◌, append_assoc, arith, length, length-append, drop, drop-append_self, ◌==◌, ltb,
  same_text,
}
use corpc.Base.Int.{pos, ◌-ℤ◌, +ℤ_pos, ltb_ℤ}
use corpc.Buffer.{TcpBuffer}
use corpc.Buffer.Invariant.{IsValid, contents, length-contents}
use corpc.Buffer.Consume.{recycle_read-Leaves}
use corpc.Text.{find}
use corpc.Text.Words.{substr_front}
use corpc.Text.Pairs.{differ, Pair, piece, assign_all}
use corpc.Text.Lines.{AreLines, piece-IsFree, lines_between, split_str_to_map-lines}
use corpc.Http.{g_crlf, g_crlf_double, HttpMethod, get, post, HttpRequest}
use corpc.Http.Find.{find_past, find_behind, find_next}
use corpc.Http.RequestLine.{RequestLine, line_text, IsLine, with_line}
use corpc.Http.Codec.{
  parse_request_header, parse_request_content, touched, content_length, Decoded, has_content,
  finish, take_content,
}

pub record Request : Type 0 where
  pub line : RequestLine
  pub first : Pair
  pub more : List Pair
  pub body : List ℕ

abbrev pub head_text : Request → List ℕ
head_text q = lines_between 13 10 58 q.first q.more

unfoldable pub request_text : Request → List ℕ
request_text q = line_text q.line ++ (g_crlf ++ (head_text q ++ (g_crlf_double ++ q.body)))

-- A GET request has no content.
abbrev pub FitsMethod : HttpMethod → List ℕ → Type 0
FitsMethod get body = body ≡ []
FitsMethod post body = Unit

-- The request with its line and its headers.
unfoldable pub with_head : HttpRequest → HttpMethod → Request → HttpRequest
with_head r m q =
    let r' = with_line r m q.line in
    record r' { request_header = assign_all r'.request_header (q.first ∷ q.more) }

-- The codec takes no headers from a text of less than 4 characters.
pub record HasHead (m : HttpMethod) (q : Request) : Type 0 where
  pub line_read : IsLine m q.line
  pub headers_apart : AreLines 13 10 58 (q.first ∷ q.more)
  pub headers_long : 4 ≤ length (head_text q)

-- The length that the headers state is that of the content.
pub record IsRequest (r : HttpRequest) (m : HttpMethod) (q : Request) : Type 0 where
  pub head_read : HasHead m q
  pub fits_method : FitsMethod m q.body
  pub length_stated : content_length (with_head r m q) ≡ some (pos (length q.body))

pub length-request_text : (q : Request) → 0 < length (request_text q)
unfolding request_text
length-request_text q =
    omega (
      arith,
      length-append (line_text q.line) (g_crlf ++ (head_text q ++ (g_crlf_double ++ q.body))),
    )

unfoldable pub received : HttpRequest → HttpMethod → Request → HttpRequest
received r m q = record (parse_request_content (touched (with_head r m q)) q.body) {
  decode_succ = true;
}

-- The headers end where the first empty line is.
pub find_double-lines :
    (p : Pair) (ps : List Pair) (t : List ℕ)
    → AreLines 13 10 58 (p ∷ ps)
    → find (lines_between 13 10 58 p ps ++ (g_crlf_double ++ t)) g_crlf_double
      ≡ some (length (lines_between 13 10 58 p ps))
unfolding lines_between
find_double-lines p [] t (v, vs) =
    find_behind 13 (10 ∷ 13 ∷ 10 ∷ []) (piece 13 58 p) t
      (piece-IsFree 13 10 58 (λ e. omega arith) p v)
find_double-lines p (q ∷ ps) t (v, (w, vs)) =
    let x = piece 13 58 p in
    let y = lines_between 13 10 58 q ps in
    let later = find_double-lines q ps t (w, vs) in
    ap (λ l. find l g_crlf_double) (append_assoc x (13 ∷ 10 ∷ y) (g_crlf_double ++ t))
    ∙ find_past 13 (10 ∷ 13 ∷ 10 ∷ []) x (13 ∷ 10 ∷ (y ++ (g_crlf_double ++ t)))
        (suc (suc (length y))) (piece-IsFree 13 10 58 (λ e. omega arith) p v)
        (second q ps (w, tt) later)
    ∙ ap some (omega (arith, length-append x (13 ∷ 10 ∷ y)))
  where
    second :
        (q : Pair) (ps : List Pair)
        → AreLines 13 10 58 (q ∷ [])
        → find (lines_between 13 10 58 q ps ++ (g_crlf_double ++ t)) g_crlf_double
          ≡ some (length (lines_between 13 10 58 q ps))
        → find (13 ∷ 10 ∷ (lines_between 13 10 58 q ps ++ (g_crlf_double ++ t))) g_crlf_double
          ≡ some (suc (suc (length (lines_between 13 10 58 q ps))))
    second q [] (w, u) later = find_next q.first _ _ (w.plain.key_pieces.0) later
    second q (q' ∷ ps) (w, u) later = find_next q.first _ _ (w.plain.key_pieces.0) later

not_double :
    (p : Pair) (ps : List Pair)
    → 13 ≢ p.first
    → same_text (lines_between 13 10 58 p ps) g_crlf_double ≡ false
unfolding lines_between same_text
not_double p [] ne =
    let e : (p.first == 13) ≡ false = differ p.first 13 (λ e. ne (sym e)) in rw e refl
not_double p (q ∷ ps) ne =
    let e : (p.first == 13) ≡ false = differ p.first 13 (λ e. ne (sym e)) in rw e refl

pub parse_request_header-reads :
    (r : HttpRequest) (p : Pair) (ps : List Pair)
    → AreLines 13 10 58 (p ∷ ps)
    → 4 ≤ length (lines_between 13 10 58 p ps)
    → length (lines_between 13 10 58 p ps) + 2 < 2 ^ 31
    → parse_request_header r (lines_between 13 10 58 p ps)
      ≡ some (record r { request_header = assign_all r.request_header (p ∷ ps) })
unfolding parse_request_header
parse_request_header-reads r p ps (v, vs) long bound =
    let t = lines_between 13 10 58 p ps in
    let enough : ltb (length t) 4 ≡ false = ground arith in
    let other = not_double p ps (v.plain.key_pieces.0) in
    let maps =
      split_str_to_map-lines 13 10 58 (λ e. omega arith) (λ e. omega arith) p ps r.request_header
        (v, vs) bound in
    rw (enough, other) (rw maps refl)

pub -ℤ_pos : (a b : ℕ) → b ≤ a → pos a -ℤ pos b ≡ pos (a - b)
unfolding ◌-ℤ◌
-ℤ_pos a b h = ground arith

-- A call that returns with the request and a valid buffer that holds what comes behind it.
abbrev pub Returns : List ℕ → HttpRequest → Option Decoded → Type 0
Returns bytes r result = (b : TcpBuffer) × (result ≡ some (b, r)) × IsValid b × (contents b ≡ bytes)

finish-Returns :
    (b : TcpBuffer) (r : HttpRequest) (x t : List ℕ) (k : ℕ)
    → IsValid b
    → contents b ≡ x ++ t
    → k ≡ length x
    → Returns t (record r { decode_succ = true }) (finish b r (pos k))
finish-Returns b r x t k v held e =
    let size = sym (length-contents b v) ∙ ap length held ∙ length-append x t in
    let (b', e', v', c) = recycle_read-Leaves b k v (omega arith) in
    (b', rw e' refl, v', c ∙ ap (drop k) held ∙ ap (λ k. drop k (x ++ t)) e ∙ drop-append_self x t)

-- The content of a request whose line and headers are `x`.
pub take_content-Returns :
    (b : TcpBuffer) (r : HttpRequest) (x body t : List ℕ) (k : ℕ)
    → IsValid b
    → contents b ≡ x ++ (body ++ t)
    → k ≡ length x
    → FitsMethod r.request_method body
    → Returns t
        (record (parse_request_content r body) { decode_succ = true })
        (take_content b r (x ++ (body ++ t)) k (body ++ t) (pos (length body)))
unfolding take_content parse_request_content
take_content-Returns b r x [] t k v held e fits =
    let size = length-append x t in
    let there : ltb_ℤ (pos (length (x ++ t)) -ℤ pos k) (pos 0) ≡ false =
      rw (-ℤ_pos (length (x ++ t)) k (omega arith)) (ground arith) in
    let none_left : has_content r.request_method (pos 0) ≡ false = no_content r.request_method in
    rw (there, none_left) (finish-Returns b r x t k v held e)
  where
    no_content : (m : HttpMethod) → has_content m (pos 0) ≡ false
    no_content get = refl
    no_content post = refl
take_content-Returns b r x (a ∷ body) t k v held e fits =
    let full = a ∷ body in
    let size = length-append x (full ++ t) in
    let size' = length-append full t in
    let there : ltb_ℤ (pos (length (x ++ (full ++ t))) -ℤ pos k) (pos (length full)) ≡ false =
      rw (-ℤ_pos (length (x ++ (full ++ t))) k (omega arith)) (ground arith) in
    let some_left : has_content r.request_method (pos (length full)) ≡ true =
      with_content r.request_method fits in
    rw (there, some_left)
      (rw (substr_front full t, +ℤ_pos k (length full))
        (finish-Returns b (record r { request_body = full }) (x ++ full) t (k + length full) v
          (held ∙ sym (append_assoc x full t)) (omega (arith, length-append x full))))
  where
    with_content :
        (m : HttpMethod) → FitsMethod m (a ∷ body) → has_content m (pos (suc (length body))) ≡ true
    with_content get h = cc
    with_content post h = ground arith
