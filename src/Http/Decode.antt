-- ===== src/Http/Decode.antt =====
-- `HttpCodeC::decode` on a buffer that begins with a whole request.
use corpc.Base.{
  ℕ, ◌+◌, ◌^◌, ◌≤◌, ◌<◌, ◌≡◌, refl, sym, ap, ◌∙◌, true, false, some, List, [], ◌∷◌, ◌++◌,
  append_assoc, arith, length, length-append, ◌==◌, subst,
}
use corpc.Base.Int.{pos, ◌-ℤ◌, ltb_ℤ}
use corpc.Buffer.{TcpBuffer}
use corpc.Buffer.Invariant.{IsValid, contents}
use corpc.Buffer.Consume.{get_buffer_string-contents}
use corpc.Text.{sub_size, substr, find}
use corpc.Text.Words.{substr_front}
use corpc.Text.Cuts.{substr_behind}
use corpc.Http.{g_crlf, g_crlf_double, HttpMethod, HttpRequest}
use corpc.Http.Find.{find_behind}
use corpc.Http.Targets.{Target, plain, asking, asks, target_of}
use corpc.Http.RequestLine.{line_text, with_line, parse_request_line-reads}
use corpc.Http.Codec.{at_content, at_header, take_content, at_line, decode, touched, content_length}
use corpc.Http.Requests.{
  Request, head_text, request_text, FitsMethod, HasHead, -ℤ_pos, with_head, IsRequest, received,
  find_double-lines, parse_request_header-reads, Returns, take_content-Returns,
}

asks-request_method : (r : HttpRequest) (t : Target) → (asks r t).request_method ≡ r.request_method
unfolding asks
asks-request_method r (plain path) = refl
asks-request_method r (asking path p ps ended) = refl

asks-decode_succ : (r : HttpRequest) (t : Target) → (asks r t).decode_succ ≡ r.decode_succ
unfolding asks
asks-decode_succ r (plain path) = refl
asks-decode_succ r (asking path p ps ended) = refl

with_head-request_method :
    (r : HttpRequest) (m : HttpMethod) (q : Request) → (with_head r m q).request_method ≡ m
unfolding with_head with_line
with_head-request_method r m q = asks-request_method _ (target_of q.line.url)

with_head-decode_succ :
    (r : HttpRequest) (m : HttpMethod) (q : Request) → (with_head r m q).decode_succ ≡ r.decode_succ
unfolding with_head with_line
with_head-decode_succ r m q = asks-decode_succ _ (target_of q.line.url)

module _ (b : TcpBuffer) (r : HttpRequest) (m : HttpMethod) (q : Request) (rest : List ℕ) where
  abbrev behind_head : List ℕ
  behind_head = q.body ++ rest

  abbrev behind_line : List ℕ
  behind_line = head_text q ++ (g_crlf_double ++ behind_head)

  abbrev whole : List ℕ
  whole = line_text q.line ++ (g_crlf ++ behind_line)

  abbrev front : List ℕ
  front = line_text q.line ++ (g_crlf ++ (head_text q ++ g_crlf_double))

  whole_lem : request_text q ++ rest ≡ whole
  unfolding request_text
  whole_lem =
      append_assoc (line_text q.line) (g_crlf ++ (head_text q ++ (g_crlf_double ++ q.body))) rest
      ∙ ap (λ t. line_text q.line ++ (g_crlf ++ t))
          (append_assoc (head_text q) (g_crlf_double ++ q.body) rest)

  front_lem : front ++ behind_head ≡ whole
  front_lem =
      append_assoc (line_text q.line) (g_crlf ++ (head_text q ++ g_crlf_double)) behind_head
      ∙ ap (λ t. line_text q.line ++ (g_crlf ++ t))
          (append_assoc (head_text q) g_crlf_double behind_head)

  abbrev head_size : ℕ
  head_size = length (line_text q.line) + 2 + (length (head_text q) + 4)

  length-whole : length whole ≡ head_size + length behind_head
  length-whole = omega (
    arith,
    length-append (line_text q.line) (g_crlf ++ behind_line),
    length-append (head_text q) (g_crlf_double ++ behind_head),
  )

  at_header-with_head :
      HasHead m q
      → length whole < 2 ^ 31
      → at_header b
          (with_line r m q.line)
          whole
          (length (line_text q.line) + 2)
          behind_line
          (find behind_line g_crlf_double)
        ≡ at_content b (with_head r m q) whole head_size behind_head
  unfolding with_head
  at_header-with_head v bound =
      let size = length-whole in
      let size' = length-append (head_text q) (g_crlf_double ++ behind_head) in
      let n = sub_size (sub_size (length behind_line) 4) (length (head_text q)) in
      let long : length behind_head ≤ n = omega arith in
      let cut : substr behind_line (length (head_text q) + 4) n ≡ some behind_head =
        ap (λ t. substr t (length (head_text q) + 4) n)
          (sym (append_assoc (head_text q) g_crlf_double behind_head))
        ∙ substr_behind (head_text q ++ g_crlf_double) behind_head (length (head_text q) + 4) n
            (omega (arith, length-append (head_text q) g_crlf_double)) long in
      let headers =
        parse_request_header-reads (with_line r m q.line) q.first q.more v.headers_apart
          v.headers_long (omega arith) in
      rw (find_double-lines q.first q.more behind_head v.headers_apart)
        (rw (substr_front (head_text q) (g_crlf_double ++ behind_head), headers) (rw cut refl))

  at_line-with_head :
      HasHead m q
      → length whole < 2 ^ 31
      → at_line b r whole (find whole g_crlf)
        ≡ at_content b (with_head r m q) whole head_size behind_head
  at_line-with_head v bound =
      let size = length-whole in
      let size' = length-append (head_text q) (g_crlf_double ++ behind_head) in
      let n = sub_size (sub_size (length whole) 2) (length (line_text q.line)) in
      let long : length behind_line ≤ n = omega arith in
      let cut : substr whole (length (line_text q.line) + 2) n ≡ some behind_line =
        ap (λ t. substr t (length (line_text q.line) + 2) n)
          (sym (append_assoc (line_text q.line) g_crlf behind_line))
        ∙ substr_behind (line_text q.line ++ g_crlf) behind_line (length (line_text q.line) + 2) n
            (omega (arith, length-append (line_text q.line) g_crlf)) long in
      let more : (length (line_text q.line) == sub_size (length whole) 2) ≡ false = ground arith in
      let line = parse_request_line-reads r m q.line v.line_read (omega arith) in
      rw (find_behind 13 (10 ∷ []) (line_text q.line) behind_line v.line_read.no_return) (
        rw (more, substr_front (line_text q.line) (g_crlf ++ behind_line), line)
          (rw cut (at_header-with_head v bound)))

  -- Up to the content, whatever follows the headers.
  decode-with_head :
      HasHead m q
      → IsValid b
      → contents b ≡ whole
      → length (contents b) < 2 ^ 31
      → decode b r ≡ at_content b (with_head r m q) whole head_size behind_head
  unfolding decode
  decode-with_head v w held bound =
      let size = ap length held in
      rw (get_buffer_string-contents b w, held) (at_line-with_head v (omega arith))

  -- A request whose text stands first in the buffer is read whole, whatever stands behind it:
  -- `decode` returns, sets the method, the version in upper case, the path, the query and its map,
  -- the headers, the content and `decode_succ`, and takes exactly the text of the request out of the
  -- buffer. The method and the version are known; the URL is a
  -- path, behind a scheme and a host, and then not empty, or alone, and then without ://, and with or
  -- without a query of pairs key=value with & between them and with or without one behind the last; the headers are one or more lines
  -- key:value, whose text has at least 4 characters; no key has a NUL, no separator stands
  -- inside of a part, and the line has no CR. The Content-Length that the headers state is the length
  -- of the content, and a GET request has none. The buffer is valid and holds less than 2^31 bytes.
  pub decode-request :
      IsRequest r m q
      → IsValid b
      → contents b ≡ request_text q ++ rest
      → length (contents b) < 2 ^ 31
      → Returns rest (received r m q) (decode b r)
  unfolding at_content received
  decode-request v w held bound =
      let fits : FitsMethod (touched (with_head r m q)).request_method q.body =
        subst (λ m. FitsMethod m q.body) (sym (with_head-request_method r m q)) v.fits_method in
      let front_size = sym (length-append front behind_head) ∙ ap length front_lem ∙ length-whole in
      rw (decode-with_head v.head_read w (held ∙ whole_lem) bound) (
        rw (v.length_stated, ← front_lem)
          (take_content-Returns b (touched (with_head r m q)) front q.body rest head_size w
            (held ∙ whole_lem ∙ sym front_lem) (omega arith) fits))

  -- While less is there than the Content-Length states, `decode` returns, keeps the buffer as it is,
  -- and leaves `decode_succ` as it was: the line and the headers are read again when more has arrived.
  -- The method and the version are known; the URL is a
  -- path, behind a scheme and a host, and then not empty, or alone, and then without ://, and with or
  -- without a query of pairs key=value with & between them and with or without one behind the last; the headers are one or more lines
  -- key:value, whose text has at least 4 characters; no key has a NUL, no separator stands inside of
  -- a part, and the line has no CR. The buffer is valid and holds less than 2^31 bytes.
  pub decode-waits :
      (n : ℕ)
      → HasHead m q
      → content_length (with_head r m q) ≡ some (pos n)
      → length (q.body ++ rest) < n
      → IsValid b
      → contents b ≡ request_text q ++ rest
      → length (contents b) < 2 ^ 31
      → (decode b r ≡ some (b, touched (with_head r m q)))
        × ((touched (with_head r m q)).decode_succ ≡ r.decode_succ)
  unfolding at_content take_content
  decode-waits n v stated less w held bound =
      let size = length-whole in
      let missing : ltb_ℤ (pos (length whole) -ℤ pos head_size) (pos n) ≡ true =
        rw (-ℤ_pos (length whole) head_size (omega arith)) (ground arith) in
      (
        decode-with_head v w (held ∙ whole_lem) bound ∙ (rw stated (rw missing refl)),
        with_head-decode_succ r m q,
      )
