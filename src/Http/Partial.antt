-- ===== src/Http/Partial.antt =====
-- `HttpCodeC::decode` on requests that have no headers, or not even an end of the headers.
use corpc.Base.{
  ℕ, ◌+◌, ◌^◌, ◌≤◌, ◌<◌, ◌≡◌, refl, sym, ap, ◌∙◌, true, false, none, some, List, [], ◌∷◌, ◌++◌,
  append_assoc, arith, length, length-append, ◌==◌,
}
use corpc.Buffer.{TcpBuffer}
use corpc.Buffer.Invariant.{IsValid, contents}
use corpc.Buffer.Consume.{get_buffer_string-contents}
use corpc.Text.{sub_size, substr, find, starts_with}
use corpc.Text.Words.{substr_front}
use corpc.Text.Cuts.{substr_behind}
use corpc.Text.Pairs.{IsFree}
use corpc.Http.{g_crlf, g_crlf_double, HttpMethod, HttpRequest}
use corpc.Http.Find.{find_behind}
use corpc.Http.RequestLine.{RequestLine, line_text, IsLine, with_line, parse_request_line-reads}
use corpc.Http.Codec.{decode}

-- While nothing but the first line with its CR LF has arrived, `decode` sets `decode_succ` on a request
-- that it has not parsed, and keeps the buffer as it is.
pub decode-line_only :
    (b : TcpBuffer) (r : HttpRequest) (line : List ℕ)
    → IsFree 13 line
    → IsValid b
    → contents b ≡ line ++ g_crlf
    → length (contents b) < 2 ^ 31
    → decode b r ≡ some (b, record r { decode_succ = true })
unfolding decode
decode-line_only b r line free v held bound =
    let size = ap length held ∙ length-append line g_crlf in
    let last : (length line == sub_size (length (line ++ g_crlf)) 2) ≡ true =
      ground (arith, length-append line g_crlf) in
    let there : find (line ++ g_crlf) g_crlf ≡ some (length line) =
      find_behind 13 (10 ∷ []) line [] free in
    rw (get_buffer_string-contents b v, held) (rw there (rw last refl))

no_double : find g_crlf g_crlf_double ≡ none
unfolding find starts_with
no_double = refl

-- A request that has no headers is not read as long as nothing has arrived behind it: when the buffer
-- holds its line and the empty line and no more, `decode` parses the line, keeps the buffer as it is
-- and leaves `decode_succ` as it was. The line has a known method and a known version, a URL that is a
-- path, behind a scheme and a host, and then not empty, or alone, and then without ://, with or without
-- a query of pairs key=value with & between them, with no NUL in a key and no separator inside of a
-- part, and no CR;
-- the text is shorter than 2^31 bytes and the buffer is valid.
pub decode-headless :
    (b : TcpBuffer) (r : HttpRequest) (m : HttpMethod) (l : RequestLine)
    → IsLine m l
    → IsValid b
    → contents b ≡ line_text l ++ g_crlf_double
    → length (contents b) < 2 ^ 31
    → decode b r ≡ some (b, with_line r m l)
unfolding decode
decode-headless b r m l v w held bound =
    let size = ap length held ∙ length-append (line_text l) g_crlf_double in
    let whole = line_text l ++ g_crlf_double in
    let n = sub_size (sub_size (length whole) 2) (length (line_text l)) in
    let size' = length-append (line_text l) g_crlf_double in
    let more : (length (line_text l) == sub_size (length whole) 2) ≡ false = ground arith in
    let there : find whole g_crlf ≡ some (length (line_text l)) =
      find_behind 13 (10 ∷ []) (line_text l) g_crlf v.no_return in
    let long : length g_crlf ≤ n = omega arith in
    let cut : substr whole (length (line_text l) + 2) n ≡ some g_crlf =
      ap (λ t. substr t (length (line_text l) + 2) n)
        (sym (append_assoc (line_text l) g_crlf g_crlf))
      ∙ substr_behind (line_text l ++ g_crlf) g_crlf (length (line_text l) + 2) n
          (omega (arith, length-append (line_text l) g_crlf)) long in
    let line = parse_request_line-reads r m l v (omega arith) in
    rw (get_buffer_string-contents b w, held)
      (rw there
        (rw (more, substr_front (line_text l) g_crlf_double, line) (rw (cut, no_double) refl)))
