-- ===== src/Http/Codec.antt =====
-- corpc/net/http/http_codec.cc: `decode` and `encode`, cut at their early returns.
use corpc.Base.{
  ℕ, suc, ◌+◌, ◌-◌, ◌^◌, Bool, true, false, not, Option, none, some, List, [], ◌∷◌, ◌++◌, length,
  codes, ltb, ◌==◌, if◌then◌else◌, same_text, ◌>>=◌,
}
use corpc.Base.Int.{ℤ, pos, negsuc, ◌+ℤ◌, ◌-ℤ◌, ltb_ℤ}
use corpc.Buffer.{TcpBuffer, get_buffer_string, recycle_read, write_to_buffer}
use corpc.Text.{substr, sub_size, find, assign, c_str, split_str_to_map}
use corpc.Http.{
  g_crlf, g_crlf_double, HttpMethod, get, post, HttpRequest, HttpResponse, to_http_string, to_text,
  atoi, or_empty,
}
use corpc.Http.Line.{parse_request_line}

unfoldable pub parse_request_header : HttpRequest → List ℕ → Option HttpRequest
parse_request_header r str =
    let split = split_str_to_map str g_crlf (codes ":") r.request_header >>= λ maps.
    some (record r { request_header = maps }) in
    if ltb (length str) 4 then some r else (if same_text str g_crlf_double then some r else split)

unfoldable pub parse_request_content : HttpRequest → List ℕ → HttpRequest
parse_request_content r [] = r
parse_request_content r (c ∷ str) = record r { request_body = c ∷ str }

abbrev pub touched : HttpRequest → HttpRequest
touched r = record r {
  request_header =
      assign r.request_header (codes "Content-Length")
        (or_empty (r.request_header (codes "Content-Length")));
}

unfoldable pub content_length : HttpRequest → Option ℤ
content_length r = atoi (c_str (or_empty (r.request_header (codes "Content-Length"))))

-- An int as the size_t that `substr` takes.
abbrev pub to_size : ℤ → ℕ
to_size (pos n) = n
to_size (negsuc n) = 2 ^ 64 - suc n

abbrev pub has_content : HttpMethod → ℤ → Bool
has_content get len = false
has_content post (pos n) = not (n == 0)
has_content post (negsuc n) = true

abbrev pub Decoded : Type 0
Decoded = TcpBuffer × HttpRequest

abbrev pub finish : TcpBuffer → HttpRequest → ℤ → Option Decoded
finish b r read_size = recycle_read b read_size >>= λ b'. some (b', record r { decode_succ = true })

-- `m_request_body` and the rest, once the length is known; `rest` is what follows the headers.
unfoldable pub take_content : TcpBuffer → HttpRequest → List ℕ → ℕ → List ℕ → ℤ → Option Decoded
take_content b r strs read_size rest content_len =
    let body = substr rest 0 (to_size content_len) >>= λ body.
    finish b (parse_request_content r body) (pos read_size +ℤ content_len) in
    let bare = finish b r (pos read_size) in
    let more = if has_content r.request_method content_len then body else bare in
    if ltb_ℤ (pos (length strs) -ℤ pos read_size) content_len then some (b, r) else more

unfoldable pub at_content : TcpBuffer → HttpRequest → List ℕ → ℕ → List ℕ → Option Decoded
at_content b r strs read_size rest =
    content_length r >>= λ content_len. take_content b (touched r) strs read_size rest content_len

abbrev pub at_header : TcpBuffer → HttpRequest → List ℕ → ℕ → List ℕ → Option ℕ → Option Decoded
at_header b r strs read_size tmp none = some (b, r)
at_header b r strs read_size tmp (some j) = substr tmp 0 j >>= λ head.
    parse_request_header r head >>= λ r'.
    substr tmp (j + 4) (sub_size (sub_size (length tmp) 4) j) >>= λ rest.
    at_content b r' strs (read_size + (j + 4)) rest

abbrev pub after_line : TcpBuffer → List ℕ → ℕ → Bool × HttpRequest → Option Decoded
after_line b strs i (false, r) = some (b, r)
after_line b strs i (true, r) =
    substr strs (i + 2) (sub_size (sub_size (length strs) 2) i) >>= λ tmp.
    at_header b r strs (i + 2) tmp (find tmp g_crlf_double)

-- When the line and its CR LF are all there is, the code breaks out of its loop.
abbrev pub at_line : TcpBuffer → HttpRequest → List ℕ → Option ℕ → Option Decoded
at_line b r strs none = some (b, r)
at_line b r strs (some i) =
    let next = substr strs 0 i >>= λ line. parse_request_line r line >>= after_line b strs i in
    if i == sub_size (length strs) 2 then some (b, record r { decode_succ = true }) else next

unfoldable pub decode : TcpBuffer → HttpRequest → Option Decoded
decode b r = get_buffer_string b >>= λ strs. at_line b r strs (find strs g_crlf)

unfoldable pub response_text : HttpResponse → List ℕ
response_text r =
    r.response_version
    ++ (codes " "
        ++ (to_text r.response_code
            ++ (codes " "
                ++ (r.response_info
                    ++ (g_crlf
                        ++ (to_http_string r.response_header ++ (g_crlf ++ r.response_body)))))))

unfoldable pub encode : TcpBuffer → HttpResponse → Option TcpBuffer
encode b r = write_to_buffer b (response_text r)
