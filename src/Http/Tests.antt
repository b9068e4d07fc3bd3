-- ===== src/Http/Tests.antt =====
-- Small requests through the codec, the dispatcher and the connection.
use corpc.Base.{
  ℕ, ◌≡◌, refl, false, true, none, some, List, [], ◌∷◌, ◌++◌, length, codes, arith, same_text,
  if◌then◌else◌, ◌+◌, ◌<◌, ◌^◌,
}
use corpc.Base.Int.{pos}
use corpc.Buffer.{TcpBuffer, create}
use corpc.Buffer.Invariant.{IsValid, contents}
use corpc.Buffer.Refine.{Leaves}
use corpc.Text.{is_empty, find, starts_with, c_str}
use corpc.Text.Pairs.{query, joined}
use corpc.Text.Lines.{lines_between}
use corpc.Http.{
  g_crlf, g_crlf_double, get, post, HttpRequest, HttpResponse, find_field, or_empty, to_text,
  digits, atoi, skip_spaces, signed, number_from, set_key_value, to_http_string, assign_field,
  is_before,
}
use corpc.Http.Line.{upper, method_of, is_version}
use corpc.Http.Targets.{asking, bare, asks, target_text, url_text}
use corpc.Http.RequestLine.{RequestLine, line_text, IsLine, with_line}
use corpc.Http.Codec.{decode, content_length, touched, response_text, parse_request_content}
use corpc.Http.Requests.{Request, request_text, HasHead, IsRequest, Returns, received, with_head}
use corpc.Http.Decode.{decode-request, decode-waits}
use corpc.Http.Partial.{decode-line_only, decode-headless}
use corpc.Http.Servlet.{set_comm_param, set_http_body}
use corpc.Http.Length.{set_http_body-states}
use corpc.Http.Dispatcher.{
  ServletMap, register_servlet, handle_with, make_response, new_response, dispatch,
  dispatch-not_found, not_found_text,
}
use corpc.Http.Serving.{
  new_request, wire, answers, execute, execute_loop, execute-answers_requests, blank_answers,
  execute-endless,
}
use corpc.Connection.{TcpConnection, server_side}

-- POST /login?a=1 HTTP/1.1, with a Content-Length of 2 and a Host, and "hi".
abbrev login_line : RequestLine
login_line = record {
  method_name = codes "post";
  url =
      bare (asking (codes "/login") (record { first = 97; more = []; value = codes "1" }) [] false);
  version_name = codes "http/1.1";
}

abbrev login : Request
login = record {
  line = login_line;
  first = record { first = 67; more = codes "ontent-Length"; value = codes " 2" };
  more = record { first = 72; more = codes "ost"; value = codes "x" } ∷ [];
  body = codes "hi";
}

login_line_text : line_text login_line ≡ codes "post /login?a=1 http/1.1"
unfolding line_text url_text target_text query joined
login_line_text = refl

login_text :
    request_text login ≡ codes "post /login?a=1 http/1.1\r\nContent-Length: 2\r\nHost:x\r\n\r\nhi"
unfolding request_text line_text url_text target_text query joined lines_between
login_text = refl

login_line-IsLine : IsLine post login_line
unfolding upper method_of is_version same_text line_text url_text target_text query joined find
    starts_with
login_line-IsLine = record {
  method_spaces = omega arith;
  method_known = refl;
  url_readable = (
    (
      omega arith,
      (
        record {
          key_pieces = omega arith;
          value_pieces = omega arith;
          key_joiner = omega arith;
          key_ends = omega arith;
        },
        tt,
      ),
    ),
    refl,
  );
  version_spaces = omega arith;
  version_known = refl;
  no_return = omega arith;
}

login-HasHead : HasHead post login
unfolding lines_between
login-HasHead = record {
  line_read = login_line-IsLine;
  headers_apart = (
    record {
      plain = record {
        key_pieces = omega arith;
        value_pieces = omega arith;
        key_joiner = omega arith;
        key_ends = omega arith;
      };
      key_ends_not = omega arith;
      value_ends_not = omega arith;
    },
    (
      record {
        plain = record {
          key_pieces = omega arith;
          value_pieces = omega arith;
          key_joiner = omega arith;
          key_ends = omega arith;
        };
        key_ends_not = omega arith;
        value_ends_not = omega arith;
      },
      tt,
    ),
  );
  headers_long = omega arith;
}

login-length : content_length (with_head (new_request get) post login) ≡ some (pos 2)
unfolding content_length with_head with_line asks upper atoi skip_spaces signed number_from c_str
    same_text
login-length = refl

login-IsRequest : IsRequest (new_request get) post login
login-IsRequest = record {
  head_read = login-HasHead;
  fits_method = tt;
  length_stated = login-length;
}

-- A buffer that is full of the bytes.
abbrev holding : List ℕ → TcpBuffer
holding bytes = record { read_index = 0; write_index = length bytes; buffer = bytes }

abbrev login_bytes : List ℕ
login_bytes = codes "post /login?a=1 http/1.1\r\nContent-Length: 2\r\nHost:x\r\n\r\nhi"

holding-IsValid : (bytes : List ℕ) → IsValid (holding bytes)
holding-IsValid bytes = record { read_before_write = omega arith; write_in_buffer = omega arith }

login-held : contents (holding login_bytes) ≡ request_text login ++ []
unfolding request_text line_text url_text target_text query joined lines_between
login-held = refl

decode-request_example :
    Returns []
      (received (new_request get) post login)
      (decode (holding login_bytes) (new_request get))
decode-request_example =
    decode-request (holding login_bytes) (new_request get) post login [] login-IsRequest
      (holding-IsValid login_bytes) login-held (omega arith)

-- The same without its last byte.
abbrev short_login : Request
short_login = record login { body = codes "h" }

abbrev short_bytes : List ℕ
short_bytes = codes "post /login?a=1 http/1.1\r\nContent-Length: 2\r\nHost:x\r\n\r\nh"

short_held : contents (holding short_bytes) ≡ request_text short_login ++ []
unfolding request_text line_text url_text target_text query joined lines_between
short_held = refl

short-HasHead : HasHead post short_login
short-HasHead = record {
  line_read = login-HasHead.line_read;
  headers_apart = login-HasHead.headers_apart;
  headers_long = login-HasHead.headers_long;
}

short-length : content_length (with_head (new_request get) post short_login) ≡ some (pos 2)
unfolding with_head
short-length = login-length

decode-waits_example :
    (decode (holding short_bytes) (new_request get)
      ≡ some (holding short_bytes, touched (with_head (new_request get) post short_login)))
    × ((touched (with_head (new_request get) post short_login)).decode_succ ≡ false)
decode-waits_example =
    decode-waits (holding short_bytes) (new_request get) post short_login [] 2 short-HasHead
      short-length (omega arith) (holding-IsValid short_bytes) short_held (omega arith)

-- The first line alone, and with the empty line.
abbrev line_bytes : List ℕ
line_bytes = codes "post /login?a=1 http/1.1"

abbrev headless_bytes : List ℕ
headless_bytes = codes "post /login?a=1 http/1.1\r\n\r\n"

decode-line_only_example :
    decode (holding (line_bytes ++ g_crlf)) (new_request get)
    ≡ some (holding (line_bytes ++ g_crlf), record (new_request get) { decode_succ = true })
decode-line_only_example =
    decode-line_only (holding (line_bytes ++ g_crlf)) (new_request get) line_bytes (omega arith)
      (holding-IsValid (line_bytes ++ g_crlf)) refl (omega arith)

headless_held : contents (holding headless_bytes) ≡ line_text login_line ++ g_crlf_double
unfolding line_text url_text target_text query joined
headless_held = refl

decode-headless_example :
    decode (holding headless_bytes) (new_request get)
    ≡ some (holding headless_bytes, with_line (new_request get) post login_line)
decode-headless_example =
    decode-headless (holding headless_bytes) (new_request get) post login_line login_line-IsLine
      (holding-IsValid headless_bytes) headless_held (omega arith)

-- A servlet that answers with "ok".
abbrev say_ok : HttpRequest → HttpResponse → HttpResponse
say_ok req res = set_http_body res (codes "ok")

abbrev no_servlets : ServletMap
no_servlets path = none

servlets : ServletMap
servlets = register_servlet no_servlets (codes "/login") say_ok

-- The servlet that was registered first answers.
login_answer :
    answers (register_servlet servlets (codes "/login") (λ req res. res)) 0 get ((post, login) ∷ [])
    ≡ codes "HTTP/1.1 0 \r\nConnection:\r\nContent-Length:2\r\n\r\nok"
unfolding servlets answers register_servlet make_response handle_with set_comm_param received
    with_head with_line asks upper response_text to_http_string assign_field is_before digits
    same_text c_str is_empty parse_request_content
login_answer = refl

-- A server's connection that has received the bytes.
abbrev connection : List ℕ → TcpConnection
connection bytes = record (server_side 0) { read_buffer = holding bytes }

empty-IsValid : IsValid (create 0)
unfolding create
empty-IsValid = record { read_before_write = omega arith; write_in_buffer = omega arith }

login_short :
    (connection login_bytes).write_buffer.write_index
      + length (answers servlets 0 get ((post, login) ∷ []))
    < 2 ^ 30
unfolding servlets answers register_servlet make_response handle_with set_comm_param received
    with_head with_line asks upper response_text to_http_string assign_field is_before digits
    same_text c_str is_empty parse_request_content server_side create
login_short = omega arith

execute-answers_requests_example :
    (c' : TcpConnection) × (execute servlets 0 get (connection login_bytes) ≡ some (true, c'))
    × IsValid c'.read_buffer
    × (contents c'.read_buffer ≡ [])
    × IsValid c'.write_buffer
    × (contents c'.write_buffer
        ≡ contents (connection login_bytes).write_buffer
          ++ answers servlets 0 get ((post, login) ∷ []))
    × (c'.write_buffer.write_index < 2 ^ 30)
unfolding server_side wire
execute-answers_requests_example =
    execute-answers_requests servlets 0 get (connection login_bytes) ((post, login) ∷ []) refl
      (holding-IsValid login_bytes) empty-IsValid (omega arith) login-held (login-IsRequest, tt)
      login_short

blank_short :
    (connection (line_bytes ++ g_crlf)).write_buffer.write_index
      + length (blank_answers servlets 0 get 3)
    < 2 ^ 30
unfolding blank_answers response_text to_http_string is_before digits c_str server_side create
blank_short = omega arith

execute-endless_example :
    (c' : TcpConnection) × (execute_loop servlets 0 get 3 (connection (line_bytes ++ g_crlf))
      ≡ some (false, c'))
    × (c'.read_buffer ≡ holding (line_bytes ++ g_crlf))
    × (contents c'.write_buffer
        ≡ contents (connection (line_bytes ++ g_crlf)).write_buffer
          ++ blank_answers servlets 0 get 3)
    × (c'.write_buffer.write_index < 2 ^ 30)
unfolding server_side
execute-endless_example =
    execute-endless servlets 0 get line_bytes 3 (connection (line_bytes ++ g_crlf)) (omega arith)
      refl (holding-IsValid (line_bytes ++ g_crlf)) empty-IsValid refl (omega arith) blank_short

abbrev lost : HttpRequest
lost = record (new_request get) { request_path = codes "/no"; request_version = codes "HTTP/1.0" }

dispatch-not_found_example :
    Leaves (contents (create 0) ++ not_found_text lost) (dispatch no_servlets 0 lost (create 0))
dispatch-not_found_example =
    dispatch-not_found no_servlets 0 lost (create 0) (omega arith) refl empty-IsValid

set_http_body-states_example :
    ((set_http_body (new_response 0) (codes "hello")).response_body ≡ codes "hello")
    × (atoi (
          or_empty (
            find_field
              (set_http_body (new_response 0) (codes "hello")).response_header
              (codes "Content-Length")))
        ≡ some (pos 5))
    × (find_field (set_http_body (new_response 0) (codes "hello")).response_header (codes "Host")
        ≡ (if same_text (codes "Content-Length") (codes "Host")
            then some (to_text 5)
            else find_field (new_response 0).response_header (codes "Host")))
set_http_body-states_example =
    set_http_body-states (new_response 0) (codes "hello") (codes "Host") (omega arith)

-- A map is written in the order of its keys.
header_text :
    to_http_string
      (set_key_value (set_key_value [] (codes "b") (codes "2")) (codes "a") (codes "1"))
    ≡ codes "a:1\r\nb:2\r\n"
unfolding to_http_string set_key_value assign_field is_before same_text c_str
header_text = refl
