-- ===== src/Http/Dispatcher.antt =====
-- corpc/net/http/http_dispatcher.{h,cc}: the servlet of a path answers, or the one for paths that are
-- not found.
use corpc.Base.{
  ℕ, ◌+◌, ◌≤◌, ◌<◌, ◌≡◌, refl, ap, false, Option, none, some, List, [], ◌∷◌, ◌++◌, append_assoc,
  length, codes, same_text, if◌then◌else◌, arith,
}
use corpc.Text.{is_empty}
use corpc.Buffer.{TcpBuffer}
use corpc.Buffer.Invariant.{IsValid, contents}
use corpc.Buffer.Refine.{Leaves, write_to_buffer-Leaves}
use corpc.Buffer.Growth.{write_to_buffer-write_index}
use corpc.Http.{
  HttpRequest, HttpResponse, or_empty, is_before, assign_field, to_http_string, digits,
  http_code_to_string,
}
use corpc.Http.Codec.{encode, response_text}
use corpc.Http.Servlet.{handle_not_found, set_comm_param}

abbrev pub HttpServlet : Type 0
HttpServlet = HttpRequest → HttpResponse → HttpResponse

-- `m_servlets`
abbrev pub ServletMap : Type 0
ServletMap = List ℕ → Option HttpServlet

-- The first servlet of a path stays.
unfoldable pub register_servlet : ServletMap → List ℕ → HttpServlet → ServletMap
register_servlet servlets path servlet = elim (servlets path) [
  | none ↦ λ key. if same_text key path then some servlet else servlets key
  | some old ↦ servlets
]

-- `HttpResponse response`, whose code is what the memory holds.
abbrev pub new_response : ℕ → HttpResponse
new_response unset = record {
  response_version = [];
  response_code = unset;
  response_info = [];
  response_header = [];
  response_body = [];
}

unfoldable pub handle_with : Option HttpServlet → HttpRequest → HttpResponse → HttpResponse
handle_with none req res = let (req', res') = set_comm_param req res in handle_not_found req' res'
handle_with (some handle) req res = let (req', res') = set_comm_param req res in handle req' res'

unfoldable pub make_response : ServletMap → ℕ → HttpRequest → HttpResponse
make_response servlets unset req =
    let handled = handle_with (servlets req.request_path) req (new_response unset) in
    if is_empty req.request_path then new_response unset else handled

unfoldable pub dispatch : ServletMap → ℕ → HttpRequest → TcpBuffer → Option TcpBuffer
dispatch servlets unset req out = encode out (make_response servlets unset req)

pub dispatch-Leaves :
    (servlets : ServletMap) (unset : ℕ) (req : HttpRequest) (out : TcpBuffer)
    → IsValid out
    → Leaves
        (contents out ++ response_text (make_response servlets unset req))
        (dispatch servlets unset req out)
unfolding dispatch encode
dispatch-Leaves servlets unset req out v =
    write_to_buffer-Leaves out (response_text (make_response servlets unset req)) v

pub dispatch-write_index :
    (servlets : ServletMap) (unset : ℕ) (req : HttpRequest) (out : TcpBuffer) {out' : TcpBuffer}
    → dispatch servlets unset req out ≡ some out'
    → out'.write_index ≤ out.write_index + length (response_text (make_response servlets unset req))
unfolding dispatch encode
dispatch-write_index servlets unset req out put =
    write_to_buffer-write_index out (response_text (make_response servlets unset req)) put

-- The page for a path that has no servlet.
abbrev pub not_found_text : HttpRequest → List ℕ
not_found_text req =
    req.request_version
    ++ (codes " 404 Not Found\r\nConnection:"
        ++ (or_empty (req.request_header (codes "Connection"))
            ++ codes
                "\r\nContent-Length:54\r\nContent-Type:text/html;charset=utf-8\r\n\r\n<html><body><h1>404</h1><p>Not Found</p></body></html>"))

pub is_empty-named : (path : List ℕ) → 0 < length path → is_empty path ≡ false
unfolding is_empty
is_empty-named [] h = absurd (omega arith)
is_empty-named (c ∷ path) h = refl

not_found_response :
    (servlets : ServletMap) (unset : ℕ) (req : HttpRequest)
    → 0 < length req.request_path
    → servlets req.request_path ≡ none
    → response_text (make_response servlets unset req) ≡ not_found_text req
unfolding make_response handle_with set_comm_param handle_not_found response_text to_http_string
    assign_field digits http_code_to_string is_before same_text is_empty
not_found_response servlets unset req named unknown =
    let value = or_empty (req.request_header (codes "Connection")) in
    rw (is_empty-named req.request_path named, unknown)
      (ap (λ t. req.request_version ++ (codes " 404 Not Found\r\nConnection:" ++ t))
        (append_assoc value
          (codes "\r\nContent-Length:54\r\nContent-Type:text/html;charset=utf-8\r\n")
          (codes "\r\n<html><body><h1>404</h1><p>Not Found</p></body></html>")))

-- A request with a path that no servlet is registered for is answered with the page for 404, with
-- the version and the Connection header of the request.
pub dispatch-not_found :
    (servlets : ServletMap) (unset : ℕ) (req : HttpRequest) (out : TcpBuffer)
    → 0 < length req.request_path
    → servlets req.request_path ≡ none
    → IsValid out
    → Leaves (contents out ++ not_found_text req) (dispatch servlets unset req out)
dispatch-not_found servlets unset req out named unknown v =
    rw (← not_found_response servlets unset req named unknown)
      (dispatch-Leaves servlets unset req out v)
