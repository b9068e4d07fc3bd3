-- ===== src/Http/Servlet.antt =====
-- corpc/net/http/http_servlet.{h,cc}: what a servlet does to its response. The servlets of a program are
-- functions of the request and the response.
use corpc.Base.{ℕ, List, ◌++◌, length, codes}
use corpc.Text.{assign}
use corpc.Http.{HttpRequest, HttpResponse, assign_field, http_code_to_string, or_empty, to_text}

abbrev pub content_type_text : List ℕ
content_type_text = codes "text/html;charset=utf-8"

-- `sprintf` of `default_html_template` with a code and its text
abbrev pub default_html : List ℕ → List ℕ → List ℕ
default_html code info =
    codes "<html><body><h1>" ++ (code ++ (codes "</h1><p>" ++ (info ++ codes "</p></body></html>")))

abbrev pub set_http_code : HttpResponse → ℕ → HttpResponse
set_http_code res code = record res {
  response_code = code;
  response_info = http_code_to_string code;
}

abbrev pub set_http_content_type : HttpResponse → List ℕ → HttpResponse
set_http_content_type res content_type = record res {
  response_header = assign_field res.response_header (codes "Content-Type") content_type;
}

abbrev pub set_http_body : HttpResponse → List ℕ → HttpResponse
set_http_body res body = record res {
  response_body = body;
  response_header =
      assign_field res.response_header (codes "Content-Length") (to_text (length body));
}

-- The body, then the type and the length.
unfoldable pub handle_not_found : HttpRequest → HttpResponse → HttpResponse
handle_not_found req res =
    let named = set_http_code res 404 in
    let body = default_html (to_text 404) (http_code_to_string 404) in
    let typed = set_http_content_type (record named { response_body = body }) content_type_text in
    record typed {
      response_header =
          assign_field typed.response_header (codes "Content-Length") (to_text (length body));
    }

-- The request's map gets the key too, if it has not.
unfoldable pub set_comm_param : HttpRequest → HttpResponse → HttpRequest × HttpResponse
set_comm_param req res =
    let value = or_empty (req.request_header (codes "Connection")) in
    (
      record req { request_header = assign req.request_header (codes "Connection") value },
      record res {
        response_version = req.request_version;
        response_header = assign_field res.response_header (codes "Connection") value;
      },
    )
