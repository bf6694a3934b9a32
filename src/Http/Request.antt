-- ===== src/Http/Request.antt =====
-- HttpParser of src/net/http_parser.cpp and include/net/http_parser.h.
use high_performance_http_se.Common.{
  ℕ, ◌+◌, ◌-◌, Bool, true, false, not, ◌&&◌, ◌||◌, none, some, Bytes, codes, if◌then◌else◌, drop,
  is_empty, bytes_eq,
}
use high_performance_http_se.Http.Text.{find_byte, find_byte_from, substr}
use high_performance_http_se.Http.Message.{HttpRequest, new_request}
use high_performance_http_se.Http.Headers.{
  parse_generic_header_line, content_length_from, connection_keep_alive,
}
use high_performance_http_se.Http.Incremental
use high_performance_http_se.Http.Incremental.{Format, Parser, State, ParseStatus}

-- The checks at the end of `parseRequestLine`.
unfoldable pub request_line_accepted : HttpRequest → Bool
unfolding bytes_eq
request_line_accepted r =
    if is_empty r.method || is_empty r.target
    then false
    else if not (bytes_eq r.version (codes "HTTP/1.1"))
        && not (bytes_eq r.version (codes "HTTP/1.0"))
    then false
    else true

-- The fields of the line whose first two spaces are at `sp1` and `sp2`.
abbrev pub with_request_line : HttpRequest → Bytes → ℕ → ℕ → HttpRequest
with_request_line r line sp1 sp2 = record r {
  method = substr line 0 sp1;
  target = substr line (sp1 + 1) (sp2 - sp1 - 1);
  version = drop (sp2 + 1) line;
}

unfoldable pub parse_request_line : Bytes → HttpRequest → HttpRequest × Bool
parse_request_line line r = elim (find_byte b' ' line) [
  | none ↦ (r, false)
  | some sp1 ↦ elim (find_byte_from b' ' line (sp1 + 1)) [
    | none ↦ (r, false)
    | some sp2 ↦
        let parsed = with_request_line r line sp1 sp2 in (parsed, request_line_accepted parsed)
  ]
]

unfoldable pub parse_header_line : Bytes → HttpRequest → HttpRequest × Bool
parse_header_line line r =
    let (headers, ok) = parse_generic_header_line line r.headers in
    (record r { headers = headers }, ok)

unfoldable pub finalize_headers : HttpRequest → HttpRequest × ℕ
finalize_headers r = (
  record r { keep_alive = connection_keep_alive r.headers r.version },
  content_length_from r.headers,
)

abbrev pub request_format : Format HttpRequest
request_format = record {
  blank = new_request;
  parse_start_line = parse_request_line;
  parse_header_line = parse_header_line;
  finalize_headers = finalize_headers;
  set_body = λ body r. record r { body = body };
}

abbrev pub HttpParser : Type 0
HttpParser = Parser HttpRequest

abbrev pub new_parser : HttpParser
new_parser = Incremental.fresh request_format

-- Whatever the parser held is dropped, the bytes in the buffer too.
abbrev pub reset : HttpParser → HttpParser
reset p = Incremental.fresh request_format

abbrev pub process : HttpParser → HttpParser × ParseStatus
process = Incremental.process request_format

abbrev pub consume : HttpParser → Bytes → HttpParser × ParseStatus
consume = Incremental.consume request_format

abbrev pub is_done : HttpParser → Bool
is_done p = elim p.state [ State.complete ↦ true | _ ↦ false ]

abbrev pub has_failed : HttpParser → Bool
has_failed p = elim p.state [ State.error ↦ true | _ ↦ false ]
