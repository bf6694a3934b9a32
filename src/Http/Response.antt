-- ===== src/Http/Response.antt =====
-- HttpResponseParser of src/net/http_parser.cpp and include/net/http_parser.h.
pub mod StatusLine
pub mod Json
pub mod RoundTrip
use high_performance_http_se.Common.{
  ℕ, suc, ◌+◌, ◌-◌, Bool, true, false, not, ◌&&◌, ◌||◌, [], Option, none, some, Bytes, codes,
  if◌then◌else◌, drop, ltb, length, bytes_eq,
}
use high_performance_http_se.Http.Text.{find_byte, find_byte_from, substr}
use high_performance_http_se.Http.Number.{ℤ, strtol, to_int}
use high_performance_http_se.Http.Message.{HttpResponse, new_response}
use high_performance_http_se.Http.Headers.{
  parse_generic_header_line, content_length_from, connection_keep_alive,
}
use high_performance_http_se.Http.Incremental
use high_performance_http_se.Http.Incremental.{Format, Parser, ParseStatus}

-- `sp2`, which is the end of the line where there is no second space.
abbrev pub second_space : Bytes → ℕ → ℕ
second_space line sp1 = elim (find_byte_from b' ' line (sp1 + 1)) [
  | none ↦ length line
  | some sp2 ↦ sp2
]

-- The part of `parseStatusLine` behind the spaces.
unfoldable pub parse_status_fields : Bytes → HttpResponse → ℕ → ℕ → HttpResponse × Bool
parse_status_fields line r sp1 sp2 =
    let version = substr line 0 sp1 in
    if not (bytes_eq version (codes "HTTP/1.1")) && not (bytes_eq version (codes "HTTP/1.0"))
    then (r, false)
    else elim (strtol (substr line (sp1 + 1) (sp2 - sp1 - 1))) [
      | none ↦ (r, false)
      | some status ↦ (
        record r {
          status = to_int status;
          reason = if ltb sp2 (length line) then drop (sp2 + 1) line else [];
        },
        true,
      )
    ]

unfoldable pub parse_status_line : Bytes → HttpResponse → HttpResponse × Bool
parse_status_line line r = elim (find_byte b' ' line) [
  | none ↦ (r, false)
  | some sp1 ↦ parse_status_fields line r sp1 (second_space line sp1)
]

unfoldable pub parse_header_line : Bytes → HttpResponse → HttpResponse × Bool
parse_header_line line r =
    let (headers, ok) = parse_generic_header_line line r.headers in
    (record r { headers = headers }, ok)

-- A response counts as HTTP/1.1, whatever its status line says.
unfoldable pub finalize_headers : HttpResponse → HttpResponse × ℕ
finalize_headers r = (
  record r { keep_alive = connection_keep_alive r.headers (codes "HTTP/1.1") },
  content_length_from r.headers,
)

abbrev pub response_format : Format HttpResponse
response_format = record {
  blank = new_response;
  parse_start_line = parse_status_line;
  parse_header_line = parse_header_line;
  finalize_headers = finalize_headers;
  set_body = λ body r. record r { body = body };
}

abbrev pub HttpResponseParser : Type 0
HttpResponseParser = Parser HttpResponse

abbrev pub new_parser : HttpResponseParser
new_parser = Incremental.fresh response_format

abbrev pub reset : HttpResponseParser → HttpResponseParser
reset p = Incremental.fresh response_format

abbrev pub process : HttpResponseParser → HttpResponseParser × ParseStatus
process = Incremental.process response_format

abbrev pub consume : HttpResponseParser → Bytes → HttpResponseParser × ParseStatus
consume = Incremental.consume response_format
