-- ===== src/Tests/Http.antt =====
-- Runs of the HTTP functions on small inputs.
use high_performance_http_se.Common.{ℕ, ◌≡◌, refl, codes, bytes_eq}
use high_performance_http_se.Http.Text.{
  to_lower, trim, find_byte, find_byte_from, find_text, extract_line,
}
use high_performance_http_se.Http.Number.{strtol, pos, to_int, int_text}
use high_performance_http_se.Http.Message.{
  serialize, serialize_headers, make_json_response, find_header,
}
use high_performance_http_se.Http.Headers.{
  parse_generic_header_line, content_length_from, connection_keep_alive, keep_alive_value,
}
use high_performance_http_se.Http.Incremental.{ParseStatus, State, Parser}
use high_performance_http_se.Http.Incremental
use high_performance_http_se.Http.Request.{
  request_format, parse_request_line, request_line_accepted,
}
use high_performance_http_se.Http.Request
use high_performance_http_se.Http.Response

-- A test that runs a parser names this one definition on its line.
unfoldable runs : ℕ
unfolding Request.parse_request_line Request.parse_header_line Request.finalize_headers
    Request.request_line_accepted Incremental.fresh Incremental.consume Incremental.process
    Incremental.read_start_line Incremental.take_start_line Incremental.read_headers
    Incremental.header_loop Incremental.end_headers Incremental.take_header_line
    Incremental.read_body Incremental.append_bytes extract_line find_byte find_byte_from trim
    bytes_eq parse_generic_header_line content_length_from connection_keep_alive keep_alive_value
    find_header strtol to_lower find_text Response.parse_status_line Response.parse_status_fields
    Response.parse_header_line Response.finalize_headers to_int serialize make_json_response
    serialize_headers int_text
runs = 0

get_root :
    (Request.consume Request.new_parser
      (codes "GET / HTTP/1.1\r\nhost:  a b \r\nContent-Length: 2\r\n\r\nhixx")).1
    ≡ ParseStatus.complete
unfolding runs
get_root = refl

get_root_body :
    (Request.consume Request.new_parser
      (codes "GET / HTTP/1.1\r\nhost:  a b \r\nContent-Length: 2\r\n\r\nhixx")).0.message.body
    ≡ codes "hi"
unfolding runs
get_root_body = refl

response_text :
    serialize (make_json_response (pos 200) (codes "OK") (codes "{}"))
    ≡ codes
        "HTTP/1.1 200 OK\r\nContent-Type: application/json\r\nContent-Length: 2\r\nConnection: keep-alive\r\n\r\n{}"
unfolding runs
response_text = refl
