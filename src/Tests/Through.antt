-- ===== src/Tests/Through.antt =====
-- A request for /health through the balancer, at the server of src/server.
use high_performance_http_se.Common.{◌≡◌, refl, sym, ap, [], ◌∷◌, codes, some, bytes_eq, arith}
use high_performance_http_se.Http.Text.{find_byte, find_text, trim, to_lower}
use high_performance_http_se.Http.Number.{strtol, decimal, int_text}
use high_performance_http_se.Http.Message
use high_performance_http_se.Http.Message.{
  HttpRequest, new_request, find_header, same_name, serialize, make_json_response,
}
use high_performance_http_se.Http.Headers.{
  content_length_from, connection_keep_alive, keep_alive_value,
}
use high_performance_http_se.Http.Incremental.{ParseStatus}
use high_performance_http_se.Http.Request
use high_performance_http_se.Http.Request.{HttpParser, request_line_accepted}
use high_performance_http_se.Http.Response
use high_performance_http_se.Http.Response.RoundTrip.{received}
use high_performance_http_se.Net.Connection.{Connection, new_connection}
use high_performance_http_se.Server.Router.{dispatch, get, assign, find}
use high_performance_http_se.Server.Routes.{server_router}
use high_performance_http_se.Lb.Proxy.{is_connection, c_string, forward_text, read_response}
use high_performance_http_se.Lb.Proxy.Forward.{IsForwardable, parser_with, consume-forward_text}
use high_performance_http_se.Lb.Proxy.{proxy_request}
use high_performance_http_se.Lb.Proxy.Answers.{Answers, proxy_request-Answers}
use high_performance_http_se.Tests.Witnesses.{half_down}
use high_performance_http_se.Lb.Proxy.Relay.{Chunk}
use high_performance_http_se.Lb.Proxy.Through.{answer_through, through_server}
use high_performance_http_se.Tests.Kernel.{World, kernel}

abbrev pub asked : HttpRequest
asked = record new_request {
  method = codes "GET";
  target = codes "/health";
  version = codes "HTTP/1.1";
  headers = [];
  body = [];
}

pub asked-IsForwardable : IsForwardable asked
unfolding find_byte find_text trim content_length_from find_header same_name strtol is_connection
    c_string to_lower bytes_eq request_line_accepted
asked-IsForwardable = record {
  accepted = refl;
  method_whole = refl;
  target_whole = refl;
  line_clean = refl;
  headers_printable = tt;
  length_true = refl;
}

abbrev server : Connection
server = record (new_connection 9) { parser = parser_with asked }

server-read : server.parser ≡ (Request.consume Request.new_parser (forward_text asked)).0
server-read =
    ap (λ (o : HttpParser × ParseStatus). o.0)
      (sym (consume-forward_text asked asked-IsForwardable))

abbrev health_answer : Chunk
health_answer = (
  b'H',
  codes
      "TTP/1.1 200 OK\r\nContent-Type: application/json\r\nContent-Length: 15\r\nConnection: close\r\n\r\n{\"status\":\"ok\"}",
)

abbrev health_world : World
health_world = record { out = []; reads = health_answer ∷ [] }

through_server_example :
    (read_response kernel 1 9 8192 Response.new_parser health_world).0
    ≡ some (received (answer_through 9001 asked))
unfolding serialize find_header decimal int_text Message.serialize_headers Message.finish_output
    dispatch server_router get assign find bytes_eq make_json_response connection_keep_alive
    keep_alive_value find_text
through_server_example =
    through_server kernel kernel 9001 asked server 9 8192 1 health_answer [] health_world
      asked-IsForwardable (omega arith) server-read refl (omega arith) (_, refl, tt)

proxy_request-Answers_example :
    Answers kernel 1 half_down health_world server
      (proxy_request kernel 1 half_down server health_world).1.0.0
      (proxy_request kernel 1 half_down server health_world).1.0.1
proxy_request-Answers_example = proxy_request-Answers kernel 1 half_down server health_world
