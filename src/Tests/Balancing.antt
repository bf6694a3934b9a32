-- ===== src/Tests/Balancing.antt =====
-- The theorems of the load balancer's proxy and of its health checker at inputs that meet their
-- hypotheses.
use high_performance_http_se.Common.{◌≡◌, refl, true, false, [], ◌∷◌, some, codes, arith}
use high_performance_http_se.Http.Number.{pos, strtol, decimal, int_text}
use high_performance_http_se.Http.Text.{find_text}
use high_performance_http_se.Http.Message.{
  HttpRequest, HttpResponse, serialize, find_header, new_response, new_request, make_json_response,
}
use high_performance_http_se.Http.Headers.{content_length_from}
use high_performance_http_se.Http.Message
use high_performance_http_se.Http.Response
use high_performance_http_se.Http.Response.RoundTrip.{IsSendable, received}
use high_performance_http_se.Lb.UpstreamPool.{pick_next}
use high_performance_http_se.Tests.Kernel.{World, kernel}
use high_performance_http_se.Lb.HealthChecker.{is_ok_status, probe_once, probe_pool}
use high_performance_http_se.Lb.HealthChecker.Verdict.{
  AgreesWithPass, probe_once-serialize, pick_next-probe_pool,
}
use high_performance_http_se.Net.Connection.{new_connection}
use high_performance_http_se.Lb.Proxy.{answer_client, read_response}
use high_performance_http_se.Lb.Proxy.Relay.{
  read_response-serialize, asking, answer_client-ignores_keep_alive,
}
use high_performance_http_se.Tests.Witnesses.{
  ok_response, ok_response-IsSendable, upstream_at, half_down,
}

abbrev in_two_reads : World
in_two_reads = record {
  out = [];
  reads =
      (b'H', codes "TTP/1.1 200 OK\r\nContent-Le")
      ∷ (b'n', codes "gth: 2\r\nConnection: keep-alive\r\n\r\nhi")
      ∷ [];
}

read_response-serialize_example :
    (read_response kernel 2 9 8192 Response.new_parser in_two_reads).0 ≡ some (received ok_response)
unfolding serialize find_header decimal int_text Message.serialize_headers Message.finish_output
read_response-serialize_example =
    read_response-serialize kernel 9 8192 ok_response (b'H', codes "TTP/1.1 200 OK\r\nContent-Le")
      ((b'n', codes "gth: 2\r\nConnection: keep-alive\r\n\r\nhi") ∷ []) 2 in_two_reads
      ok_response-IsSendable refl (omega arith) (_, refl, (_, refl, tt))

answer_client-ignores_keep_alive_example :
    (answer_client kernel
      (asking (new_connection 5) true)
      (some (received ok_response))).0.write_buffer
    ≡ (answer_client kernel
        (asking (new_connection 5) false)
        (some (received ok_response))).0.write_buffer
answer_client-ignores_keep_alive_example =
    answer_client-ignores_keep_alive kernel (new_connection 5) ok_response true false

abbrev not_found : HttpResponse
not_found = record ok_response { status = pos 404; reason = codes "Not Found" }

not_found-IsSendable : IsSendable not_found
unfolding find_text content_length_from find_header decimal strtol
not_found-IsSendable = record {
  code = 404;
  status_is = refl;
  code_small = omega arith;
  reason_clean = refl;
  headers_printable = tt;
  length_true = refl;
}

abbrev not_found_read : World
not_found_read = record {
  out = [];
  reads =
      (b'H', codes "TTP/1.1 404 Not Found\r\nContent-Length: 2\r\nConnection: keep-alive\r\n\r\nhi")
      ∷ [];
}

probe_once-serialize_example :
    (probe_once kernel 1 (upstream_at 9001 true) not_found_read).0 ≡ is_ok_status not_found.status
unfolding serialize find_header decimal int_text Message.serialize_headers Message.finish_output
probe_once-serialize_example =
    probe_once-serialize kernel 1 (upstream_at 9001 true) not_found_read not_found_read
      not_found_read (record not_found_read { out = codes "G" }) 9 1 tt not_found
      (b'H', codes "TTP/1.1 404 Not Found\r\nContent-Length: 2\r\nConnection: keep-alive\r\n\r\nhi")
      [] refl refl refl refl not_found-IsSendable refl (omega arith) (_, refl, tt)

pick_next-probe_pool_example :
    AgreesWithPass kernel 1 half_down.upstreams not_found_read
      (pick_next (probe_pool kernel 1 half_down not_found_read).0).1
pick_next-probe_pool_example = pick_next-probe_pool kernel 1 half_down not_found_read
