-- ===== src/Tests/Witnesses.antt =====
-- The theorems at inputs that meet their hypotheses.
use high_performance_http_se.Common.{
  ℕ, ◌⊎◌, zero, suc, ◌<◌, ◌≡◌, refl, Bool, true, false, [], ◌∷◌, ◌++◌, some, codes, arith,
}
use high_performance_http_se.Common.Table.{find}
use high_performance_http_se.Http.Number.{strtol, decimal}
use high_performance_http_se.Http.Text.{find_text}
use high_performance_http_se.Http.Message.{
  HttpResponse, serialize, find_header, new_response, new_request,
}
use high_performance_http_se.Http.Headers.{content_length_from}
use high_performance_http_se.Http.Incremental.{ParseStatus, State, read_headers}
use high_performance_http_se.Http.Incremental.Chunks.{consume-append, resume}
use high_performance_http_se.Http.Incremental.Ends.{HeaderRun, read_headers-HeaderRun}
use high_performance_http_se.Http.Request
use high_performance_http_se.Http.Response
use high_performance_http_se.Http.Response.RoundTrip.{IsSendable, parser_with, consume-serialize}
use high_performance_http_se.Lb.UpstreamPool.{Upstream, UpstreamPool}
use high_performance_http_se.Lb.UpstreamPool.Rotation.{nth_pick, AllHealthy, nth_pick-once}
use high_performance_http_se.Server.Router.{new_router}
use high_performance_http_se.Tests.Kernel.{World, kernel, kernel_laws}
use high_performance_http_se.Net.Connection.{Connection, new_connection, queue_write, flush_write}
use high_performance_http_se.Net.Connection.Flush.{Outcome, flush_write-Outcome}
use high_performance_http_se.Net.Serving.{
  Reactor, handle_event, work, close, wait_readable, wait_writable,
}
use high_performance_http_se.Net.Serving.Handled.{Handled, handle_event-Handled}
use high_performance_http_se.Server.Serve.{serve, queue_response}
use high_performance_http_se.Server.Serve.Closing.{serve-ServeRearms, close_depends_on_socket}

abbrev pub ok_response : HttpResponse
ok_response = record new_response { body = codes "hi" }

pub ok_response-IsSendable : IsSendable ok_response
unfolding find_text content_length_from find_header decimal strtol
ok_response-IsSendable = record {
  code = 200;
  status_is = refl;
  code_small = omega arith;
  reason_clean = refl;
  headers_printable = tt;
  length_true = refl;
}

consume-serialize_example :
    Response.consume Response.new_parser (serialize ok_response ++ codes "HTTP")
    ≡ (parser_with ok_response (codes "HTTP"), ParseStatus.complete)
consume-serialize_example = consume-serialize ok_response (codes "HTTP") ok_response-IsSendable

consume-append_example :
    Request.consume Request.new_parser (codes "GET / HT" ++ codes "TP/1.1\r\n\r\nGET")
    ≡ resume Request.request_format
        (codes "TP/1.1\r\n\r\nGET")
        (Request.consume Request.new_parser (codes "GET / HT"))
consume-append_example =
    consume-append Request.request_format Request.new_parser (codes "GET / HT")
      (codes "TP/1.1\r\n\r\nGET")

abbrev at_headers : Request.HttpParser
at_headers = record {
  state = State.headers;
  buffer = codes "a: b\r\n\r\n";
  body_bytes_needed = 0;
  message = new_request;
}

read_headers-HeaderRun_example :
    HeaderRun Request.request_format at_headers (read_headers Request.request_format at_headers)
read_headers-HeaderRun_example = read_headers-HeaderRun Request.request_format at_headers refl

abbrev pub upstream_at : ℕ → Bool → Upstream
upstream_at port healthy = record { host = codes "127.0.0.1"; port = port; healthy = healthy }

abbrev pub half_down : UpstreamPool
half_down = record {
  upstreams = upstream_at 9001 true ∷ upstream_at 9002 false ∷ upstream_at 9003 true ∷ [];
  next_index = 4;
}

abbrev all_up : UpstreamPool
all_up = record { upstreams = upstream_at 9001 true ∷ upstream_at 9002 true ∷ []; next_index = 7 }

all_up-AllHealthy : AllHealthy all_up
all_up-AllHealthy zero h = refl
all_up-AllHealthy (suc zero) h = refl
all_up-AllHealthy (suc (suc k)) h = absurd (omega arith)

nth_pick-once_example :
    (n : ℕ) × (n < 2)
    × (nth_pick n all_up ≡ some 1)
    × ((m : ℕ) → m < 2 → nth_pick m all_up ≡ some 1 → m ≡ n)
nth_pick-once_example = nth_pick-once all_up 1 (omega arith) all_up-AllHealthy (omega arith)

abbrev quiet : World
quiet = record { out = []; reads = [] }

abbrev writing : Connection
writing = queue_write (new_connection 5) (codes "abc")

flush_write-Outcome_example :
    Outcome kernel kernel_laws writing quiet (flush_write kernel writing quiet)
flush_write-Outcome_example = flush_write-Outcome kernel kernel_laws writing quiet (omega arith)

abbrev one_connection : Reactor kernel
one_connection = record {
  listen_fd = 3;
  connections = (5, new_connection 5) ∷ [];
  interests = (5, 0) ∷ [];
  pending_rearms = [];
  tasks = [];
  world = record { out = []; reads = (b'G', codes "ET / HTTP/1.1\r\n\r\n") ∷ [] };
}

handle_event-Handled_example :
    Handled kernel 5 one_connection (handle_event kernel (serve kernel new_router) 5 one_connection)
unfolding find
handle_event-Handled_example =
    handle_event-Handled kernel kernel_laws (serve kernel new_router)
      (serve-ServeRearms kernel kernel_laws new_router) 5 one_connection (new_connection 5) refl
      (omega arith)

-- A request that asks for its connection to be closed.
abbrev closing : Connection
closing = record (new_connection 5) {
  parser = record {
    state = State.complete;
    buffer = [];
    body_bytes_needed = 0;
    message = record new_request { method = codes "PUT"; keep_alive = false };
  };
}

close_depends_on_socket_example :
    let flushed = (flush_write kernel (queue_response kernel new_router closing) quiet).1 in
    let (c1, w1, action) = serve kernel new_router closing quiet in
    (flushed ≡ true) × (action ≡ wait_readable)
    ⊎ (flushed ≡ false)
      × (action ≡ wait_writable)
      × ((w2 : World)
          → let (c2, w3, next) = work kernel (serve kernel new_router) c1 w2 in
            (next ≡ wait_writable) ⊎ (next ≡ close))
close_depends_on_socket_example =
    close_depends_on_socket kernel kernel_laws new_router closing quiet (omega arith) refl
