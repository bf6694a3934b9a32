-- ===== src/Tests/Sessions.antt =====
-- A request for /health in two reads, at the server and at the load balancer.
use high_performance_http_se.Common.{◌≡◌, refl, ap, ◌∙◌, false, [], ◌∷◌, codes, some, arith, ◌++◌}
use high_performance_http_se.Common.Table.{find, assign}
use high_performance_http_se.Http.Incremental.{ParseStatus}
use high_performance_http_se.Http.Message.{serialize}
use high_performance_http_se.Http.Request
use high_performance_http_se.Http.Request.{HttpParser}
use high_performance_http_se.Net.Connection.{Connection, new_connection}
use high_performance_http_se.Net.Serving.{IoEvent, handle_accept, handle_io_event}
use high_performance_http_se.Net.Serving.Steps.{
  System, started, Reachable, at_start, then_step, accept_all,
}
use high_performance_http_se.Net.Serving.Waiting.{wanted, Fits}
use high_performance_http_se.Net.Serving.Waiting.Reached.{IsIdle, Reachable-waits}
use high_performance_http_se.Net.Serving.Exchange.{read_events, write_events}
use high_performance_http_se.Net.Serving.Exchange.Answered.{Answered}
use high_performance_http_se.Net.Serving.Exchange.Pieces.{Piece, whole}
use high_performance_http_se.Server.Router.{Router}
use high_performance_http_se.Server.Routes.{server_router}
use high_performance_http_se.Server.Serve.{response_to, serve}
use high_performance_http_se.Server.Serve.Closing.{serve-ServeRearms}
use high_performance_http_se.Server.Serve.Session.{request_replied}
use high_performance_http_se.Lb.Proxy.{forward_text, forward_headers}
use high_performance_http_se.Lb.Proxy.Forward.{parser_with, consume-forward_text}
use high_performance_http_se.Lb.Handler.{with_pool, serve_pooled, check_upstreams}
use high_performance_http_se.Lb.Handler.Waiting.{check_upstreams-Reachable, balancer_waits}
use high_performance_http_se.Lb.Handler.Session.{proxied, world_proxied, client_replied}
use high_performance_http_se.Tests.Kernel.{World, kernel, kernel_laws}
use high_performance_http_se.Tests.Through.{asked, asked-IsForwardable}
use high_performance_http_se.Tests.Witnesses.{half_down}

abbrev pub first_piece : Piece
first_piece = (b'G', codes "ET /hea")

abbrev pub last_piece : Piece
last_piece = (b'l', codes "th HTTP/1.1\r\nConnection: close\r\n\r\n")

abbrev one_read : World
one_read = record { out = []; reads = last_piece ∷ [] }

abbrev two_reads : World
two_reads = record { out = []; reads = first_piece ∷ last_piece ∷ [] }

abbrev pub no_reads : World
no_reads = record { out = []; reads = [] }

abbrev pub client : Connection
client = new_connection 5

whole_text : whole (first_piece ∷ last_piece ∷ []) ≡ forward_text asked
unfolding forward_text forward_headers
whole_text = refl

pub whole_read :
    Request.consume Request.new_parser (whole (first_piece ∷ last_piece ∷ []))
    ≡ (parser_with asked, ParseStatus.complete)
whole_read =
    ap (Request.consume Request.new_parser) whole_text
    ∙ consume-forward_text asked asked-IsForwardable

abbrev pub router : Router
router = server_router 9001

request_replied_example :
    Answered kernel 5
      ([] ++ serialize (response_to kernel router (record client { parser = parser_with asked })))
      (write_events kernel
        (serve kernel router)
        3
        (read_events kernel (serve kernel router) 1 client two_reads))
request_replied_example =
    request_replied kernel kernel_laws router client (parser_with asked) first_piece
      (last_piece ∷ []) two_reads no_reads 3 (omega arith) refl
      (one_read, refl, (no_reads, refl, refl)) whole_read refl

client_replied_example :
    Answered
      (with_pool kernel)
      5
      ((world_proxied kernel kernel_laws 4 half_down
          (record client { parser = parser_with asked })
          no_reads).out
        ++ serialize
            (proxied kernel kernel_laws 4 half_down
              (record client { parser = parser_with asked })
              no_reads).response)
      (write_events
        (with_pool kernel)
        (serve_pooled kernel 4)
        3
        (read_events (with_pool kernel) (serve_pooled kernel 4) 1 client (half_down, two_reads)))
client_replied_example =
    client_replied kernel kernel_laws 4 client (parser_with asked) first_piece (last_piece ∷ [])
      (half_down, two_reads) (half_down, no_reads) 3 (omega arith) refl
      ((half_down, one_read), refl, ((half_down, no_reads), refl, refl)) whole_read refl

abbrev pub listener_event : IoEvent
listener_event = record { fd = 3; mask = 1; error = false }

abbrev pub server_at : System kernel
server_at = record (started kernel 3 no_reads) {
  reactor = handle_io_event kernel (5 ∷ []) listener_event (started kernel 3 no_reads).reactor;
}

pub server_at-Reachable : Reachable kernel (serve kernel router) 3 no_reads server_at
unfolding find
server_at-Reachable =
    then_step (started kernel 3 no_reads) _ at_start
      (accept_all (started kernel 3 no_reads) (5 ∷ []) listener_event refl refl (refl, refl, tt))

Reachable-waits_example :
    Fits 5 client (find 5 server_at.reactor.interests) [] []
    × (IsIdle kernel server_at → find 5 server_at.reactor.interests ≡ some (wanted client))
unfolding find assign handle_accept handle_io_event
Reachable-waits_example =
    Reachable-waits kernel kernel_laws (serve kernel router)
      (serve-ServeRearms kernel kernel_laws router) refl 3 no_reads server_at 5 client
      server_at-Reachable refl

abbrev pooled_world : (with_pool kernel).World
pooled_world = (half_down, no_reads)

abbrev balancer_start : System (with_pool kernel)
balancer_start = started (with_pool kernel) 3 pooled_world

abbrev balancer_at : System (with_pool kernel)
balancer_at = record balancer_start {
  reactor = handle_io_event (with_pool kernel) (5 ∷ []) listener_event balancer_start.reactor;
}

abbrev balancer_checked : System (with_pool kernel)
balancer_checked = record balancer_at { reactor = check_upstreams kernel 4 balancer_at.reactor }

balancer_at-Reachable :
    Reachable (with_pool kernel) (serve_pooled kernel 4) 3 pooled_world balancer_at
unfolding find
balancer_at-Reachable =
    then_step balancer_start _ at_start
      (accept_all balancer_start (5 ∷ []) listener_event refl refl (refl, refl, tt))

balancer_waits_example :
    Fits 5 client (find 5 balancer_checked.reactor.interests) [] []
    × (IsIdle (with_pool kernel) balancer_checked
        → find 5 balancer_checked.reactor.interests ≡ some (wanted client))
unfolding find assign handle_accept handle_io_event check_upstreams
balancer_waits_example =
    balancer_waits kernel kernel_laws 4 3 pooled_world balancer_checked 5 client refl
      (check_upstreams-Reachable kernel kernel_laws 4 3 pooled_world balancer_at
        balancer_at-Reachable)
      refl
