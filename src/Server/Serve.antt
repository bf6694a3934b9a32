-- ===== src/Server/Serve.antt =====
-- What HttpServer::handleConnectionEvent of src/server/http_server.cpp does with a complete request.
pub mod Closing
pub mod Session
pub mod KeepAlive
use high_performance_http_se.Common.{Bool, true, false, not, ℕ, if◌then◌else◌}
use high_performance_http_se.Http.Message.{HttpResponse, serialize}
use high_performance_http_se.Net.Sys.{Sys}
use high_performance_http_se.Net.Connection.{
  Connection, queue_write, set_pending_keep_alive, flush_write,
}
use high_performance_http_se.Net.Serving.{
  Reactor, Serve, wait_writable, rearm_for, reset_parser, handle_event,
}
use high_performance_http_se.Server.Router.{Router, dispatch}

module _ (sys : Sys) (router : Router) where
  -- `resp` with the keep-alive flag of the request.
  abbrev pub response_to : Connection → HttpResponse
  response_to c = record (dispatch router c.parser.message) {
    keep_alive = c.parser.message.keep_alive;
  }

  abbrev pub queue_response : Connection → Connection
  queue_response c =
      queue_write (set_pending_keep_alive c c.parser.message.keep_alive) (serialize (response_to c))

  -- `req` is a reference into the parser, which is reset before `req.keepAlive` is read.
  unfoldable pub serve : Serve sys
  serve c w =
      let (c', flushed, w') = flush_write sys (queue_response c) w in
      let c2 = reset_parser sys c' in
      if not flushed
      then (c', w', wait_writable)
      else (c2, w', rearm_for sys c2.parser.message.keep_alive)

  unfoldable pub handle_connection_event : ℕ → Reactor sys → Reactor sys
  handle_connection_event = handle_event sys serve
