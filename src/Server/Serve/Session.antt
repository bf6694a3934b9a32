-- ===== src/Server/Serve/Session.antt =====
-- A client's request at the server, from the first byte that is read to the last that is sent.
use high_performance_http_se.Common.{ℕ, ◌≡◌, ap, false, List, [], ◌∷◌, ◌++◌, length, arith}
use high_performance_http_se.Http.Incremental.{ParseStatus}
use high_performance_http_se.Http.Message.{serialize}
use high_performance_http_se.Http.Request
use high_performance_http_se.Http.Request.{HttpParser}
use high_performance_http_se.Net.Sys.{Sys, SendLaws}
use high_performance_http_se.Net.Connection.{Connection, has_pending_write}
use high_performance_http_se.Net.Connection.Flush.{IsValid}
use high_performance_http_se.Net.Serving.{rearm_for}
use high_performance_http_se.Net.Serving.Handled.{rearm_for-ends, queue_write-IsValid}
use high_performance_http_se.Net.Serving.Exchange.{read_events, write_events}
use high_performance_http_se.Net.Serving.Exchange.Answered.{
  Answered, drop-append_at, flush-Answered, write_events-Answered,
}
use high_performance_http_se.Net.Serving.Exchange.Pieces.{
  Piece, whole, Receives, read_events-served,
}
use high_performance_http_se.Server.Router.{Router}
use high_performance_http_se.Server.Serve.{response_to, queue_response, serve}

module _ (sys : Sys) (laws : SendLaws sys) (router : Router) where
  serve-Answered :
      (c : Connection) (w : sys.World)
      → IsValid c
      → has_pending_write c ≡ false
      → Answered sys c.fd
          (sys.output w c.fd ++ serialize (response_to sys router c))
          (serve sys router c w)
  unfolding serve
  serve-Answered c w valid idle =
      let at_end : c.write_offset ≡ length c.write_buffer = ground arith in
      flush-Answered sys laws (queue_response sys router c) w
        (sys.output w c.fd ++ serialize (response_to sys router c))
        (λ c'. rearm_for sys (Request.reset c'.parser).message.keep_alive)
        (queue_write-IsValid sys laws c _ valid)
        (ap (λ t. sys.output w c.fd ++ t)
          (drop-append_at c.write_offset c.write_buffer (serialize (response_to sys router c))
            at_end))
        (λ c'. rearm_for-ends sys laws _)

  -- For a kernel with the laws of send, and a connection with nothing to send: if the reads bring a request
  -- in any pieces that its parser takes as complete with no byte over, then the events that read them, and
  -- any number of events after that for writing, leave the response that the router gives to that request
  -- behind what was out before, once and in order: while the connection waits for writing, what is out and
  -- what is pending make it up; and when it does not, nothing is pending, the parser is new, and it is all
  -- out, unless a `send` of what was left of it failed or took no byte.
  pub request_replied :
      (c : Connection) (q : HttpParser) (piece : Piece) (pieces : List Piece) (w w' : sys.World)
      (n : ℕ)
      → IsValid c
      → has_pending_write c ≡ false
      → Receives sys (serve sys router) c.fd w (piece ∷ pieces) w'
      → Request.consume c.parser (whole (piece ∷ pieces)) ≡ (q, ParseStatus.complete)
      → q.buffer ≡ []
      → Answered sys c.fd
          (sys.output w' c.fd ++ serialize (response_to sys router (record c { parser = q })))
          (write_events sys
            (serve sys router)
            n
            (read_events sys (serve sys router) (length pieces) c w))
  request_replied c q piece pieces w w' n valid idle reads text empty =
      rw (read_events-served sys (serve sys router) piece pieces c q w w' idle reads text empty) (
        write_events-Answered sys laws (serve sys router) n c.fd _
          (serve sys router (record c { parser = q }) w')
          (serve-Answered (record c { parser = q }) w' valid idle))
