-- ===== src/Lb/Handler/Session.antt =====
-- A client's request at the load balancer, from the first byte that is read to the last that is sent.
use high_performance_http_se.Common.{
  subst, ℕ, inl, inr, ◌+◌, ◌≡◌, ap, ◌∙◌, Bool, true, false, List, [], ◌∷◌, ◌++◌, Bytes, length,
  length-append, drop, arith,
}
use high_performance_http_se.Http.Incremental.{ParseStatus}
use high_performance_http_se.Http.Message.{serialize}
use high_performance_http_se.Http.Request
use high_performance_http_se.Http.Request.{HttpParser}
use high_performance_http_se.Net.Sys.{Sys, SendLaws}
use high_performance_http_se.Net.Connection.{Connection, has_pending_write}
use high_performance_http_se.Net.Connection.Delivery.{Delivered}
use high_performance_http_se.Net.Connection.Flush.{IsValid, pending}
use high_performance_http_se.Net.Serving.{rearm_for}
use high_performance_http_se.Net.Serving.Handled.{is_wait_writable, rearm_for-ends}
use high_performance_http_se.Net.Serving.Exchange.{read_events, write_events}
use high_performance_http_se.Net.Serving.Exchange.Answered.{
  AnsweredBy, Answered, drop-append_at, flush-Answered, write_events-Answered,
}
use high_performance_http_se.Net.Serving.Exchange.Pieces.{
  Piece, whole, Receives, read_events-served,
}
use high_performance_http_se.Lb.UpstreamPool.{UpstreamPool}
use high_performance_http_se.Lb.Proxy.{proxy_request, serve_client}
use high_performance_http_se.Lb.Proxy.Answers.{Answers, proxy_request-Answers}
use high_performance_http_se.Lb.Handler.{with_pool, serve_pooled}
use high_performance_http_se.Lb.Handler.Waiting.{with_pool-SendLaws}

module _ (sys : Sys) (laws : SendLaws sys) (reads : ℕ) where
  -- What the proxy leaves for the connection, and the world behind it.
  abbrev pub proxied :
      (pool : UpstreamPool) (c : Connection) (w : sys.World)
      → Answers sys reads pool w c
          (proxy_request sys reads pool c w).1.0.0
          (proxy_request sys reads pool c w).1.0.1
  proxied pool c w = proxy_request-Answers sys reads pool c w

  abbrev pub world_proxied : UpstreamPool → Connection → sys.World → sys.World
  world_proxied pool c w = (proxy_request sys reads pool c w).1.1

  serve_client-Answered :
      (pool : UpstreamPool) (c : Connection) (w : sys.World)
      → IsValid c
      → has_pending_write c ≡ false
      → Answered sys c.fd
          (sys.output (world_proxied pool c w) c.fd ++ serialize (proxied pool c w).response)
          (serve_client sys reads pool c w).1
  unfolding serve_client
  serve_client-Answered pool c w valid idle =
      let a = proxied pool c w in
      let queued : Connection = (proxy_request sys reads pool c w).1.0.0 in
      let w1 : sys.World = world_proxied pool c w in
      let grown : length queued.write_buffer
          ≡ length c.write_buffer + length (serialize a.response) =
        ap length a.queued ∙ length-append c.write_buffer (serialize a.response) in
      let offset : queued.write_offset ≡ c.write_offset = a.offset_kept in
      let at_end : queued.write_offset ≡ length c.write_buffer = ground arith in
      let left : pending queued ≡ serialize a.response =
        ap (drop queued.write_offset) a.queued
        ∙ drop-append_at queued.write_offset c.write_buffer (serialize a.response) at_end in
      let text : Bytes = sys.output w1 c.fd ++ serialize a.response in
      subst (λ n. Answered sys n text (serve_client sys reads pool c w).1) a.fd_kept
        (flush-Answered sys laws queued w1 text (λ c'. rearm_for sys c'.pending_keep_alive)
          (omega arith)
          (ap (λ t. sys.output w1 queued.fd ++ t) left
            ∙ ap (λ n. sys.output w1 n ++ serialize a.response) a.fd_kept)
          (λ c'. rearm_for-ends sys laws c'.pending_keep_alive))

  Delivered-with_pool :
      (fd : ℕ) (text : Bytes) (c : Connection) (pool : UpstreamPool) (w : sys.World)
      → Delivered sys fd text c w
      → Delivered (with_pool sys) fd text c (pool, w)
  Delivered-with_pool fd text c pool w (inl out) = inl out
  Delivered-with_pool fd text c pool w (inr (w1, rest, some_left, e, inl fails)) =
      inr ((pool, w1), rest, some_left, e, inl (ap (λ r. (r.0, (pool, r.1))) fails))
  Delivered-with_pool fd text c pool w (inr (w1, rest, some_left, e, inr takes_none)) =
      inr ((pool, w1), rest, some_left, e, inr (ap (λ r. (r.0, (pool, r.1))) takes_none))

  beside_pool :
      (b : Bool) (fd : ℕ) (text : Bytes) (c : Connection) (pool : UpstreamPool) (w : sys.World)
      → AnsweredBy sys b fd text c w
      → AnsweredBy (with_pool sys) b fd text c (pool, w)
  beside_pool true fd text c pool w a = a
  beside_pool false fd text c pool w (idle, valid, same, fresh, delivered) =
      (idle, valid, same, fresh, Delivered-with_pool fd text c pool w delivered)

  serve_pooled-Answered :
      (c : Connection) (w : (with_pool sys).World)
      → IsValid c
      → has_pending_write c ≡ false
      → Answered
          (with_pool sys)
          c.fd
          (sys.output (world_proxied w.0 c w.1) c.fd ++ serialize (proxied w.0 c w.1).response)
          (serve_pooled sys reads c w)
  unfolding serve_pooled
  serve_pooled-Answered c w valid idle =
      let (pool, (c', w', action)) = serve_client sys reads w.0 c w.1 in
      beside_pool (is_wait_writable action) c.fd _ c' pool w'
        (serve_client-Answered w.0 c w.1 valid idle)

  -- For a kernel with the laws of send, and a connection with nothing to send: if the reads bring a request
  -- in any pieces that its parser takes as complete with no byte over, then the request is proxied once,
  -- and the events that read it, and any number of events after that for writing, leave the one response of
  -- the proxy behind what is out when the proxy is done, once and in order, as far as no `send` of what is
  -- left of it fails or takes no byte.
  pub client_replied :
      (c : Connection) (q : HttpParser) (piece : Piece) (pieces : List Piece)
      (w w' : (with_pool sys).World) (n : ℕ)
      → IsValid c
      → has_pending_write c ≡ false
      → Receives (with_pool sys) (serve_pooled sys reads) c.fd w (piece ∷ pieces) w'
      → Request.consume c.parser (whole (piece ∷ pieces)) ≡ (q, ParseStatus.complete)
      → q.buffer ≡ []
      → Answered
          (with_pool sys)
          c.fd
          (sys.output (world_proxied w'.0 (record c { parser = q }) w'.1) c.fd
            ++ serialize (proxied w'.0 (record c { parser = q }) w'.1).response)
          (write_events
            (with_pool sys)
            (serve_pooled sys reads)
            n
            (read_events (with_pool sys) (serve_pooled sys reads) (length pieces) c w))
  client_replied c q piece pieces w w' n valid idle received text empty =
      rw
        (read_events-served (with_pool sys) (serve_pooled sys reads) piece pieces c q w w' idle
          received text empty)
        (write_events-Answered (with_pool sys) (with_pool-SendLaws sys laws)
          (serve_pooled sys reads) n c.fd _ (serve_pooled sys reads (record c { parser = q }) w')
          (serve_pooled-Answered (record c { parser = q }) w' valid idle))
