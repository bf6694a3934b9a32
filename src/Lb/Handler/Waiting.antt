-- ===== src/Lb/Handler/Waiting.antt =====
-- The properties of Net.Serving at the load balancer.
use high_performance_http_se.Common.{
  false, ℕ, ◌+◌, ◌≡◌, ap, ◌∙◌, some, length, length-append, arith,
}
use high_performance_http_se.Common.Table.{find}
use high_performance_http_se.Http.Message.{serialize}
use high_performance_http_se.Http.Request
use high_performance_http_se.Net.Sys.{Sys, SendLaws, SendAnswer, sent}
use high_performance_http_se.Net.Connection.{Connection}
use high_performance_http_se.Net.Connection.Flush.{IsValid}
use high_performance_http_se.Net.Serving.{rearm_for}
use high_performance_http_se.Net.Serving.Handled.{ServeRearms, Rearms, flush-Rearms, rearm_for-ends}
use high_performance_http_se.Net.Serving.Steps.{System, Reachable, then_step, world_moves}
use high_performance_http_se.Net.Serving.Waiting.{wanted, Fits}
use high_performance_http_se.Net.Serving.Waiting.Reached.{IsIdle, Reachable-waits}
use high_performance_http_se.Lb.UpstreamPool.{UpstreamPool}
use high_performance_http_se.Lb.Proxy.{proxy_request, serve_client}
use high_performance_http_se.Lb.Proxy.Answers.{proxy_request-Answers}
use high_performance_http_se.Lb.Handler.{with_pool, serve_pooled, check_upstreams}

module _ (sys : Sys) (laws : SendLaws sys) where
  -- The laws of send, beside the pool.
  pub with_pool-SendLaws : SendLaws (with_pool sys)
  with_pool-SendLaws = record {
    takes_part = λ w fd n bytes w' e. laws.takes_part w.1 fd n bytes w'.1 (below (sent n) w' e);
    takes_none =
        λ w fd bytes w' e. laws.takes_none w.1 fd bytes w'.1 (below SendAnswer.would_block w' e);
  }
    where
      below :
          {a : SendAnswer × sys.World} {pool : UpstreamPool} (answer : SendAnswer)
          (w' : (with_pool sys).World)
          → ◌≡◌ {A = SendAnswer × (with_pool sys).World} (a.0, (pool, a.1)) (answer, w')
          → ◌≡◌ {A = SendAnswer × sys.World} a (answer, w'.1)
      below answer w' e = ap (λ (p : SendAnswer × (with_pool sys).World). (p.0, p.1.1)) e

  serve_client-Rearms :
      (reads : ℕ) (pool : UpstreamPool) (c : Connection) (w : sys.World)
      → IsValid c
      → Rearms sys c (serve_client sys reads pool c w).1
  unfolding serve_client
  serve_client-Rearms reads pool c w v =
      let a = proxy_request-Answers sys reads pool c w in
      let queued : Connection = (proxy_request sys reads pool c w).1.0.0 in
      let w1 : sys.World = (proxy_request sys reads pool c w).1.1 in
      let grown : length queued.write_buffer
          ≡ length c.write_buffer + length (serialize a.response) =
        ap length a.queued ∙ length-append c.write_buffer (serialize a.response) in
      let offset : queued.write_offset ≡ c.write_offset = a.offset_kept in
      let (waits, valid, same) =
        flush-Rearms sys laws queued w1 (λ c'. Request.reset c'.parser)
          (λ c'. rearm_for sys c'.pending_keep_alive) (omega arith)
          (λ c'. rearm_for-ends sys laws c'.pending_keep_alive) in
      (waits, valid, same ∙ a.fd_kept)

  pub serve_pooled-ServeRearms : (reads : ℕ) → ServeRearms (with_pool sys) (serve_pooled sys reads)
  unfolding serve_pooled
  serve_pooled-ServeRearms reads c w v = serve_client-Rearms reads w.0 c w.1 v

  -- The pass of the health checker is a step of the world.
  pub check_upstreams-Reachable :
      (reads l : ℕ) (w : (with_pool sys).World) (s : System (with_pool sys))
      → Reachable (with_pool sys) (serve_pooled sys reads) l w s
      → Reachable
          (with_pool sys)
          (serve_pooled sys reads)
          l
          w
          (record s { reactor = check_upstreams sys reads s.reactor })
  unfolding check_upstreams
  check_upstreams-Reachable reads l w s reached = then_step s _ reached (world_moves s _)

  -- For a kernel with the laws of send, and an event loop that reports no hang-up at mask 0, as kqueue and
  -- unlike epoll: however the reactor, the workers that proxy, the health checker and
  -- the kernel follow one another, a known connection of the load balancer has a valid write offset and the
  -- descriptor that it is known by, and its mask and its rearms ask for writing just when it has bytes to
  -- send; and it is registered with the mask that it needs whenever nothing is queued, worked on or to be
  -- rearmed.
  pub balancer_waits :
      (reads l : ℕ) (w : (with_pool sys).World) (s : System (with_pool sys)) (k : ℕ)
      (c : Connection)
      → sys.hang_up_unasked ≡ false
      → Reachable (with_pool sys) (serve_pooled sys reads) l w s
      → find k s.reactor.connections ≡ some c
      → Fits k c (find k s.reactor.interests) s.reactor.pending_rearms s.applying
        × (IsIdle (with_pool sys) s → find k s.reactor.interests ≡ some (wanted c))
  balancer_waits reads l w s k c quiet reached found =
      Reachable-waits (with_pool sys) with_pool-SendLaws (serve_pooled sys reads)
        (serve_pooled-ServeRearms reads) quiet l w s k c reached found
