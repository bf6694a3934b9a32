-- ===== src/Lb/Handler.antt =====
-- include/loadbalancer/load_balancer.h: the balancer as an instance of Net.Serving. Its pool of upstreams is
-- shared by the workers and the health checker, so it is a part of the world.
pub mod Waiting
pub mod Session
use high_performance_http_se.Common.{ℕ}
use high_performance_http_se.Net.Sys.{Sys, SendLaws}
use high_performance_http_se.Net.Connection.{Connection}
use high_performance_http_se.Net.Serving.{Reactor, Serve, handle_event}
use high_performance_http_se.Lb.UpstreamPool.{UpstreamPool}
use high_performance_http_se.Lb.Proxy.{serve_client}
use high_performance_http_se.Lb.HealthChecker.{probe_pool}

-- The system calls beside the pool, which they leave alone.
abbrev pub with_pool : Sys → Sys
with_pool sys = record {
  World = UpstreamPool × sys.World;
  socket = λ w. let (fd, w') = sys.socket w.1 in (fd, (w.0, w'));
  Address = sys.Address;
  parse_address = sys.parse_address;
  zero_address = sys.zero_address;
  connect = λ w fd address port. let (ok, w') = sys.connect w.1 fd address port in (ok, (w.0, w'));
  send = λ w fd bytes. let (answer, w') = sys.send w.1 fd bytes in (answer, (w.0, w'));
  recv = λ w fd capacity. let (answer, w') = sys.recv w.1 fd capacity in (answer, (w.0, w'));
  close = λ w fd. (w.0, sys.close w.1 fd);
  output = λ w fd. sys.output w.1 fd;
  hang_up_unasked = sys.hang_up_unasked;
}

module _ (sys : Sys) where
  -- `connections_`, `pendingRearms_`, `eventLoop_` and the queue of `pool_`, with `upstreamPool_`
  abbrev pub LoadBalancer : Type 0
  LoadBalancer = Reactor (with_pool sys)

  -- `serve_client` on the shared pool; `reads` bounds the reads of a response.
  unfoldable pub serve_pooled : ℕ → Serve (with_pool sys)
  serve_pooled reads c w =
      let (pool, (c', w', action)) = serve_client sys reads w.0 c w.1 in (c', (pool, w'), action)

  unfoldable pub handle_client_event : ℕ → ℕ → LoadBalancer → LoadBalancer
  handle_client_event reads = handle_event (with_pool sys) (serve_pooled reads)

  -- A pass of the health checker, between two calls of the other threads.
  unfoldable pub check_upstreams : ℕ → LoadBalancer → LoadBalancer
  check_upstreams reads b =
      let (pool, w) = probe_pool sys reads b.world.0 b.world.1 in record b { world = (pool, w) }
