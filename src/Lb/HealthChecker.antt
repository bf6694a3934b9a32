-- ===== src/Lb/HealthChecker.antt =====
-- src/loadbalancer/health_checker.cpp: a probe of an upstream, and a pass over the pool.
pub mod Thread
pub mod Verdict
use high_performance_http_se.Common.{
  ℕ, Bool, true, false, List, [], ◌∷◌, Option, none, some, Bytes, codes, ◌==◌, if◌then◌else◌,
}
use high_performance_http_se.Http.Text.{crlf}
use high_performance_http_se.Http.Number.{ℤ, pos, negsuc}
use high_performance_http_se.Http.Message.{HttpResponse}
use high_performance_http_se.Http.Response
use high_performance_http_se.Net.Sys.{Sys, SendAnswer, sent}
use high_performance_http_se.Lb.UpstreamPool.{Upstream, UpstreamPool}
use high_performance_http_se.Lb.Proxy.{read_response}

abbrev pub probe_request : Bytes
probe_request = codes "GET /health HTTP/1.1\r\nHost: healthcheck\r\nConnection: close\r\n\r\n"

-- `status == 200`
abbrev pub is_ok_status : ℤ → Bool
is_ok_status (pos n) = n == 200
is_ok_status (negsuc n) = false

abbrev pub is_ok : Option HttpResponse → Bool
is_ok none = false
is_ok (some r) = is_ok_status r.status

module _ (sys : Sys) where
  -- Behind the `send`; a negative answer ends the probe.
  abbrev pub after_probe_send : ℕ → ℕ → SendAnswer × sys.World → Bool × sys.World
  after_probe_send reads fd (sent n, w) =
      let (r, w') = read_response sys reads fd 2048 Response.new_parser w in
      (is_ok r, sys.close w' fd)
  after_probe_send reads fd (SendAnswer.would_block, w) = (false, sys.close w fd)
  after_probe_send reads fd (SendAnswer.failed, w) = (false, sys.close w fd)

  -- From `inet_pton` on.
  unfoldable pub probe_on : ℕ → ℕ → Upstream → sys.World → Bool × sys.World
  probe_on reads fd u w = elim (sys.parse_address u.host) [
    | none ↦ (false, sys.close w fd)
    | some a ↦
        let (connected, w') = sys.connect w fd a u.port in
        if connected
        then after_probe_send reads fd (sys.send w' fd probe_request)
        else (false, sys.close w' fd)
  ]

  unfoldable pub probe_once : ℕ → Upstream → sys.World → Bool × sys.World
  probe_once reads u w = elim (sys.socket w).0 [
    | none ↦ (false, (sys.socket w).1)
    | some fd ↦ probe_on reads fd u (sys.socket w).1
  ]

  -- The loop over `pool_.all()`, once; `healthy.exchange(ok)`.
  unfoldable pub probe_upstreams : ℕ → List Upstream → sys.World → List Upstream × sys.World
  probe_upstreams reads [] w = ([], w)
  probe_upstreams reads (u ∷ us) w =
      let (ok, w1) = probe_once reads u w in
      let (rest, w2) = probe_upstreams reads us w1 in (record u { healthy = ok } ∷ rest, w2)

  unfoldable pub probe_pool : ℕ → UpstreamPool → sys.World → UpstreamPool × sys.World
  probe_pool reads pool w =
      let (us, w') = probe_upstreams reads pool.upstreams w in (record pool { upstreams = us }, w')
