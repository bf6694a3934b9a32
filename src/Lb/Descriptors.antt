-- ===== src/Lb/Descriptors.antt =====
-- The descriptors that a proxied request and a probe open, of src/loadbalancer/load_balancer.cpp and
-- src/loadbalancer/health_checker.cpp.
pub mod Closed
use high_performance_http_se.Common.{
  ℕ, zero, suc, ◌+◌, ◌≡◌, refl, sym, ap, ◌∙◌, inl, inr, Bool, true, false, not, Option, none, some,
  ◌==◌, ◌∷◌, Bytes, ltb, length, drop, if◌then◌else◌, arith, Bool-cases, Option-cases,
}
use high_performance_http_se.Http.Incremental.{ParseStatus}
use high_performance_http_se.Http.Message.{HttpRequest}
use high_performance_http_se.Http.Response
use high_performance_http_se.Http.Response.{HttpResponseParser}
use high_performance_http_se.Net.Sys.{Sys, SendAnswer, sent, RecvAnswer, received}
use high_performance_http_se.Net.Connection.{Connection}
use high_performance_http_se.Lb.UpstreamPool.{Upstream, UpstreamPool}
use high_performance_http_se.Lb.Proxy.{
  after_send_part, send_loop, send_all, Relayed, after_read_status, after_read, read_response,
  exchange, forward_text, picked, proxy_to, proxy_request,
}
use high_performance_http_se.Lb.HealthChecker.{
  probe_request, after_probe_send, probe_on, probe_once,
}

-- `socket` answers with a descriptor that was not open, `close` closes its descriptor, and nothing else
-- opens or closes one.
pub record OpenLaws (sys : Sys) : Type 1 where
  pub is_open : sys.World → ℕ → Bool
  pub socket_fails :
      (w : sys.World) (k : ℕ) → (sys.socket w).0 ≡ none → is_open (sys.socket w).1 k ≡ is_open w k
  pub socket_opens :
      (w : sys.World) (fd k : ℕ)
      → (sys.socket w).0 ≡ some fd
      → (is_open w fd ≡ false)
        × (is_open (sys.socket w).1 k ≡ (if fd == k then true else is_open w k))
  pub closes :
      (w : sys.World) (fd k : ℕ)
      → is_open (sys.close w fd) k ≡ (if fd == k then false else is_open w k)
  pub connect_keeps :
      (w : sys.World) (fd : ℕ) (a : sys.Address) (port k : ℕ)
      → is_open (sys.connect w fd a port).1 k ≡ is_open w k
  pub send_keeps :
      (w : sys.World) (fd : ℕ) (bytes : Bytes) (k : ℕ)
      → is_open (sys.send w fd bytes).1 k ≡ is_open w k
  pub recv_keeps :
      (w : sys.World) (fd capacity k : ℕ) → is_open (sys.recv w fd capacity).1 k ≡ is_open w k

module _ (sys : Sys) (laws : OpenLaws sys) (k : ℕ) where
  -- Whether `k` is open.
  abbrev pub opened : sys.World → Bool
  opened w = laws.is_open w k

  after_send_part-opened :
      (next : ℕ → sys.World → Bool × sys.World) (offset : ℕ) (p : SendAnswer × sys.World)
      → ((o : ℕ) (w : sys.World) → opened (next o w).1 ≡ opened w)
      → opened (after_send_part sys next offset p).1 ≡ opened p.1
  after_send_part-opened next offset (sent zero, w) h = refl
  after_send_part-opened next offset (sent (suc n), w) h = h (offset + suc n) w
  after_send_part-opened next offset (SendAnswer.would_block, w) h = refl
  after_send_part-opened next offset (SendAnswer.failed, w) h = refl

  pub send_loop-opened :
      (fuel fd : ℕ) (bytes : Bytes) (offset : ℕ) (w : sys.World)
      → opened (send_loop sys fuel fd bytes offset w).1 ≡ opened w
  unfolding send_loop
  send_loop-opened zero fd bytes offset w = refl
  send_loop-opened (suc fuel) fd bytes offset w = elim (Bool-cases (ltb offset (length bytes))) [
    | inl more ↦ rw more (
        after_send_part-opened (send_loop sys fuel fd bytes) offset
          (sys.send w fd (drop offset bytes)) (λ o w'. send_loop-opened fuel fd bytes o w')
        ∙ laws.send_keeps w fd (drop offset bytes) k)
    | inr whole ↦ rw whole
  ]

  after_read-opened :
      (next : HttpResponseParser → sys.World → Relayed sys) (p : HttpResponseParser)
      (a : RecvAnswer × sys.World)
      → ((q : HttpResponseParser) (w : sys.World) → opened (next q w).1 ≡ opened w)
      → opened (after_read sys next p a).1 ≡ opened a.1
  after_read-opened next p (received b bytes, w) h = by_status (Response.consume p (b ∷ bytes))
    where
      by_status :
          (o : HttpResponseParser × ParseStatus)
          → opened (after_read_status sys next o w).1 ≡ opened w
      by_status (q, ParseStatus.need_more_data) = h q w
      by_status (q, ParseStatus.complete) = refl
      by_status (q, ParseStatus.error) = refl
  after_read-opened next p (RecvAnswer.closed, w) h = refl
  after_read-opened next p (RecvAnswer.would_block, w) h = refl
  after_read-opened next p (RecvAnswer.failed, w) h = refl

  pub read_response-opened :
      (reads fd capacity : ℕ) (p : HttpResponseParser) (w : sys.World)
      → opened (read_response sys reads fd capacity p w).1 ≡ opened w
  unfolding read_response
  read_response-opened zero fd capacity p w = refl
  read_response-opened (suc reads) fd capacity p w =
      after_read-opened (read_response sys reads fd capacity) p (sys.recv w fd capacity)
        (λ q w'. read_response-opened reads fd capacity q w')
      ∙ laws.recv_keeps w fd capacity k
