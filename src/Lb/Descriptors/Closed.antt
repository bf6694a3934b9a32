-- ===== src/Lb/Descriptors/Closed.antt =====
-- A proxied request and a probe close what they open.
use high_performance_http_se.Common.{
  ℕ, suc, ◌≡◌, refl, sym, ap, ◌∙◌, inl, inr, Bool, not, none, some, ◌==◌, length, if◌then◌else◌,
  arith, Bool-cases, Option-cases,
}
use high_performance_http_se.Http.Message.{HttpRequest}
use high_performance_http_se.Http.Response
use high_performance_http_se.Http.Response.{HttpResponseParser}
use high_performance_http_se.Net.Sys.{Sys, SendAnswer, sent}
use high_performance_http_se.Net.Connection.{Connection}
use high_performance_http_se.Lb.UpstreamPool.{Upstream, UpstreamPool}
use high_performance_http_se.Lb.Proxy.{
  send_all, Relayed, read_response, exchange, forward_text, picked, proxy_to, proxy_request,
}
use high_performance_http_se.Lb.HealthChecker.{
  probe_request, after_probe_send, probe_on, probe_once,
}
use high_performance_http_se.Lb.Descriptors.{
  OpenLaws, opened, send_loop-opened, read_response-opened,
}

module _ (sys : Sys) (laws : OpenLaws sys) (k : ℕ) where
  -- `exchange`, with the address as it is filled in.
  abbrev exchange_at : ℕ → ℕ → sys.Address → ℕ → HttpRequest → sys.World → Relayed sys
  exchange_at reads ufd address port req w =
      let (connected, w1) = sys.connect w ufd address port in
      let (all_sent, w2) = send_all sys ufd (forward_text req) w1 in
      if not connected
      then (none, w1)
      else if not all_sent
      then (none, w2)
      else read_response sys reads ufd 8192 Response.new_parser w2

  exchange_at-opened :
      (reads ufd : ℕ) (address : sys.Address) (port : ℕ) (req : HttpRequest) (w : sys.World)
      → opened sys laws k (exchange_at reads ufd address port req w).1 ≡ opened sys laws k w
  unfolding send_all
  exchange_at-opened reads ufd address port req w =
      let w1 : sys.World = (sys.connect w ufd address port).1 in
      let p : Bool × sys.World = send_all sys ufd (forward_text req) w1 in
      let e1 : opened sys laws k w1 ≡ opened sys laws k w =
        laws.connect_keeps w ufd address port k in
      let e2 : opened sys laws k p.1 ≡ opened sys laws k w1 =
        send_loop-opened sys laws k (suc (length (forward_text req))) ufd (forward_text req) 0 w1 in
      elim (Bool-cases (sys.connect w ufd address port).0) [
        | inr refused ↦ rw refused e1
        | inl connected ↦ elim (Bool-cases p.0) [
          | inr part ↦ rw (connected, part) (e2 ∙ e1)
          | inl whole ↦
              rw (connected, whole)
                (read_response-opened sys laws k reads ufd 8192 Response.new_parser p.1 ∙ e2 ∙ e1)
        ]
      ]

  exchange-opened :
      (reads ufd : ℕ) (u : Upstream) (req : HttpRequest) (w : sys.World)
      → opened sys laws k (exchange sys reads ufd u req w).1 ≡ opened sys laws k w
  unfolding exchange
  exchange-opened reads ufd u req w = exchange_at-opened reads ufd _ u.port req w

  -- A descriptor that `socket` has answered is closed again.
  close-opened :
      (w w' : sys.World) (fd : ℕ)
      → (sys.socket w).0 ≡ some fd
      → opened sys laws k w' ≡ opened sys laws k (sys.socket w).1
      → opened sys laws k (sys.close w' fd) ≡ opened sys laws k w
  close-opened w w' fd e same =
      let (free, now) = laws.socket_opens w fd k e in
      elim (Bool-cases (fd == k)) [
        | inl it ↦
            let n : fd ≡ k = ground (arith, it) in
            laws.closes w' fd k ∙ rw it (sym free ∙ ap (laws.is_open w) n)
        | inr other ↦ laws.closes w' fd k ∙ rw other (same ∙ now ∙ rw other refl)
      ]

  proxy_to-opened :
      (reads : ℕ) (u : Upstream) (c : Connection) (w : sys.World)
      → opened sys laws k (proxy_to sys reads u c w).1 ≡ opened sys laws k w
  unfolding proxy_to
  proxy_to-opened reads u c w = elim (Option-cases (sys.socket w).0) [
    | inl e ↦ rw (proxy_to, e) (laws.socket_fails w k e)
    | inr (fd, e) ↦
        rw (proxy_to, e)
          (close-opened w (exchange sys reads fd u c.parser.message (sys.socket w).1).1 fd e
            (exchange-opened reads fd u c.parser.message (sys.socket w).1))
  ]

  proxy_request-opened :
      (reads : ℕ) (pool : UpstreamPool) (c : Connection) (w : sys.World)
      → opened sys laws k (proxy_request sys reads pool c w).1.1 ≡ opened sys laws k w
  unfolding proxy_request
  proxy_request-opened reads pool c w = elim (Option-cases (picked sys pool)) [
    | inl e ↦ rw (proxy_request, e)
    | inr (u, e) ↦ rw (proxy_request, e) (proxy_to-opened reads u c w)
  ]

  -- `w'` is the world behind the `send`.
  after_probe_send-opened :
      (reads fd : ℕ) (a : SendAnswer × sys.World) (w : sys.World)
      → (sys.socket w).0 ≡ some fd
      → opened sys laws k a.1 ≡ opened sys laws k (sys.socket w).1
      → opened sys laws k (after_probe_send sys reads fd a).1 ≡ opened sys laws k w
  after_probe_send-opened reads fd (sent n, w') w e same =
      close-opened w (read_response sys reads fd 2048 Response.new_parser w').1 fd e
        (read_response-opened sys laws k reads fd 2048 Response.new_parser w' ∙ same)
  after_probe_send-opened reads fd (SendAnswer.would_block, w') w e same =
      close-opened w w' fd e same
  after_probe_send-opened reads fd (SendAnswer.failed, w') w e same = close-opened w w' fd e same

  probe_on-opened :
      (reads fd : ℕ) (u : Upstream) (w : sys.World)
      → (sys.socket w).0 ≡ some fd
      → opened sys laws k (probe_on sys reads fd u (sys.socket w).1).1 ≡ opened sys laws k w
  unfolding probe_on
  probe_on-opened reads fd u w e = elim (Option-cases (sys.parse_address u.host)) [
    | inl bad ↦ rw (probe_on, bad) (close-opened w (sys.socket w).1 fd e refl)
    | inr (a, good) ↦
        let w1 : sys.World = (sys.connect (sys.socket w).1 fd a u.port).1 in
        let e1 : opened sys laws k w1 ≡ opened sys laws k (sys.socket w).1 =
          laws.connect_keeps (sys.socket w).1 fd a u.port k in
        elim (Bool-cases (sys.connect (sys.socket w).1 fd a u.port).0) [
          | inr refused ↦ rw (probe_on, good, refused) (close-opened w w1 fd e e1)
          | inl connected ↦
              rw (probe_on, good, connected)
                (after_probe_send-opened reads fd (sys.send w1 fd probe_request) w e
                  (laws.send_keeps w1 fd probe_request k ∙ e1))
        ]
  ]

  probe_once-opened :
      (reads : ℕ) (u : Upstream) (w : sys.World)
      → opened sys laws k (probe_once sys reads u w).1 ≡ opened sys laws k w
  unfolding probe_once
  probe_once-opened reads u w = elim (Option-cases (sys.socket w).0) [
    | inl e ↦ rw (probe_once, e) (laws.socket_fails w k e)
    | inr (fd, e) ↦ rw (probe_once, e) (probe_on-opened reads fd u w e)
  ]

  -- Over system calls that open and close descriptors as they should, a proxied request and a health probe
  -- leave just the descriptors open that were open before, whatever the upstream and the calls answer.
  pub upstream_descriptors_closed :
      (reads : ℕ) (pool : UpstreamPool) (c : Connection) (u : Upstream) (w : sys.World)
      → (opened sys laws k (proxy_request sys reads pool c w).1.1 ≡ opened sys laws k w)
        × (opened sys laws k (probe_once sys reads u w).1 ≡ opened sys laws k w)
  upstream_descriptors_closed reads pool c u w =
      (proxy_request-opened reads pool c w, probe_once-opened reads u w)
