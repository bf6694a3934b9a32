-- ===== src/Lb/HealthChecker/Verdict.antt =====
-- What a probe answers, and what a pass leaves for the next pick.
use high_performance_http_se.Common.{
  ℕ, zero, suc, ◌<◌, ◌≡◌, refl, sym, ap, ◌∙◌, Bool, true, false, List, [], ◌∷◌, Option, none, some,
  length, arith,
}
use high_performance_http_se.Http.Message.{HttpResponse, serialize}
use high_performance_http_se.Http.Response.RoundTrip.{IsSendable}
use high_performance_http_se.Net.Sys.{Sys, SendAnswer}
use high_performance_http_se.Lb.UpstreamPool.{Upstream, UpstreamPool, is_healthy, pick_next}
use high_performance_http_se.Lb.UpstreamPool.Pick.{Picks, pick_next-Picks}
use high_performance_http_se.Lb.Proxy.Relay.{Chunk, joined, Delivers, read_response-serialize}
use high_performance_http_se.Lb.HealthChecker.{
  probe_request, is_ok, is_ok_status, probe_once, probe_on, probe_upstreams, probe_pool,
}

-- An upstream that is reached, and that answers a sendable response in any pieces, is found healthy just
-- when the status is 200.
pub probe_once-serialize :
    (sys : Sys) (reads : ℕ) (u : Upstream) (w w1 w2 w3 : sys.World) (fd n : ℕ) (a : sys.Address)
    (r : HttpResponse) (c : Chunk) (chunks : List Chunk)
    → sys.socket w ≡ (some fd, w1)
    → sys.parse_address u.host ≡ some a
    → sys.connect w1 fd a u.port ≡ (true, w2)
    → sys.send w2 fd probe_request ≡ (SendAnswer.sent n, w3)
    → IsSendable r
    → joined (c ∷ chunks) ≡ serialize r
    → length chunks < reads
    → Delivers sys fd 2048 w3 (c ∷ chunks)
    → (probe_once sys reads u w).0 ≡ is_ok_status r.status
unfolding probe_once probe_on
probe_once-serialize sys reads u w w1 w2 w3 fd n a r c chunks opened parsed connected all_sent ok
      text few d =
    rw (probe_once, opened, probe_on, parsed, opened, connected, all_sent)
      (ap is_ok (read_response-serialize sys fd 2048 r c chunks reads w3 ok text few d))

module _ (sys : Sys) (reads : ℕ) where
  -- What the probe of the upstream `k` answers in a pass that starts in `w`.
  abbrev pub verdict : List Upstream → sys.World → ℕ → Bool
  verdict [] w k = false
  verdict (u ∷ us) w zero = (probe_once sys reads u w).0
  verdict (u ∷ us) w (suc k) = verdict us (probe_once sys reads u w).1 k

  probe_upstreams-is_healthy :
      (us : List Upstream) (w : sys.World) (k : ℕ)
      → is_healthy (probe_upstreams sys reads us w).0 k ≡ verdict us w k
  unfolding probe_upstreams
  probe_upstreams-is_healthy [] w k = refl
  probe_upstreams-is_healthy (u ∷ us) w zero = refl
  probe_upstreams-is_healthy (u ∷ us) w (suc k) =
      probe_upstreams-is_healthy us (probe_once sys reads u w).1 k

  probe_upstreams-length :
      (us : List Upstream) (w : sys.World) → length (probe_upstreams sys reads us w).0 ≡ length us
  unfolding probe_upstreams
  probe_upstreams-length [] w = refl
  probe_upstreams-length (u ∷ us) w =
      ap suc (probe_upstreams-length us (probe_once sys reads u w).1)

  -- The pick is an upstream that the pass has found healthy, and there is none only where it has found
  -- none.
  abbrev pub AgreesWithPass : List Upstream → sys.World → Option ℕ → Type 0
  AgreesWithPass us w none = (k : ℕ) → k < length us → verdict us w k ≡ false
  AgreesWithPass us w (some k) = (k < length us) × (verdict us w k ≡ true)

  Picks-AgreesWithPass :
      (pool : UpstreamPool) (w : sys.World) (o : Option ℕ)
      → Picks (probe_pool sys reads pool w).0 o
      → AgreesWithPass pool.upstreams w o
  unfolding probe_pool
  Picks-AgreesWithPass pool w none h = λ k less.
      let same = probe_upstreams-length pool.upstreams w in
      sym (probe_upstreams-is_healthy pool.upstreams w k) ∙ h k (omega arith)
  Picks-AgreesWithPass pool w (some k) h =
      let same = probe_upstreams-length pool.upstreams w in
      let inside = h.in_range in
      (omega arith, sym (probe_upstreams-is_healthy pool.upstreams w k) ∙ h.healthy)

  -- After a pass of the health checker, whatever the upstreams were taken for before, a pick answers an
  -- upstream that the pass has found healthy, and answers none only where it has found none.
  pub pick_next-probe_pool :
      (pool : UpstreamPool) (w : sys.World)
      → AgreesWithPass pool.upstreams w (pick_next (probe_pool sys reads pool w).0).1
  pick_next-probe_pool pool w = Picks-AgreesWithPass pool w _ (pick_next-Picks _)
