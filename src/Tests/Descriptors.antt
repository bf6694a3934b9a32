-- ===== src/Tests/Descriptors.antt =====
-- System calls that keep track of the open descriptors.
use high_performance_http_se.Common.{
  ℕ, ◌≡◌, refl, sym, ap, ◌∙◌, Bool, true, false, [], Option, none, some, ◌==◌, if◌then◌else◌,
  length,
}
use high_performance_http_se.Net.Sys.{Sys, sent, RecvAnswer}
use high_performance_http_se.Net.Connection.{new_connection}
use high_performance_http_se.Lb.Proxy.{proxy_request}
use high_performance_http_se.Lb.HealthChecker.{probe_once}
use high_performance_http_se.Lb.Descriptors.{OpenLaws, opened}
use high_performance_http_se.Lb.Descriptors.Closed.{upstream_descriptors_closed}
use high_performance_http_se.Tests.Witnesses.{upstream_at, half_down}

-- Its world says which descriptors are open. `socket` answers 9 while that is free, and the peer of a
-- connection closes at once.
abbrev Opened : Type 0
Opened = ℕ → Bool

abbrev give : Bool → Opened → Option ℕ × Opened
give true w = (none, w)
give false w = (some 9, λ k. if 9 == k then true else w k)

abbrev tracking : Sys
tracking = record {
  World = Opened;
  socket = λ w. give (w 9) w;
  Address = Unit {0};
  parse_address = λ host. some tt;
  zero_address = tt;
  connect = λ w fd address port. (true, w);
  send = λ w fd bytes. (sent (length bytes), w);
  recv = λ w fd capacity. (RecvAnswer.closed, w);
  close = λ w fd. λ k. if fd == k then false else w k;
  output = λ w fd. [];
  hang_up_unasked = false;
}

give-none : (b : Bool) (w : Opened) (k : ℕ) → (give b w).0 ≡ none → (give b w).1 k ≡ w k
give-none true w k e = refl
give-none false w k e = cc

give-some :
    (b : Bool) (w : Opened) (fd k : ℕ)
    → w 9 ≡ b
    → (give b w).0 ≡ some fd
    → (w fd ≡ false) × ((give b w).1 k ≡ (if fd == k then true else w k))
give-some true w fd k free e = cc
give-some false w fd k free e =
    let n : 9 ≡ fd = cc in (sym (ap w n) ∙ free, ap (λ (i : ℕ). if i == k then true else w k) n)

tracking_laws : OpenLaws tracking
tracking_laws = record {
  is_open = λ w k. w k;
  socket_fails = λ w k e. give-none (w 9) w k e;
  socket_opens = λ w fd k e. give-some (w 9) w fd k refl e;
  closes = λ w fd k. refl;
  connect_keeps = λ w fd a port k. refl;
  send_keeps = λ w fd bytes k. refl;
  recv_keeps = λ w fd capacity k. refl;
}

abbrev none_open : Opened
none_open = λ k. false

upstream_descriptors_closed_example :
    (opened tracking tracking_laws 9
        (proxy_request tracking 4 half_down (new_connection 5) none_open).1.1
      ≡ opened tracking tracking_laws 9 none_open)
    × (opened tracking tracking_laws 9 (probe_once tracking 4 (upstream_at 9001 true) none_open).1
        ≡ opened tracking tracking_laws 9 none_open)
upstream_descriptors_closed_example =
    upstream_descriptors_closed tracking tracking_laws 9 4 half_down (new_connection 5)
      (upstream_at 9001 true) none_open
