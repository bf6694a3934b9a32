-- ===== src/Net/Serving/Round/Stepwise.antt =====
-- An iteration of reactorLoop is a run of the steps of Net.Serving.Steps.
use high_performance_http_se.Common.{
  ℕ, ◌≡◌, refl, sym, ap, ◌∙◌, inl, inr, true, false, List, [], ◌∷◌, ◌==◌, is_some, Bool-cases,
  arith, subst,
}
use high_performance_http_se.Common.Table.{find, count, find-assign, find-erase}
use high_performance_http_se.Net.Sys.{Sys}
use high_performance_http_se.Net.Serving.{
  Reactor, PendingRearm, IoEvent, Serve, readable, admit, handle_accept, handle_io_event,
  apply_rearm, apply_rearms, apply_pending_rearms,
}
use high_performance_http_se.Net.Serving.Steps.{
  armed_by, System, Fresh, Step, Reachable, then_step, swap_rearms, apply_next, accept_all,
  take_event,
}
use high_performance_http_se.Net.Serving.Counted.{armed_by-modify}
use high_performance_http_se.Net.Serving.Round.{handle_io_events, reactor_round}

-- The events of a `wait`, each with what `accept` answers in its turn.
abbrev pub Batch : Type 0
Batch = List (IoEvent × List ℕ)

abbrev pub fds_of : Batch → List ℕ
fds_of [] = []
fds_of ((ev, accepted) ∷ events) = ev.fd ∷ fds_of events

-- No descriptor has two events.
abbrev pub AreDistinct : Batch → Type 0
AreDistinct [] = Unit {0}
AreDistinct ((ev, accepted) ∷ events) = (count ev.fd (fds_of events) ≡ 0) × AreDistinct events

module _ (sys : Sys) where
  -- Each descriptor but the listener's waits for something.
  abbrev pub AllArmed : Batch → Reactor sys → Type 0
  AllArmed [] r = Unit {0}
  AllArmed ((ev, accepted) ∷ events) r =
      ((ev.fd == r.listen_fd) ≡ false → armed_by (find ev.fd r.interests) ≡ 1) × AllArmed events r

  -- What `accept` answers is not open in its turn.
  abbrev pub AllFresh : Batch → Reactor sys → Type 0
  AllFresh [] r = Unit {0}
  AllFresh ((ev, accepted) ∷ events) r =
      ((ev.fd == r.listen_fd) ≡ true → Fresh sys accepted r)
      × AllFresh events (handle_io_event sys accepted ev r)

  handle_accept-armed :
      (fds : List ℕ) (k : ℕ) (r : Reactor sys)
      → ((handle_accept sys fds r).listen_fd ≡ r.listen_fd)
        × (armed_by (find k r.interests) ≡ 1
            → armed_by (find k (handle_accept sys fds r).interests) ≡ 1)
  unfolding handle_accept armed_by
  handle_accept-armed [] k r = (refl, λ e. e)
  handle_accept-armed (fd ∷ fds) k r =
      let (same, kept) = handle_accept-armed fds k (admit sys fd r) in
      (same, λ e. kept (ground (arith, find-assign fd k readable r.interests, e)))

  handle_io_event-armed :
      (ev : IoEvent) (accepted : List ℕ) (k : ℕ) (r : Reactor sys)
      → (ev.fd == k) ≡ false
      → ((handle_io_event sys accepted ev r).listen_fd ≡ r.listen_fd)
        × (armed_by (find k r.interests) ≡ 1
            → armed_by (find k (handle_io_event sys accepted ev r).interests) ≡ 1)
  unfolding handle_io_event
  handle_io_event-armed ev accepted k r other = elim (Bool-cases (ev.fd == r.listen_fd)) [
    | inl listener ↦ rw listener (handle_accept-armed accepted k r)
    | inr no_listener ↦ elim (Bool-cases (is_some (find ev.fd r.connections))) [
      | inr gone ↦ rw (no_listener, gone) (refl, λ e. e)
      | inl known ↦ elim (Bool-cases ev.error) [
        | inl failed ↦
            rw (no_listener, known, failed)
              (refl, λ e. ap armed_by (find-erase ev.fd k r.interests) ∙ rw other e)
        | inr fine ↦
            rw (no_listener, known, fine)
              (refl, λ e. armed_by-modify k ev.fd 0 r.interests sys ∙ rw other e)
      ]
    ]
  ]

  -- An event leaves those of other descriptors as they are.
  AllArmed-handle_io_event :
      (events : Batch) (ev : IoEvent) (accepted : List ℕ) (r : Reactor sys)
      → count ev.fd (fds_of events) ≡ 0
      → AllArmed events r
      → AllArmed events (handle_io_event sys accepted ev r)
  AllArmed-handle_io_event [] ev accepted r apart armed = tt
  AllArmed-handle_io_event ((next, accepted') ∷ events) ev accepted r apart (waits, armed) =
      let other : (ev.fd == next.fd) ≡ false = ground (arith, apart) in
      let (same, kept) = handle_io_event-armed ev accepted next.fd r other in
      (
        (λ no_listener. kept (waits (ap (λ l. next.fd == l) (sym same) ∙ no_listener))),
        AllArmed-handle_io_event events ev accepted r (omega (arith, apart)) armed,
      )

  no_accept :
      (ev : IoEvent) (accepted : List ℕ) (r : Reactor sys)
      → (ev.fd == r.listen_fd) ≡ false
      → handle_io_event sys [] ev r ≡ handle_io_event sys accepted ev r
  unfolding handle_io_event
  no_accept ev accepted r no_listener = rw no_listener refl

  module _ (serve : Serve sys) (l : ℕ) (w : sys.World) where
    event_step :
        (s : System sys) (ev : IoEvent) (accepted : List ℕ)
        → s.applying ≡ []
        → ((ev.fd == s.reactor.listen_fd) ≡ false → armed_by (find ev.fd s.reactor.interests) ≡ 1)
        → ((ev.fd == s.reactor.listen_fd) ≡ true → Fresh sys accepted s.reactor)
        → Step sys serve s (record s { reactor = handle_io_event sys accepted ev s.reactor })
    event_step s ev accepted idle waits closed = elim (Bool-cases (ev.fd == s.reactor.listen_fd)) [
      | inl listener ↦ accept_all s accepted ev idle listener (closed listener)
      | inr no_listener ↦
          subst (λ r. Step sys serve s (record s { reactor = r }))
            (no_accept ev accepted s.reactor no_listener)
            (take_event s ev idle no_listener (inl (waits no_listener)))
    ]

    handle_io_events-Reachable :
        (events : Batch) (s : System sys)
        → Reachable sys serve l w s
        → s.applying ≡ []
        → AreDistinct events
        → AllArmed events s.reactor
        → AllFresh events s.reactor
        → Reachable sys serve l w (record s { reactor = handle_io_events sys events s.reactor })
    unfolding handle_io_events
    handle_io_events-Reachable [] s reached idle distinct armed fresh = reached
    handle_io_events-Reachable ((ev, accepted) ∷ events) s reached idle (apart, distinct)
          (waits, armed) (closed, fresh) =
        handle_io_events-Reachable events
          (record s { reactor = handle_io_event sys accepted ev s.reactor })
          (then_step s _ reached (event_step s ev accepted idle waits closed)) idle distinct
          (AllArmed-handle_io_event events ev accepted s.reactor apart armed) fresh

    apply_rearms-Reachable :
        (ps : List PendingRearm) (s : System sys)
        → Reachable sys serve l w s
        → s.applying ≡ ps
        → Reachable sys serve l w
            (record s { reactor = apply_rearms sys ps s.reactor; applying = [] })
    unfolding apply_rearms
    apply_rearms-Reachable [] s reached e =
        subst (λ ps. Reachable sys serve l w (record s { applying = ps })) e reached
    apply_rearms-Reachable (p ∷ ps) s reached e =
        apply_rearms-Reachable ps
          (record s { reactor = apply_rearm sys p s.reactor; applying = ps })
          (then_step s _ reached (apply_next s p ps e)) refl

    -- From a reachable state in which no rearms are taken over, an iteration of reactorLoop with nothing in
    -- between comes to a reachable state, if `wait` answers each descriptor once, and only one that waits for
    -- something when the rearms are applied, and `accept` answers descriptors that are not open in its turn.
    pub reactor_round-Reachable :
        (events : Batch) (s : System sys)
        → Reachable sys serve l w s
        → s.applying ≡ []
        → AreDistinct events
        → AllArmed events (apply_pending_rearms sys s.reactor)
        → AllFresh events (apply_pending_rearms sys s.reactor)
        → Reachable sys serve l w (record s { reactor = reactor_round sys events s.reactor })
    unfolding reactor_round apply_pending_rearms
    reactor_round-Reachable events s reached idle distinct armed fresh =
        subst
          (λ ps.
            Reachable sys serve l w
              (record s { reactor = reactor_round sys events s.reactor; applying = ps }))
          (sym idle)
          (handle_io_events-Reachable events
            (record s { reactor = apply_pending_rearms sys s.reactor; applying = [] })
            (apply_rearms-Reachable s.reactor.pending_rearms _
              (then_step s _ reached (swap_rearms s idle)) refl)
            refl distinct armed fresh)
