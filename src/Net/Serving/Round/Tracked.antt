-- ===== src/Net/Serving/Round/Tracked.antt =====
-- The masks that Net.Serving keeps are those that its calls make of the event loop.
use high_performance_http_se.Common.{
  ℕ, ◌≡◌, refl, sym, ◌∙◌, inl, inr, true, List, [], ◌∷◌, ◌++◌, ◌==◌, is_some, Bool-cases,
}
use high_performance_http_se.Common.Table.{find}
use high_performance_http_se.Net.EventLoop.{Call, add, remove}
use high_performance_http_se.Net.EventLoop.Promise.{
  Masks, replay, replay-agrees, Backend, Succeeds, Succeeds-refines,
}
use high_performance_http_se.Net.Connection.{new_connection}
use high_performance_http_se.Net.Sys.{Sys}
use high_performance_http_se.Net.Serving.{
  Reactor, RearmAction, wait_readable, wait_writable, close, PendingRearm, IoEvent, readable,
  writable, admit, handle_accept, drop_connection, rearm, apply_rearm, apply_rearms,
  apply_pending_rearms, handle_io_event,
}
use high_performance_http_se.Net.Serving.Round.{
  accept_calls, rearm_call, rearm_calls, rearms_calls, io_event_calls, handle_io_events,
  io_events_calls, reactor_round, round_calls,
}
use high_performance_http_se.Net.Serving.Round.Masks.{
  mask_of, replay-append, Registered, Registered-assign, Registered-erase, Registered-modify,
  mask-assign, mask-erase, mask-modify,
}

module _ (sys : Sys) where
  abbrev pub mask_at : Reactor sys → Masks
  mask_at r k = mask_of (find k r.interests)

  abbrev pub AllRegistered : Reactor sys → Type 0
  AllRegistered r = Registered r.connections r.interests

  -- From `r` to `r'`, the masks change as the calls say.
  abbrev pub Tracks : Reactor sys → Reactor sys → List Call → Type 0
  Tracks r r' calls = AllRegistered r' × ((k : ℕ) → mask_at r' k ≡ replay calls (mask_at r) k)

  Tracks-then :
      (r r' r'' : Reactor sys) (calls more : List Call)
      → Tracks r r' calls
      → Tracks r' r'' more
      → Tracks r r'' (calls ++ more)
  Tracks-then r r' r'' calls more (h, e) (h', e') = (
    h',
    λ k.
        e' k
        ∙ replay-agrees more (mask_at r') (replay calls (mask_at r)) e k
        ∙ sym (replay-append calls more (mask_at r) k),
  )

  admit-Tracks :
      (fd : ℕ) (r : Reactor sys)
      → AllRegistered r
      → Tracks r (admit sys fd r) (add fd readable ∷ [])
  unfolding replay
  admit-Tracks fd r h = (
    Registered-assign fd readable (new_connection fd) r.connections r.interests h,
    λ k. mask-assign fd readable k r.interests,
  )

  handle_accept-Tracks :
      (fds : List ℕ) (r : Reactor sys)
      → AllRegistered r
      → Tracks r (handle_accept sys fds r) (accept_calls fds)
  unfolding handle_accept replay
  handle_accept-Tracks [] r h = (h, λ k. refl)
  handle_accept-Tracks (fd ∷ fds) r h =
      let (h', e) = admit-Tracks fd r h in
      Tracks-then r (admit sys fd r) (handle_accept sys fds (admit sys fd r)) (add fd readable ∷ [])
        (accept_calls fds) (h', e) (handle_accept-Tracks fds (admit sys fd r) h')

  drop_connection-Tracks :
      (fd : ℕ) (r : Reactor sys)
      → AllRegistered r
      → Tracks r (drop_connection sys fd r) (remove fd ∷ [])
  unfolding replay
  drop_connection-Tracks fd r h =
      (Registered-erase fd r.connections r.interests h, λ k. mask-erase fd k r.interests)

  rearm-Tracks :
      (a : RearmAction) (fd : ℕ) (r : Reactor sys)
      → is_some (find fd r.connections) ≡ true
      → AllRegistered r
      → Tracks r (rearm sys a fd r) (rearm_call a fd ∷ [])
  unfolding replay
  rearm-Tracks wait_readable fd r found h = (
    Registered-modify sys fd readable r.connections r.interests h,
    λ k. mask-modify sys fd readable k r.interests (h fd found),
  )
  rearm-Tracks wait_writable fd r found h = (
    Registered-modify sys fd writable r.connections r.interests h,
    λ k. mask-modify sys fd writable k r.interests (h fd found),
  )
  rearm-Tracks close fd r found h = drop_connection-Tracks fd r h

  apply_rearm-Tracks :
      (p : PendingRearm) (r : Reactor sys)
      → AllRegistered r
      → Tracks r (apply_rearm sys p r) (rearm_calls sys p r)
  unfolding apply_rearm replay
  apply_rearm-Tracks p r h = elim (Bool-cases (is_some (find p.fd r.connections))) [
    | inl e ↦ rw e (rearm-Tracks p.action p.fd r e h)
    | inr e ↦ rw e (h, λ k. refl)
  ]

  apply_rearms-Tracks :
      (ps : List PendingRearm) (r : Reactor sys)
      → AllRegistered r
      → Tracks r (apply_rearms sys ps r) (rearms_calls sys ps r)
  unfolding apply_rearms rearms_calls replay
  apply_rearms-Tracks [] r h = (h, λ k. refl)
  apply_rearms-Tracks (p ∷ ps) r h =
      let r' : Reactor sys = apply_rearm sys p r in
      let (h', e) = apply_rearm-Tracks p r h in
      Tracks-then r r' (apply_rearms sys ps r') (rearm_calls sys p r) (rearms_calls sys ps r')
        (h', e) (apply_rearms-Tracks ps r' h')

  handle_io_event-Tracks :
      (accepted : List ℕ) (ev : IoEvent) (r : Reactor sys)
      → AllRegistered r
      → Tracks r (handle_io_event sys accepted ev r) (io_event_calls sys accepted ev r)
  unfolding handle_io_event replay
  handle_io_event-Tracks accepted ev r h = elim (Bool-cases (ev.fd == r.listen_fd)) [
    | inl e ↦ rw e (handle_accept-Tracks accepted r h)
    | inr e ↦ elim (Bool-cases (is_some (find ev.fd r.connections))) [
      | inr none_there ↦ rw (e, none_there) (h, λ k. refl)
      | inl found ↦ elim (Bool-cases ev.error) [
        | inl failed ↦ rw (e, found, failed) (drop_connection-Tracks ev.fd r h)
        | inr fine ↦
            rw (e, found, fine)
              (
                Registered-modify sys ev.fd 0 r.connections r.interests h,
                λ k. mask-modify sys ev.fd 0 k r.interests (h ev.fd found),
              )
      ]
    ]
  ]

  handle_io_events-Tracks :
      (events : List (IoEvent × List ℕ)) (r : Reactor sys)
      → AllRegistered r
      → Tracks r (handle_io_events sys events r) (io_events_calls sys events r)
  unfolding handle_io_events io_events_calls replay
  handle_io_events-Tracks [] r h = (h, λ k. refl)
  handle_io_events-Tracks ((ev, accepted) ∷ events) r h =
      let r' : Reactor sys = handle_io_event sys accepted ev r in
      let (h', e) = handle_io_event-Tracks accepted ev r h in
      Tracks-then r r' (handle_io_events sys events r') (io_event_calls sys accepted ev r)
        (io_events_calls sys events r') (h', e) (handle_io_events-Tracks events r' h')

  reactor_round-Tracks :
      (events : List (IoEvent × List ℕ)) (r : Reactor sys)
      → AllRegistered r
      → Tracks r (reactor_round sys events r) (round_calls sys events r)
  unfolding reactor_round round_calls apply_pending_rearms
  reactor_round-Tracks events r h =
      let r0 : Reactor sys = record r { pending_rearms = [] } in
      let r' : Reactor sys = apply_rearms sys r.pending_rearms r0 in
      let (h', e) = apply_rearms-Tracks r.pending_rearms r0 h in
      Tracks-then r r' (handle_io_events sys events r') (rearms_calls sys r.pending_rearms r0)
        (io_events_calls sys events r') (h', e) (handle_io_events-Tracks events r' h')

  -- Over a backend of EventLoop that keeps its promise and whose calls in the round all succeed, an
  -- iteration of reactorLoop leaves each descriptor waiting for the mask that Net.Serving holds for it, and
  -- each connection registered, if this was so before: the rearms come first, and then the events.
  pub reactor_round-waits :
      (b : Backend) (s s' : b.State) (events : List (IoEvent × List ℕ)) (r : Reactor sys)
      → b.IsValid s
      → AllRegistered r
      → ((k : ℕ) → b.waits s k ≡ mask_at r k)
      → Succeeds b (round_calls sys events r) s s'
      → AllRegistered (reactor_round sys events r)
        × b.IsValid s'
        × ((k : ℕ) → b.waits s' k ≡ mask_at (reactor_round sys events r) k)
  reactor_round-waits b s s' events r valid h same ok =
      let (h', e) = reactor_round-Tracks events r h in
      let (valid', made) = Succeeds-refines b (round_calls sys events r) s s' valid ok in
      (
        h',
        valid',
        λ k.
            made k
            ∙ replay-agrees (round_calls sys events r) (b.waits s) (mask_at r) same k
            ∙ sym (e k),
      )
