-- ===== src/Net/Serving/HalfClose.antt =====
-- A peer that has shut down its sending side: what the reactor does over kqueue and over epoll.
use high_performance_http_se.Common.{
  ℕ, ◌≡◌, refl, ap, ◌∙◌, true, false, List, [], ◌∷◌, ◌++◌, Option, none, some, ◌==◌, ==_self,
  is_some, arith,
}
use high_performance_http_se.Common.Table.{find, find-erase}
use high_performance_http_se.Http.Number.{ℤ}
use high_performance_http_se.Net.EventLoop.Epoll.{epoll_in, event_from}
use high_performance_http_se.Net.EventLoop.Kqueue.{KernelEvent}
use high_performance_http_se.Net.EventLoop.Kqueue.Merging.{
  any, flags, reads, writes, mask_bits, any_event, report,
}
use high_performance_http_se.Net.EventLoop.Wait.{Timespec, timespec_of, kqueue_wait}
use high_performance_http_se.Net.EventLoop.Wait.Once.{
  events_of, to_list, reported, kqueue_wait-report,
}
use high_performance_http_se.Net.Sys.{Sys}
use high_performance_http_se.Net.Serving.{Reactor, IoEvent, handle_io_event}

flagged_any :
    (fd : ℕ) (events : List KernelEvent)
    → any_event flags fd events ≡ true
    → any_event any fd events ≡ true
flagged_any fd [] e = e
flagged_any fd (k ∷ events) e = ground (arith, e, flagged_any fd events)

abbrev flagged_event : ℕ → List KernelEvent → IoEvent
flagged_event fd events = record {
  fd = fd;
  mask = mask_bits (any_event reads fd events) (any_event writes fd events);
  error = true;
}

flagged_report :
    (fd : ℕ) (events : List KernelEvent)
    → any_event flags fd events ≡ true
    → report fd events ≡ some (flagged_event fd events)
flagged_report fd events e = rw (flagged_any fd events e, e) refl

module _ (sys : Sys) (fd : ℕ) (r : Reactor sys) where
  error_drops :
      (ev : IoEvent)
      → ev.fd ≡ fd
      → ev.error ≡ true
      → (fd == r.listen_fd) ≡ false
      → is_some (find fd r.connections) ≡ true
      → find fd (handle_io_event sys [] ev r).connections ≡ none
  unfolding handle_io_event
  error_drops ev same failed apart known =
      rw (same, apart, known, failed) (find-erase fd fd r.connections ∙ rw (==_self fd) refl)

  -- A connection that the reactor knows: if kevent flags an event for it, as it does with EV_EOF where the peer
  -- has shut down its sending side, `wait` leaves one event, and the reactor drops the connection for it,
  -- whether or not it is readable as well; of the same readiness, epoll reports EPOLLIN alone, and the reactor
  -- keeps the connection and queues it for a worker.
  pub half_close_drops :
      {World : Type 0} (kevent : World → Option Timespec → Option (List KernelEvent) × World)
      (timeout_ms : ℤ) (w : World)
      → (fd == r.listen_fd) ≡ false
      → is_some (find fd r.connections) ≡ true
      → any_event flags fd (reported (kevent w (timespec_of timeout_ms)).0) ≡ true
      → ((ev : IoEvent) × (events_of fd (kqueue_wait kevent timeout_ms w).0.out ≡ ev ∷ [])
          × (find fd (handle_io_event sys [] ev r).connections ≡ none))
        × ((handle_io_event sys [] (event_from (fd, epoll_in)) r).connections ≡ r.connections)
        × ((handle_io_event sys [] (event_from (fd, epoll_in)) r).tasks ≡ r.tasks ++ fd ∷ [])
  unfolding handle_io_event
  half_close_drops kevent timeout_ms w apart known flagged =
      let events = reported (kevent w (timespec_of timeout_ms)).0 in
      (
        (
          flagged_event fd events,
          (kqueue_wait-report kevent timeout_ms w fd).0
              ∙ ap to_list (flagged_report fd events flagged),
          error_drops (flagged_event fd events) refl refl apart known,
        ),
        rw (apart, known) refl,
        rw (apart, known) refl,
      )
