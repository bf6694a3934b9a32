-- ===== src/Tests/Waiting.antt =====
-- A `wait` that is told of a descriptor twice.
use high_performance_http_se.Common.{
  refl, ℕ, ◌≡◌, true, false, List, [], ◌∷◌, Option, some, none, ◌++◌, length,
}
use high_performance_http_se.Http.Number.{pos}
use high_performance_http_se.Common.Table.{find}
use high_performance_http_se.Net.EventLoop.Epoll.{epoll_in, event_from}
use high_performance_http_se.Net.Connection.{new_connection}
use high_performance_http_se.Net.Serving.{Reactor, IoEvent, handle_io_event}
use high_performance_http_se.Net.Serving.HalfClose.{half_close_drops}
use high_performance_http_se.Tests.Kernel.{kernel}
use high_performance_http_se.Net.EventLoop.Kqueue.{KernelEvent, read, write}
use high_performance_http_se.Net.EventLoop.Kqueue.Merging.{report}
use high_performance_http_se.Net.EventLoop.Wait.{Timespec, Waited, kqueue_wait}
use high_performance_http_se.Net.EventLoop.Wait.Once.{events_of, to_list, kqueue_wait-report}

abbrev two_events : List KernelEvent
two_events =
    record { ident = 4; filter = read; flagged = false }
    ∷ record { ident = 4; filter = write; flagged = true }
    ∷ []

abbrev kevent : ℕ → Option Timespec → Option (List KernelEvent) × ℕ
kevent w timeout = (some two_events, w)

abbrev waited : Waited
waited = (kqueue_wait kevent (pos 100) 0).0

kqueue_wait-report_example :
    (events_of 4 waited.out ≡ to_list (report 4 two_events)) × (waited.answer ≡ length waited.out)
kqueue_wait-report_example = kqueue_wait-report kevent (pos 100) 0 4

-- The peer has sent a request, and shut down its sending side.
abbrev half_closed : ℕ → Option Timespec → Option (List KernelEvent) × ℕ
half_closed w timeout = (some (record { ident = 4; filter = read; flagged = true } ∷ []), w)

abbrev serving : Reactor kernel
serving = record {
  listen_fd = 3;
  connections = (4, new_connection 4) ∷ [];
  interests = (4, 1) ∷ (3, 1) ∷ [];
  pending_rearms = [];
  tasks = [];
  world = record { out = []; reads = [] };
}

half_close_drops_example :
    ((ev : IoEvent) × (events_of 4 (kqueue_wait half_closed (pos 100) 0).0.out ≡ ev ∷ [])
      × (find 4 (handle_io_event kernel [] ev serving).connections ≡ none))
    × ((handle_io_event kernel [] (event_from (4, epoll_in)) serving).connections
        ≡ serving.connections)
    × ((handle_io_event kernel [] (event_from (4, epoll_in)) serving).tasks ≡ [] ++ 4 ∷ [])
unfolding find
half_close_drops_example = half_close_drops kernel 4 serving half_closed (pos 100) 0 refl refl refl
