-- ===== src/Tests/Rounds.antt =====
-- A round of the reactor over epoll: the listener has an event, and `accept` answers one connection.
use high_performance_http_se.Common.{ℕ, ◌≡◌, refl, false, List, [], ◌∷◌, Option, arith}
use high_performance_http_se.Common.Table.{find, assign}
use high_performance_http_se.Net.EventLoop.{add}
use high_performance_http_se.Net.EventLoop.Promise.{Backend, Succeeds, done, then_call}
use high_performance_http_se.Net.EventLoop.Epoll
use high_performance_http_se.Net.EventLoop.Epoll.Refines.{epoll_backend}
use high_performance_http_se.Net.Serving.{Reactor, IoEvent, apply_pending_rearms, apply_rearms}
use high_performance_http_se.Net.Serving.Steps.{System, Reachable, started}
use high_performance_http_se.Net.Serving.Round.Stepwise.{reactor_round-Reachable}
use high_performance_http_se.Server.Router.{new_router}
use high_performance_http_se.Server.Serve.{serve}
use high_performance_http_se.Net.Serving.Round.{
  reactor_round, round_calls, rearms_calls, io_events_calls,
}
use high_performance_http_se.Net.Serving.Round.Tracked.{mask_at, AllRegistered, reactor_round-waits}
use high_performance_http_se.Tests.Backends.{small_epoll, small_epoll_laws, epoll_start}
use high_performance_http_se.Tests.Kernel.{World, kernel}

abbrev new_world : World
new_world = record { out = []; reads = [] }

abbrev at_start : Reactor kernel
at_start = (started kernel 3 new_world).reactor

abbrev events : List (IoEvent × List ℕ)
events = (record { fd = 3; mask = 1; error = false }, 5 ∷ []) ∷ []

abbrev listening : ℕ → Option ℕ
listening = (Epoll.call small_epoll (add 3 1) epoll_start).1

abbrev serving : ℕ → Option ℕ
serving = (Epoll.call small_epoll (add 5 1) listening).1

abbrev backend : Backend
backend = epoll_backend small_epoll small_epoll_laws

listening-waits : (k : ℕ) → backend.waits listening k ≡ mask_at kernel at_start k
unfolding Epoll.call Epoll.add_interest find assign Epoll.from_epoll_events Epoll.to_epoll_events
listening-waits k = ground arith

round_run : Succeeds backend (round_calls kernel events at_start) listening serving
unfolding Epoll.call Epoll.add_interest round_calls rearms_calls io_events_calls
    apply_pending_rearms apply_rearms
round_run = then_call (add 5 1) [] listening serving serving refl (done serving)

reactor_round-waits_example :
    AllRegistered kernel (reactor_round kernel events at_start)
    × backend.IsValid serving
    × ((k : ℕ) → backend.waits serving k ≡ mask_at kernel (reactor_round kernel events at_start) k)
unfolding find
reactor_round-waits_example =
    reactor_round-waits kernel backend listening serving events at_start tt (λ k e. cc)
      listening-waits round_run

abbrev program : System kernel
program = started kernel 3 new_world

reactor_round-Reachable_example :
    Reachable kernel
      (serve kernel new_router)
      3
      new_world
      (record program { reactor = reactor_round kernel events program.reactor })
unfolding find apply_pending_rearms apply_rearms
reactor_round-Reachable_example =
    reactor_round-Reachable kernel (serve kernel new_router) 3 new_world events program
      Reachable.at_start refl (refl, tt) (λ other. cc, tt) (λ listener. (refl, refl, tt), tt)
