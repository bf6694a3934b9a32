-- ===== src/Tests/Draining.antt =====
-- An event of a connection, and what follows it.
use high_performance_http_se.Common.{ℕ, ◌+◌, ◌≤◌, ◌≡◌, ◌⊎◌, inl, refl, false, [], ◌∷◌, some}
use high_performance_http_se.Common.Table.{find, assign}
use high_performance_http_se.Net.Connection.{Connection}
use high_performance_http_se.Net.Serving.{IoEvent, handle_accept, handle_io_event}
use high_performance_http_se.Net.Serving.Steps.{
  System, Reachable, then_step, take_event, start_task, armed_by,
}
use high_performance_http_se.Net.Serving.Waiting.{wanted}
use high_performance_http_se.Net.Serving.Waiting.Reached.{IsIdle}
use high_performance_http_se.Net.Serving.Draining.{
  GoesOn, stays, then_on, CanGoOn, steps_left, Reachable-drains,
}
use high_performance_http_se.Server.Serve.{serve}
use high_performance_http_se.Server.Serve.Closing.{serve-ServeRearms}
use high_performance_http_se.Tests.Kernel.{kernel, kernel_laws}
use high_performance_http_se.Tests.Sessions.{router, no_reads, server_at, server_at-Reachable}

abbrev readable_event : IoEvent
readable_event = record { fd = 5; mask = 1; error = false }

abbrev queued : System kernel
queued = record server_at { reactor = handle_io_event kernel [] readable_event server_at.reactor }

abbrev busy : System kernel
busy = record queued { reactor = record queued.reactor { tasks = [] }; running = 5 ∷ [] }

queued-Reachable : Reachable kernel (serve kernel router) 3 no_reads queued
unfolding find assign handle_accept handle_io_event armed_by
queued-Reachable =
    then_step server_at _ server_at-Reachable
      (take_event server_at readable_event refl refl (inl refl))

queued-GoesOn : GoesOn kernel (serve kernel router) 1 queued busy
unfolding find assign handle_accept handle_io_event
queued-GoesOn = then_on 0 queued busy busy (start_task queued 5 [] refl) refl (stays busy)

Reachable-drains_example :
    (1 + steps_left kernel busy ≤ steps_left kernel queued)
    × (CanGoOn kernel (serve kernel router) busy
        ⊎ IsIdle kernel busy
          × ((k : ℕ) (c : Connection)
              → find k busy.reactor.connections ≡ some c
              → find k busy.reactor.interests ≡ some (wanted c)))
Reachable-drains_example =
    Reachable-drains kernel kernel_laws (serve kernel router)
      (serve-ServeRearms kernel kernel_laws router) refl 3 1 no_reads queued busy queued-Reachable
      queued-GoesOn
