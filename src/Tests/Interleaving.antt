-- ===== src/Tests/Interleaving.antt =====
-- A short run of the reactor and a worker, and the theorems on its states.
use high_performance_http_se.Common.{
  ◌≡◌, inl, refl, true, false, [], ◌∷◌, some, none, arith, is_some,
}
use high_performance_http_se.Common.Table.{find, assign, count}
use high_performance_http_se.Tests.Kernel.{World, kernel}
use high_performance_http_se.Net.Serving.{
  Serve, IoEvent, readable, handle_accept, handle_io_event, wait_readable,
}
use high_performance_http_se.Net.Serving.Steps.{
  System, started, Step, Reachable, at_start, then_step, accept_all, take_event, start_task,
  armed_by,
}
use high_performance_http_se.Net.Serving.Ownership.{HasOneOwner, Reachable-HasOneOwner}
use high_performance_http_se.Net.Sys.{Sys}
use high_performance_http_se.Net.Connection.{new_connection}
use high_performance_http_se.Net.Serving.HangUp.{hang_up_takes_connection}
use high_performance_http_se.Net.Serving.Unshared.{Step-unshared}

abbrev listener_event : IoEvent
listener_event = record { fd = 3; mask = readable; error = false }

abbrev client_event : IoEvent
client_event = record { fd = 4; mask = readable; error = false }

abbrev waits_again : Serve kernel
waits_again c w = (c, w, wait_readable)

abbrev silent : World
silent = record { out = []; reads = [] }

abbrev at_first : System kernel
at_first = started kernel 3 silent

abbrev accepted : System kernel
accepted = record at_first {
  reactor = handle_io_event kernel (4 ∷ []) listener_event at_first.reactor;
}

abbrev queued : System kernel
queued = record accepted { reactor = handle_io_event kernel [] client_event accepted.reactor }

abbrev busy : System kernel
busy = record queued { reactor = record queued.reactor { tasks = [] }; running = 4 ∷ [] }

abbrev busy_with_another : System kernel
busy_with_another = record busy {
  reactor = handle_io_event kernel (5 ∷ []) listener_event busy.reactor;
}

busy-Reachable : Reachable kernel waits_again 3 silent busy
unfolding find assign handle_accept handle_io_event armed_by
busy-Reachable =
    then_step queued _
      (then_step accepted _
        (then_step at_first _ at_start
          (accept_all at_first (4 ∷ []) listener_event refl refl (refl, refl, tt)))
        (take_event accepted client_event refl refl (inl refl)))
      (start_task queued 4 [] refl)

accept_beside : Step kernel waits_again busy busy_with_another
unfolding find assign handle_accept handle_io_event armed_by
accept_beside = accept_all busy (5 ∷ []) listener_event refl refl (refl, refl, tt)

Reachable-HasOneOwner_example : HasOneOwner kernel 4 busy
Reachable-HasOneOwner_example =
    Reachable-HasOneOwner kernel waits_again 3 silent busy 4 refl busy-Reachable refl

Step-unshared_example :
    (is_some (find 4 busy.reactor.connections) ≡ true)
    × (count 4 busy.running ≡ 1)
    × (count 4 busy.reactor.tasks ≡ 0)
    × (find 4 busy.reactor.interests ≡ some 0)
    × (find 4 busy_with_another.reactor.connections ≡ find 4 busy.reactor.connections)
Step-unshared_example =
    Step-unshared kernel waits_again 3 silent busy busy_with_another 4 refl busy-Reachable refl
      accept_beside (omega arith) (omega arith)

-- The same kernel with epoll, and a worker that handles a connection.
abbrev epoll_kernel : Sys
epoll_kernel = record kernel { hang_up_unasked = true }

abbrev handled : System epoll_kernel
handled = record {
  reactor = record {
    listen_fd = 3;
    connections = (4, new_connection 4) ∷ [];
    interests = (4, 0) ∷ (3, 1) ∷ [];
    pending_rearms = [];
    tasks = [];
    world = silent;
  };
  applying = [];
  running = 4 ∷ [];
}

abbrev echoes : Serve epoll_kernel
echoes c w = (c, w, wait_readable)

hang_up_takes_connection_example :
    (s' : System epoll_kernel) × Step epoll_kernel echoes handled s'
    × (find 4 s'.reactor.connections ≡ none)
    × (find 4 s'.reactor.interests ≡ none)
    × (s'.running ≡ 4 ∷ [])
unfolding find
hang_up_takes_connection_example =
    hang_up_takes_connection epoll_kernel echoes 4 handled refl refl refl refl refl
