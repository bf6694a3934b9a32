-- ===== src/Net/Serving/Round.antt =====
-- An iteration of reactorLoop, and the calls that it makes on the event loop.
pub mod Masks
pub mod Tracked
pub mod Stepwise
pub mod Distinct
use high_performance_http_se.Common.{
  ℕ, Bool, not, List, [], ◌∷◌, ◌++◌, ◌==◌, if◌then◌else◌, is_some,
}
use high_performance_http_se.Common.Table.{find}
use high_performance_http_se.Net.EventLoop.{Call, add, modify, remove}
use high_performance_http_se.Net.Sys.{Sys}
use high_performance_http_se.Net.Serving.{
  Reactor, RearmAction, wait_readable, wait_writable, close, PendingRearm, IoEvent, readable,
  writable, apply_rearm, apply_pending_rearms, handle_io_event,
}

-- The calls of `handleAccept`, and of `applyPendingRearms` for one rearm.
abbrev pub accept_calls : List ℕ → List Call
accept_calls [] = []
accept_calls (fd ∷ fds) = add fd readable ∷ accept_calls fds

abbrev pub rearm_call : RearmAction → ℕ → Call
rearm_call wait_readable fd = modify fd readable
rearm_call wait_writable fd = modify fd writable
rearm_call close fd = remove fd

module _ (sys : Sys) where
  abbrev pub rearm_calls : PendingRearm → Reactor sys → List Call
  rearm_calls p r = if is_some (find p.fd r.connections) then rearm_call p.action p.fd ∷ [] else []

  unfoldable pub rearms_calls : List PendingRearm → Reactor sys → List Call
  rearms_calls [] r = []
  rearms_calls (p ∷ ps) r = rearm_calls p r ++ rearms_calls ps (apply_rearm sys p r)

  abbrev pub io_event_calls : List ℕ → IoEvent → Reactor sys → List Call
  io_event_calls accepted ev r =
      if ev.fd == r.listen_fd
      then accept_calls accepted
      else if not (is_some (find ev.fd r.connections))
      then []
      else if ev.error
      then remove ev.fd ∷ []
      else modify ev.fd 0 ∷ []

  -- The events that `wait` has answered, each with what `accept` answers in its turn.
  unfoldable pub handle_io_events : List (IoEvent × List ℕ) → Reactor sys → Reactor sys
  handle_io_events [] r = r
  handle_io_events ((ev, accepted) ∷ events) r =
      handle_io_events events (handle_io_event sys accepted ev r)

  unfoldable pub io_events_calls : List (IoEvent × List ℕ) → Reactor sys → List Call
  io_events_calls [] r = []
  io_events_calls ((ev, accepted) ∷ events) r =
      io_event_calls accepted ev r ++ io_events_calls events (handle_io_event sys accepted ev r)

  -- The body of the loop of `reactorLoop`.
  unfoldable pub reactor_round : List (IoEvent × List ℕ) → Reactor sys → Reactor sys
  reactor_round events r = handle_io_events events (apply_pending_rearms sys r)

  unfoldable pub round_calls : List (IoEvent × List ℕ) → Reactor sys → List Call
  round_calls events r =
      rearms_calls r.pending_rearms (record r { pending_rearms = [] })
      ++ io_events_calls events (apply_pending_rearms sys r)
