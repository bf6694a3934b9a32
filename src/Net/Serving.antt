-- ===== src/Net/Serving.antt =====
-- What HttpServer of src/server/http_server.cpp and LoadBalancer of
-- src/loadbalancer/load_balancer.cpp both write out: the reactor, the connections, and a worker's
-- handling of one event. They differ in what answers a request, which is the argument `serve`.
pub mod Round
pub mod Handled
pub mod Steps
pub mod Counted
pub mod Listener
pub mod Ownership
pub mod Unshared
pub mod Waiting
pub mod Exchange
pub mod Draining
pub mod HangUp
pub mod HalfClose
use high_performance_http_se.Common.{
  ℕ, ◌+◌, Bool, true, false, not, List, [], ◌∷◌, ◌++◌, Option, none, some, Bytes, codes, ◌==◌,
  if◌then◌else◌, is_some,
}
use high_performance_http_se.Common.Table.{find, assign, erase}
use high_performance_http_se.Http.Number.{pos}
use high_performance_http_se.Http.Message.{HttpResponse, serialize, make_json_response}
use high_performance_http_se.Http.Incremental.{ParseStatus}
use high_performance_http_se.Http.Request
pub use high_performance_http_se.Net.EventLoop.{IoEvent, readable, writable}
use high_performance_http_se.Net.Sys.{Sys, RecvAnswer, received, closed, failed}
use high_performance_http_se.Net.Connection.{
  Connection, new_connection, queue_write, has_pending_write, set_pending_keep_alive, flush_write,
}

pub data RearmAction : Type 0 where
  wait_readable wait_writable close : RearmAction

pub record PendingRearm : Type 0 where
  pub fd : ℕ
  pub action : RearmAction

module _ (sys : Sys) where
  -- `interests` is the event loop: the mask of each registered descriptor. `tasks` is the queue of
  -- the thread pool, by descriptor.
  pub record Reactor : Type 0 where
    pub listen_fd : ℕ
    pub connections : List (ℕ × Connection)
    pub interests : List (ℕ × ℕ)
    pub pending_rearms : List PendingRearm
    pub tasks : List ℕ
    pub world : sys.World

  unfoldable pub post_rearm : ℕ → RearmAction → Reactor → Reactor
  post_rearm fd action r = record r {
    pending_rearms = r.pending_rearms ++ record { fd = fd; action = action } ∷ [];
  }

  -- A connection and the world after a worker's part, and the rearm that it posts.
  abbrev pub Handling : Type 0
  Handling = Connection × sys.World × RearmAction

  abbrev pub reset_parser : Connection → Connection
  reset_parser c = record c { parser = Request.reset c.parser }

  abbrev pub rearm_for : Bool → RearmAction
  rearm_for keep_alive = if keep_alive then wait_readable else RearmAction.close

  -- The rest of a response that did not fit into the socket before.
  unfoldable pub resume_write : Connection → sys.World → Handling
  resume_write c w =
      let (c', flushed, w') = flush_write sys c w in
      if not flushed
      then (c', w', wait_writable)
      else (reset_parser c', w', rearm_for c'.pending_keep_alive)

  abbrev pub bad_request : HttpResponse
  bad_request =
      record (make_json_response (pos 400) (codes "Bad Request")
        (codes "{\"error\":\"bad request\"}")) { keep_alive = false }

  unfoldable pub reject : Connection → sys.World → Handling
  reject c w =
      let queued = queue_write (set_pending_keep_alive c false) (serialize bad_request) in
      let (c', flushed, w') = flush_write sys queued w in
      if not flushed then (c', w', wait_writable) else (c', w', RearmAction.close)

  abbrev pub Serve : Type 0
  Serve = Connection → sys.World → Handling

  -- What follows `consume`.
  abbrev pub after_consume : Serve → Connection → sys.World → ParseStatus → Handling
  after_consume serve c w ParseStatus.need_more_data = (c, w, wait_readable)
  after_consume serve c w ParseStatus.error = reject c w
  after_consume serve c w ParseStatus.complete = serve c w

  -- What follows `recv`.
  abbrev pub after_recv : Serve → Connection → RecvAnswer × sys.World → Handling
  after_recv serve c (closed, w) = (c, w, RearmAction.close)
  after_recv serve c (RecvAnswer.would_block, w) = (c, w, wait_readable)
  after_recv serve c (failed, w) = (c, w, RearmAction.close)
  after_recv serve c (received b bytes, w) =
      let (p, status) = Request.consume c.parser (b ∷ bytes) in
      after_consume serve (record c { parser = p }) w status

  unfoldable pub work : Serve → Connection → sys.World → Handling
  work serve c w =
      if has_pending_write c then resume_write c w else after_recv serve c (sys.recv w c.fd 8192)

  -- `handleConnectionEvent` and `handleClientEvent`
  unfoldable pub handle_event : Serve → ℕ → Reactor → Reactor
  handle_event serve fd r = elim (find fd r.connections) [
    | none ↦ r
    | some c ↦
        let (c', w', action) = work serve c r.world in
        post_rearm fd action (record r { connections = assign fd c' r.connections; world = w' })
  ]

  -- The body of the loop in `handleAccept`.
  abbrev pub admit : ℕ → Reactor → Reactor
  admit fd r = record r {
    connections = assign fd (new_connection fd) r.connections;
    interests = assign fd readable r.interests;
  }

  -- `accept` has answered the valid sockets `fds`, and then none.
  unfoldable pub handle_accept : List ℕ → Reactor → Reactor
  handle_accept [] r = r
  handle_accept (fd ∷ fds) r = handle_accept fds (admit fd r)

  -- `modify` of the event loop, which leaves a descriptor alone that is not registered.
  abbrev pub modify : ℕ → ℕ → List (ℕ × ℕ) → List (ℕ × ℕ)
  modify fd mask interests =
      if is_some (find fd interests) then assign fd mask interests else interests

  -- `remove` of the event loop, and the erased connection.
  abbrev pub drop_connection : ℕ → Reactor → Reactor
  drop_connection fd r = record r {
    connections = erase fd r.connections;
    interests = erase fd r.interests;
  }

  abbrev pub rearm : RearmAction → ℕ → Reactor → Reactor
  rearm wait_readable fd r = record r { interests = modify fd readable r.interests }
  rearm wait_writable fd r = record r { interests = modify fd writable r.interests }
  rearm RearmAction.close fd r = drop_connection fd r

  -- The body of the loop in `applyPendingRearms`.
  unfoldable pub apply_rearm : PendingRearm → Reactor → Reactor
  apply_rearm p r = if is_some (find p.fd r.connections) then rearm p.action p.fd r else r

  unfoldable pub apply_rearms : List PendingRearm → Reactor → Reactor
  apply_rearms [] r = r
  apply_rearms (p ∷ ps) r = apply_rearms ps (apply_rearm p r)

  unfoldable pub apply_pending_rearms : Reactor → Reactor
  apply_pending_rearms r = apply_rearms r.pending_rearms (record r { pending_rearms = [] })

  -- The body of the loop over the events in `reactorLoop`; `accepted` is what `accept` answers.
  unfoldable pub handle_io_event : List ℕ → IoEvent → Reactor → Reactor
  handle_io_event accepted ev r =
      if ev.fd == r.listen_fd
      then handle_accept accepted r
      else if not (is_some (find ev.fd r.connections))
      then r
      else if ev.error
      then drop_connection ev.fd r
      else record r { interests = modify ev.fd 0 r.interests; tasks = r.tasks ++ ev.fd ∷ [] }
