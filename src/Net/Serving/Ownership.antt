-- ===== src/Net/Serving/Ownership.antt =====
-- Each connection has one owner: the event loop, the task queue, a worker, or the queues of rearms.
use high_performance_http_se.Common.{
  ℕ, ◌+◌, ◌≡◌, refl, ap, false, ◌==◌, if◌then◌else◌, is_some, arith,
}
use high_performance_http_se.Common.Table.{find, assign, count, remove, count-remove}
use high_performance_http_se.Net.Sys.{Sys}
use high_performance_http_se.Net.Serving.{Serve, handle_io_event}
use high_performance_http_se.Net.Serving.Steps.{
  armed_by, Reported-armed, System, armed, Step, Reachable, at_start, then_step, swap_rearms,
  apply_next, accept_all, take_event, start_task, end_task, world_moves,
}
use high_performance_http_se.Net.Serving.Counted.{
  posted, Counted, apply_rearm-Counted, handle_accept-Counted, handle_event-Counted,
  take_event-Counted,
}
use high_performance_http_se.Net.Serving.Listener.{
  ListensApart, apply_rearm-ListensApart, handle_accept-ListensApart, handle_event-ListensApart,
  take_event-ListensApart,
}

module _ (sys : Sys) where
  -- A descriptor with a connection has one owner: the event loop, a queued task, a worker, or a rearm,
  -- which is posted or being applied. Any other descriptor has none. The event loop knows a
  -- descriptor just when it has a connection.
  pub record HasOneOwner (k : ℕ) (s : System sys) : Type 0 where
    pub one_owner :
        armed sys k s
          + count k s.reactor.tasks
          + count k s.running
          + posted k s.reactor.pending_rearms
          + posted k s.applying
        ≡ (if is_some (find k s.reactor.connections) then 1 else 0)
    pub registered : is_some (find k s.reactor.interests) ≡ is_some (find k s.reactor.connections)

  abbrev counted :
      {k : ℕ} {s : System sys}
      → HasOneOwner k s
      → Counted sys k (count k s.running + posted k s.applying) s.reactor
  counted o = (omega (arith, o.one_owner), o.registered)

  abbrev owned :
      {k : ℕ} {s : System sys}
      → Counted sys k (count k s.running + posted k s.applying) s.reactor
      → HasOneOwner k s
  owned (one, both) = record { one_owner = omega arith; registered = both }

  module _ (serve : Serve sys) where
    Step-HasOneOwner :
        {s s' : System sys} (k : ℕ)
        → sys.hang_up_unasked ≡ false
        → HasOneOwner k s
        → Step sys serve s s'
        → HasOneOwner k s'
    unfolding handle_io_event
    Step-HasOneOwner k quiet o (swap_rearms s idle) =
        let none_left = ap (posted k) idle in
        record { one_owner = omega (arith, o.one_owner); registered = o.registered }
    Step-HasOneOwner k quiet o (apply_next s p ps e) =
        let taken = ap (posted k) e in
        owned (
          apply_rearm-Counted sys p k (count k s.running + posted k ps) s.reactor
            (omega (arith, o.one_owner), o.registered))
    Step-HasOneOwner k quiet o (accept_all s fds ev idle e fresh) =
        rw e (owned (handle_accept-Counted sys fds k _ s.reactor fresh (counted o)))
    Step-HasOneOwner k quiet o (take_event s ev idle ne waits) = owned (
        take_event-Counted sys ev k _ s.reactor ne (Reported-armed sys ev _ quiet waits)
          (counted o))
    Step-HasOneOwner k quiet o (start_task s fd fds e) =
        let taken = ap (count k) e in
        record { one_owner = omega (arith, o.one_owner); registered = o.registered }
    Step-HasOneOwner k quiet o (end_task s fd running) =
        let less = count-remove fd k s.running in
        let some_there : (count fd s.running == 0) ≡ false = ground arith in
        let owners = o.one_owner in
        owned (
          handle_event-Counted sys serve fd k (count k (remove fd s.running) + posted k s.applying)
            s.reactor (ground arith, o.registered))
    Step-HasOneOwner k quiet o (world_moves s w) = record {
      one_owner = o.one_owner;
      registered = o.registered;
    }

    Step-ListensApart :
        {s s' : System sys} (l : ℕ)
        → ListensApart sys l s.reactor
        → Step sys serve s s'
        → ListensApart sys l s'.reactor
    unfolding handle_io_event
    Step-ListensApart l a (swap_rearms s idle) = a
    Step-ListensApart l a (apply_next s p ps e) = apply_rearm-ListensApart sys l p s.reactor a
    Step-ListensApart l a (accept_all s fds ev idle e fresh) =
        rw e (handle_accept-ListensApart sys l fds s.reactor fresh a)
    Step-ListensApart l a (take_event s ev idle ne waits) =
        take_event-ListensApart sys l ev s.reactor ne a
    Step-ListensApart l a (start_task s fd fds e) = a
    Step-ListensApart l a (end_task s fd running) =
        handle_event-ListensApart sys l serve fd s.reactor a
    Step-ListensApart l a (world_moves s w) = a

    -- Over an event loop that reports no hang-up at mask 0, as kqueue and unlike epoll, however the steps of the
    -- reactor and of the workers follow one another: at each time each descriptor but the listener's has one owner if it has a connection, and none if it has none.
    pub Reachable-HasOneOwner :
        (l : ℕ) (w : sys.World) (s : System sys) (k : ℕ)
        → sys.hang_up_unasked ≡ false
        → Reachable sys serve l w s
        → (l == k) ≡ false
        → HasOneOwner k s
    unfolding armed_by find assign
    Reachable-HasOneOwner l w s k quiet at_start apart = record {
      one_owner = rw apart refl;
      registered = rw apart refl;
    }
    Reachable-HasOneOwner l w s k quiet (then_step s0 _ before step) apart =
        Step-HasOneOwner k quiet (Reachable-HasOneOwner l w s0 k quiet before apart) step

    -- The listener is at no time a connection.
    pub Reachable-ListensApart :
        (l : ℕ) (w : sys.World) (s : System sys)
        → Reachable sys serve l w s
        → ListensApart sys l s.reactor
    unfolding find
    Reachable-ListensApart l w s at_start = (refl, refl)
    Reachable-ListensApart l w s (then_step s0 _ before step) =
        Step-ListensApart l (Reachable-ListensApart l w s0 before) step
