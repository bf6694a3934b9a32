-- ===== src/Net/Serving/Unshared.antt =====
-- While a worker handles a connection, nobody else touches it: what handleConnectionEvent relies on when
-- it uses the connection with no lock.
use high_performance_http_se.Common.{
  ℕ, ◌<◌, ◌≡◌, refl, sym, ap, ◌∙◌, inl, inr, true, false, List, [], ◌∷◌, some, ◌==◌, is_some,
  Bool-cases, Option-cases, arith,
}
use high_performance_http_se.Common.Table.{find, find-assign, find-erase, count, count-remove}
use high_performance_http_se.Net.Sys.{Sys}
use high_performance_http_se.Net.Connection.{new_connection}
use high_performance_http_se.Net.Serving.{
  Reactor, PendingRearm, RearmAction, wait_readable, wait_writable, IoEvent, Serve, admit,
  apply_rearm, rearm, handle_accept, handle_io_event, handle_event, post_rearm, work,
}
use high_performance_http_se.Net.Serving.Steps.{
  armed_by, Reported-armed, System, armed, Fresh, Step, Reachable, swap_rearms, apply_next,
  accept_all, take_event, start_task, end_task, world_moves,
}
use high_performance_http_se.Net.Serving.Counted.{posted, known_as}
use high_performance_http_se.Net.Serving.Ownership.{HasOneOwner, Reachable-HasOneOwner}

module _ (sys : Sys) (k : ℕ) where
  -- The connection of `k` is the same in both tables.
  abbrev Keeps : Reactor sys → Reactor sys → Type 0
  Keeps r r' = find k r'.connections ≡ find k r.connections

  admitted-Keeps :
      (fds : List ℕ) (r : Reactor sys)
      → Fresh sys fds r
      → is_some (find k r.connections) ≡ true
      → Keeps r (handle_accept sys fds r)
  unfolding handle_accept
  admitted-Keeps [] r fresh known = refl
  admitted-Keeps (fd ∷ fds) r (free, apart, fresh) known =
      let same : (fd == k) ≡ true → find fd r.connections ≡ find k r.connections =
        known_as sys fd k r.connections in
      let kept : Keeps r (admit sys fd r) =
        ground (arith, find-assign fd k (new_connection fd) r.connections) in
      admitted-Keeps fds (admit sys fd r) fresh (ap is_some kept ∙ known) ∙ kept

  apply_rearm-Keeps :
      (p : PendingRearm) (r : Reactor sys) → (p.fd == k) ≡ false → Keeps r (apply_rearm sys p r)
  unfolding apply_rearm
  apply_rearm-Keeps p r other = elim (Bool-cases (is_some (find p.fd r.connections))) [
    | inl known ↦ rw known (at_action p.action)
    | inr gone ↦ rw gone
  ]
    where
      at_action : (a : RearmAction) → Keeps r (rearm sys a p.fd r)
      at_action wait_readable = refl
      at_action wait_writable = refl
      at_action RearmAction.close = find-erase p.fd k r.connections ∙ rw other

  take_event-Keeps :
      (ev : IoEvent) (r : Reactor sys)
      → (ev.fd == r.listen_fd) ≡ false
      → (ev.fd == k) ≡ false
      → Keeps r (handle_io_event sys [] ev r)
  unfolding handle_io_event
  take_event-Keeps ev r apart other = elim (Bool-cases (is_some (find ev.fd r.connections))) [
    | inr gone ↦ rw (apart, gone)
    | inl known ↦ elim (Bool-cases ev.error) [
      | inl e ↦ rw (apart, known, e) (find-erase ev.fd k r.connections ∙ rw other)
      | inr ne ↦ rw (apart, known, ne)
    ]
  ]

  handle_event-Keeps :
      (serve : Serve sys) (fd : ℕ) (r : Reactor sys)
      → (fd == k) ≡ false
      → Keeps r (handle_event sys serve fd r)
  unfolding handle_event post_rearm
  handle_event-Keeps serve fd r other = elim (Option-cases (find fd r.connections)) [
    | inl gone ↦ rw (handle_event, gone, handle_event) refl
    | inr (c, known) ↦
        let (c', w', action) = work sys serve c r.world in
        rw (handle_event, known, handle_event) (find-assign fd k c' r.connections ∙ rw other)
  ]

  module _ (serve : Serve sys) where
    Step-Keeps :
        {s s' : System sys}
        → sys.hang_up_unasked ≡ false
        → HasOneOwner sys k s
        → Step sys serve s s'
        → 0 < count k s.running
        → 0 < count k s'.running
        → Keeps s.reactor s'.reactor
    unfolding handle_io_event
    Step-Keeps quiet o (swap_rearms s idle) before after = refl
    Step-Keeps quiet o (apply_next s p ps e) before after =
        let taken = ap (posted k) e in
        let owners = o.one_owner in apply_rearm-Keeps p s.reactor (ground arith)
    Step-Keeps quiet o (accept_all s fds ev idle e fresh) before after =
        let owners = o.one_owner in rw e (admitted-Keeps fds s.reactor fresh (ground arith))
    Step-Keeps quiet o (take_event s ev idle ne waits) before after =
        let same : (ev.fd == k) ≡ true
            → find ev.fd s.reactor.interests ≡ find k s.reactor.interests =
          known_as sys ev.fd k s.reactor.interests in
        let armed_too : (ev.fd == k) ≡ true → armed sys k s ≡ 1 =
          λ e. ap armed_by (sym (same e)) ∙ Reported-armed sys ev _ quiet waits in
        let owners = o.one_owner in take_event-Keeps ev s.reactor ne (ground arith)
    Step-Keeps quiet o (start_task s fd fds e) before after = refl
    Step-Keeps quiet o (end_task s fd running) before after =
        let some_there : (count fd s.running == 0) ≡ false = ground arith in
        let less = count-remove fd k s.running in
        let owners = o.one_owner in handle_event-Keeps serve fd s.reactor (ground arith)
    Step-Keeps quiet o (world_moves s w) before after = refl

-- Over an event loop that reports no hang-up at mask 0, as kqueue and unlike epoll: where a worker handles a
-- connection, and is not done with it in the next step, whichever that is: the connection is in the table, nobody else handles it or is to, its descriptor waits for nothing,
-- and the step leaves the connection as it is.
pub Step-unshared :
    (sys : Sys) (serve : Serve sys) (l : ℕ) (w : sys.World) (s s' : System sys) (k : ℕ)
    → sys.hang_up_unasked ≡ false
    → Reachable sys serve l w s
    → (l == k) ≡ false
    → Step sys serve s s'
    → 0 < count k s.running
    → 0 < count k s'.running
    → (is_some (find k s.reactor.connections) ≡ true)
      × (count k s.running ≡ 1)
      × (count k s.reactor.tasks ≡ 0)
      × (find k s.reactor.interests ≡ some 0)
      × (find k s'.reactor.connections ≡ find k s.reactor.connections)
unfolding armed_by
Step-unshared sys serve l w s s' k quiet reached apart step before after =
    let o = Reachable-HasOneOwner sys serve l w s k quiet reached apart in
    let owners = o.one_owner in
    let both = o.registered in
    (
      ground arith,
      ground arith,
      ground arith,
      ground arith,
      Step-Keeps sys k serve quiet o step before after,
    )
