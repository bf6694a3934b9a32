-- ===== src/Net/Serving/Waiting/Reached.antt =====
-- In every interleaving, a connection waits for what it wants.
use high_performance_http_se.Common.{
  false, ℕ, zero, suc, Option, ◌≡◌, sym, ap, ◌∙◌, inl, inr, true, [], none, some, ◌==◌, is_some,
  Bool-cases, arith,
}
use high_performance_http_se.Common.Table.{find, count}
use high_performance_http_se.Net.Sys.{Sys, SendLaws}
use high_performance_http_se.Net.Connection.{Connection}
use high_performance_http_se.Net.Serving.{Serve, handle_io_event}
use high_performance_http_se.Net.Serving.Steps.{
  armed_by, System, Step, Reachable, at_start, then_step, swap_rearms, apply_next, accept_all,
  take_event, start_task, end_task, world_moves,
}
use high_performance_http_se.Net.Serving.Counted.{posted}
use high_performance_http_se.Net.Serving.Handled.{ServeRearms}
use high_performance_http_se.Net.Serving.Ownership.{
  HasOneOwner, Reachable-HasOneOwner, Reachable-ListensApart,
}
use high_performance_http_se.Net.Serving.Waiting.{
  wanted, FitsMask, Fits, AllFit, apply_rearm-AllFit,
}
use high_performance_http_se.Net.Serving.Waiting.Handlers.{
  handle_accept-AllFit, take_event-AllFit, handle_event-AllFit,
}

armed-wanted :
    (c : Connection) (mask : Option ℕ)
    → armed_by mask ≡ 1
    → FitsMask c mask
    → mask ≡ some (wanted c)
unfolding armed_by
armed-wanted c none e fits = absurd (omega (arith, e))
armed-wanted c (some mask) e (inr fits) = ap (λ (m : ℕ). some m) fits
armed-wanted c (some zero) e (inl off) = absurd (omega (arith, e))
armed-wanted c (some (suc m)) e (inl off) = absurd (omega (arith, off))

module _ (sys : Sys) where
  abbrev pub WaitsRight : ℕ → System sys → Type 0
  WaitsRight k s = AllFit sys k s.applying s.reactor

  -- Nothing is queued, worked on or to be rearmed: the reactor can only wait for events.
  abbrev pub IsIdle : System sys → Type 0
  IsIdle s =
      (s.reactor.tasks ≡ [])
      × (s.running ≡ [])
      × (s.reactor.pending_rearms ≡ [])
      × (s.applying ≡ [])

module _ (sys : Sys) (laws : SendLaws sys) (serve : Serve sys) (serves : ServeRearms sys serve)
    (quiet : sys.hang_up_unasked ≡ false) where
  Step-WaitsRight :
      {s s' : System sys} (k : ℕ)
      → HasOneOwner sys k s
      → WaitsRight sys k s
      → Step sys serve s s'
      → WaitsRight sys k s'
  unfolding handle_io_event
  Step-WaitsRight k o all (swap_rearms s idle) = λ c found.
      let f = all c found in
      record {
        valid = f.valid;
        fd_is = f.fd_is;
        mask_fits = f.mask_fits;
        posted_fit = tt;
        applied_fit = f.posted_fit;
      }
  Step-WaitsRight k o all (apply_next s p ps e) =
      apply_rearm-AllFit sys k p ps s.reactor (rw e at all)
  Step-WaitsRight k o all (accept_all s fds ev idle e fresh) =
      let owners = o.one_owner in
      rw e (
        handle_accept-AllFit sys k fds s.applying s.reactor fresh
          (λ gone. (ground arith, ground arith)) all)
  Step-WaitsRight k o all (take_event s ev idle ne waits) =
      take_event-AllFit sys k ev s.applying s.reactor ne all
  Step-WaitsRight k o all (start_task s fd fds e) = λ c found.
      let f = all c found in
      record {
        valid = f.valid;
        fd_is = f.fd_is;
        mask_fits = f.mask_fits;
        posted_fit = f.posted_fit;
        applied_fit = f.applied_fit;
      }
  Step-WaitsRight k o all (end_task s fd running) =
      let owners = o.one_owner in
      let same : (fd == k) ≡ true → count fd s.running ≡ count k s.running =
        λ here. ap (λ n. count n s.running) (ground (arith, here)) in
      handle_event-AllFit sys k laws serve serves fd s.applying s.reactor
        (λ here. (ground (arith, same here), ground (arith, same here), ground (arith, same here)))
        all
  Step-WaitsRight k o all (world_moves s w) = λ c found.
      let f = all c found in
      record {
        valid = f.valid;
        fd_is = f.fd_is;
        mask_fits = f.mask_fits;
        posted_fit = f.posted_fit;
        applied_fit = f.applied_fit;
      }

  Reachable-WaitsRight :
      (l : ℕ) (w : sys.World) (s : System sys) (k : ℕ)
      → Reachable sys serve l w s
      → WaitsRight sys k s
  unfolding find
  Reachable-WaitsRight l w s k at_start = λ c found. absurd (cc)
  Reachable-WaitsRight l w s k (then_step s0 _ before step) = elim (Bool-cases (l == k)) [
    | inr apart ↦
        Step-WaitsRight k (Reachable-HasOneOwner sys serve l w s0 k quiet before apart)
          (Reachable-WaitsRight l w s0 k before) step
    | inl here ↦
        let (_, none_there) = Reachable-ListensApart sys serve l w s (then_step s0 s before step) in
        λ c found.
          let it : l ≡ k = ground (arith, here) in
          let gone : find k s.reactor.connections ≡ none =
            ap (λ (n : ℕ). find n s.reactor.connections) (sym it) ∙ none_there in
          absurd (cc)
  ]

  -- For a kernel with the laws of send, an event loop that reports no hang-up at mask 0, as kqueue and unlike
  -- epoll, and a `serve` that rearms for writing just when bytes are left to
  -- send: however the steps of the reactor, of the workers and of the world follow one another, a known
  -- connection has a valid write offset and the descriptor that it is known by; a mask that waits for
  -- something waits for writing if it has bytes to send and for reading else, and every rearm for it asks
  -- for writing just when it has bytes to send. So it is registered with the mask that it needs whenever
  -- nothing is queued, worked on or to be rearmed: no connection is forgotten.
  pub Reachable-waits :
      (l : ℕ) (w : sys.World) (s : System sys) (k : ℕ) (c : Connection)
      → Reachable sys serve l w s
      → find k s.reactor.connections ≡ some c
      → Fits k c (find k s.reactor.interests) s.reactor.pending_rearms s.applying
        × (IsIdle sys s → find k s.reactor.interests ≡ some (wanted c))
  Reachable-waits l w s k c reached found =
      let f = Reachable-WaitsRight l w s k reached c found in
      (
        f,
        λ idle. elim (Bool-cases (l == k)) [
          | inr apart ↦
              let (no_tasks, no_running, no_posted, no_applied) = idle in
              let e1 : count k s.reactor.tasks ≡ 0 = ap (count k) no_tasks in
              let e2 : count k s.running ≡ 0 = ap (count k) no_running in
              let e3 : posted k s.reactor.pending_rearms ≡ 0 = ap (posted k) no_posted in
              let e4 : posted k s.applying ≡ 0 = ap (posted k) no_applied in
              let owners =
                (Reachable-HasOneOwner sys serve l w s k quiet reached apart).one_owner in
              let known : is_some (find k s.reactor.connections) ≡ true = ap is_some found in
              armed-wanted c (find k s.reactor.interests) (ground arith) f.mask_fits
          | inl here ↦
              let (_, none_there) = Reachable-ListensApart sys serve l w s reached in
              let it : l ≡ k = ground (arith, here) in
              let gone : find k s.reactor.connections ≡ none =
                ap (λ (n : ℕ). find n s.reactor.connections) (sym it) ∙ none_there in
              absurd (cc)
        ],
      )
