-- ===== src/Net/Serving/Steps.antt =====
-- The reactor thread and the workers of src/server/http_server.cpp and
-- src/loadbalancer/load_balancer.cpp side by side: who may do what next. The reactor applies the rearms
-- that it has taken over, and then handles events; a worker takes the first task, and later ends it.
use high_performance_http_se.Common.{
  ℕ, zero, suc, ◌<◌, ◌≡◌, true, false, List, [], ◌∷◌, Option, none, some, ◌==◌, ◌⊎◌, inl, inr,
}
use high_performance_http_se.Common.Table.{find, assign, count, remove}
use high_performance_http_se.Net.Sys.{Sys}
use high_performance_http_se.Net.Serving.{
  Reactor, PendingRearm, IoEvent, Serve, readable, admit, apply_rearm, handle_io_event,
  handle_event,
}

-- 1 for a mask that waits for something, and 0 without one.
unfoldable pub armed_by : Option ℕ → ℕ
armed_by none = 0
armed_by (some zero) = 0
armed_by (some (suc _)) = 1

module _ (sys : Sys) where
  -- `applying` is the queue that `applyPendingRearms` has swapped out, less what it has applied;
  -- `running` holds the descriptor that each busy worker handles.
  pub record System : Type 0 where
    pub reactor : Reactor sys
    pub applying : List PendingRearm
    pub running : List ℕ

  abbrev pub armed : ℕ → System → ℕ
  armed k s = armed_by (find k s.reactor.interests)

  -- `wait` may report this of a descriptor with this mask: while it waits for something, anything; with a
  -- mask of 0, a hang-up, if the event loop does so.
  abbrev pub Reported : IoEvent → Option ℕ → Type 0
  Reported ev mask =
      (armed_by mask ≡ 1) ⊎ (mask ≡ some 0) × (ev.error ≡ true) × (sys.hang_up_unasked ≡ true)

  -- It reports no descriptor that waits for nothing.
  pub Reported-armed :
      (ev : IoEvent) (mask : Option ℕ)
      → sys.hang_up_unasked ≡ false
      → Reported ev mask
      → armed_by mask ≡ 1
  Reported-armed ev mask quiet (inl waits) = waits
  Reported-armed ev mask quiet (inr (off, gone, unasked)) = cc

  -- `accept` answers descriptors that are not open: not the listener's, and no connection's.
  abbrev pub Fresh : List ℕ → Reactor sys → Type 0
  Fresh [] r = Unit
  Fresh (fd ∷ fds) r =
      (find fd r.connections ≡ none) × ((r.listen_fd == fd) ≡ false) × Fresh fds (admit sys fd r)

  -- `run`, when the listener is registered.
  abbrev pub started : ℕ → sys.World → System
  started listen_fd w = record {
    reactor = record {
      listen_fd = listen_fd;
      connections = [];
      interests = assign listen_fd readable [];
      pending_rearms = [];
      tasks = [];
      world = w;
    };
    applying = [];
    running = [];
  }

  module _ (serve : Serve sys) where
    -- An event for a connection comes as `wait` may report it.
    pub data Step : System → System → Type 0 where
      swap_rearms :
          (s : System)
          → s.applying ≡ []
          → Step s (record s {
            reactor = record s.reactor { pending_rearms = [] };
            applying = s.reactor.pending_rearms;
          })
      apply_next :
          (s : System) (p : PendingRearm) (ps : List PendingRearm)
          → s.applying ≡ p ∷ ps
          → Step s (record s { reactor = apply_rearm sys p s.reactor; applying = ps })
      accept_all :
          (s : System) (fds : List ℕ) (ev : IoEvent)
          → s.applying ≡ []
          → (ev.fd == s.reactor.listen_fd) ≡ true
          → Fresh fds s.reactor
          → Step s (record s { reactor = handle_io_event sys fds ev s.reactor })
      take_event :
          (s : System) (ev : IoEvent)
          → s.applying ≡ []
          → (ev.fd == s.reactor.listen_fd) ≡ false
          → Reported ev (find ev.fd s.reactor.interests)
          → Step s (record s { reactor = handle_io_event sys [] ev s.reactor })
      start_task :
          (s : System) (fd : ℕ) (fds : List ℕ)
          → s.reactor.tasks ≡ fd ∷ fds
          → Step s
              (record s { reactor = record s.reactor { tasks = fds }; running = fd ∷ s.running })
      end_task :
          (s : System) (fd : ℕ)
          → 0 < count fd s.running
          → Step s (record s {
            reactor = handle_event sys serve fd s.reactor;
            running = remove fd s.running;
          })
      -- The kernel, the peers, or another thread of the program.
      world_moves :
          (s : System) (w : sys.World)
          → Step s (record s { reactor = record s.reactor { world = w } })

    -- What the program can come to from there.
    pub data Reachable (listen_fd : ℕ) (w : sys.World) : System → Type 0 where
      at_start : Reachable listen_fd w (started listen_fd w)
      then_step : (s s' : System) → Reachable listen_fd w s → Step s s' → Reachable listen_fd w s'
