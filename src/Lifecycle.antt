-- ===== src/Lifecycle.antt =====
-- How the programs start and stop: the ends of both main functions, with run, stop and the loop test of
-- reactorLoop. What else `run` starts and `stop` stops is an argument: nothing for the server, the health
-- checker for the load balancer.
pub mod Ending
pub mod Fair
pub mod Stopping
pub mod Lost
use high_performance_http_se.Common.{Bool, true, false, ◌||◌, List, [], ◌∷◌, if◌then◌else◌}

-- Where the main thread is: before createListenSocket; before `running_ = true`; in the loop of
-- reactorLoop; back from `run`; in `stopWatcher.join()`; past it.
pub data MainPhase : Type 0 where
  opening starting looping leaving joining returned : MainPhase

-- Where the watcher is: in its loop; past it; in `stop`, past `running_ = false`; at its end.
pub data WatcherPhase : Type 0 where
  polling past_loop stopping exited : WatcherPhase

-- `g_stopRequested`, `running_`, `watcherShouldExit`, the parts that `run` starts, and the two threads.
pub record Program (Parts : Type 0) : Type 0 where
  pub requested : Bool
  pub running : Bool
  pub should_exit : Bool
  pub parts : Parts
  pub main : MainPhase
  pub watcher : WatcherPhase

abbrev pub has_exited : WatcherPhase → Bool
has_exited exited = true
has_exited _ = false

-- A turn of a thread, up to its next access to what the threads share, or a signal. The main thread's turn
-- says whether createListenSocket answers with a socket.
pub data Turn : Type 0 where
  signal watcher_runs : Turn
  main_runs : Bool → Turn

module _ {Parts : Type 0} where
  abbrev pub started : Parts → Program Parts
  started parts = record {
    requested = false;
    running = false;
    should_exit = false;
    parts = parts;
    main = opening;
    watcher = polling;
  }

  -- `handleSignal`
  unfoldable pub handle_signal : Program Parts → Program Parts
  handle_signal p = record p { requested = true }

module _ {Parts : Type 0} (start stop : Parts → Parts) where
  abbrev pub main_step : Bool → MainPhase → Program Parts → Program Parts
  main_step false opening p = record p { main = leaving }
  main_step true opening p = record p { parts = start p.parts; main = starting }
  main_step bound starting p = record p { running = true; main = looping }
  main_step bound looping p = if p.running then p else record p { main = leaving }
  main_step bound leaving p = record p { should_exit = true; main = joining }
  main_step bound joining p = if has_exited p.watcher then record p { main = returned } else p
  main_step bound returned p = p

  unfoldable pub main_turn : Bool → Program Parts → Program Parts
  main_turn bound p = main_step bound p.main p

  abbrev pub watcher_step : WatcherPhase → Program Parts → Program Parts
  watcher_step polling p =
      if p.requested || p.should_exit then record p { watcher = past_loop } else p
  watcher_step past_loop p =
      if p.requested
      then record p { running = false; watcher = stopping }
      else record p { watcher = exited }
  watcher_step stopping p = record p { parts = stop p.parts; watcher = exited }
  watcher_step exited p = p

  unfoldable pub watcher_turn : Program Parts → Program Parts
  watcher_turn p = watcher_step p.watcher p

  unfoldable pub turn : Turn → Program Parts → Program Parts
  unfolding main_turn watcher_turn handle_signal
  turn signal p = handle_signal p
  turn watcher_runs p = watcher_turn p
  turn (main_runs bound) p = main_turn bound p

  unfoldable pub turns : List Turn → Program Parts → Program Parts
  turns [] p = p
  turns (t ∷ ts) p = turns ts (turn t p)
