-- ===== src/Lifecycle/Lost.antt =====
-- A stop that comes before `run` has set `running_` is lost.
use high_performance_http_se.Common.{Bool, true, false, ◌≡◌, refl, List, [], ◌∷◌}
use high_performance_http_se.Lifecycle.{
  MainPhase, opening, starting, looping, leaving, joining, returned, WatcherPhase, polling,
  past_loop, stopping, exited, Program, Turn, signal, watcher_runs, main_runs, started,
  handle_signal, main_turn, watcher_turn, turn, turns,
}

-- No turn finds that createListenSocket fails.
abbrev pub NoneFails : List Turn → Type 0
NoneFails [] = Unit {0}
NoneFails (signal ∷ ts) = NoneFails ts
NoneFails (watcher_runs ∷ ts) = NoneFails ts
NoneFails (main_runs bound ∷ ts) = (bound ≡ true) × NoneFails ts

abbrev pub ServesAt : MainPhase → Bool → Type 0
ServesAt opening running = Unit {0}
ServesAt starting running = Unit {0}
ServesAt looping running = running ≡ true
ServesAt _ running = ⊥

module _ {Parts : Type 0} where
  -- The main thread has not left its loop and will find `running_` set, and the watcher is gone.
  abbrev pub ServesOn : Program Parts → Type 0
  ServesOn p = (p.watcher ≡ exited) × ServesAt p.main p.running

abbrev pub IsEarly : MainPhase → Type 0
IsEarly opening = Unit {0}
IsEarly starting = Unit {0}
IsEarly _ = ⊥

IsEarly-serves : (m : MainPhase) (running : Bool) → IsEarly m → ServesAt m running
IsEarly-serves opening running h = tt
IsEarly-serves starting running h = tt
IsEarly-serves looping running h = absurd h
IsEarly-serves leaving running h = h
IsEarly-serves joining running h = h
IsEarly-serves returned running h = h

NoneFails-split :
    (t : Turn) (ts : List Turn) → NoneFails (t ∷ ts) → NoneFails (t ∷ []) × NoneFails ts
NoneFails-split signal ts n = (tt, n)
NoneFails-split watcher_runs ts n = (tt, n)
NoneFails-split (main_runs bound) ts (b, n) = ((b, tt), n)

module _ {Parts : Type 0} (start stop : Parts → Parts) where
  turn-ServesOn :
      (t : Turn) (m : MainPhase) (w : WatcherPhase) (requested running should_exit : Bool)
      (parts : Parts)
      → NoneFails (t ∷ [])
      → ServesOn (record {
        requested = requested;
        running = running;
        should_exit = should_exit;
        parts = parts;
        main = m;
        watcher = w;
      })
      → ServesOn (
          turn start stop t (record {
            requested = requested;
            running = running;
            should_exit = should_exit;
            parts = parts;
            main = m;
            watcher = w;
          }))
  unfolding turn handle_signal main_turn watcher_turn
  turn-ServesOn signal m w q r x parts n h = h
  turn-ServesOn watcher_runs m exited q r x parts n h = h
  turn-ServesOn watcher_runs m polling q r x parts n (e, h) = cc
  turn-ServesOn watcher_runs m past_loop q r x parts n (e, h) = cc
  turn-ServesOn watcher_runs m stopping q r x parts n (e, h) = cc
  turn-ServesOn (main_runs true) opening w q r x parts n h = h
  turn-ServesOn (main_runs true) starting w q r x parts n (e, h) = (e, refl)
  turn-ServesOn (main_runs true) looping w q true x parts n h = h
  turn-ServesOn (main_runs true) looping w q false x parts n (e, h) = cc
  turn-ServesOn (main_runs true) leaving w q r x parts n (e, h) = absurd h
  turn-ServesOn (main_runs true) joining w q r x parts n (e, h) = absurd h
  turn-ServesOn (main_runs true) returned w q r x parts n (e, h) = absurd h
  turn-ServesOn (main_runs false) m w q r x parts (n, u) h = cc

  turns-ServesOn :
      (ts : List Turn) (p : Program Parts)
      → NoneFails ts
      → ServesOn p
      → ServesOn (turns start stop ts p)
  unfolding turns
  turns-ServesOn [] p n h = h
  turns-ServesOn (t ∷ ts) p n h =
      let (now, later) = NoneFails-split t ts n in
      turns-ServesOn ts (turn start stop t p) later
        (turn-ServesOn t p.main p.watcher p.requested p.running p.should_exit p.parts now h)

  -- A stop that comes too early is lost: when, after any first turns, the watcher has ended while the main
  -- thread has not yet set `running_`, then the main thread never leaves its loop in any later turns in
  -- which createListenSocket does not fail, whatever signals come among them.
  pub early_stop_lost :
      (parts : Parts) (early ts : List Turn)
      → (turns start stop early (started parts)).watcher ≡ exited
      → IsEarly (turns start stop early (started parts)).main
      → NoneFails ts
      → ServesOn (turns start stop ts (turns start stop early (started parts)))
  early_stop_lost parts early ts e early_main n =
      let p = turns start stop early (started parts) in
      turns-ServesOn ts p n (e, IsEarly-serves p.main p.running early_main)
