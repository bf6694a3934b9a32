-- ===== src/Lifecycle/Stopping.antt =====
-- The program from its start: a signal while it serves ends it, and so does a failure to listen.
use high_performance_http_se.Common.{◌≤◌, ◌≡◌, refl, inr, Bool, true, false, List, [], ◌∷◌, length}
use high_performance_http_se.Lifecycle.{
  MainPhase, opening, starting, looping, leaving, joining, returned, WatcherPhase, polling,
  past_loop, stopping, exited, Program, Turn, signal, watcher_runs, main_runs, started,
  handle_signal, main_turn, watcher_turn, turn, turns,
}
use high_performance_http_se.Lifecycle.Ending.{AllFair, IsEnding, at}
use high_performance_http_se.Lifecycle.Fair.{all_rounds, ending_returns}

-- There is no signal, and createListenSocket does not fail.
abbrev pub AllQuiet : List Turn → Type 0
AllQuiet [] = Unit {0}
AllQuiet (signal ∷ ts) = ⊥
AllQuiet (watcher_runs ∷ ts) = AllQuiet ts
AllQuiet (main_runs bound ∷ ts) = (bound ≡ true) × AllQuiet ts

abbrev RunsAt : MainPhase → Bool → Type 0
RunsAt opening running = Unit {0}
RunsAt starting running = Unit {0}
RunsAt looping running = running ≡ true
RunsAt _ running = ⊥

looping_runs : (m : MainPhase) (running : Bool) → m ≡ looping → RunsAt m running → running ≡ true
looping_runs opening running e h = cc
looping_runs starting running e h = cc
looping_runs looping running e h = h
looping_runs leaving running e h = cc
looping_runs joining running e h = cc
looping_runs returned running e h = cc

module _ {Parts : Type 0} where
  abbrev Untroubled : Program Parts → Type 0
  Untroubled p =
      (p.watcher ≡ polling)
      × (p.requested ≡ false)
      × (p.should_exit ≡ false)
      × RunsAt p.main p.running

module _ {Parts : Type 0} (start stop : Parts → Parts) where
  turn-Untroubled :
      (t : Turn) (ts : List Turn) (m : MainPhase) (w : WatcherPhase) (q r x : Bool) (parts : Parts)
      → AllQuiet (t ∷ ts)
      → Untroubled (at m w q r x parts)
      → Untroubled (turn start stop t (at m w q r x parts)) × AllQuiet ts
  unfolding turn main_turn watcher_turn
  turn-Untroubled signal ts m w q r x parts quiet u = absurd quiet
  turn-Untroubled watcher_runs ts m polling false r false parts quiet u = (u, quiet)
  turn-Untroubled watcher_runs ts m polling true r x parts quiet (a, b, c, d) = cc
  turn-Untroubled watcher_runs ts m polling false r true parts quiet (a, b, c, d) = cc
  turn-Untroubled watcher_runs ts m past_loop q r x parts quiet (a, b, c, d) = cc
  turn-Untroubled watcher_runs ts m stopping q r x parts quiet (a, b, c, d) = cc
  turn-Untroubled watcher_runs ts m exited q r x parts quiet (a, b, c, d) = cc
  turn-Untroubled (main_runs true) ts opening w q r x parts (bound, quiet) u = (u, quiet)
  turn-Untroubled (main_runs true) ts starting w q r x parts (bound, quiet) (a, b, c, d) =
      ((a, b, c, refl), quiet)
  turn-Untroubled (main_runs true) ts looping w q true x parts (bound, quiet) u = (u, quiet)
  turn-Untroubled (main_runs true) ts looping w q false x parts quiet (a, b, c, d) = cc
  turn-Untroubled (main_runs true) ts leaving w q r x parts quiet (a, b, c, d) = absurd d
  turn-Untroubled (main_runs true) ts joining w q r x parts quiet (a, b, c, d) = absurd d
  turn-Untroubled (main_runs true) ts returned w q r x parts quiet (a, b, c, d) = absurd d
  turn-Untroubled (main_runs false) ts m w q r x parts (bound, quiet) u = cc

  turns-Untroubled :
      (ts : List Turn) (p : Program Parts)
      → AllQuiet ts
      → Untroubled p
      → Untroubled (turns start stop ts p)
  unfolding turns
  turns-Untroubled [] p quiet u = u
  turns-Untroubled (t ∷ ts) p quiet u =
      let (u', later) =
        turn-Untroubled t ts p.main p.watcher p.requested p.running p.should_exit p.parts quiet u in
      turns-Untroubled ts (turn start stop t p) later u'

module _ {Parts : Type 0} (start stop : Parts → Parts) (IsStopped : Parts → Type 0)
    (stops : (parts : Parts) → IsStopped (stop parts)) where
  signalled-IsEnding :
      (p : Program Parts)
      → Untroubled p
      → p.main ≡ looping
      → IsEnding IsStopped (turn start stop signal p)
  unfolding turn handle_signal
  signalled-IsEnding p (w, q, x, h) e =
      rw (e, w) (inr (looping_runs p.main p.running e h, refl, refl))

  -- After any turns without a signal that bring the main thread into its loop, a signal ends the program:
  -- it returns from `main`, with its other parts stopped, within six rounds in which both threads have a
  -- turn, whatever further signals come.
  pub signal_ends :
      (parts : Parts) (ts : List Turn) (rounds : List (List Turn))
      → AllQuiet ts
      → (turns start stop ts (started parts)).main ≡ looping
      → AllFair rounds
      → 6 ≤ length rounds
      → let p = turn start stop signal (turns start stop ts (started parts)) in
        ((all_rounds start stop rounds p).main ≡ returned)
        × IsStopped (all_rounds start stop rounds p).parts
  signal_ends parts ts rounds quiet serves fair enough =
      let p = turns start stop ts (started parts) in
      let u : Untroubled p =
        turns-Untroubled start stop ts (started parts) quiet (refl, refl, refl, tt) in
      ending_returns start stop IsStopped stops rounds (turn start stop signal p)
        (signalled-IsEnding p u serves) fair enough

  -- A program whose createListenSocket fails ends by itself: it returns from `main`, with its other parts
  -- as stopped as they were, within six rounds in which both threads have a turn.
  failure_ends :
      (parts : Parts) (rounds : List (List Turn))
      → IsStopped parts
      → AllFair rounds
      → 6 ≤ length rounds
      → let p = turn start stop (main_runs false) (started parts) in
        ((all_rounds start stop rounds p).main ≡ returned)
        × IsStopped (all_rounds start stop rounds p).parts
  unfolding turn main_turn
  failure_ends parts rounds stopped fair enough =
      ending_returns start stop IsStopped stops rounds
        (turn start stop (main_runs false) (started parts)) stopped fair enough
