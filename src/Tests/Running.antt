-- ===== src/Tests/Running.antt =====
-- The programs from their start to their end, on short schedules.
use high_performance_http_se.Common.{◌≡◌, refl, true, false, List, [], ◌∷◌, arith}
use high_performance_http_se.Lifecycle.{
  returned, Turn, signal, watcher_runs, main_runs, started, handle_signal, main_turn, watcher_turn,
  turn, turns, Program,
}
use high_performance_http_se.Lifecycle.Fair.{all_rounds}
use high_performance_http_se.Lifecycle.Lost.{ServesOn, early_stop_lost}
use high_performance_http_se.Lifecycle.Stopping.{signal_ends}
use high_performance_http_se.Lb.HealthChecker.Thread.{
  Checker, new_checker, start_checker, stop_checker, IsStopped, stop_checker-IsStopped,
}

abbrev round : List Turn
round = watcher_runs ∷ main_runs true ∷ signal ∷ []

abbrev rounds : List (List Turn)
rounds = round ∷ round ∷ round ∷ round ∷ round ∷ round ∷ []

abbrev until_served : List Turn
until_served = watcher_runs ∷ main_runs true ∷ main_runs true ∷ main_runs true ∷ []

abbrev served : Program Checker
served = turns start_checker stop_checker until_served (started new_checker)

signal_ends_example :
    ((all_rounds start_checker stop_checker rounds
        (turn start_checker stop_checker signal served)).main
      ≡ returned)
    × IsStopped
        (all_rounds start_checker stop_checker rounds
          (turn start_checker stop_checker signal served)).parts
unfolding turns turn main_turn watcher_turn
signal_ends_example =
    signal_ends start_checker stop_checker IsStopped stop_checker-IsStopped new_checker until_served
      rounds (refl, (refl, (refl, tt))) refl (refl, (refl, (refl, (refl, (refl, (refl, tt))))))
      (omega arith)

abbrev failed : Program Checker
failed = turn start_checker stop_checker (main_runs false) (started new_checker)

-- The signal comes first, and the watcher is faster than `run`.
abbrev early : List Turn
early = signal ∷ watcher_runs ∷ watcher_runs ∷ watcher_runs ∷ []

abbrev later : List Turn
later = main_runs true ∷ main_runs true ∷ signal ∷ main_runs true ∷ watcher_runs ∷ []

early_stop_lost_example : ServesOn (
    turns start_checker stop_checker later
      (turns start_checker stop_checker early (started new_checker)))
unfolding turns turn main_turn watcher_turn handle_signal
early_stop_lost_example =
    early_stop_lost start_checker stop_checker new_checker early later refl tt
      (refl, (refl, (refl, tt)))
