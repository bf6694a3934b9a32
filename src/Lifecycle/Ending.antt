-- ===== src/Lifecycle/Ending.antt =====
-- Each turn of a program that is to end leaves it so, and brings the end no further away.
use high_performance_http_se.Common.{
  ℕ, ◌+◌, ◌≡◌, ◌⊎◌, refl, inl, inr, Bool, true, false, ◌&&◌, ◌||◌, not, List, [], ◌∷◌, ltb, ◌==◌,
  arith,
}
use high_performance_http_se.Lifecycle.{
  MainPhase, opening, starting, looping, leaving, joining, returned, WatcherPhase, polling,
  past_loop, stopping, exited, Program, has_exited, Turn, signal, watcher_runs, main_runs,
  handle_signal, main_turn, watcher_turn, turn,
}

-- Whether it is a turn of the main thread (true) or of the watcher (false).
abbrev pub runs : Bool → Turn → Bool
runs true (main_runs bound) = true
runs false watcher_runs = true
runs _ _ = false

abbrev pub same_thread : Bool → Bool → Bool
same_thread true b = b
same_thread false b = not b

-- The thread has a turn among them.
abbrev pub has_turn : Bool → List Turn → Bool
has_turn thread [] = false
has_turn thread (t ∷ ts) = runs thread t || has_turn thread ts

abbrev pub has_both : List Turn → Bool
has_both ts = has_turn true ts && has_turn false ts

-- Both threads have a turn in every round.
abbrev pub AllFair : List (List Turn) → Type 0
AllFair [] = Unit {0}
AllFair (ts ∷ rounds) = (has_both ts ≡ true) × AllFair rounds

abbrev pub main_rank : MainPhase → ℕ
main_rank returned = 0
main_rank joining = 1
main_rank leaving = 2
main_rank _ = 3

abbrev pub watcher_rank : WatcherPhase → ℕ
watcher_rank exited = 0
watcher_rank stopping = 1
watcher_rank past_loop = 2
watcher_rank polling = 3

abbrev pub will_stop : WatcherPhase → Bool
will_stop polling = true
will_stop past_loop = true
will_stop _ = false

-- The thread whose turn brings the program nearer to its end.
abbrev pub needed_at : MainPhase → WatcherPhase → Bool → Bool
needed_at looping w running = not running
needed_at leaving w running = true
needed_at joining w running = has_exited w
needed_at _ w running = true

module _ {Parts : Type 0} where
  -- At most so many changes of phase are left.
  abbrev pub rank : Program Parts → ℕ
  rank p = main_rank p.main + watcher_rank p.watcher

  abbrev pub needed : Program Parts → Bool
  needed p = needed_at p.main p.watcher p.running

  -- A turn that leads from `p` to `p'` either lowers the rank, or leaves the end or the needed turn.
  abbrev pub moves : Turn → Program Parts → Program Parts → Bool
  moves t p p' =
      ltb (rank p') (rank p)
      || rank p' == rank p
        && (rank p == 0 || (same_thread (needed p') (needed p) && not (runs (needed p) t)))

-- What holds of the other parts while the program ends.
abbrev pub StoppedAt : {Parts : Type 0} → (Parts → Type 0) → WatcherPhase → Parts → Type 0
StoppedAt IsStopped stopping parts = Unit {0}
StoppedAt IsStopped _ parts = IsStopped parts

abbrev pub EndingAt :
    {Parts : Type 0}
    → (Parts → Type 0)
    → MainPhase
    → WatcherPhase
    → Bool
    → Bool
    → Bool
    → Parts
    → Type 0
EndingAt IsStopped looping w requested running should_exit parts =
    (running ≡ false) × StoppedAt IsStopped w parts
    ⊎ (running ≡ true) × (requested ≡ true) × (will_stop w ≡ true)
EndingAt IsStopped leaving w requested running should_exit parts = StoppedAt IsStopped w parts
EndingAt IsStopped joining w requested running should_exit parts =
    (should_exit ≡ true) × StoppedAt IsStopped w parts
EndingAt IsStopped returned w requested running should_exit parts = (w ≡ exited) × IsStopped parts
EndingAt IsStopped _ w requested running should_exit parts = ⊥

module _ {Parts : Type 0} where
  abbrev pub at : MainPhase → WatcherPhase → Bool → Bool → Bool → Parts → Program Parts
  at m w q r x parts = record {
    requested = q;
    running = r;
    should_exit = x;
    parts = parts;
    main = m;
    watcher = w;
  }

module _ {Parts : Type 0} (IsStopped : Parts → Type 0) where
  abbrev pub IsEnding : Program Parts → Type 0
  IsEnding p = EndingAt IsStopped p.main p.watcher p.requested p.running p.should_exit p.parts

module _ {Parts : Type 0} (start stop : Parts → Parts) (IsStopped : Parts → Type 0)
    (stops : (parts : Parts) → IsStopped (stop parts)) where
  abbrev pub Moved : Turn → Program Parts → Type 0
  Moved t p = IsEnding IsStopped (turn start stop t p) × (moves t p (turn start stop t p) ≡ true)

  main_moves :
      (b : Bool) (m : MainPhase) (w : WatcherPhase) (q r x : Bool) (parts : Parts)
      → IsEnding IsStopped (at m w q r x parts)
      → Moved (main_runs b) (at m w q r x parts)
  unfolding turn main_turn
  main_moves b opening w q r x parts h = absurd h
  main_moves b starting w q r x parts h = absurd h
  main_moves b looping w q true x parts (inl (e, h)) = cc
  main_moves b looping w q false x parts (inl (e, h)) = (h, ground arith)
  main_moves b looping polling q true x parts (inr h) = (inr h, refl)
  main_moves b looping past_loop q true x parts (inr h) = (inr h, refl)
  main_moves b looping stopping q true x parts (inr (e, s, h)) = cc
  main_moves b looping exited q true x parts (inr (e, s, h)) = cc
  main_moves b looping w q false x parts (inr (e, s, h)) = cc
  main_moves b leaving w q r x parts h = ((refl, h), ground arith)
  main_moves b joining exited q r x parts (e, h) = ((refl, h), refl)
  main_moves b joining polling q r x parts h = (h, refl)
  main_moves b joining past_loop q r x parts h = (h, refl)
  main_moves b joining stopping q r x parts h = (h, refl)
  main_moves b returned exited q r x parts h = (h, refl)
  main_moves b returned polling q r x parts (e, h) = cc
  main_moves b returned past_loop q r x parts (e, h) = cc
  main_moves b returned stopping q r x parts (e, h) = cc

  watcher_moves :
      (m : MainPhase) (w : WatcherPhase) (q r x : Bool) (parts : Parts)
      → IsEnding IsStopped (at m w q r x parts)
      → Moved watcher_runs (at m w q r x parts)
  unfolding turn watcher_turn
  watcher_moves opening w q r x parts h = absurd h
  watcher_moves starting w q r x parts h = absurd h
  watcher_moves looping polling true r x parts (inl h) = (inl h, refl)
  watcher_moves looping polling false false true parts (inl h) = (inl h, refl)
  watcher_moves looping polling false false false parts (inl h) = (inl h, refl)
  watcher_moves looping past_loop true r x parts (inl h) = (inl (refl, tt), refl)
  watcher_moves looping past_loop false r x parts (inl h) = (inl h, refl)
  watcher_moves looping stopping q r x parts (inl (e, h)) = (inl (e, stops parts), refl)
  watcher_moves looping exited q false x parts (inl h) = (inl h, refl)
  watcher_moves looping polling true r x parts (inr (e, s, h)) = (inr (e, s, refl), refl)
  watcher_moves looping past_loop true r x parts (inr h) = (inl (refl, tt), refl)
  watcher_moves leaving polling true r x parts h = (h, refl)
  watcher_moves leaving polling false r true parts h = (h, refl)
  watcher_moves leaving polling false r false parts h = (h, refl)
  watcher_moves leaving past_loop true r x parts h = (tt, refl)
  watcher_moves leaving past_loop false r x parts h = (h, refl)
  watcher_moves leaving stopping q r x parts h = (stops parts, refl)
  watcher_moves leaving exited q r x parts h = (h, refl)
  watcher_moves joining polling true r x parts h = (h, refl)
  watcher_moves joining polling false r true parts h = (h, refl)
  watcher_moves joining past_loop true r x parts (e, h) = ((e, tt), refl)
  watcher_moves joining past_loop false r x parts h = (h, refl)
  watcher_moves joining stopping q r x parts (e, h) = ((e, stops parts), refl)
  watcher_moves joining exited q r x parts h = (h, refl)
  watcher_moves returned exited q r x parts h = (h, refl)
  watcher_moves looping polling false true x parts (inl (e, h)) = cc
  watcher_moves looping exited q true x parts (inl (e, h)) = cc
  watcher_moves looping polling false r x parts (inr (e, s, h)) = cc
  watcher_moves looping past_loop false r x parts (inr (e, s, h)) = cc
  watcher_moves looping stopping q r x parts (inr (e, s, h)) = cc
  watcher_moves looping exited q r x parts (inr (e, s, h)) = cc
  watcher_moves joining polling false r false parts (e, h) = cc
  watcher_moves returned polling q r x parts (e, h) = cc
  watcher_moves returned past_loop q r x parts (e, h) = cc
  watcher_moves returned stopping q r x parts (e, h) = cc

  signal_moves :
      (m : MainPhase) (w : WatcherPhase) (q r x : Bool) (parts : Parts)
      → IsEnding IsStopped (at m w q r x parts)
      → Moved signal (at m w q r x parts)
  unfolding turn handle_signal
  signal_moves opening w q r x parts h = absurd h
  signal_moves starting w q r x parts h = absurd h
  signal_moves looping w q r x parts (inl h) = (inl h, ground arith)
  signal_moves looping w q r x parts (inr (e, s, h)) = (inr (e, refl, h), ground arith)
  signal_moves leaving w q r x parts h = (h, ground arith)
  signal_moves joining w q r x parts h = (h, ground arith)
  signal_moves returned w q r x parts h = (h, ground arith)

  pub turn_moves : (t : Turn) (p : Program Parts) → IsEnding IsStopped p → Moved t p
  turn_moves signal p h =
      signal_moves p.main p.watcher p.requested p.running p.should_exit p.parts h
  turn_moves watcher_runs p h =
      watcher_moves p.main p.watcher p.requested p.running p.should_exit p.parts h
  turn_moves (main_runs b) p h =
      main_moves b p.main p.watcher p.requested p.running p.should_exit p.parts h
