-- ===== src/Lifecycle/Fair.antt =====
-- A program that has been told to stop, or whose `run` has returned, ends.
use high_performance_http_se.Common.{
  ◌+◌, ◌≤◌, ◌<◌, ◌≡◌, ◌⊎◌, refl, inl, inr, Bool, true, false, ◌&&◌, not, List, [], ◌∷◌, ltb, ◌==◌,
  arith, Bool-cases, length,
}
use high_performance_http_se.Lifecycle.{
  MainPhase, opening, starting, looping, leaving, joining, returned, WatcherPhase, polling,
  past_loop, stopping, exited, Program, Turn, turn, turns,
}
use high_performance_http_se.Lifecycle.Ending.{
  runs, same_thread, has_turn, has_both, AllFair, main_rank, watcher_rank, needed, rank, IsEnding,
  at, turn_moves,
}

still_needed :
    (t : Turn) (ts : List Turn) (thread' thread : Bool)
    → (same_thread thread' thread && not (runs thread t)) ≡ true
    → has_turn thread (t ∷ ts) ≡ true
    → has_turn thread' ts ≡ true
still_needed t ts true true e f = ground arith
still_needed t ts false false e f = ground arith
still_needed t ts true false e f = cc
still_needed t ts false true e f = cc

has_needed : (ts : List Turn) (thread : Bool) → has_both ts ≡ true → has_turn thread ts ≡ true
has_needed ts true both = ground arith
has_needed ts false both = ground arith

module _ {Parts : Type 0} (start stop : Parts → Parts) where
  -- The rounds one after the other.
  unfoldable pub all_rounds : List (List Turn) → Program Parts → Program Parts
  all_rounds [] p = p
  all_rounds (ts ∷ rounds) p = all_rounds rounds (turns start stop ts p)

module _ {Parts : Type 0} (start stop : Parts → Parts) (IsStopped : Parts → Type 0)
    (stops : (parts : Parts) → IsStopped (stop parts)) where
  pub turns-IsEnding :
      (ts : List Turn) (p : Program Parts)
      → IsEnding IsStopped p
      → IsEnding IsStopped (turns start stop ts p) × (rank (turns start stop ts p) ≤ rank p)
  unfolding turns
  turns-IsEnding [] p h = (h, omega arith)
  turns-IsEnding (t ∷ ts) p h =
      let (h', m) = turn_moves start stop IsStopped stops t p h in
      let (h'', r) = turns-IsEnding ts (turn start stop t p) h' in (h'', ground arith)

  -- A turn of the needed thread among them lowers the rank.
  turns_progress :
      (ts : List Turn) (p : Program Parts)
      → IsEnding IsStopped p
      → has_turn (needed p) ts ≡ true
      → (rank (turns start stop ts p) < rank p) ⊎ (rank (turns start stop ts p) ≡ 0)
  unfolding turns
  turns_progress [] p h f = cc
  turns_progress (t ∷ ts) p h f =
      let p' : Program Parts = turn start stop t p in
      let (h', m) = turn_moves start stop IsStopped stops t p h in
      let (h'', r) = turns-IsEnding ts p' h' in
      elim (Bool-cases (ltb (rank p') (rank p))) [
        | inl less ↦ inl (ground arith)
        | inr kept ↦ elim (Bool-cases (rank p == 0)) [
          | inl nothing ↦ inr (ground arith)
          | inr more ↦
              let same : rank p' ≡ rank p = ground arith in
              let f' = still_needed t ts (needed p') (needed p) (ground arith) f in
              elim (turns_progress ts p' h' f') [
                | inl less ↦ inl (omega arith)
                | inr done ↦ inr done
              ]
        ]
      ]

  rounds_end :
      (rounds : List (List Turn)) (p : Program Parts)
      → IsEnding IsStopped p
      → AllFair rounds
      → rank p ≤ length rounds
      → IsEnding IsStopped (all_rounds start stop rounds p)
        × (rank (all_rounds start stop rounds p) ≡ 0)
  unfolding all_rounds
  rounds_end [] p h fair enough = (h, omega arith)
  rounds_end (ts ∷ rounds) p h (both, fair) enough =
      let p' : Program Parts = turns start stop ts p in
      let (h', r) = turns-IsEnding ts p h in
      let enough' : rank p' ≤ length rounds =
        elim (turns_progress ts p h (has_needed ts (needed p) both)) [
          | inl less ↦ omega arith
          | inr done ↦ omega arith
        ] in
      rounds_end rounds p' h' fair enough'

  ended :
      (m : MainPhase) (w : WatcherPhase) (q r x : Bool) (parts : Parts)
      → IsEnding IsStopped (at m w q r x parts)
      → main_rank m + watcher_rank w ≡ 0
      → (m ≡ returned) × IsStopped parts
  ended returned exited q r x parts (e, h) z = (refl, h)
  ended opening w q r x parts h z = absurd h
  ended starting w q r x parts h z = absurd h
  ended looping w q r x parts h z = absurd (omega arith)
  ended leaving w q r x parts h z = absurd (omega arith)
  ended joining w q r x parts h z = absurd (omega arith)
  ended returned polling q r x parts h z = absurd (omega arith)
  ended returned past_loop q r x parts h z = absurd (omega arith)
  ended returned stopping q r x parts h z = absurd (omega arith)

  -- A program that is ending returns from `main` within six rounds in which both threads have a turn, and
  -- its other parts are stopped then.
  pub ending_returns :
      (rounds : List (List Turn)) (p : Program Parts)
      → IsEnding IsStopped p
      → AllFair rounds
      → 6 ≤ length rounds
      → ((all_rounds start stop rounds p).main ≡ returned)
        × IsStopped (all_rounds start stop rounds p).parts
  ending_returns rounds p h fair enough =
      let p' : Program Parts = all_rounds start stop rounds p in
      let (h', z) = rounds_end rounds p h fair (ground arith) in
      ended p'.main p'.watcher p'.requested p'.running p'.should_exit p'.parts h' z
