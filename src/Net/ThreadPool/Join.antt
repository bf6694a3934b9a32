-- ===== src/Net/ThreadPool/Join.antt =====
-- The joins of the destructor: how many turns the workers have left.
use high_performance_http_se.Common.{
  ℕ, suc, ◌+◌, ◌*◌, ◌≤◌, ◌<◌, ◌≡◌, refl, ap, ◌∙◌, Bool, true, false, List, [], ◌∷◌, length, arith,
}
use high_performance_http_se.Net.ThreadPool.{
  ThreadPool, worker_count, after_wait, worker_turn, end_task, with_taken, Run, turned, ended,
}
use high_performance_http_se.Net.ThreadPool.Drained.{Run-IsKept, Run-drained}

-- A worker wakes, or a task returns.
pub data WorkerTurn : Type 0 where
  wakes returns : WorkerTurn

module _ {T : Type 0} where
  abbrev pub CanTurn : WorkerTurn → ThreadPool T → Type 0
  CanTurn wakes p = 0 < p.waiting
  CanTurn returns p = 0 < p.busy

  abbrev pub pool_after : WorkerTurn → ThreadPool T → ThreadPool T
  pool_after wakes p = (worker_turn p).1
  pool_after returns p = end_task p

  abbrev pub started_after : WorkerTurn → List T → ThreadPool T → List T
  started_after wakes ss p = with_taken ss (worker_turn p).0
  started_after returns ss p = ss

  -- The turns one after the other, from the tasks started so far and the pool.
  unfoldable pub take_turns : List WorkerTurn → List T → ThreadPool T → List T × ThreadPool T
  take_turns [] ss p = (ss, p)
  take_turns (t ∷ ts) ss p = take_turns ts (started_after t ss p) (pool_after t p)

  abbrev pub AllCanTurn : List WorkerTurn → ThreadPool T → Type 0
  AllCanTurn [] p = Unit {0}
  AllCanTurn (t ∷ ts) p = CanTurn t p × AllCanTurn ts (pool_after t p)

  -- A task in the queue is three turns: taken, run to its end, and its worker's next wait.
  abbrev pub turns_left : ThreadPool T → ℕ
  turns_left p = 3 * length p.queue + 2 * p.busy + p.waiting

  after_wait-turns_left :
      (p : ThreadPool T) (q : List T) (s : Bool)
      → p.queue ≡ q
      → s ≡ true
      → 0 < p.waiting
      → (turns_left (after_wait p q s).1 < turns_left p)
        × ((after_wait p q s).1.stopping ≡ p.stopping)
  after_wait-turns_left p [] false e stop some_waiting = cc
  after_wait-turns_left p [] true e stop some_waiting =
      let none_queued : length p.queue ≡ 0 = ap length e in (omega arith, refl)
  after_wait-turns_left p (t ∷ q) s e stop some_waiting =
      let queued : length p.queue ≡ suc (length q) = ap length e in (omega arith, refl)

  pool_after-turns_left :
      (t : WorkerTurn) (p : ThreadPool T)
      → p.stopping ≡ true
      → CanTurn t p
      → (turns_left (pool_after t p) < turns_left p) × ((pool_after t p).stopping ≡ true)
  unfolding worker_turn end_task
  pool_after-turns_left wakes p stopping can =
      let (less, same) = after_wait-turns_left p p.queue p.stopping refl stopping can in
      (less, same ∙ stopping)
  pool_after-turns_left returns p stopping can = (omega arith, stopping)

  turned-Run :
      (n : ℕ) (es ss : List T) (t : WorkerTurn) (p : ThreadPool T)
      → Run n es ss p
      → CanTurn t p
      → Run n es (started_after t ss p) (pool_after t p)
  turned-Run n es ss wakes p run can = turned es ss p run can
  turned-Run n es ss returns p run can = ended es ss p run can

  -- Once the destructor has begun, every turn of a worker uses up one of the turns that the pool has left,
  -- so at most so many follow, in any order of the workers; and when no worker can take a turn, all
  -- threads have left their loop, so that the joins return, and every task has been started, in order.
  pub join_drains :
      (n : ℕ) (es ss : List T) (p : ThreadPool T) (ts : List WorkerTurn)
      → Run n es ss p
      → p.stopping ≡ true
      → AllCanTurn ts p
      → (length ts + turns_left (take_turns ts ss p).1 ≤ turns_left p)
        × ((take_turns ts ss p).1.waiting ≡ 0
            → (take_turns ts ss p).1.busy ≡ 0
            → ((take_turns ts ss p).1.exited ≡ worker_count n) × ((take_turns ts ss p).0 ≡ es))
  unfolding take_turns
  join_drains n es ss p [] run stopping can = (
    omega arith,
    λ none_waits none_busy.
        (let k = Run-IsKept n es ss p run in
          let same = k.workers in
          let gone : p.exited ≡ worker_count n = omega arith in
          (gone, (Run-drained n es ss p run gone).0)),
  )
  join_drains n es ss p (t ∷ ts) run stopping (can, later) =
      let (less, stopping') = pool_after-turns_left t p stopping can in
      let (bound, at_end) =
        join_drains n es (started_after t ss p) (pool_after t p) ts (turned-Run n es ss t p run can)
          stopping' later in
      (omega arith, at_end)
