-- ===== src/Tests/Pooling.antt =====
-- A run of the thread pool, and the theorems on it.
use high_performance_http_se.Common.{ℕ, ◌+◌, ◌≤◌, ◌≡◌, refl, length, List, [], ◌∷◌, arith}
use high_performance_http_se.Net.ThreadPool.{
  ThreadPool, new_thread_pool, enqueue, stop, worker_turn, end_task, Run, created, enqueued, turned,
  ended, stopped, worker_count,
}
use high_performance_http_se.Net.ThreadPool.Join.{
  WorkerTurn, wakes, returns, take_turns, turns_left, join_drains,
}
use high_performance_http_se.Net.ThreadPool.Drained.{IsKept, Run-IsKept}

abbrev one_task : List ℕ
one_task = 7 ∷ []

abbrev with_task : ThreadPool ℕ
with_task = enqueue 7 (new_thread_pool 0)

abbrev taken : ThreadPool ℕ
taken = (worker_turn with_task).1

abbrev stopping_pool : ThreadPool ℕ
stopping_pool = stop (end_task taken)

abbrev all_left : ThreadPool ℕ
all_left = (worker_turn stopping_pool).1

Run-with_task : Run 0 one_task [] with_task
unfolding new_thread_pool
Run-with_task = enqueued [] [] _ 7 created refl

Run-all_left : Run 0 one_task one_task all_left
unfolding new_thread_pool enqueue worker_turn end_task stop
Run-all_left =
    turned _ _ _
      (stopped _ _ _
        (ended _ _ _ (turned _ [] with_task Run-with_task (omega arith)) (omega arith)))
      (omega arith)

Run-IsKept_example : IsKept 0 one_task [] with_task
Run-IsKept_example = Run-IsKept 0 one_task [] with_task Run-with_task

abbrev last_turns : List WorkerTurn
last_turns = returns ∷ wakes ∷ []

abbrev stopped_pool : ThreadPool ℕ
stopped_pool = stop taken

Run-stopped_pool : Run 0 one_task one_task stopped_pool
unfolding new_thread_pool enqueue worker_turn
Run-stopped_pool = stopped _ _ _ (turned _ [] with_task Run-with_task (omega arith))

join_drains_example :
    (length last_turns + turns_left (take_turns last_turns one_task stopped_pool).1
      ≤ turns_left stopped_pool)
    × ((take_turns last_turns one_task stopped_pool).1.waiting ≡ 0
        → (take_turns last_turns one_task stopped_pool).1.busy ≡ 0
        → ((take_turns last_turns one_task stopped_pool).1.exited ≡ worker_count 0)
          × ((take_turns last_turns one_task stopped_pool).0 ≡ one_task))
unfolding new_thread_pool enqueue worker_turn end_task stop
join_drains_example =
    join_drains 0 one_task one_task stopped_pool last_turns Run-stopped_pool refl
      (omega arith, (omega arith, tt))
