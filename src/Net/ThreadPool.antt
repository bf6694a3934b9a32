-- ===== src/Net/ThreadPool.antt =====
-- src/net/thread_pool.cpp: the queue, and the workers that take tasks from it.
pub mod Drained
pub mod Join
use high_performance_http_se.Common.{
  ℕ, ◌+◌, ◌-◌, ◌<◌, ◌≡◌, Bool, true, false, List, [], ◌∷◌, ◌++◌, Option, none, some, ◌==◌,
  if◌then◌else◌,
}

-- `waiting` workers are in `cv_.wait` or on the way to it, `busy` ones are in a task, and `exited` ones
-- have left the loop.
pub record ThreadPool (T : Type 0) : Type 0 where
  pub queue : List T
  pub stopping : Bool
  pub waiting : ℕ
  pub busy : ℕ
  pub exited : ℕ

abbrev pub worker_count : ℕ → ℕ
worker_count n = if n == 0 then 1 else n

module _ {T : Type 0} where
  unfoldable pub new_thread_pool : ℕ → ThreadPool T
  new_thread_pool n = record {
    queue = [];
    stopping = false;
    waiting = worker_count n;
    busy = 0;
    exited = 0;
  }

  unfoldable pub enqueue : T → ThreadPool T → ThreadPool T
  enqueue t p = record p { queue = p.queue ++ t ∷ [] }

  -- The first part of the destructor.
  unfoldable pub stop : ThreadPool T → ThreadPool T
  stop p = record p { stopping = true }

  -- The predicate of the wait, and what follows it; with an empty queue and no stop the worker waits on.
  abbrev pub after_wait : ThreadPool T → List T → Bool → Option T × ThreadPool T
  after_wait p [] false = (none, p)
  after_wait p [] true = (none, record p { waiting = p.waiting - 1; exited = p.exited + 1 })
  after_wait p (t ∷ q) s =
      (some t, record p { queue = q; waiting = p.waiting - 1; busy = p.busy + 1 })

  -- A round of `workerLoop` up to the task.
  unfoldable pub worker_turn : ThreadPool T → Option T × ThreadPool T
  worker_turn p = after_wait p p.queue p.stopping

  -- The task has returned.
  unfoldable pub end_task : ThreadPool T → ThreadPool T
  end_task p = record p { waiting = p.waiting + 1; busy = p.busy - 1 }

  abbrev pub with_taken : List T → Option T → List T
  with_taken started none = started
  with_taken started (some t) = started ++ t ∷ []

  -- What can become of a pool of `n` threads: the tasks enqueued so far, those started so far, in order,
  -- and the pool. Nobody enqueues once the destructor has begun.
  pub data Run (n : ℕ) : List T → List T → ThreadPool T → Type 0 where
    created : Run n [] [] (new_thread_pool n)
    enqueued :
        (es ss : List T) (p : ThreadPool T) (t : T)
        → Run n es ss p
        → p.stopping ≡ false
        → Run n (es ++ t ∷ []) ss (enqueue t p)
    turned :
        (es ss : List T) (p : ThreadPool T)
        → Run n es ss p
        → 0 < p.waiting
        → Run n es (with_taken ss (worker_turn p).0) (worker_turn p).1
    ended :
        (es ss : List T) (p : ThreadPool T) → Run n es ss p → 0 < p.busy → Run n es ss (end_task p)
    stopped : (es ss : List T) (p : ThreadPool T) → Run n es ss p → Run n es ss (stop p)
