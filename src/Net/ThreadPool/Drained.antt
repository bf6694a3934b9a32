-- ===== src/Net/ThreadPool/Drained.antt =====
-- No task is lost or run twice, and the pool ends with an empty queue.
use high_performance_http_se.Common.{
  ℕ, ◌+◌, ◌<◌, ◌≡◌, refl, sym, ap, ◌∙◌, Bool, true, false, List, [], ◌∷◌, ◌++◌, append_assoc,
  append-nil, arith,
}
use high_performance_http_se.Net.ThreadPool.{
  ThreadPool, worker_count, new_thread_pool, enqueue, stop, after_wait, worker_turn, end_task,
  with_taken, Run, created, enqueued, turned, ended, stopped,
}

module _ {T : Type 0} (n : ℕ) where
  -- Each task that was enqueued has been started or is queued, once, and in the order of arrival. The
  -- workers are as many as at first. If one has left its loop, the pool is stopping and its queue is
  -- empty.
  pub record IsKept (es ss : List T) (p : ThreadPool T) : Type 0 where
    pub in_order : ss ++ p.queue ≡ es
    pub workers : p.waiting + p.busy + p.exited ≡ worker_count n
    pub left_empty : 0 < p.exited → (p.queue ≡ []) × (p.stopping ≡ true)

  after_wait-IsKept :
      (es ss : List T) (p : ThreadPool T) (q : List T) (s : Bool)
      → p.queue ≡ q
      → p.stopping ≡ s
      → 0 < p.waiting
      → IsKept es ss p
      → IsKept es (with_taken ss (after_wait p q s).0) (after_wait p q s).1
  after_wait-IsKept es ss p [] false eq es' busy k = k
  after_wait-IsKept es ss p [] true eq es' some_waiting k =
      let same = k.workers in
      record { in_order = k.in_order; workers = omega arith; left_empty = λ _. (eq, es') }
  after_wait-IsKept es ss p (t ∷ q) s eq es' some_waiting k =
      let same = k.workers in
      record {
        in_order = append_assoc ss (t ∷ []) q ∙ ap (λ l. ss ++ l) (sym eq) ∙ k.in_order;
        workers = omega arith;
        left_empty = λ gone. (let nothing = (k.left_empty gone).0 in cc);
      }

  -- However tasks are enqueued, workers take their turns, tasks end and the destructor begins: what has been
  -- started and then what is queued are the tasks that were enqueued, in their order; each worker waits, is
  -- busy or has left; and one has left only when the pool stops with an empty queue.
  pub Run-IsKept : (es ss : List T) (p : ThreadPool T) → Run n es ss p → IsKept es ss p
  unfolding new_thread_pool enqueue worker_turn end_task stop
  Run-IsKept es ss p created = record {
    in_order = refl;
    workers = omega arith;
    left_empty = λ h. absurd (omega arith);
  }
  Run-IsKept _ _ _ (enqueued es ss p t run running_on) =
      let k = Run-IsKept es ss p run in
      record {
        in_order = sym (append_assoc ss p.queue (t ∷ [])) ∙ ap (λ l. l ++ t ∷ []) k.in_order;
        workers = k.workers;
        left_empty = λ h. (let closed = (k.left_empty h).1 in cc);
      }
  Run-IsKept _ _ _ (turned es ss p run some_waiting) =
      after_wait-IsKept es ss p p.queue p.stopping refl refl some_waiting (Run-IsKept es ss p run)
  Run-IsKept _ _ _ (ended es ss p run some_busy) =
      let k = Run-IsKept es ss p run in
      let same = k.workers in
      record { in_order = k.in_order; workers = omega arith; left_empty = k.left_empty }
  Run-IsKept _ _ _ (stopped es ss p run) =
      let k = Run-IsKept es ss p run in
      record {
        in_order = k.in_order;
        workers = k.workers;
        left_empty = λ h. ((k.left_empty h).0, refl);
      }

  -- When the destructor has joined all workers, each task that was ever enqueued has been started, once
  -- and in the order of arrival, and none is still running.
  pub Run-drained :
      (es ss : List T) (p : ThreadPool T)
      → Run n es ss p
      → p.exited ≡ worker_count n
      → (ss ≡ es) × (p.busy ≡ 0)
  Run-drained es ss p run all_left =
      let k = Run-IsKept es ss p run in
      let same = k.workers in
      let some_worker : 0 < worker_count n = ground arith in
      let (nothing, stopping) = k.left_empty (omega arith) in
      (sym (append-nil ss) ∙ ap (λ l. ss ++ l) (sym nothing) ∙ k.in_order, omega arith)
