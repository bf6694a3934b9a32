-- ===== src/Net/Serving/Draining.antt =====
-- What is under way comes to an end: tasks are started and ended, and rearms are applied.
use high_performance_http_se.Common.{
  ℕ, suc, ◌+◌, ◌*◌, ◌≤◌, ◌<◌, ◌≡◌, ◌⊎◌, refl, ap, inl, inr, Bool, true, false, not, List, [], ◌∷◌,
  ◌==◌, ==_self, some, is_some, is_empty, length, length-append, Bool-cases, Option-cases, arith,
}
use high_performance_http_se.Common.Table.{find, count, remove}
use high_performance_http_se.Net.Sys.{Sys, SendLaws}
use high_performance_http_se.Net.Connection.{Connection}
use high_performance_http_se.Net.Serving.{
  Reactor, PendingRearm, RearmAction, wait_readable, wait_writable, Serve, apply_rearm, rearm,
  handle_event, post_rearm, work,
}
use high_performance_http_se.Net.Serving.Steps.{
  System, Step, Reachable, then_step, swap_rearms, apply_next, accept_all, take_event, start_task,
  end_task, world_moves,
}
use high_performance_http_se.Net.Serving.Handled.{ServeRearms}
use high_performance_http_se.Net.Serving.Waiting.{wanted}
use high_performance_http_se.Net.Serving.Waiting.Reached.{IsIdle, Reachable-waits}

-- A worker that is done has a rearm fewer to come than a task, and so on: a task is started, ends with a
-- rearm, which is taken over, and applied.
module _ (sys : Sys) where
  abbrev pub steps_left : System sys → ℕ
  steps_left s =
      4 * length s.reactor.tasks
      + 3 * length s.running
      + 2 * length s.reactor.pending_rearms
      + length s.applying

  -- Steps that go on with what is under way: no event, no connection, no change of the world.
  abbrev pub goes_on : {serve : Serve sys} {s s' : System sys} → Step sys serve s s' → Bool
  goes_on (swap_rearms s idle) = not (is_empty s.reactor.pending_rearms)
  goes_on (apply_next s p ps e) = true
  goes_on (accept_all s fds ev idle e fresh) = false
  goes_on (take_event s ev idle ne waits) = false
  goes_on (start_task s fd fds e) = true
  goes_on (end_task s fd running) = true
  goes_on (world_moves s w) = false

nonempty-length {ℓ} : {A : Type ℓ} (xs : List A) → not (is_empty xs) ≡ true → 0 < length xs
nonempty-length [] e = cc
nonempty-length (x ∷ xs) e = omega arith

length-remove : (fd : ℕ) (xs : List ℕ) → 0 < count fd xs → length (remove fd xs) < length xs
unfolding remove
length-remove fd [] there = absurd (omega (arith, there))
length-remove fd (x ∷ xs) there = elim (Bool-cases (x == fd)) [
  | inl e ↦ rw e (omega arith)
  | inr e ↦
      let later : 0 < count fd xs = ground (arith, there, e) in
      let less = length-remove fd xs later in rw e (omega arith)
]

module _ (sys : Sys) (serve : Serve sys) where
  apply_rearm-queues :
      (p : PendingRearm) (r : Reactor sys)
      → ((apply_rearm sys p r).tasks ≡ r.tasks)
        × ((apply_rearm sys p r).pending_rearms ≡ r.pending_rearms)
  unfolding apply_rearm
  apply_rearm-queues p r = elim (Bool-cases (is_some (find p.fd r.connections))) [
    | inr gone ↦ rw gone (refl, refl)
    | inl known ↦ rw known (at_action p.action)
  ]
    where
      at_action :
          (a : RearmAction)
          → ((rearm sys a p.fd r).tasks ≡ r.tasks)
            × ((rearm sys a p.fd r).pending_rearms ≡ r.pending_rearms)
      at_action wait_readable = (refl, refl)
      at_action wait_writable = (refl, refl)
      at_action RearmAction.close = (refl, refl)

  handle_event-queues :
      (fd : ℕ) (r : Reactor sys)
      → ((handle_event sys serve fd r).tasks ≡ r.tasks)
        × (length (handle_event sys serve fd r).pending_rearms ≤ length r.pending_rearms + 1)
  unfolding handle_event post_rearm
  handle_event-queues fd r = elim (Option-cases (find fd r.connections)) [
    | inl gone ↦ rw (handle_event, gone, handle_event) (refl, omega arith)
    | inr (c, known) ↦
        let (c', w', action) = work sys serve c r.world in
        rw (handle_event, known, handle_event)
          (
            refl,
            omega
                (arith, length-append r.pending_rearms (record { fd = fd; action = action } ∷ [])),
          )
  ]

  goes_on-steps_left :
      {s s' : System sys} (step : Step sys serve s s')
      → goes_on sys step ≡ true
      → steps_left sys s' < steps_left sys s
  goes_on-steps_left (swap_rearms s idle) going =
      let e1 : length s.applying ≡ 0 = ap length idle in
      let some_posted = nonempty-length s.reactor.pending_rearms going in omega arith
  goes_on-steps_left (apply_next s p ps e) going =
      let (same_tasks, same_posted) = apply_rearm-queues p s.reactor in
      let e1 = ap length same_tasks in
      let e2 = ap length same_posted in
      let e3 : length s.applying ≡ suc (length ps) = ap length e in omega arith
  goes_on-steps_left (accept_all s fds ev idle e fresh) going = cc
  goes_on-steps_left (take_event s ev idle ne waits) going = cc
  goes_on-steps_left (start_task s fd fds e) going =
      let e1 : length s.reactor.tasks ≡ suc (length fds) = ap length e in omega arith
  goes_on-steps_left (end_task s fd running) going =
      let (same_tasks, few) = handle_event-queues fd s.reactor in
      let e1 = ap length same_tasks in let less = length-remove fd s.running running in omega arith
  goes_on-steps_left (world_moves s w) going = cc

  -- `n` such steps.
  pub data GoesOn : ℕ → System sys → System sys → Type 0 where
    stays : (s : System sys) → GoesOn 0 s s
    then_on :
        (n : ℕ) (s s' s'' : System sys) (step : Step sys serve s s')
        → goes_on sys step ≡ true
        → GoesOn n s' s''
        → GoesOn (suc n) s s''

  GoesOn-steps_left :
      {n : ℕ} {s s' : System sys} → GoesOn n s s' → n + steps_left sys s' ≤ steps_left sys s
  GoesOn-steps_left (stays s) = omega arith
  GoesOn-steps_left (then_on n s s' s'' step going more) =
      let less = goes_on-steps_left step going in let rest = GoesOn-steps_left more in omega arith

  GoesOn-Reachable :
      {n l : ℕ} {w : sys.World} {s s' : System sys}
      → Reachable sys serve l w s
      → GoesOn n s s'
      → Reachable sys serve l w s'
  GoesOn-Reachable reached (stays s) = reached
  GoesOn-Reachable reached (then_on n s s' s'' step going more) =
      GoesOn-Reachable (then_step s s' reached step) more

  -- A step that goes on, and what it leads to.
  abbrev pub CanGoOn : System sys → Type 0
  CanGoOn s = (s' : System sys) × (step : Step sys serve s s') × (goes_on sys step ≡ true)

  IsIdle-CanGoOn : (s : System sys) → IsIdle sys s ⊎ CanGoOn s
  IsIdle-CanGoOn s =
      go s.reactor.tasks s.running s.reactor.pending_rearms s.applying refl refl refl refl
    where
      go :
          (ts rs : List ℕ) (ps qs : List PendingRearm)
          → s.reactor.tasks ≡ ts
          → s.running ≡ rs
          → s.reactor.pending_rearms ≡ ps
          → s.applying ≡ qs
          → IsIdle sys s ⊎ CanGoOn s
      go [] [] [] [] e1 e2 e3 e4 = inl (e1, e2, e3, e4)
      go ts rs ps (q ∷ qs) e1 e2 e3 e4 = inr (_, apply_next s q qs e4, refl)
      go ts rs (p ∷ ps) [] e1 e2 e3 e4 = inr (_, swap_rearms s e4, rw e3 refl)
      go (t ∷ ts) rs [] [] e1 e2 e3 e4 = inr (_, start_task s t ts e1, refl)
      go [] (r ∷ rs) [] [] e1 e2 e3 e4 =
          inr (_, end_task s r (rw e2 (ground (arith, ==_self r))), refl)

module _ (sys : Sys) (laws : SendLaws sys) (serve : Serve sys) (serves : ServeRearms sys serve)
    (quiet : sys.hang_up_unasked ≡ false) where
  -- For a kernel with the laws of send, an event loop that reports no hang-up at mask 0, as kqueue and unlike
  -- epoll, and a `serve` that rearms for writing just when bytes are left to
  -- send: from every reachable state, the steps that start and end tasks and take over and apply rearms are
  -- at most four for each task, three for each busy worker, two for each rearm and one for each that is
  -- being applied, in any order; and where none of them can follow, nothing is queued, worked on or to be
  -- rearmed, and each connection is registered for writing if it has bytes to send and for reading else.
  pub Reachable-drains :
      (l n : ℕ) (w : sys.World) (s s' : System sys)
      → Reachable sys serve l w s
      → GoesOn sys serve n s s'
      → (n + steps_left sys s' ≤ steps_left sys s)
        × (CanGoOn sys serve s'
            ⊎ IsIdle sys s'
              × ((k : ℕ) (c : Connection)
                  → find k s'.reactor.connections ≡ some c
                  → find k s'.reactor.interests ≡ some (wanted c)))
  Reachable-drains l n w s s' reached run = (
    GoesOn-steps_left sys serve run,
    elim (IsIdle-CanGoOn sys serve s') [
      | inr on ↦ inl on
      | inl idle ↦ inr (
        idle,
        λ k c found.
            (Reachable-waits sys laws serve serves quiet l w s' k c
                (GoesOn-Reachable sys serve reached run) found).1
              idle,
      )
    ],
  )
