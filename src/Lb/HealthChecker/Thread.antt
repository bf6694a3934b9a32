-- ===== src/Lb/HealthChecker/Thread.antt =====
-- start and stop of src/loadbalancer/health_checker.cpp, and the load balancer as what Lifecycle starts and
-- stops.
use high_performance_http_se.Common.{
  ◌≡◌, refl, Bool, true, false, not, Option, none, some, if◌then◌else◌, arith,
}

-- `running_`, whether `thread_` is a thread that has not been joined, and whether that is in `loop`.
pub record Checker : Type 0 where
  pub running : Bool
  pub joinable : Bool
  pub looping : Bool

abbrev pub new_checker : Checker
new_checker = record { running = false; joinable = false; looping = false }

unfoldable pub start_checker : Checker → Checker
start_checker c = record c { running = true; joinable = true; looping = true }

-- `while (running_)`, the thread's test before each pass.
unfoldable pub test_running : Checker → Checker
test_running c = if c.running then c else record c { looping = false }

-- `if (thread_.joinable()) thread_.join()`: none while it blocks, since the thread is in its loop.
unfoldable pub join_checker : Checker → Option Checker
join_checker c =
    if not c.joinable
    then some c
    else if c.looping
    then none
    else some (record c { joinable = false })

-- `stop`, which blocks until the thread has made its next test; what `join` leaves then.
unfoldable pub stop_checker : Checker → Checker
unfolding test_running join_checker
stop_checker c =
    let tested = test_running (record c { running = false }) in
    elim (join_checker tested) [ none ↦ tested | some joined ↦ joined ]

-- Up to that test, the join blocks.
join_checker_blocks :
    (c : Checker)
    → c.joinable ≡ true
    → c.looping ≡ true
    → (join_checker (record c { running = false }) ≡ none)
      × (join_checker (test_running (record c { running = false })) ≡ some (stop_checker c))
unfolding join_checker test_running stop_checker
join_checker_blocks c joinable looping = rw (joinable, looping) (refl, refl)

-- The loop is told to end, and there is no thread left.
abbrev pub IsStopped : Checker → Type 0
IsStopped c = (c.running ≡ false) × (c.joinable ≡ false)

pub stop_checker-IsStopped : (c : Checker) → IsStopped (stop_checker c)
unfolding stop_checker test_running join_checker
stop_checker-IsStopped c = ground arith
