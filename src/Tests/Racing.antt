-- ===== src/Tests/Racing.antt =====
-- A pick while the health checker marks an upstream down.
use high_performance_http_se.Common.{
  ℕ, zero, suc, ◌≡◌, refl, Bool, true, false, [], ◌∷◌, codes, some,
}
use high_performance_http_se.Lb.UpstreamPool.{UpstreamPool, new_pool, pick_racing, pick_next_racing}
use high_performance_http_se.Lb.UpstreamPool.Racing.{Saw, pick_next_racing-Saw}

abbrev three : UpstreamPool
three = new_pool ((codes "a", 1) ∷ (codes "b", 2) ∷ (codes "c", 3) ∷ [])

-- The upstream 0 is down in the first round, and all are up after it.
abbrev first_down : ℕ → ℕ → Bool
first_down zero zero = false
first_down zero (suc k) = true
first_down (suc i) k = true

second_picked : (pick_next_racing first_down three).1 ≡ some 1
unfolding pick_next_racing pick_racing new_pool
second_picked = refl

pick_next_racing-Saw_example : Saw first_down three (pick_next_racing first_down three).1
pick_next_racing-Saw_example = pick_next_racing-Saw first_down three
