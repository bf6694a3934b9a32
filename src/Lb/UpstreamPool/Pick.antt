-- ===== src/Lb/UpstreamPool/Pick.antt =====
-- Which upstream a call of pick_next answers.
use high_performance_http_se.Common.{
  ℕ, ◌+◌, ◌%◌, ◌<◌, ◌≡◌, ◌↔◌, refl, true, false, Option, none, some, length, subst,
}
use high_performance_http_se.Lb.UpstreamPool.{UpstreamPool, is_healthy, pick_next}
use high_performance_http_se.Lb.UpstreamPool.Racing.{
  Saw, pick_next_racing-still, pick_next_racing-Saw,
}

-- The candidate after `i` others.
abbrev pub turn : UpstreamPool → ℕ → ℕ
turn p i = (p.next_index % length p.upstreams + i) % length p.upstreams

-- `k` is the first healthy upstream, counted round from the index.
pub record IsNext (p : UpstreamPool) (k : ℕ) : Type 0 where
  pub passed : ℕ
  pub passed_few : passed < length p.upstreams
  pub here : k ≡ turn p passed
  pub in_range : k < length p.upstreams
  pub healthy : is_healthy p.upstreams k ≡ true
  pub skipped : (j : ℕ) → j < passed → is_healthy p.upstreams (turn p j) ≡ false

abbrev pub Picks : UpstreamPool → Option ℕ → Type 0
Picks p none = (k : ℕ) → k < length p.upstreams → is_healthy p.upstreams k ≡ false
Picks p (some k) = IsNext p k

module _ (p : UpstreamPool) where
  Saw-Picks : (r : Option ℕ) → Saw (λ i k. is_healthy p.upstreams k) p r → Picks p r
  Saw-Picks none f = λ k less. let (i, few, down) = f k less in down
  Saw-Picks (some k) (less, n, few, e, up, before) = record {
    passed = n;
    passed_few = few;
    here = e;
    in_range = less;
    healthy = up;
    skipped = before;
  }

  -- The answer is the first healthy upstream, counted round from the index, and there is none only
  -- where no upstream is healthy.
  pub pick_next-Picks : Picks p (pick_next p).1
  pick_next-Picks =
      subst (λ r. Picks p r.1) (pick_next_racing-still p)
        (Saw-Picks _ (pick_next_racing-Saw (λ i k. is_healthy p.upstreams k) p))

  -- A null pointer means that no upstream is healthy, and the other way round.
  pub pick_next-none_iff :
      ((pick_next p).1 ≡ none)
      ↔ ((k : ℕ) → k < length p.upstreams → is_healthy p.upstreams k ≡ false)
  pick_next-none_iff =
      (λ e. subst (Picks p) e pick_next-Picks, λ down. refute (pick_next p).1 refl down)
    where
      refute :
          (r : Option ℕ)
          → (pick_next p).1 ≡ r
          → ((k : ℕ) → k < length p.upstreams → is_healthy p.upstreams k ≡ false)
          → (pick_next p).1 ≡ none
      refute none e down = e
      refute (some k) e down =
          let f = subst (Picks p) e pick_next-Picks in cc (down k f.in_range, f.healthy)
