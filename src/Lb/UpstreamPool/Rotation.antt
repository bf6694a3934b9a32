-- ===== src/Lb/UpstreamPool/Rotation.antt =====
-- Round robin: what a row of picks answers while every upstream is healthy.
use native.Mathlib.Nat.{mod-lt, mod-eq_of_lt, mod-add-mod, mod-eq-sub-mod}
use high_performance_http_se.Common.{
  ℕ, zero, suc, ◌+◌, ◌%◌, ◌^◌, ◌≤◌, ◌<◌, ◌≡◌, refl, sym, ap, ◌∙◌, inl, inr, true, false, Option,
  none, some, length, arith, subst, dec_lt, ◌-◌, ◌⊎◌,
}
use high_performance_http_se.Lb.UpstreamPool.{UpstreamPool, is_healthy, pick_next}
use high_performance_http_se.Lb.UpstreamPool.Racing.{cover}
use high_performance_http_se.Lb.UpstreamPool.Pick.{turn, Picks, pick_next-Picks}

-- The pool after `n` picks, and the answer of the pick that follows.
pub after_picks : ℕ → UpstreamPool → UpstreamPool
after_picks zero p = p
after_picks (suc n) p = after_picks n (pick_next p).0

abbrev pub nth_pick : ℕ → UpstreamPool → Option ℕ
nth_pick n p = (pick_next (after_picks n p)).1

abbrev pub AllHealthy : UpstreamPool → Type 0
AllHealthy p = (k : ℕ) → k < length p.upstreams → is_healthy p.upstreams k ≡ true

module _ (p : UpstreamPool) (some_upstream : 0 < length p.upstreams) where
  pick_next-upstreams : (pick_next p).0.upstreams ≡ p.upstreams
  unfolding pick_next
  pick_next-upstreams = ground arith

  pick_next-next_index : p.next_index + 1 < 2 ^ 64 → (pick_next p).0.next_index ≡ p.next_index + 1
  unfolding pick_next
  pick_next-next_index h =
      let e : (p.next_index + 1) % 2 ^ 64 ≡ p.next_index + 1 = mod-eq_of_lt h in ground arith

  -- With all upstreams healthy the first candidate is taken.
  pick_next_first : AllHealthy p → (pick_next p).1 ≡ some (p.next_index % length p.upstreams)
  pick_next_first up = first (pick_next p).1 refl
    where
      at_start : turn p 0 ≡ p.next_index % length p.upstreams
      at_start =
          ap (λ n. n % length p.upstreams) (omega arith)
          ∙ mod-eq_of_lt (mod-lt p.next_index some_upstream)

      first :
          (r : Option ℕ)
          → (pick_next p).1 ≡ r
          → (pick_next p).1 ≡ some (p.next_index % length p.upstreams)
      first none e = cc (subst (Picks p) e (pick_next-Picks p) 0 some_upstream, up 0 some_upstream)
      first (some k) e =
          let next = subst (Picks p) e (pick_next-Picks p) in
          e ∙ ap some (next.here ∙ ap (turn p) (none_passed next.passed next.skipped) ∙ at_start)
        where
          none_passed :
              (n : ℕ) → ((j : ℕ) → j < n → is_healthy p.upstreams (turn p j) ≡ false) → n ≡ 0
          none_passed zero skipped = refl
          none_passed (suc n) skipped =
              cc (skipped 0 (omega arith), up (turn p 0) (mod-lt _ some_upstream))

-- The pick after `n` others takes the upstream `n` places on, while the index does not wrap round.
pub nth_pick-in_turn :
    (n : ℕ) (p : UpstreamPool)
    → 0 < length p.upstreams
    → AllHealthy p
    → p.next_index + n < 2 ^ 64
    → nth_pick n p ≡ some ((p.next_index + n) % length p.upstreams)
unfolding after_picks
nth_pick-in_turn zero p h up small =
    pick_next_first p h up ∙ ap (λ k. some (k % length p.upstreams)) (omega arith)
nth_pick-in_turn (suc n) p h up small =
    let same = pick_next-upstreams p h in
    let moved = pick_next-next_index p h (omega arith) in
    nth_pick-in_turn n (pick_next p).0 (rw same h) (rw same up) (rw moved (omega arith))
    ∙ rw (same, moved) (ap (λ k. some (k % length p.upstreams)) (omega arith))

-- The turn of the `i`-th index after `s`, without the remainder.
turn_cases :
    (count s i : ℕ)
    → s < count
    → i < count
    → ((s + i < count) × ((s + i) % count ≡ s + i))
      ⊎ ((count ≤ s + i) × ((s + i) % count + count ≡ s + i))
turn_cases count s i hs hi = elim (dec_lt (s + i) count) [
  | yes less ↦ inl (less, mod-eq_of_lt less)
  | no more ↦
      let back = mod-eq-sub-mod {n = s + i} {m = count} (omega arith) in
      let small = mod-eq_of_lt {n = s + i - count} {m = count} (omega arith) in
      inr (omega arith, omega arith)
]

turn_injective :
    (count s i j : ℕ)
    → s < count
    → i < count
    → j < count
    → (s + i) % count ≡ (s + j) % count
    → i ≡ j
turn_injective count s i j hs hi hj e =
    omega (arith, turn_cases count s i hs hi, turn_cases count s j hs hj)

-- With all upstreams healthy, and while the index does not wrap round, as many picks in a row as there
-- are upstreams take each upstream in exactly one of them.
pub nth_pick-once :
    (p : UpstreamPool) (k : ℕ)
    → k < length p.upstreams
    → AllHealthy p
    → p.next_index + length p.upstreams ≤ 2 ^ 64
    → (n : ℕ) × (n < length p.upstreams)
      × (nth_pick n p ≡ some k)
      × ((m : ℕ) → m < length p.upstreams → nth_pick m p ≡ some k → m ≡ n)
nth_pick-once p k hk up small =
    let count = length p.upstreams in
    let positive : 0 < count = omega arith in
    let s = p.next_index % count in
    let hs = mod-lt p.next_index positive in
    let (n, few, e) = cover count s k hs hk in
    let in_turn = λ (m : ℕ) (h : m < count).
      nth_pick-in_turn m p positive up (omega arith)
      ∙ ap some (sym (mod-add-mod p.next_index count m)) in
    (
      n,
      few,
      in_turn n few ∙ ap some e,
      λ m hm found.
          let same : some ((s + m) % count) ≡ some ((s + n) % count) =
            sym (in_turn m hm) ∙ found ∙ ap some (sym e) in
          turn_injective count s m n hs hm few (cc),
    )
