-- ===== src/Lb/UpstreamPool/Racing.antt =====
-- A call of pick_next while the health checker writes: each round loads the health of its own upstream at
-- its own moment.
use native.Mathlib.Nat.{mod-lt, mod-eq_of_lt, add-mod_right}
use high_performance_http_se.Common.{
  ℕ, zero, suc, ◌+◌, ◌-◌, ◌%◌, ◌≤◌, ◌<◌, ◌≡◌, refl, ap, ◌∙◌, inl, inr, Bool, true, false, Option,
  none, some, ◌==◌, if◌then◌else◌, List, length, arith, Bool-cases, ℕ_discrete, dec_lt, subst,
}
use high_performance_http_se.Lb.UpstreamPool.{
  Upstream, UpstreamPool, is_healthy, pick_from, pick_next, pick_racing, pick_next_racing,
}

-- What `rounds` rounds from round `i` on find.
abbrev pub Found : (ℕ → ℕ → Bool) → ℕ → ℕ → ℕ → ℕ → Option ℕ → Type 0
Found healthy count rounds start i none =
    (j : ℕ) → i ≤ j → j < i + rounds → healthy j ((start + j) % count) ≡ false
Found healthy count rounds start i (some k) =
    (n : ℕ) × (i ≤ n)
    × (n < i + rounds)
    × (k ≡ (start + n) % count)
    × (healthy n k ≡ true)
    × ((j : ℕ) → i ≤ j → j < n → healthy j ((start + j) % count) ≡ false)

module _ (healthy : ℕ → ℕ → Bool) (count : ℕ) where
  at_or_later : (P : ℕ → Type 0) (i j : ℕ) → i ≤ j → P i → (i + 1 ≤ j → P j) → P j
  at_or_later P i j h here later = elim (ℕ_discrete i j) [
    | yes e ↦ subst P e here
    | no n ↦ later (omega arith)
  ]

  extend :
      (rounds start i : ℕ) (r : Option ℕ)
      → Found healthy count rounds start (i + 1) r
      → healthy i ((start + i) % count) ≡ false
      → Found healthy count (suc rounds) start i r
  extend rounds start i none f down = λ j h k.
      at_or_later (λ j. healthy j ((start + j) % count) ≡ false) i j h down
        (λ h'. f j h' (omega arith))
  extend rounds start i (some k) (n, lo, hi, e, up, before) down = (
    n,
    omega arith,
    omega arith,
    e,
    up,
    λ j h less.
        at_or_later (λ j. healthy j ((start + j) % count) ≡ false) i j h down
          (λ h'. before j h' less),
  )

  pub pick_racing-Found :
      (rounds start i : ℕ)
      → Found healthy count rounds start i (pick_racing healthy count rounds start i)
  unfolding pick_racing
  pick_racing-Found zero start i = λ j h k. absurd (omega arith)
  pick_racing-Found (suc rounds) start i = elim (Bool-cases (healthy i ((start + i) % count))) [
    | inl up ↦ rw up (i, omega arith, omega arith, refl, up, λ j h k. absurd (omega arith))
    | inr down ↦ rw down (
        extend rounds start i (pick_racing healthy count rounds start (i + 1))
          (pick_racing-Found rounds start (i + 1)) down)
  ]

-- Counting round from `start`, every index has its turn.
pub cover :
    (count start k : ℕ)
    → start < count
    → k < count
    → (j : ℕ) × (j < count) × ((start + j) % count ≡ k)
cover count start k hs hk = elim (dec_lt k start) [
  | yes below ↦ (
    k + count - start,
    omega arith,
    ap (λ n. n % count) (omega arith) ∙ add-mod_right k count ∙ mod-eq_of_lt hk,
  )
  | no above ↦ (k - start, omega arith, ap (λ n. n % count) (omega arith) ∙ mod-eq_of_lt hk)
]

-- An upstream that was seen healthy, the ones before it seen unhealthy, each in its own round; without an
-- answer, each upstream was seen unhealthy in some round.
abbrev pub Saw : (ℕ → ℕ → Bool) → UpstreamPool → Option ℕ → Type 0
Saw healthy p none =
    (k : ℕ) → k < length p.upstreams → (i : ℕ) × (i < length p.upstreams) × (healthy i k ≡ false)
Saw healthy p (some k) =
    (k < length p.upstreams)
    × (n : ℕ) × (n < length p.upstreams)
    × (k ≡ (p.next_index % length p.upstreams + n) % length p.upstreams)
    × (healthy n k ≡ true)
    × ((j : ℕ)
        → j < n
        → healthy j ((p.next_index % length p.upstreams + j) % length p.upstreams) ≡ false)

pick_racing-still :
    (us : List Upstream) (rounds start i : ℕ)
    → pick_racing (λ i k. is_healthy us k) (length us) rounds start i ≡ pick_from us rounds start i
unfolding pick_racing pick_from
pick_racing-still us zero start i = refl
pick_racing-still us (suc rounds) start i =
    ap (λ r. if is_healthy us ((start + i) % length us) then some ((start + i) % length us) else r)
      (pick_racing-still us rounds start (i + 1))

-- Where nothing is written meanwhile, it is a call of pick_next.
pub pick_next_racing-still :
    (p : UpstreamPool) → pick_next_racing (λ i k. is_healthy p.upstreams k) p ≡ pick_next p
unfolding pick_next_racing pick_next
pick_next_racing-still p = rw (pick_racing-still p.upstreams) refl

module _ (healthy : ℕ → ℕ → Bool) (p : UpstreamPool) where
  Found-Saw :
      (r : Option ℕ)
      → 0 < length p.upstreams
      → Found healthy
          (length p.upstreams)
          (length p.upstreams)
          (p.next_index % length p.upstreams)
          0
          r
      → Saw healthy p r
  Found-Saw none h f = λ k less.
      let (j, few, e) =
        cover (length p.upstreams) (p.next_index % length p.upstreams) k (mod-lt _ h) less in
      (j, few, subst (λ k. healthy j k ≡ false) e (f j (omega arith) (omega arith)))
  Found-Saw (some k) h (n, lo, hi, e, up, before) =
      (rw e (mod-lt _ h), n, omega arith, e, up, λ j less. before j (omega arith) less)

  -- Whatever the health checker writes between the rounds: the answer was healthy in the round that loaded
  -- it, and each one before it, counted round from the index, was not in its own; and there is none only
  -- where each upstream was unhealthy in a round of this call.
  pub pick_next_racing-Saw : Saw healthy p (pick_next_racing healthy p).1
  unfolding pick_next_racing
  pick_next_racing-Saw = elim (Bool-cases (length p.upstreams == 0)) [
    | inl e ↦ rw e (λ k h. absurd (ground arith))
    | inr e ↦ rw e (Found-Saw _ (ground arith) (pick_racing-Found healthy _ _ _ 0))
  ]
