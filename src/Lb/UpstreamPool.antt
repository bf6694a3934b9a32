-- ===== src/Lb/UpstreamPool.antt =====
-- include/loadbalancer/upstream_pool.h and src/loadbalancer/upstream_pool.cpp. An Upstream* is the
-- index of the upstream; the atomics are read and written one call at a time.
pub mod Racing
pub mod Pick
pub mod Rotation
use high_performance_http_se.Common.{
  ℕ, zero, suc, ◌+◌, ◌*◌, ◌%◌, ◌^◌, Bool, true, false, List, [], ◌∷◌, map, Option, none, some,
  Bytes, ◌==◌, if◌then◌else◌, length, get_elem?,
}

pub record Upstream : Type 0 where
  pub host : Bytes
  pub port : ℕ
  pub healthy : Bool

pub record UpstreamPool : Type 0 where
  pub upstreams : List Upstream
  pub next_index : ℕ

abbrev pub new_upstream : Bytes × ℕ → Upstream
new_upstream (host, port) = record { host = host; port = port; healthy = true }

unfoldable pub new_pool : List (Bytes × ℕ) → UpstreamPool
new_pool targets = record { upstreams = map new_upstream targets; next_index = 0 }

-- The move constructor takes the upstreams and restarts the index.
unfoldable pub moved : UpstreamPool → UpstreamPool
moved other = record { upstreams = other.upstreams; next_index = 0 }

abbrev pub is_healthy : List Upstream → ℕ → Bool
is_healthy us k = elim (get_elem? us k) [ none ↦ false | some u ↦ u.healthy ]

-- The loop of `pickNext`, with the rounds that are left.
unfoldable pub pick_from : List Upstream → ℕ → ℕ → ℕ → Option ℕ
pick_from us zero start i = none
pick_from us (suc rounds) start i =
    let candidate = (start + i) % length us in
    let later = pick_from us rounds start (i + 1) in
    if is_healthy us candidate then some candidate else later

-- `fetch_add(1)` on a size_t
abbrev pub next_size : ℕ → ℕ
next_size n = (n + 1) % 2 ^ 64

unfoldable pub pick_next : UpstreamPool → UpstreamPool × Option ℕ
pick_next p =
    let count = length p.upstreams in
    if count == 0 then (p, none) else (
      record p { next_index = next_size p.next_index },
      pick_from p.upstreams count (p.next_index % count) 0,
    )

-- The loop where another thread may write between its rounds: `healthy i k` is what round `i` loads of the
-- upstream `k`.
unfoldable pub pick_racing : (ℕ → ℕ → Bool) → ℕ → ℕ → ℕ → ℕ → Option ℕ
pick_racing healthy count zero start i = none
pick_racing healthy count (suc rounds) start i =
    let candidate = (start + i) % count in
    let later = pick_racing healthy count rounds start (i + 1) in
    if healthy i candidate then some candidate else later

-- `pickNext` beside that thread.
unfoldable pub pick_next_racing : (ℕ → ℕ → Bool) → UpstreamPool → UpstreamPool × Option ℕ
pick_next_racing healthy p =
    let count = length p.upstreams in
    if count == 0 then (p, none) else (
      record p { next_index = next_size p.next_index },
      pick_racing healthy count count (p.next_index % count) 0,
    )
