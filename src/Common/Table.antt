-- ===== src/Common/Table.antt =====
-- Maps with numbers for keys, as lists of pairs.
use Prim.Native.Nat.{ℕ, ◌+◌}
use mathlib.Core.Path.{◌≡◌, refl}
use mathlib.Core.List.{List, [], ◌∷◌, ◌++◌}
use mathlib.Core.Option.{Option, none, some}
use native.Mathlib.Omega.{arith}
use high_performance_http_se.Common.Tests.{◌==◌, if◌then◌else◌}

module _ {ℓ} {A : Type ℓ} where
  unfoldable pub find : ℕ → List (ℕ × A) → Option A
  find k [] = none
  find k ((j, a) ∷ t) = if j == k then some a else find k t

  -- `t[k] = a`
  unfoldable pub assign : ℕ → A → List (ℕ × A) → List (ℕ × A)
  assign k a [] = (k, a) ∷ []
  assign k a ((j, b) ∷ t) = if j == k then (k, a) ∷ t else (j, b) ∷ assign k a t

  unfoldable pub erase : ℕ → List (ℕ × A) → List (ℕ × A)
  erase k [] = []
  erase k ((j, b) ∷ t) = let rest = erase k t in if j == k then rest else (j, b) ∷ rest

  pub find-assign :
      (k j : ℕ) (a : A) (t : List (ℕ × A))
      → find j (assign k a t) ≡ (if k == j then some a else find j t)
  unfolding find assign
  find-assign k j a [] = refl
  find-assign k j a ((i, b) ∷ t) = ground (arith, find-assign k j a t)

  pub find-erase :
      (k j : ℕ) (t : List (ℕ × A)) → find j (erase k t) ≡ (if k == j then none else find j t)
  unfolding find erase
  find-erase k j [] = ground arith
  find-erase k j ((i, b) ∷ t) = ground (arith, find-erase k j t)

-- How often `k` stands in the list.
abbrev pub count : ℕ → List ℕ → ℕ
count k [] = 0
count k (j ∷ t) = (if j == k then 1 else 0) + count k t

pub count-append : (k : ℕ) (xs ys : List ℕ) → count k (xs ++ ys) ≡ count k xs + count k ys
count-append k [] ys = omega arith
count-append k (x ∷ xs) ys = omega (arith, count-append k xs ys)

-- The list less one `k`.
unfoldable pub remove : ℕ → List ℕ → List ℕ
remove k [] = []
remove k (j ∷ t) = let rest = remove k t in if j == k then t else j ∷ rest

pub count-remove :
    (k j : ℕ) (xs : List ℕ)
    → count j (remove k xs) + (if k == j then (if count k xs == 0 then 0 else 1) else 0)
      ≡ count j xs
unfolding remove
count-remove k j [] = ground arith
count-remove k j (x ∷ xs) = ground (arith, count-remove k j xs)
