-- ===== src/Net/Serving/Round/Masks.antt =====
-- The tables of Net.Serving as masks, and lists of calls on them.
use high_performance_http_se.Common.{
  ℕ, ◌≡◌, refl, true, List, [], ◌∷◌, ◌++◌, Option, none, some, ◌==◌, if◌then◌else◌, is_some, arith,
}
use high_performance_http_se.Common.Table.{find, assign, erase, find-assign, find-erase}
use high_performance_http_se.Net.EventLoop.{Call}
use high_performance_http_se.Net.EventLoop.Promise.{Masks, effect, replay}
use high_performance_http_se.Net.Connection.{Connection}
use high_performance_http_se.Net.Sys.{Sys}
use high_performance_http_se.Net.Serving.{modify}

abbrev pub mask_of : Option ℕ → ℕ
mask_of none = 0
mask_of (some mask) = mask

pub replay-append :
    (calls more : List Call) (f : Masks) (k : ℕ)
    → replay (calls ++ more) f k ≡ replay more (replay calls f) k
unfolding replay
replay-append [] more f k = refl
replay-append (c ∷ calls) more f k = replay-append calls more (effect c f) k

-- Every descriptor with a connection is registered.
abbrev pub Registered : List (ℕ × Connection) → List (ℕ × ℕ) → Type 0
Registered connections interests =
    (k : ℕ) → is_some (find k connections) ≡ true → is_some (find k interests) ≡ true

pub Registered-assign :
    (fd mask : ℕ) (c : Connection) (connections : List (ℕ × Connection)) (interests : List (ℕ × ℕ))
    → Registered connections interests
    → Registered (assign fd c connections) (assign fd mask interests)
Registered-assign fd mask c cs is h k e =
    let before : is_some (find k cs) ≡ true → is_some (find k is) ≡ true = h k in
    let of_assign = find-assign fd k mask is in
    let of_assigned = find-assign fd k c cs in ground arith

pub Registered-erase :
    (fd : ℕ) (connections : List (ℕ × Connection)) (interests : List (ℕ × ℕ))
    → Registered connections interests
    → Registered (erase fd connections) (erase fd interests)
Registered-erase fd cs is h k e =
    let before : is_some (find k cs) ≡ true → is_some (find k is) ≡ true = h k in
    let of_erase = find-erase fd k is in let of_erased = find-erase fd k cs in ground arith

pub Registered-modify :
    (sys : Sys) (fd mask : ℕ) (connections : List (ℕ × Connection)) (interests : List (ℕ × ℕ))
    → Registered connections interests
    → Registered connections (modify sys fd mask interests)
Registered-modify sys fd mask cs is h k e =
    let before : is_some (find k is) ≡ true = h k e in
    let of_assign = find-assign fd k mask is in ground arith

pub mask-assign :
    (fd mask k : ℕ) (interests : List (ℕ × ℕ))
    → mask_of (find k (assign fd mask interests))
      ≡ (if fd == k then mask else mask_of (find k interests))
mask-assign fd mask k is = let e = find-assign fd k mask is in ground arith

pub mask-erase :
    (fd k : ℕ) (interests : List (ℕ × ℕ))
    → mask_of (find k (erase fd interests)) ≡ (if fd == k then 0 else mask_of (find k interests))
mask-erase fd k is = let e = find-erase fd k is in ground arith

pub mask-modify :
    (sys : Sys) (fd mask k : ℕ) (interests : List (ℕ × ℕ))
    → is_some (find fd interests) ≡ true
    → mask_of (find k (modify sys fd mask interests))
      ≡ (if fd == k then mask else mask_of (find k interests))
mask-modify sys fd mask k is there = rw there (mask-assign fd mask k is)
