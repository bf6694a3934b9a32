-- ===== src/Net/EventLoop/Promise.antt =====
-- The contract of EventLoop, and what a backend has to show for it.
use high_performance_http_se.Common.{
  ℕ, ◌%◌, ◌≡◌, refl, ◌∙◌, Bool, true, List, [], ◌∷◌, ◌==◌, if◌then◌else◌,
}
use high_performance_http_se.Net.EventLoop.{Call, add, modify, remove}

-- The flags that are waited for, by descriptor; 0 is nothing.
abbrev pub Masks : Type 0
Masks = ℕ → ℕ

abbrev pub update : ℕ → ℕ → Masks → Masks
update fd mask f k = if fd == k then mask else f k

-- A call that succeeds sets the two flags of one descriptor.
abbrev pub effect : Call → Masks → Masks
effect (add fd mask) f = update fd (mask % 4) f
effect (modify fd mask) f = update fd (mask % 4) f
effect (remove fd) f = update fd 0 f

unfoldable pub replay : List Call → Masks → Masks
replay [] f = f
replay (c ∷ calls) f = replay calls (effect c f)

effect-agrees :
    (c : Call) (f g : Masks) → ((k : ℕ) → f k ≡ g k) → (k : ℕ) → effect c f k ≡ effect c g k
effect-agrees (add fd mask) f g h k = rw (h k)
effect-agrees (modify fd mask) f g h k = rw (h k)
effect-agrees (remove fd) f g h k = rw (h k)

pub replay-agrees :
    (calls : List Call) (f g : Masks)
    → ((k : ℕ) → f k ≡ g k)
    → (k : ℕ) → replay calls f k ≡ replay calls g k
unfolding replay
replay-agrees [] f g h k = h k
replay-agrees (c ∷ calls) f g h k =
    replay-agrees calls (effect c f) (effect c g) (effect-agrees c f g h) k

-- A backend: its calls answer whether they have succeeded; `waits` is what the kernel would report.
pub record Backend : Type 1 where
  pub State : Type 0
  pub call : Call → State → Bool × State
  pub waits : State → Masks
  pub IsValid : State → Type 0
  pub call_keeps :
      (c : Call) (s s' : State)
      → IsValid s
      → call c s ≡ (true, s')
      → IsValid s' × ((k : ℕ) → waits s' k ≡ effect c (waits s) k)

module _ (b : Backend) where
  open b use {State, call, waits, IsValid, call_keeps}

  -- All calls succeed, one after the other.
  pub data Succeeds : List Call → State → State → Type 0 where
    done : (s : State) → Succeeds [] s s
    then_call :
        (c : Call) (calls : List Call) (s s' s'' : State)
        → call c s ≡ (true, s')
        → Succeeds calls s' s''
        → Succeeds (c ∷ calls) s s''

  pub Succeeds-refines :
      (calls : List Call) (s s' : State)
      → IsValid s
      → Succeeds calls s s'
      → IsValid s' × ((k : ℕ) → waits s' k ≡ replay calls (waits s) k)
  unfolding replay
  Succeeds-refines _ s _ v (done _) = (v, λ k. refl)
  Succeeds-refines _ s s'' v (then_call c calls _ s' _ e rest) =
      let (v', one) = call_keeps c s s' v e in
      let (v'', others) = Succeeds-refines calls s' s'' v' rest in
      (v'', λ k. others k ∙ replay-agrees calls (waits s') (effect c (waits s)) one k)
