-- ===== src/Net/EventLoop/Kqueue.antt =====
-- src/net/kqueue_reactor.cpp and include/net/kqueue_reactor.h.
pub mod Changes
pub mod Refines
pub mod Merging
use high_performance_http_se.Common.{
  ℕ, ◌≡◌, Bool, true, false, not, List, [], ◌∷◌, ◌++◌, Option, none, some, ◌==◌, ◌&&◌, is_empty,
  if◌then◌else◌,
}
use high_performance_http_se.Common.Table.{find, assign, erase}
use high_performance_http_se.Net.EventLoop.{
  Call, add, modify, remove, has_readable, has_writable, with_readable, with_writable, IoEvent,
}

pub data Filter : Type 0 where
  read write : Filter

abbrev pub same_filter : Filter → Filter → Bool
same_filter read read = true
same_filter write write = true
same_filter _ _ = false

-- EV_SET; `adds` is EV_ADD in place of EV_DELETE.
pub record Change : Type 0 where
  pub fd : ℕ
  pub filter : Filter
  pub adds : Bool

-- The effect of a list of changes on one registration.
abbrev pub changed : List Change → ℕ → Filter → Bool → Bool
changed [] fd f b = b
changed (c ∷ cs) fd f b =
    changed cs fd f (if c.fd == fd && same_filter c.filter f then c.adds else b)

-- The kernel's part, which the program does not implement. `kevent` takes a list of changes and answers
-- whether all were made.
pub record Kernel : Type 1 where
  pub World : Type 0
  pub kevent : World → List Change → Bool × World
  pub registered : World → ℕ → Filter → Bool

-- Each change takes away a filter that is registered when its turn comes.
abbrev pub CanDelete : (ℕ → Filter → Bool) → List Change → Type 0
CanDelete registered [] = Unit {0}
CanDelete registered (c ∷ cs) =
    (c.adds ≡ false)
    × (registered c.fd c.filter ≡ true)
    × CanDelete (λ fd f. changed (c ∷ []) fd f (registered fd f)) cs

-- Changes that are answered with success have been made, and no others. EV_DELETE fails only for a
-- filter that is not registered.
pub record KernelLaws (kernel : Kernel) : Type 1 where
  pub makes :
      (w w' : kernel.World) (cs : List Change) (fd : ℕ) (f : Filter)
      → kernel.kevent w cs ≡ (true, w')
      → kernel.registered w' fd f ≡ changed cs fd f (kernel.registered w fd f)
  pub deletes :
      (w : kernel.World) (cs : List Change)
      → CanDelete (kernel.registered w) cs
      → (kernel.kevent w cs).0 ≡ true

abbrev pub mask_of : Option ℕ → ℕ
mask_of none = 0
mask_of (some mask) = mask

-- The change of one filter, if it is wanted and was not, or the other way round.
abbrev pub change_for : ℕ → Filter → Bool → Bool → List Change
change_for fd f true false = record { fd = fd; filter = f; adds = true } ∷ []
change_for fd f false true = record { fd = fd; filter = f; adds = false } ∷ []
change_for fd f _ _ = []

abbrev pub changes : ℕ → ℕ → ℕ → List Change
changes fd mask prev =
    change_for fd read (has_readable mask) (has_readable prev)
    ++ change_for fd write (has_writable mask) (has_writable prev)

abbrev pub deletion_for : ℕ → Filter → Bool → List Change
deletion_for fd f true = record { fd = fd; filter = f; adds = false } ∷ []
deletion_for fd f false = []

abbrev pub deletions : ℕ → ℕ → List Change
deletions fd prev =
    deletion_for fd read (has_readable prev) ++ deletion_for fd write (has_writable prev)

module _ (kernel : Kernel) where
  -- `interestByFd_`, and the kernel.
  pub record Reactor : Type 0 where
    pub interest : List (ℕ × ℕ)
    pub world : kernel.World

  abbrev pub with_interest : ℕ → ℕ → Reactor → Reactor
  with_interest fd mask r =
      if mask == 0
      then record r { interest = erase fd r.interest }
      else record r { interest = assign fd mask r.interest }

  -- `kevent`, where there is something to change.
  abbrev pub submit : List Change → kernel.World → Bool × kernel.World
  submit [] w = (true, w)
  submit (c ∷ cs) w = kernel.kevent w (c ∷ cs)

  unfoldable pub modify_interest : ℕ → ℕ → Reactor → Bool × Reactor
  modify_interest fd mask r =
      let (ok, w) = submit (changes fd mask (mask_of (find fd r.interest))) r.world in
      let r' = record r { world = w } in
      if ok then (true, with_interest fd mask r') else (false, r')

  unfoldable pub add_interest : ℕ → ℕ → Reactor → Bool × Reactor
  add_interest fd mask r = modify_interest fd mask r

  -- What the kernel answers is not looked at.
  unfoldable pub remove_interest : ℕ → Reactor → Bool × Reactor
  remove_interest fd r =
      let (ok, w) = submit (deletions fd (mask_of (find fd r.interest))) r.world in
      (true, record { interest = erase fd r.interest; world = w })

  unfoldable pub call : Call → Reactor → Bool × Reactor
  unfolding add_interest remove_interest
  call (add fd mask) r = add_interest fd mask r
  call (modify fd mask) r = modify_interest fd mask r
  call (remove fd) r = remove_interest fd r

-- An event of the kernel; `flagged` is EV_ERROR or EV_EOF.
pub record KernelEvent : Type 0 where
  pub ident : ℕ
  pub filter : Filter
  pub flagged : Bool

-- `merged[fd]`, which is made where there is none.
abbrev pub event_at : ℕ → Option IoEvent → IoEvent
event_at fd none = record { fd = fd; mask = 0; error = false }
event_at fd (some ev) = record ev { fd = fd }

abbrev pub with_filter : Filter → IoEvent → IoEvent
with_filter read ev = record ev { mask = with_readable ev.mask }
with_filter write ev = record ev { mask = with_writable ev.mask }

abbrev pub absorb : KernelEvent → IoEvent → IoEvent
absorb e ev =
    let ev' = with_filter e.filter ev in if e.flagged then record ev' { error = true } else ev'

-- The first loop of `wait`; the second copies the table out, in an order that is left open.
unfoldable pub merge : List (ℕ × IoEvent) → List KernelEvent → List (ℕ × IoEvent)
merge merged [] = merged
merge merged (e ∷ events) =
    merge (assign e.ident (absorb e (event_at e.ident (find e.ident merged))) merged) events
