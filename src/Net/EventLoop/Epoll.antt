-- ===== src/Net/EventLoop/Epoll.antt =====
-- src/net/epoll_reactor.cpp and include/net/epoll_reactor.h.
pub mod Refines
use high_performance_http_se.Common.{
  ℕ, ◌+◌, ◌/◌, ◌%◌, ◌≡◌, Bool, true, false, ◌||◌, List, [], ◌∷◌, Option, none, some, ◌==◌,
  if◌then◌else◌,
}
use high_performance_http_se.Net.EventLoop.{
  Call, add, modify, remove, readable, writable, has_readable, has_writable, IoEvent,
}

-- EPOLLIN, EPOLLOUT, EPOLLERR and EPOLLHUP of <sys/epoll.h>.
abbrev pub epoll_in : ℕ
epoll_in = 1

abbrev pub epoll_out : ℕ
epoll_out = 4

-- `events & EPOLLIN` and the like
abbrev pub has_in : ℕ → Bool
has_in events = events % 2 == 1

abbrev pub has_out : ℕ → Bool
has_out events = events / 4 % 2 == 1

abbrev pub has_err : ℕ → Bool
has_err events = events / 8 % 2 == 1

abbrev pub has_hup : ℕ → Bool
has_hup events = events / 16 % 2 == 1

unfoldable pub to_epoll_events : ℕ → ℕ
to_epoll_events mask =
    (if has_readable mask then epoll_in else 0) + (if has_writable mask then epoll_out else 0)

unfoldable pub from_epoll_events : ℕ → ℕ
from_epoll_events events =
    (if has_in events then readable else 0) + (if has_out events then writable else 0)

pub data Operation : Type 0 where
  ctl_add ctl_mod : ℕ → Operation
  ctl_del : Operation

-- The kernel's part, which the program does not implement: the events that each registered descriptor
-- waits for.
pub record Kernel : Type 1 where
  pub World : Type 0
  pub epoll_ctl : World → Operation → ℕ → Bool × World
  pub registered : World → ℕ → Option ℕ

-- The registration that a successful operation leaves.
abbrev pub outcome : Operation → Option ℕ
outcome (ctl_add events) = some events
outcome (ctl_mod events) = some events
outcome ctl_del = none

-- An operation that succeeds changes the registration of its descriptor, and one that fails changes none.
-- EPOLL_CTL_ADD fails for a descriptor that is registered (EEXIST), and EPOLL_CTL_MOD for one that is not
-- (ENOENT); EPOLL_CTL_MOD of a registered one succeeds.
pub record KernelLaws (kernel : Kernel) : Type 1 where
  pub makes :
      (w w' : kernel.World) (op : Operation) (fd k : ℕ)
      → kernel.epoll_ctl w op fd ≡ (true, w')
      → kernel.registered w' k ≡ (if fd == k then outcome op else kernel.registered w k)
  pub keeps :
      (w w' : kernel.World) (op : Operation) (fd k : ℕ)
      → kernel.epoll_ctl w op fd ≡ (false, w')
      → kernel.registered w' k ≡ kernel.registered w k
  pub add_known :
      (w : kernel.World) (fd events old : ℕ)
      → kernel.registered w fd ≡ some old
      → (kernel.epoll_ctl w (ctl_add events) fd).0 ≡ false
  pub mod_unknown :
      (w : kernel.World) (fd events : ℕ)
      → kernel.registered w fd ≡ none
      → (kernel.epoll_ctl w (ctl_mod events) fd).0 ≡ false
  pub mod_known :
      (w : kernel.World) (fd events old : ℕ)
      → kernel.registered w fd ≡ some old
      → (kernel.epoll_ctl w (ctl_mod events) fd).0 ≡ true

module _ (kernel : Kernel) where
  unfoldable pub modify_interest : ℕ → ℕ → kernel.World → Bool × kernel.World
  modify_interest fd mask w = kernel.epoll_ctl w (ctl_mod (to_epoll_events mask)) fd

  unfoldable pub add_interest : ℕ → ℕ → kernel.World → Bool × kernel.World
  add_interest fd mask w =
      let (ok, w') = kernel.epoll_ctl w (ctl_add (to_epoll_events mask)) fd in
      if ok then (true, w') else kernel.epoll_ctl w' (ctl_mod (to_epoll_events mask)) fd

  unfoldable pub remove_interest : ℕ → kernel.World → Bool × kernel.World
  remove_interest fd w = kernel.epoll_ctl w ctl_del fd

  unfoldable pub call : Call → kernel.World → Bool × kernel.World
  unfolding add_interest modify_interest remove_interest
  call (add fd mask) w = add_interest fd mask w
  call (modify fd mask) w = modify_interest fd mask w
  call (remove fd) w = remove_interest fd w

-- An event of the kernel, as `wait` passes it on.
abbrev pub event_from : ℕ × ℕ → IoEvent
event_from (fd, events) = record {
  fd = fd;
  mask = from_epoll_events events;
  error = has_err events || has_hup events;
}

-- The loop of `wait`, over what epoll_wait answers.
unfoldable pub events_from : List (ℕ × ℕ) → List IoEvent
events_from [] = []
events_from (e ∷ events) = event_from e ∷ events_from events
