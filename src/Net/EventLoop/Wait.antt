-- ===== src/Net/EventLoop/Wait.antt =====
-- `wait` of src/net/kqueue_reactor.cpp and src/net/epoll_reactor.cpp. What the kernel answers is an argument:
-- none for a negative number, and a list of events else.
pub mod Once
use high_performance_http_se.Common.{
  ℕ, ◌*◌, ◌/◌, ◌%◌, List, [], ◌∷◌, map, Option, none, some, length,
}
use high_performance_http_se.Http.Number.{ℤ, pos, negsuc}
use high_performance_http_se.Net.EventLoop.{IoEvent}
use high_performance_http_se.Net.EventLoop.Epoll.{events_from}
use high_performance_http_se.Net.EventLoop.Kqueue.{KernelEvent, merge}

-- `struct timespec`
pub record Timespec : Type 0 where
  pub tv_sec : ℕ
  pub tv_nsec : ℕ

-- The timeout of kevent; none is a null pointer, which waits for ever.
unfoldable pub timespec_of : ℤ → Option Timespec
timespec_of (pos timeout_ms) =
    some (record { tv_sec = timeout_ms / 1000; tv_nsec = timeout_ms % 1000 * 1000000 })
timespec_of (negsuc n) = none

-- `out`, and the number that `wait` returns.
pub record Waited : Type 0 where
  pub out : List IoEvent
  pub answer : ℕ

abbrev pub nothing : Waited
nothing = record { out = []; answer = 0 }

abbrev pub all_of : List IoEvent → Waited
all_of out = record { out = out; answer = length out }

-- The second loop of KqueueReactor::wait, in the order of the table; that of the source's unordered_map is
-- left open.
abbrev pub merged_events : List (ℕ × IoEvent) → List IoEvent
merged_events merged = map (λ (p : ℕ × IoEvent). p.1) merged

unfoldable pub kqueue_waited : Option (List KernelEvent) → Waited
kqueue_waited none = nothing
kqueue_waited (some []) = nothing
kqueue_waited (some (e ∷ events)) = all_of (merged_events (merge [] (e ∷ events)))

unfoldable pub epoll_waited : Option (List (ℕ × ℕ)) → Waited
epoll_waited none = nothing
epoll_waited (some []) = nothing
epoll_waited (some (e ∷ events)) = all_of (events_from (e ∷ events))

module _ {World : Type 0} where
  unfoldable pub kqueue_wait :
      (World → Option Timespec → Option (List KernelEvent) × World) → ℤ → World → Waited × World
  kqueue_wait kevent timeout_ms w =
      let (answer, w') = kevent w (timespec_of timeout_ms) in (kqueue_waited answer, w')

  unfoldable pub epoll_wait :
      (World → ℤ → Option (List (ℕ × ℕ)) × World) → ℤ → World → Waited × World
  epoll_wait wait_for timeout_ms w =
      let (answer, w') = wait_for w timeout_ms in (epoll_waited answer, w')
