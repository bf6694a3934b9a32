-- ===== src/Net/EventLoop.antt =====
-- include/net/event_loop.h: masks and events, and what EventLoop promises its caller: a mask for each
-- descriptor. The backends are the children Epoll and Kqueue.
pub mod Promise
pub mod Kqueue
pub mod Epoll
pub mod Alike
pub mod Create
pub mod Wait
use high_performance_http_se.Common.{ℕ, ◌+◌, ◌/◌, ◌%◌, Bool, List, [], ◌∷◌, ◌==◌, if◌then◌else◌}

abbrev pub readable : ℕ
readable = 1

abbrev pub writable : ℕ
writable = 2

pub record IoEvent : Type 0 where
  pub fd : ℕ
  pub mask : ℕ
  pub error : Bool

-- `mask & EventType::Readable` and `mask & EventType::Writable`
abbrev pub has_readable : ℕ → Bool
has_readable mask = mask % 2 == 1

abbrev pub has_writable : ℕ → Bool
has_writable mask = mask / 2 % 2 == 1

-- `mask |= EventType::Readable` and `mask |= EventType::Writable`
abbrev pub with_readable : ℕ → ℕ
with_readable mask = if has_readable mask then mask else mask + readable

abbrev pub with_writable : ℕ → ℕ
with_writable mask = if has_writable mask then mask else mask + writable

-- The calls of the reactor that change what is waited for.
pub data Call : Type 0 where
  add modify : ℕ → ℕ → Call
  remove : ℕ → Call
