-- ===== src/Net/Sys.antt =====
-- The system calls, which the program does not implement: a parameter of what calls them. `World`
-- is the state of the kernel and of the peers; each call answers, and changes it.
use high_performance_http_se.Common.{ℕ, ◌≤◌, ◌≡◌, Bool, ◌++◌, Option, Bytes, length, take}

-- What `send` answers: n >= 0 bytes accepted, EAGAIN or EWOULDBLOCK, or another error.
pub data SendAnswer : Type 0 where
  sent : ℕ → SendAnswer
  would_block failed : SendAnswer

-- What `recv` answers: n > 0 bytes, 0 (the peer has closed), EAGAIN or EWOULDBLOCK, or another
-- error.
pub data RecvAnswer : Type 0 where
  received : ℕ → Bytes → RecvAnswer
  closed would_block failed : RecvAnswer

pub record Sys : Type 1 where
  pub World : Type 0
  -- `socket`; `none` is a negative descriptor
  pub socket : World → Option ℕ × World
  -- `inet_pton`, with the address as the call fills it in
  pub Address : Type 0
  pub parse_address : Bytes → Option Address
  pub zero_address : Address
  -- `connect` to an address and port; true is a return of 0
  pub connect : World → ℕ → Address → ℕ → Bool × World
  pub send : World → ℕ → Bytes → SendAnswer × World
  -- The capacity of the buffer is the last argument.
  pub recv : World → ℕ → ℕ → RecvAnswer × World
  pub close : World → ℕ → World
  -- What the peer of a descriptor has been sent so far.
  pub output : World → ℕ → Bytes
  -- Whether `wait` reports a hang-up of a descriptor whose mask is 0. epoll does, as EPOLLHUP or EPOLLERR;
  -- kqueue, which has no filter then, does not.
  pub hang_up_unasked : Bool

-- `send` takes a front part of the data, and the bytes that it takes are on their way in order.
pub record SendLaws (sys : Sys) : Type 1 where
  pub takes_part :
      (w : sys.World) (fd n : ℕ) (bytes : Bytes) (w' : sys.World)
      → sys.send w fd bytes ≡ (SendAnswer.sent n, w')
      → (n ≤ length bytes) × (sys.output w' fd ≡ sys.output w fd ++ take n bytes)
  pub takes_none :
      (w : sys.World) (fd : ℕ) (bytes : Bytes) (w' : sys.World)
      → sys.send w fd bytes ≡ (SendAnswer.would_block, w')
      → sys.output w' fd ≡ sys.output w fd

-- `recv` sends nothing.
pub record RecvLaws (sys : Sys) : Type 0 where
  pub sends_nothing :
      (w : sys.World) (fd capacity other : ℕ)
      → sys.output (sys.recv w fd capacity).1 other ≡ sys.output w other
