-- ===== src/Net/Socket/Opening.antt =====
-- src/net/socket.cpp: the functions that make descriptors, over a kernel.
pub mod Held
pub mod Owned
use high_performance_http_se.Common.{
  ℕ, ◌+◌, ◌/◌, ◌%◌, ◌≡◌, Bool, true, false, Option, none, some, ◌==◌, if◌then◌else◌, Bytes,
}

-- O_NONBLOCK of <fcntl.h> on Linux
abbrev pub o_nonblock : ℕ
o_nonblock = 2048

abbrev pub is_non_blocking : ℕ → Bool
is_non_blocking flags = flags / o_nonblock % 2 == 1

-- `flags | O_NONBLOCK`
abbrev pub with_nonblock : ℕ → ℕ
with_nonblock flags = if is_non_blocking flags then flags else flags + o_nonblock

-- The options that are set: SO_REUSEADDR and TCP_NODELAY, both to 1.
pub data SocketOption : Type 0 where
  reuse_address no_delay : SocketOption

-- What `connect` answers: 0, EINPROGRESS, or another error.
pub data ConnectAnswer : Type 0 where
  connected in_progress refused : ConnectAnswer

-- What `accept` answers: a descriptor and its peer, EAGAIN or EWOULDBLOCK, or another error.
pub data AcceptAnswer (Address : Type 0) : Type 0 where
  accepted : ℕ → Address → AcceptAnswer Address
  none_pending accept_failed : AcceptAnswer Address

-- The kernel's part, which the program does not implement. `status` is for the properties: the status
-- flags of a descriptor that is open.
pub record Kernel : Type 1 where
  pub World : Type 0
  pub Address : Type 0
  pub any_address : Address
  pub zero_address : Address
  pub parse_address : Bytes → Option Address
  pub socket : World → Option ℕ × World
  pub accept : World → ℕ → AcceptAnswer Address × World
  -- `fcntl` with F_GETFL, and with F_SETFL
  pub get_flags : World → ℕ → Option ℕ
  pub set_flags : World → ℕ → ℕ → Bool × World
  pub set_option : World → ℕ → SocketOption → Bool × World
  pub bind : World → ℕ → Address → ℕ → Bool × World
  pub listen : World → ℕ → ℕ → Bool × World
  pub connect : World → ℕ → Address → ℕ → ConnectAnswer × World
  pub close : World → ℕ → World
  pub status : World → ℕ → Option ℕ

-- AcceptResult, with the descriptor of `sock`
pub record AcceptResult (Address : Type 0) : Type 0 where
  pub sock : Option ℕ
  pub peer : Address
  pub would_block : Bool

module _ (kernel : Kernel) where
  abbrev pub flags_set : Option ℕ → ℕ → kernel.World → Bool × kernel.World
  flags_set none fd w = (false, w)
  flags_set (some flags) fd w = kernel.set_flags w fd (with_nonblock flags)

  unfoldable pub set_non_blocking : ℕ → kernel.World → Bool × kernel.World
  set_non_blocking fd w = flags_set (kernel.get_flags w fd) fd w

  unfoldable pub set_tcp_no_delay : ℕ → kernel.World → Bool × kernel.World
  set_tcp_no_delay fd w = kernel.set_option w fd no_delay

  -- `if (!ok) { ::close(fd); return Socket(); }`
  abbrev pub or_close :
      ℕ → Bool × kernel.World → (kernel.World → Option ℕ × kernel.World) → Option ℕ × kernel.World
  or_close fd (true, w) next = next w
  or_close fd (false, w) next = (none, kernel.close w fd)

  -- `if (fd < 0) return Socket();`
  abbrev pub with_socket :
      Option ℕ × kernel.World
      → (ℕ → kernel.World → Option ℕ × kernel.World)
      → Option ℕ × kernel.World
  with_socket (none, w) next = (none, w)
  with_socket (some fd, w) next = next fd w

  unfoldable pub create_listen_socket : ℕ → ℕ → kernel.World → Option ℕ × kernel.World
  unfolding set_non_blocking
  create_listen_socket port backlog w0 = with_socket (kernel.socket w0) (λ fd w1.
      let w2 = (kernel.set_option w1 fd reuse_address).1 in
      or_close fd (set_non_blocking fd w2) (λ w3.
        or_close fd (kernel.bind w3 fd kernel.any_address port)
          (λ w4. or_close fd (kernel.listen w4 fd backlog) (λ w5. (some fd, w5)))))

  -- `rc != 0 && errno != EINPROGRESS` is the failure.
  abbrev pub is_under_way : ConnectAnswer × kernel.World → Bool × kernel.World
  is_under_way (connected, w) = (true, w)
  is_under_way (in_progress, w) = (true, w)
  is_under_way (refused, w) = (false, w)

  abbrev pub connect_to : ℕ → Option kernel.Address → ℕ → kernel.World → Option ℕ × kernel.World
  connect_to fd none port w = (none, kernel.close w fd)
  connect_to fd (some address) port w =
      or_close fd (is_under_way (kernel.connect w fd address port)) (λ w'. (some fd, w'))

  unfoldable pub connect_non_blocking : Bytes → ℕ → kernel.World → Option ℕ × kernel.World
  unfolding set_non_blocking
  connect_non_blocking host port w0 = with_socket (kernel.socket w0) (λ fd w1.
      or_close fd (set_non_blocking fd w1)
        (λ w2. connect_to fd (kernel.parse_address host) port w2))

  abbrev pub no_socket : Bool → AcceptResult kernel.Address
  no_socket blocks = record { sock = none; peer = kernel.zero_address; would_block = blocks }

  abbrev pub made_non_blocking :
      ℕ → kernel.Address → Bool × kernel.World → AcceptResult kernel.Address × kernel.World
  made_non_blocking fd peer (true, w) =
      (record { sock = some fd; peer = peer; would_block = false }, w)
  made_non_blocking fd peer (false, w) = (no_socket false, kernel.close w fd)

  abbrev pub take_accepted :
      AcceptAnswer kernel.Address × kernel.World → AcceptResult kernel.Address × kernel.World
  unfolding set_non_blocking
  take_accepted (accepted fd peer, w) = made_non_blocking fd peer (set_non_blocking fd w)
  take_accepted (none_pending, w) = (no_socket true, w)
  take_accepted (accept_failed, w) = (no_socket false, w)

  unfoldable pub accept_non_blocking : ℕ → kernel.World → AcceptResult kernel.Address × kernel.World
  accept_non_blocking listen_fd w = take_accepted (kernel.accept w listen_fd)
