-- ===== src/Net/Socket.antt =====
-- include/net/socket.h and src/net/socket.cpp: the class Socket, by what becomes of the descriptors.
pub mod Balance
pub mod Opening
use high_performance_http_se.Common.{
  ℕ, ◌≡◌, Bool, true, false, List, [], ◌∷◌, ◌++◌, Option, none, some, ◌==◌, if◌then◌else◌,
}
use high_performance_http_se.Common.Table.{find, assign}

-- The objects, with their `fd_` (none is -1), and the descriptors that were handed to a constructor, given
-- up by release, and closed.
pub record Store : Type 0 where
  pub sockets : List (ℕ × Option ℕ)
  pub adopted : List ℕ
  pub released : List ℕ
  pub closed : List ℕ

abbrev pub empty_store : Store
empty_store = record { sockets = []; adopted = []; released = []; closed = [] }

abbrev pub fd_of : Option (Option ℕ) → Option ℕ
fd_of none = none
fd_of (some fd) = fd

-- `fd()` of the object `i`
abbrev pub socket_fd : ℕ → Store → Option ℕ
socket_fd i s = fd_of (find i s.sockets)

abbrev pub set_fd : ℕ → Option ℕ → Store → Store
set_fd i fd s = record s { sockets = assign i fd s.sockets }

-- `Socket(int fd)`
unfoldable pub construct : ℕ → ℕ → Store → Store
construct i fd s = record (set_fd i (some fd) s) { adopted = s.adopted ++ fd ∷ [] }

abbrev pub closed_now : ℕ → Option ℕ → Store → Store
closed_now i none s = s
closed_now i (some fd) s = record (set_fd i none s) { closed = s.closed ++ fd ∷ [] }

-- `close()`, which the destructor calls too
unfoldable pub close_socket : ℕ → Store → Store
close_socket i s = closed_now i (socket_fd i s) s

-- `Socket(Socket&& other)`
unfoldable pub move_construct : ℕ → ℕ → Store → Store
move_construct i other s = set_fd other none (set_fd i (socket_fd other s) s)

-- `operator=(Socket&& other)`
unfoldable pub move_assign : ℕ → ℕ → Store → Store
unfolding close_socket
move_assign i other s =
    if i == other
    then s
    else set_fd other none (set_fd i (socket_fd other (close_socket i s)) (close_socket i s))

abbrev pub given_up : ℕ → Option ℕ → Store → Store
given_up i none s = s
given_up i (some fd) s = record (set_fd i none s) { released = s.released ++ fd ∷ [] }

-- `release()`
unfoldable pub release : ℕ → Store → Store
release i s = given_up i (socket_fd i s) s

pub data SocketCall : Type 0 where
  constructs move_constructs move_assigns : ℕ → ℕ → SocketCall
  releases closes destroys : ℕ → SocketCall

unfoldable pub perform : SocketCall → Store → Store
unfolding construct move_construct move_assign release close_socket
perform (constructs i fd) s = construct i fd s
perform (move_constructs i other) s = move_construct i other s
perform (move_assigns i other) s = move_assign i other s
perform (releases i) s = release i s
perform (closes i) s = close_socket i s
perform (destroys i) s = close_socket i s

-- A constructor runs on an object that holds nothing, and moves from another object.
abbrev pub IsAllowed : SocketCall → Store → Type 0
IsAllowed (constructs i fd) s = socket_fd i s ≡ none
IsAllowed (move_constructs i other) s = (socket_fd i s ≡ none) × ((i == other) ≡ false)
IsAllowed _ s = Unit {0}

unfoldable pub perform_all : List SocketCall → Store → Store
perform_all [] s = s
perform_all (c ∷ calls) s = perform_all calls (perform c s)

abbrev pub AllAllowed : List SocketCall → Store → Type 0
AllAllowed [] s = Unit {0}
AllAllowed (c ∷ calls) s = IsAllowed c s × AllAllowed calls (perform c s)
