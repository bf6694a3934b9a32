-- ===== src/Net/Socket/Balance.antt =====
-- Each descriptor that the sockets have adopted is held, given up or closed, as often as it was adopted.
use high_performance_http_se.Common.{
  ℕ, ◌+◌, ◌≡◌, ap, ◌∙◌, inl, inr, false, List, [], ◌∷◌, Option, none, some, ◌==◌, if◌then◌else◌,
  arith, Bool-cases, Option-cases,
}
use high_performance_http_se.Common.Table.{find, assign, find-assign, count, count-append}
use high_performance_http_se.Net.Socket.{
  Store, empty_store, fd_of, socket_fd, set_fd, construct, close_socket, move_construct,
  move_assign, release, SocketCall, constructs, move_constructs, move_assigns, releases, closes,
  destroys, perform, IsAllowed, perform_all, AllAllowed,
}

-- 1 if it is the descriptor `k`.
abbrev pub holds : ℕ → Option ℕ → ℕ
holds k none = 0
holds k (some fd) = if fd == k then 1 else 0

-- How many objects hold `k`.
abbrev pub held : ℕ → List (ℕ × Option ℕ) → ℕ
held k [] = 0
held k ((i, fd) ∷ sockets) = holds k fd + held k sockets

held-assign :
    (k i : ℕ) (fd : Option ℕ) (t : List (ℕ × Option ℕ))
    → held k (assign i fd t) + holds k (fd_of (find i t)) ≡ held k t + holds k fd
unfolding assign find
held-assign k i fd [] = omega arith
held-assign k i fd ((j, old) ∷ t) = ground (arith, held-assign k i fd t)

abbrev pub IsBalanced : ℕ → Store → Type 0
IsBalanced k s = held k s.sockets + count k s.released + count k s.closed ≡ count k s.adopted

-- The descriptor of the object `i` is written.
set_fd-held :
    (k i : ℕ) (fd : Option ℕ) (s : Store)
    → held k (set_fd i fd s).sockets + holds k (socket_fd i s) ≡ held k s.sockets + holds k fd
set_fd-held k i fd s = held-assign k i fd s.sockets

construct-IsBalanced :
    (k i fd : ℕ) (s : Store)
    → socket_fd i s ≡ none
    → IsBalanced k s
    → IsBalanced k (construct i fd s)
unfolding construct
construct-IsBalanced k i fd s free b =
    let nothing = ap (holds k) free in
    omega (arith, set_fd-held k i (some fd) s, count-append k s.adopted (fd ∷ []))

close_socket-IsBalanced : (k i : ℕ) (s : Store) → IsBalanced k s → IsBalanced k (close_socket i s)
unfolding close_socket
close_socket-IsBalanced k i s b = elim (Option-cases (socket_fd i s)) [
  | inl e ↦ rw e b
  | inr (fd, e) ↦
      let held_before = ap (holds k) e in
      rw e (omega (arith, set_fd-held k i none s, count-append k s.closed (fd ∷ [])))
]

release-IsBalanced : (k i : ℕ) (s : Store) → IsBalanced k s → IsBalanced k (release i s)
unfolding release
release-IsBalanced k i s b = elim (Option-cases (socket_fd i s)) [
  | inl e ↦ rw e b
  | inr (fd, e) ↦
      let held_before = ap (holds k) e in
      rw e (omega (arith, set_fd-held k i none s, count-append k s.released (fd ∷ [])))
]

socket_fd-set_fd :
    (i j : ℕ) (fd : Option ℕ) (s : Store)
    → socket_fd j (set_fd i fd s) ≡ (if i == j then fd else socket_fd j s)
socket_fd-set_fd i j fd s = ground (arith, find-assign i j fd s.sockets)

socket_fd-close_socket : (i : ℕ) (s : Store) → socket_fd i (close_socket i s) ≡ none
unfolding close_socket
socket_fd-close_socket i s = elim (Option-cases (socket_fd i s)) [
  | inl e ↦ rw (close_socket, e) e
  | inr (fd, e) ↦ rw (close_socket, e) (socket_fd-set_fd i i none s ∙ ground arith)
]

-- A descriptor moves to an object that holds none.
moved-IsBalanced :
    (k i other : ℕ) (s : Store)
    → socket_fd i s ≡ none
    → (i == other) ≡ false
    → IsBalanced k s
    → IsBalanced k (set_fd other none (set_fd i (socket_fd other s) s))
moved-IsBalanced k i other s free apart b =
    let s' : Store = set_fd i (socket_fd other s) s in
    let nothing : holds k (socket_fd i s) ≡ 0 = ap (holds k) free in
    let same : socket_fd other s' ≡ socket_fd other s =
      socket_fd-set_fd i other (socket_fd other s) s ∙ rw apart in
    let kept : holds k (socket_fd other s') ≡ holds k (socket_fd other s) = ap (holds k) same in
    omega (arith, set_fd-held k i (socket_fd other s) s, set_fd-held k other none s')

move_assign-IsBalanced :
    (k i other : ℕ) (s : Store) → IsBalanced k s → IsBalanced k (move_assign i other s)
unfolding move_assign
move_assign-IsBalanced k i other s b = elim (Bool-cases (i == other)) [
  | inl e ↦ rw e b
  | inr apart ↦ rw apart (
      moved-IsBalanced k i other (close_socket i s) (socket_fd-close_socket i s) apart
        (close_socket-IsBalanced k i s b))
]

perform-IsBalanced :
    (k : ℕ) (c : SocketCall) (s : Store)
    → IsAllowed c s
    → IsBalanced k s
    → IsBalanced k (perform c s)
unfolding perform move_construct
perform-IsBalanced k (constructs i fd) s free b = construct-IsBalanced k i fd s free b
perform-IsBalanced k (move_constructs i other) s (free, apart) b =
    moved-IsBalanced k i other s free apart b
perform-IsBalanced k (move_assigns i other) s h b = move_assign-IsBalanced k i other s b
perform-IsBalanced k (releases i) s h b = release-IsBalanced k i s b
perform-IsBalanced k (closes i) s h b = close_socket-IsBalanced k i s b
perform-IsBalanced k (destroys i) s h b = close_socket-IsBalanced k i s b

run-IsBalanced :
    (k : ℕ) (calls : List SocketCall) (s : Store)
    → AllAllowed calls s
    → IsBalanced k s
    → IsBalanced k (perform_all calls s)
unfolding perform_all
run-IsBalanced k [] s h b = b
run-IsBalanced k (c ∷ calls) s (h, later) b =
    run-IsBalanced k calls (perform c s) later (perform-IsBalanced k c s h b)

-- After any calls on sockets, in which a constructor runs on an object that holds nothing and moves from
-- another object: as often as a descriptor was handed to a constructor, so often in all is it held by an
-- object, given up by release, or closed.
pub perform_all-IsBalanced :
    (calls : List SocketCall) (k : ℕ)
    → AllAllowed calls empty_store
    → IsBalanced k (perform_all calls empty_store)
perform_all-IsBalanced calls k allowed = run-IsBalanced k calls empty_store allowed (omega arith)
