-- ===== src/Tests/Sockets.antt =====
-- The sockets on short runs, and their functions on a small kernel that keeps the laws.
use high_performance_http_se.Common.{
  ℕ, ◌≡◌, refl, ap, sym, ◌∙◌, true, false, List, [], ◌∷◌, Option, none, some, ◌==◌, if◌then◌else◌,
  Bytes, arith,
}
use high_performance_http_se.Common.Table.{find, assign}
use high_performance_http_se.Net.Socket.{
  SocketCall, constructs, move_constructs, move_assigns, closes, destroys, perform, perform_all,
  empty_store,
}
use high_performance_http_se.Net.Socket.Balance.{IsBalanced, perform_all-IsBalanced}
use high_performance_http_se.Net.Socket.Opening.{
  Kernel, AcceptAnswer, accepted, none_pending, accept_failed, connected, create_listen_socket,
  accept_non_blocking, connect_non_blocking,
}
use high_performance_http_se.Net.Socket.Opening.Held.{KernelLaws, Opens, is_non_blocking_at}
use high_performance_http_se.Net.Socket.Opening.Owned.{openers_leak_nothing}

-- Two descriptors are adopted; the second object moves onto the first, which closes what it held.
abbrev some_calls : List SocketCall
some_calls =
    constructs 1 7
    ∷ constructs 2 8
    ∷ move_assigns 1 2
    ∷ move_constructs 3 1
    ∷ destroys 1
    ∷ closes 3
    ∷ []

after_calls : (perform_all some_calls empty_store).closed ≡ 7 ∷ 8 ∷ []
unfolding perform_all perform find assign
after_calls = refl

perform_all-IsBalanced_example : IsBalanced 8 (perform_all some_calls empty_store)
unfolding perform_all perform find assign
perform_all-IsBalanced_example =
    perform_all-IsBalanced some_calls 8 (refl, (refl, (tt, ((refl, refl), (tt, (tt, tt))))))

-- Its world is the flags of each open descriptor; it gives out the descriptor 3 for `socket` and 5 for
-- `accept` while they are free, and the calls on an open descriptor succeed.
abbrev Flags : Type 0
Flags = ℕ → Option ℕ

abbrev put : ℕ → Option ℕ → Flags → Flags
put fd flags w = λ k. if fd == k then flags else w k

abbrev give : ℕ → Option ℕ → Flags → Option ℕ × Flags
give fd none w = (some fd, put fd (some 0) w)
give fd (some flags) w = (none, w)

abbrev give_accepted : ℕ → Option ℕ → Flags → AcceptAnswer Bytes × Flags
give_accepted fd none w = (accepted fd [], put fd (some 0) w)
give_accepted fd (some flags) w = (none_pending, w)

abbrev small_kernel : Kernel
small_kernel = record {
  World = Flags;
  Address = Bytes;
  any_address = [];
  zero_address = [];
  parse_address = λ host. some host;
  socket = λ w. give 3 (w 3) w;
  accept = λ w l. give_accepted 5 (w 5) w;
  get_flags = λ w fd. w fd;
  set_flags = λ w fd flags. (true, put fd (some flags) w);
  set_option = λ w fd o. (true, w);
  bind = λ w fd a port. (true, w);
  listen = λ w fd backlog. (true, w);
  connect = λ w fd a port. (connected, w);
  close = λ w fd. put fd none w;
  status = λ w fd. w fd;
}

put_self : (fd : ℕ) (flags : Option ℕ) (w : Flags) → put fd flags w fd ≡ flags
put_self fd flags w = ground arith

put_other :
    (fd : ℕ) (flags : Option ℕ) (w : Flags) (k : ℕ) → (fd == k) ≡ false → put fd flags w k ≡ w k
put_other fd flags w k apart = rw apart

give_fresh :
    (fd : ℕ) (o : Option ℕ) (w : Flags) (fd' : ℕ) (w' : Flags)
    → w fd ≡ o
    → ◌≡◌ {A = Option ℕ × Flags} (give fd o w) (some fd', w')
    → (w fd' ≡ none) × ((k : ℕ) → (fd' == k) ≡ false → w' k ≡ w k)
give_fresh fd none w fd' w' e same =
    let it : some fd ≡ some fd' = ap (λ (p : Option ℕ × Flags). p.0) same in
    let n : fd ≡ fd' = cc in
    (
      sym (ap w n) ∙ e,
      λ k apart.
          ap (λ (p : Option ℕ × Flags). p.1 k) (sym same)
          ∙ put_other fd (some 0) w k (ap (λ (i : ℕ). i == k) n ∙ apart),
    )
give_fresh fd (some flags) w fd' w' e same = cc

give_fails :
    (fd : ℕ) (o : Option ℕ) (w w' : Flags)
    → ◌≡◌ {A = Option ℕ × Flags} (give fd o w) (none, w')
    → (k : ℕ) → w' k ≡ w k
give_fails fd none w w' same k = cc
give_fails fd (some flags) w w' same k = ap (λ (p : Option ℕ × Flags). p.1 k) (sym same)

give_accepted_fresh :
    (fd : ℕ) (o : Option ℕ) (w : Flags) (fd' : ℕ) (peer : Bytes) (w' : Flags)
    → w fd ≡ o
    → ◌≡◌ {A = AcceptAnswer Bytes × Flags} (give_accepted fd o w) (accepted fd' peer, w')
    → (w fd' ≡ none) × ((k : ℕ) → (fd' == k) ≡ false → w' k ≡ w k)
give_accepted_fresh fd none w fd' peer w' e same =
    let it : ◌≡◌ {A = AcceptAnswer Bytes} (accepted fd []) (accepted fd' peer) =
      ap (λ (p : AcceptAnswer Bytes × Flags). p.0) same in
    let n : fd ≡ fd' = cc in
    (
      sym (ap w n) ∙ e,
      λ k apart.
          ap (λ (p : AcceptAnswer Bytes × Flags). p.1 k) (sym same)
          ∙ put_other fd (some 0) w k (ap (λ (i : ℕ). i == k) n ∙ apart),
    )
give_accepted_fresh fd (some flags) w fd' peer w' e same = cc

give_accepted_none :
    (fd : ℕ) (o : Option ℕ) (w w' : Flags)
    → ◌≡◌ {A = AcceptAnswer Bytes × Flags} (give_accepted fd o w) (none_pending, w')
    → (k : ℕ) → w' k ≡ w k
give_accepted_none fd none w w' same k = cc
give_accepted_none fd (some flags) w w' same k =
    ap (λ (p : AcceptAnswer Bytes × Flags). p.1 k) (sym same)

give_accepted_answers :
    (fd : ℕ) (o : Option ℕ) (w w' : Flags)
    → ◌≡◌ {A = AcceptAnswer Bytes × Flags} (give_accepted fd o w) (accept_failed, w')
    → (k : ℕ) → w' k ≡ w k
give_accepted_answers fd none w w' same k = cc
give_accepted_answers fd (some flags) w w' same k = cc

small_kernel_laws : KernelLaws small_kernel
small_kernel_laws = record {
  socket_fresh = λ w fd w' e. give_fresh 3 (w 3) w fd w' refl e;
  socket_fails = λ w w' e. give_fails 3 (w 3) w w' e;
  accept_fresh = λ w l fd peer w' e. give_accepted_fresh 5 (w 5) w fd peer w' refl e;
  accept_none = λ w l w' e. give_accepted_none 5 (w 5) w w' e;
  accept_fails = λ w l w' e. give_accepted_answers 5 (w 5) w w' e;
  sets = λ w fd flags set ok. ap is_non_blocking_at (put_self fd (some flags) w) ∙ set;
  sets_one = λ w fd flags k apart. put_other fd (some flags) w k apart;
  option_keeps = λ w fd o k. refl;
  bind_keeps = λ w fd a port k. refl;
  listen_keeps = λ w fd backlog k. refl;
  connect_keeps = λ w fd a port k. refl;
  closes = λ w fd k. refl;
}

abbrev no_descriptors : Flags
no_descriptors = λ fd. none

listens : (create_listen_socket small_kernel 8080 1024 no_descriptors).0 ≡ some 3
unfolding create_listen_socket
listens = refl

openers_leak_nothing_example :
    Opens small_kernel no_descriptors (create_listen_socket small_kernel 80 10 no_descriptors)
    × Opens small_kernel no_descriptors (connect_non_blocking small_kernel [] 80 no_descriptors)
    × Opens small_kernel no_descriptors (
      (accept_non_blocking small_kernel 9 no_descriptors).0.sock,
      (accept_non_blocking small_kernel 9 no_descriptors).1,
    )
openers_leak_nothing_example =
    openers_leak_nothing small_kernel small_kernel_laws no_descriptors [] 80 10 9
