-- ===== src/Net/Socket/Opening/Owned.antt =====
-- Each function either makes one descriptor or leaves the descriptors that were open.
use high_performance_http_se.Common.{
  ℕ, ◌≡◌, refl, ap, ◌∙◌, Bool, true, false, Option, none, some, Bytes,
}
use high_performance_http_se.Net.Socket.Opening.{
  reuse_address, ConnectAnswer, connected, in_progress, refused, AcceptAnswer, accepted,
  none_pending, accept_failed, Kernel, set_non_blocking, or_close, with_socket,
  create_listen_socket, is_under_way, connect_to, connect_non_blocking, made_non_blocking,
  take_accepted, accept_non_blocking,
}
use high_performance_http_se.Net.Socket.Opening.Held.{
  KernelLaws, is_non_blocking_at, Holds, Opens, Holds-then, close-undoes, set_non_blocking-others,
  set_non_blocking-sets, step-Opens, set_non_blocking-Opens,
}

module _ (kernel : Kernel) (laws : KernelLaws kernel) where
  create_listen_socket-Opens :
      (port backlog : ℕ) (w : kernel.World)
      → Opens kernel w (create_listen_socket kernel port backlog w)
  unfolding create_listen_socket
  create_listen_socket-Opens port backlog w = go (kernel.socket w) refl
    where
      listens :
          (fd : ℕ) (w3 : kernel.World)
          → Opens kernel w (some fd, w3)
          → Opens kernel w (
              or_close kernel fd
                (kernel.bind w3 fd kernel.any_address port)
                (λ w4. or_close kernel fd (kernel.listen w4 fd backlog) (λ w5. (some fd, w5))))
      listens fd w3 h3 =
          let p = kernel.bind w3 fd kernel.any_address port in
          step-Opens kernel laws w fd w3 p _ h3 (laws.bind_keeps w3 fd kernel.any_address port)
            (λ h4.
              step-Opens kernel laws w fd p.1 (kernel.listen p.1 fd backlog) _ h4
                (laws.listen_keeps p.1 fd backlog) (λ h5. h5))

      go :
          (p : Option ℕ × kernel.World)
          → kernel.socket w ≡ p
          → Opens kernel w (
              with_socket kernel p (λ fd w1.
                or_close kernel fd
                  (set_non_blocking kernel fd (kernel.set_option w1 fd reuse_address).1)
                  (λ w3. or_close kernel fd (kernel.bind w3 fd kernel.any_address port) (λ w4.
                    or_close kernel fd (kernel.listen w4 fd backlog) (λ w5. (some fd, w5))))))
      go (none, w1) e = laws.socket_fails w w1 e
      go (some fd, w1) e =
          set_non_blocking-Opens kernel laws w fd (kernel.set_option w1 fd reuse_address).1 _
            (Holds-then kernel laws w fd w1 (kernel.set_option w1 fd reuse_address).1
              (laws.socket_fresh w fd w1 e) (λ k apart. laws.option_keeps w1 fd reuse_address k))
            (λ w3 h3. listens fd w3 h3)

  is_under_way-world : (p : ConnectAnswer × kernel.World) → (is_under_way kernel p).1 ≡ p.1
  is_under_way-world (connected, w) = refl
  is_under_way-world (in_progress, w) = refl
  is_under_way-world (refused, w) = refl

  connect_to-Opens :
      (w : kernel.World) (fd : ℕ) (address : Option kernel.Address) (port : ℕ) (w' : kernel.World)
      → Opens kernel w (some fd, w')
      → Opens kernel w (connect_to kernel fd address port w')
  connect_to-Opens w fd none port w' (h, set) = close-undoes kernel laws w fd w' h
  connect_to-Opens w fd (some address) port w' h =
      step-Opens kernel laws w fd w' (is_under_way kernel (kernel.connect w' fd address port)) _ h
        (λ k.
          ap (λ (v : kernel.World). kernel.status v k)
            (is_under_way-world (kernel.connect w' fd address port))
          ∙ laws.connect_keeps w' fd address port k)
        (λ h'. h')

  connect_non_blocking-Opens :
      (host : Bytes) (port : ℕ) (w : kernel.World)
      → Opens kernel w (connect_non_blocking kernel host port w)
  unfolding connect_non_blocking
  connect_non_blocking-Opens host port w = go (kernel.socket w) refl
    where
      go :
          (p : Option ℕ × kernel.World)
          → kernel.socket w ≡ p
          → Opens kernel w (
              with_socket kernel p (λ fd w1.
                or_close kernel fd
                  (set_non_blocking kernel fd w1)
                  (λ w2. connect_to kernel fd (kernel.parse_address host) port w2)))
      go (none, w1) e = laws.socket_fails w w1 e
      go (some fd, w1) e =
          set_non_blocking-Opens kernel laws w fd w1 _ (laws.socket_fresh w fd w1 e)
            (λ w2 h2. connect_to-Opens w fd (kernel.parse_address host) port w2 h2)

  accept_non_blocking-Opens :
      (listen_fd : ℕ) (w : kernel.World)
      → Opens kernel w (
        (accept_non_blocking kernel listen_fd w).0.sock,
        (accept_non_blocking kernel listen_fd w).1,
      )
  unfolding accept_non_blocking take_accepted set_non_blocking
  accept_non_blocking-Opens listen_fd w = go (kernel.accept w listen_fd) refl
    where
      made :
          (fd : ℕ) (peer : kernel.Address) (w1 : kernel.World) (p : Bool × kernel.World)
          → Holds kernel w fd p.1
          → (p.0 ≡ true → is_non_blocking_at (kernel.status p.1 fd) ≡ true)
          → Opens kernel w
              ((made_non_blocking kernel fd peer p).0.sock, (made_non_blocking kernel fd peer p).1)
      made fd peer w1 (true, w2) h set = (h, set refl)
      made fd peer w1 (false, w2) h set = close-undoes kernel laws w fd w2 h

      go :
          (a : AcceptAnswer kernel.Address × kernel.World)
          → kernel.accept w listen_fd ≡ a
          → Opens kernel w ((take_accepted kernel a).0.sock, (take_accepted kernel a).1)
      go (accepted fd peer, w1) e =
          made fd peer w1 (set_non_blocking kernel fd w1)
            (Holds-then kernel laws w fd w1 _ (laws.accept_fresh w listen_fd fd peer w1 e)
              (set_non_blocking-others kernel laws fd w1))
            (set_non_blocking-sets kernel laws fd w1)
      go (none_pending, w1) e = laws.accept_none w listen_fd w1 e
      go (accept_failed, w1) e = laws.accept_fails w listen_fd w1 e

  -- Over a kernel that keeps the laws of its calls, createListenSocket, connectNonBlocking and
  -- acceptNonBlocking leak no descriptor, whichever of their calls fails: a descriptor that one of them
  -- answers was not open before, is open and non-blocking, and all others are as they were; and where it
  -- answers none, every descriptor is as it was, those it opened on the way being closed.
  pub openers_leak_nothing :
      (w : kernel.World) (host : Bytes) (port backlog listen_fd : ℕ)
      → Opens kernel w (create_listen_socket kernel port backlog w)
        × Opens kernel w (connect_non_blocking kernel host port w)
        × Opens kernel w (
          (accept_non_blocking kernel listen_fd w).0.sock,
          (accept_non_blocking kernel listen_fd w).1,
        )
  openers_leak_nothing w host port backlog listen_fd = (
    create_listen_socket-Opens port backlog w,
    connect_non_blocking-Opens host port w,
    accept_non_blocking-Opens listen_fd w,
  )
