-- ===== src/Net/Socket/Opening/Held.antt =====
-- The descriptor that a function has made, from one call of the kernel to the next.
use high_performance_http_se.Common.{
  ℕ, ◌≡◌, refl, ap, sym, ◌∙◌, Bool, true, false, Option, none, some, ◌==◌, if◌then◌else◌, arith,
  inl, inr, Bool-cases,
}
use high_performance_http_se.Net.Socket.Opening.{
  is_non_blocking, with_nonblock, SocketOption, accepted, none_pending, accept_failed, Kernel,
  flags_set, set_non_blocking, or_close,
}

abbrev pub is_non_blocking_at : Option ℕ → Bool
is_non_blocking_at none = false
is_non_blocking_at (some flags) = is_non_blocking flags

-- `socket` and `accept` answer with a descriptor that was not open. F_SETFL that succeeds with O_NONBLOCK
-- sets it, and changes no other descriptor. `close` closes its descriptor only, and no other call opens,
-- closes or changes the flags.
pub record KernelLaws (kernel : Kernel) : Type 1 where
  pub socket_fresh :
      (w : kernel.World) (fd : ℕ) (w' : kernel.World)
      → kernel.socket w ≡ (some fd, w')
      → (kernel.status w fd ≡ none)
        × ((k : ℕ) → (fd == k) ≡ false → kernel.status w' k ≡ kernel.status w k)
  pub socket_fails :
      (w w' : kernel.World)
      → kernel.socket w ≡ (none, w')
      → (k : ℕ) → kernel.status w' k ≡ kernel.status w k
  pub accept_fresh :
      (w : kernel.World) (l fd : ℕ) (peer : kernel.Address) (w' : kernel.World)
      → kernel.accept w l ≡ (accepted fd peer, w')
      → (kernel.status w fd ≡ none)
        × ((k : ℕ) → (fd == k) ≡ false → kernel.status w' k ≡ kernel.status w k)
  pub accept_none :
      (w : kernel.World) (l : ℕ) (w' : kernel.World)
      → kernel.accept w l ≡ (none_pending, w')
      → (k : ℕ) → kernel.status w' k ≡ kernel.status w k
  pub accept_fails :
      (w : kernel.World) (l : ℕ) (w' : kernel.World)
      → kernel.accept w l ≡ (accept_failed, w')
      → (k : ℕ) → kernel.status w' k ≡ kernel.status w k
  pub sets :
      (w : kernel.World) (fd flags : ℕ)
      → is_non_blocking flags ≡ true
      → (kernel.set_flags w fd flags).0 ≡ true
      → is_non_blocking_at (kernel.status (kernel.set_flags w fd flags).1 fd) ≡ true
  pub sets_one :
      (w : kernel.World) (fd flags k : ℕ)
      → (fd == k) ≡ false
      → kernel.status (kernel.set_flags w fd flags).1 k ≡ kernel.status w k
  pub option_keeps :
      (w : kernel.World) (fd : ℕ) (o : SocketOption) (k : ℕ)
      → kernel.status (kernel.set_option w fd o).1 k ≡ kernel.status w k
  pub bind_keeps :
      (w : kernel.World) (fd : ℕ) (a : kernel.Address) (port k : ℕ)
      → kernel.status (kernel.bind w fd a port).1 k ≡ kernel.status w k
  pub listen_keeps :
      (w : kernel.World) (fd backlog k : ℕ)
      → kernel.status (kernel.listen w fd backlog).1 k ≡ kernel.status w k
  pub connect_keeps :
      (w : kernel.World) (fd : ℕ) (a : kernel.Address) (port k : ℕ)
      → kernel.status (kernel.connect w fd a port).1 k ≡ kernel.status w k
  pub closes :
      (w : kernel.World) (fd k : ℕ)
      → kernel.status (kernel.close w fd) k ≡ (if fd == k then none else kernel.status w k)

module _ (kernel : Kernel) where
  -- `fd` is the one descriptor that is open in the second world and may differ in the first, where it is
  -- not open.
  abbrev pub Holds : kernel.World → ℕ → kernel.World → Type 0
  Holds w fd w' =
      (kernel.status w fd ≡ none)
      × ((k : ℕ) → (fd == k) ≡ false → kernel.status w' k ≡ kernel.status w k)

  -- A descriptor that is answered is new, open and non-blocking, and the others are as they were; where
  -- none is, all are as they were.
  abbrev pub Opens : kernel.World → Option ℕ × kernel.World → Type 0
  Opens w (none, w') = (k : ℕ) → kernel.status w' k ≡ kernel.status w k
  Opens w (some fd, w') = Holds w fd w' × (is_non_blocking_at (kernel.status w' fd) ≡ true)

module _ (kernel : Kernel) (laws : KernelLaws kernel) where
  pub Holds-then :
      (w : kernel.World) (fd : ℕ) (w' w'' : kernel.World)
      → Holds kernel w fd w'
      → ((k : ℕ) → (fd == k) ≡ false → kernel.status w'' k ≡ kernel.status w' k)
      → Holds kernel w fd w''
  Holds-then w fd w' w'' (free, same) later = (free, λ k e. later k e ∙ same k e)

  pub close-undoes :
      (w : kernel.World) (fd : ℕ) (w' : kernel.World)
      → Holds kernel w fd w'
      → (k : ℕ) → kernel.status (kernel.close w' fd) k ≡ kernel.status w k
  close-undoes w fd w' (free, same) k = elim (Bool-cases (fd == k)) [
    | inl e ↦
        let it : fd ≡ k = ground (arith, e) in
        laws.closes w' fd k ∙ rw e (sym free ∙ ap (kernel.status w) it)
    | inr e ↦ laws.closes w' fd k ∙ rw e (same k e)
  ]

  or_close-Opens :
      (w : kernel.World) (fd : ℕ) (p : Bool × kernel.World)
      (next : kernel.World → Option ℕ × kernel.World)
      → Holds kernel w fd p.1
      → (p.0 ≡ true → Opens kernel w (next p.1))
      → Opens kernel w (or_close kernel fd p next)
  or_close-Opens w fd (true, w') next h goes_on = goes_on refl
  or_close-Opens w fd (false, w') next h goes_on = close-undoes w fd w' h

  with_nonblock-set : (flags : ℕ) → is_non_blocking (with_nonblock flags) ≡ true
  with_nonblock-set flags = ground arith

  pub set_non_blocking-others :
      (fd : ℕ) (w : kernel.World) (k : ℕ)
      → (fd == k) ≡ false
      → kernel.status (set_non_blocking kernel fd w).1 k ≡ kernel.status w k
  unfolding set_non_blocking
  set_non_blocking-others fd w k apart = go (kernel.get_flags w fd)
    where
      go : (flags : Option ℕ) → kernel.status (flags_set kernel flags fd w).1 k ≡ kernel.status w k
      go none = refl
      go (some flags) = laws.sets_one w fd (with_nonblock flags) k apart

  pub set_non_blocking-sets :
      (fd : ℕ) (w : kernel.World)
      → (set_non_blocking kernel fd w).0 ≡ true
      → is_non_blocking_at (kernel.status (set_non_blocking kernel fd w).1 fd) ≡ true
  unfolding set_non_blocking
  set_non_blocking-sets fd w = go (kernel.get_flags w fd)
    where
      go :
          (flags : Option ℕ)
          → (flags_set kernel flags fd w).0 ≡ true
          → is_non_blocking_at (kernel.status (flags_set kernel flags fd w).1 fd) ≡ true
      go none e = cc
      go (some flags) e = laws.sets w fd (with_nonblock flags) (with_nonblock-set flags) e

  -- A call between that keeps every descriptor's flags.
  pub step-Opens :
      (w : kernel.World) (fd : ℕ) (w' : kernel.World) (p : Bool × kernel.World)
      (next : kernel.World → Option ℕ × kernel.World)
      → Opens kernel w (some fd, w')
      → ((k : ℕ) → kernel.status p.1 k ≡ kernel.status w' k)
      → (Opens kernel w (some fd, p.1) → Opens kernel w (next p.1))
      → Opens kernel w (or_close kernel fd p next)
  step-Opens w fd w' p next (h, set) keeps goes_on =
      let h' = Holds-then w fd w' p.1 h (λ k e. keeps k) in
      or_close-Opens w fd p next h' (λ e. goes_on (h', ap is_non_blocking_at (keeps fd) ∙ set))

  -- `setNonBlocking` of a new descriptor, or its close.
  pub set_non_blocking-Opens :
      (w : kernel.World) (fd : ℕ) (w' : kernel.World)
      (next : kernel.World → Option ℕ × kernel.World)
      → Holds kernel w fd w'
      → ((w'' : kernel.World) → Opens kernel w (some fd, w'') → Opens kernel w (next w''))
      → Opens kernel w (or_close kernel fd (set_non_blocking kernel fd w') next)
  set_non_blocking-Opens w fd w' next h goes_on =
      let p = set_non_blocking kernel fd w' in
      let h' = Holds-then w fd w' p.1 h (set_non_blocking-others fd w') in
      or_close-Opens w fd p next h' (λ e. goes_on p.1 (h', set_non_blocking-sets fd w' e))
