-- ===== src/Net/EventLoop/Epoll/Refines.antt =====
-- EpollReactor keeps the promise of EventLoop for the masks that there are.
use high_performance_http_se.Common.{
  List, ℕ, ◌%◌, ◌≡◌, refl, ap, ◌∙◌, Bool, true, false, Option, none, some, ◌==◌, if◌then◌else◌,
  arith,
}
use high_performance_http_se.Net.EventLoop.{Call, add, modify, remove}
use high_performance_http_se.Net.EventLoop.Promise.{
  Backend, Succeeds, effect, replay, Succeeds-refines,
}
use high_performance_http_se.Net.EventLoop.Epoll.{
  ctl_add, ctl_mod, ctl_del, Kernel, KernelLaws, to_epoll_events, from_epoll_events,
  modify_interest, add_interest, remove_interest, call,
}

module _ (kernel : Kernel) (laws : KernelLaws kernel) where
  abbrev pub waits_of : Option ℕ → ℕ
  waits_of none = 0
  waits_of (some events) = from_epoll_events events

  abbrev pub interest_at : ℕ → kernel.World → ℕ
  interest_at k w = waits_of (kernel.registered w k)

  -- `add` sets the interest of a descriptor that is registered, and of one that is not, if the kernel
  -- takes it.
  add_interest-makes :
      (fd mask k : ℕ) (w w' : kernel.World)
      → add_interest kernel fd mask w ≡ (true, w')
      → kernel.registered w' k
        ≡ (if fd == k then some (to_epoll_events mask) else kernel.registered w k)
  unfolding add_interest
  add_interest-makes fd mask k w w' e =
      go (kernel.epoll_ctl w (ctl_add (to_epoll_events mask)) fd) refl e
    where
      go :
          (p : Bool × kernel.World)
          → kernel.epoll_ctl w (ctl_add (to_epoll_events mask)) fd ≡ p
          → ◌≡◌ {A = Bool × kernel.World}
              (if p.0
                then (true, p.1)
                else kernel.epoll_ctl p.1 (ctl_mod (to_epoll_events mask)) fd)
              (true, w')
          → kernel.registered w' k
            ≡ (if fd == k then some (to_epoll_events mask) else kernel.registered w k)
      go (true, w1) s e = laws.makes w w' (ctl_add (to_epoll_events mask)) fd k (s ∙ e)
      go (false, w1) s e =
          laws.makes w1 w' (ctl_mod (to_epoll_events mask)) fd k e
          ∙ rw (laws.keeps w w1 (ctl_add (to_epoll_events mask)) fd k s)

  -- `add` of a descriptor that is registered succeeds.
  pub add_interest-known :
      (fd mask old : ℕ) (w : kernel.World)
      → kernel.registered w fd ≡ some old
      → (add_interest kernel fd mask w).0 ≡ true
  unfolding add_interest
  add_interest-known fd mask old w known =
      let op = ctl_add (to_epoll_events mask) in
      let fails = laws.add_known w fd (to_epoll_events mask) old known in
      let (ok, w1) = kernel.epoll_ctl w op fd in
      let same = laws.keeps w w1 op fd fd (ap {B = Bool × kernel.World} (λ ok. (ok, w1)) fails) in
      rw fails (laws.mod_known w1 fd (to_epoll_events mask) old (same ∙ known))

  flags_back : (mask : ℕ) → from_epoll_events (to_epoll_events mask) ≡ mask % 4
  unfolding from_epoll_events to_epoll_events
  flags_back mask = ground arith

  flags_at :
      (fd mask k : ℕ) (w w' : kernel.World)
      → kernel.registered w' k
        ≡ (if fd == k then some (to_epoll_events mask) else kernel.registered w k)
      → interest_at k w' ≡ (if fd == k then mask % 4 else interest_at k w)
  flags_at fd mask k w w' e = ap waits_of e ∙ by_test (fd == k)
    where
      by_test :
          (b : Bool)
          → waits_of (if b then some (to_epoll_events mask) else kernel.registered w k)
            ≡ (if b then mask % 4 else interest_at k w)
      by_test true = flags_back mask
      by_test false = refl

  pub call_keeps :
      (c : Call) (w w' : kernel.World)
      → Unit {0}
      → call kernel c w ≡ (true, w')
      → Unit {0} × ((k : ℕ) → interest_at k w' ≡ effect c (λ k. interest_at k w) k)
  unfolding call modify_interest remove_interest
  call_keeps (add fd mask) w w' v e =
      (tt, λ k. flags_at fd mask k w w' (add_interest-makes fd mask k w w' e))
  call_keeps (modify fd mask) w w' v e =
      (tt, λ k. flags_at fd mask k w w' (laws.makes w w' (ctl_mod (to_epoll_events mask)) fd k e))
  call_keeps (remove fd) w w' v e =
      (tt, λ k. ap waits_of (laws.makes w w' ctl_del fd k e) ∙ ground arith)

  abbrev pub epoll_backend : Backend
  epoll_backend = record {
    State = kernel.World;
    call = call kernel;
    waits = λ w k. interest_at k w;
    IsValid = λ w. Unit {0};
    call_keeps = call_keeps;
  }

-- For a kernel with the laws of epoll_ctl: after any calls that all succeed, the kernel waits for just
-- what the calls ask for, replayed on a map from descriptors to masks.
pub epoll_refines :
    (kernel : Kernel) (laws : KernelLaws kernel) (calls : List Call) (w w' : kernel.World)
    → Succeeds (epoll_backend kernel laws) calls w w'
    → (k : ℕ) → interest_at kernel laws k w' ≡ replay calls (λ k. interest_at kernel laws k w) k
epoll_refines kernel laws calls w w' run =
    (Succeeds-refines (epoll_backend kernel laws) calls w w' tt run).1
