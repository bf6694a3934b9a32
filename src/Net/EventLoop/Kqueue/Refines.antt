-- ===== src/Net/EventLoop/Kqueue/Refines.antt =====
-- KqueueReactor keeps the promise of EventLoop.
use high_performance_http_se.Common.{
  ℕ, ◌%◌, ◌≡◌, refl, sym, ap, ◌∙◌, inl, inr, Bool, true, false, List, [], ◌∷◌, ◌==◌, if◌then◌else◌,
  Bool-cases, arith, subst, ==_iff,
}
use high_performance_http_se.Common.Table.{find, erase, find-assign, find-erase}
use high_performance_http_se.Net.EventLoop.{Call, add, modify, remove, has_readable, has_writable}
use high_performance_http_se.Net.EventLoop.Promise.{
  effect, Backend, Succeeds, replay, Succeeds-refines,
}
use high_performance_http_se.Net.EventLoop.Kqueue.{
  Filter, read, write, Change, changed, Kernel, KernelLaws, CanDelete, Reactor, mask_of, changes,
  with_interest, submit, modify_interest, add_interest, deletions, remove_interest, call,
}
use high_performance_http_se.Net.EventLoop.Kqueue.Changes.{
  wants, wants-zero, both_changed, both_deleted, deletions-CanDelete, wants_flags,
}

module _ (kernel : Kernel) (laws : KernelLaws kernel) where
  abbrev pub interest_at : ℕ → Reactor kernel → ℕ
  interest_at k r = mask_of (find k r.interest)

  -- The kernel has just the filters registered that the table asks for.
  abbrev pub Agrees : Reactor kernel → Type 0
  Agrees r = (k : ℕ) (g : Filter) → kernel.registered r.world k g ≡ wants g (interest_at k r)

  submit-makes :
      (cs : List Change) (w w' : kernel.World) (k : ℕ) (g : Filter)
      → submit kernel cs w ≡ (true, w')
      → kernel.registered w' k g ≡ changed cs k g (kernel.registered w k g)
  submit-makes [] w w' k g e = ap (λ (p : Bool × kernel.World). kernel.registered p.1 k g) (sym e)
  submit-makes (c ∷ cs) w w' k g e = laws.makes w w' (c ∷ cs) k g e

  interest_at-with_interest :
      (fd mask k : ℕ) (r : Reactor kernel)
      → interest_at k (with_interest kernel fd mask r) ≡ (if fd == k then mask else interest_at k r)
  interest_at-with_interest fd mask k r =
      ground (arith, find-assign fd k mask r.interest, find-erase fd k r.interest)

  -- A call that succeeds has made its changes.
  modify_interest-made :
      (fd mask : ℕ) (r r' : Reactor kernel)
      → modify_interest kernel fd mask r ≡ (true, r')
      → (w : kernel.World) × (submit kernel (changes fd mask (interest_at fd r)) r.world
          ≡ (true, w))
        × (with_interest kernel fd mask (record r { world = w }) ≡ r')
  unfolding modify_interest
  modify_interest-made fd mask r r' e =
      go (submit kernel (changes fd mask (interest_at fd r)) r.world) refl e
    where
      go :
          (p : Bool × kernel.World)
          → submit kernel (changes fd mask (interest_at fd r)) r.world ≡ p
          → ◌≡◌ {A = Bool × Reactor kernel}
              (if p.0
                then (true, with_interest kernel fd mask (record r { world = p.1 }))
                else (false, record r { world = p.1 }))
              (true, r')
          → (w : kernel.World) × (submit kernel (changes fd mask (interest_at fd r)) r.world
              ≡ (true, w))
            × (with_interest kernel fd mask (record r { world = w }) ≡ r')
      go (true, w) s e = (w, s, ap (λ (q : Bool × Reactor kernel). q.1) e)
      go (false, w) s e = cc

  world-with_interest :
      (fd mask : ℕ) (r : Reactor kernel) → (with_interest kernel fd mask r).world ≡ r.world
  world-with_interest fd mask r = ground arith

  registered-changes :
      (fd mask : ℕ) (r : Reactor kernel) (w : kernel.World)
      → Agrees r
      → submit kernel (changes fd mask (interest_at fd r)) r.world ≡ (true, w)
      → (k : ℕ) (g : Filter)
      → kernel.registered w k g ≡ wants g (if fd == k then mask else interest_at k r)
  registered-changes fd mask r w agrees made k read =
      let same : (fd == k) ≡ true → interest_at fd r ≡ interest_at k r =
        λ e. ap (λ n. interest_at n r) ((==_iff fd k).0 e) in
      submit-makes (changes fd mask (interest_at fd r)) r.world w k read made
      ∙ both_changed fd k read (has_readable mask) (has_readable (interest_at fd r))
          (has_writable mask) (has_writable (interest_at fd r)) _
          (λ e. agrees k read ∙ ap (wants read) (sym (same e)))
      ∙ ground (arith, agrees k read)
  registered-changes fd mask r w agrees made k write =
      let same : (fd == k) ≡ true → interest_at fd r ≡ interest_at k r =
        λ e. ap (λ n. interest_at n r) ((==_iff fd k).0 e) in
      submit-makes (changes fd mask (interest_at fd r)) r.world w k write made
      ∙ both_changed fd k write (has_readable mask) (has_readable (interest_at fd r))
          (has_writable mask) (has_writable (interest_at fd r)) _
          (λ e. agrees k write ∙ ap (wants write) (sym (same e)))
      ∙ ground (arith, agrees k write)

  modify_interest-keeps :
      (fd mask : ℕ) (r r' : Reactor kernel)
      → Agrees r
      → modify_interest kernel fd mask r ≡ (true, r')
      → Agrees r' × ((k : ℕ) → interest_at k r' ≡ (if fd == k then mask else interest_at k r))
  modify_interest-keeps fd mask r r' agrees e =
      let (w, made, same) = modify_interest-made fd mask r r' e in
      subst
        (λ r'.
          Agrees r' × ((k : ℕ) → interest_at k r' ≡ (if fd == k then mask else interest_at k r)))
        same
        (
          (λ k g.
              rw
                (
                  world-with_interest fd mask (record r { world = w }),
                  interest_at-with_interest fd mask k (record r { world = w }),
                )
                (registered-changes fd mask r w agrees made k g)),
          λ k. interest_at-with_interest fd mask k (record r { world = w }),
        )

  submit-deletes :
      (cs : List Change) (w : kernel.World)
      → CanDelete (kernel.registered w) cs
      → submit kernel cs w ≡ (true, (submit kernel cs w).1)
  submit-deletes [] w can = refl
  submit-deletes (c ∷ cs) w can =
      ap {B = Bool × kernel.World} (λ ok. (ok, (kernel.kevent w (c ∷ cs)).1))
        (laws.deletes w (c ∷ cs) can)

  -- The reactor without a descriptor.
  abbrev without : ℕ → Reactor kernel → Reactor kernel
  without fd r = record {
    interest = erase fd r.interest;
    world = (submit kernel (deletions fd (interest_at fd r)) r.world).1;
  }

  interest_at-without :
      (fd k : ℕ) (r : Reactor kernel)
      → interest_at k (without fd r) ≡ (if fd == k then 0 else interest_at k r)
  interest_at-without fd k r = ground (arith, find-erase fd k r.interest)

  without-Agrees : (fd : ℕ) (r : Reactor kernel) → Agrees r → Agrees (without fd r)
  without-Agrees fd r agrees k g =
      let prev = interest_at fd r in
      let can =
        deletions-CanDelete fd (has_readable prev) (has_writable prev) (kernel.registered r.world)
          (agrees fd read) (agrees fd write) in
      submit-makes (deletions fd prev) r.world _ k g
        (submit-deletes (deletions fd prev) r.world can)
      ∙ both_deleted fd k g (has_readable prev) (has_writable prev) _
          (λ e. here g ((==_iff fd k).0 e))
      ∙ rw (interest_at-without fd k r) (elim (Bool-cases (fd == k)) [
        | inl e ↦ rw e (sym (wants-zero g))
        | inr other ↦ rw other (agrees k g)
      ])
    where
      here :
          (g : Filter)
          → fd ≡ k
          → kernel.registered r.world k g ≡ (elim g [
            | read ↦ has_readable (interest_at fd r)
            | write ↦ has_writable (interest_at fd r)
          ])
      here read e = agrees k read ∙ ap (λ n. has_readable (interest_at n r)) (sym e)
      here write e = agrees k write ∙ ap (λ n. has_writable (interest_at n r)) (sym e)

  remove_interest-keeps :
      (fd : ℕ) (r r' : Reactor kernel)
      → Agrees r
      → remove_interest kernel fd r ≡ (true, r')
      → Agrees r' × ((k : ℕ) → interest_at k r' ≡ (if fd == k then 0 else interest_at k r))
  unfolding remove_interest
  remove_interest-keeps fd r r' agrees e =
      subst
        (λ r'. Agrees r' × ((k : ℕ) → interest_at k r' ≡ (if fd == k then 0 else interest_at k r)))
        (ap (λ (q : Bool × Reactor kernel). q.1) e)
        (without-Agrees fd r agrees, λ k. interest_at-without fd k r)

  flags_at :
      (fd mask k : ℕ) (r r' : Reactor kernel)
      → interest_at k r' ≡ (if fd == k then mask else interest_at k r)
      → interest_at k r' % 4 ≡ (if fd == k then mask % 4 else interest_at k r % 4)
  flags_at fd mask k r r' e = ground arith

  pub call_keeps :
      (c : Call) (r r' : Reactor kernel)
      → Agrees r
      → call kernel c r ≡ (true, r')
      → Agrees r' × ((k : ℕ) → interest_at k r' % 4 ≡ effect c (λ k. interest_at k r % 4) k)
  unfolding call add_interest
  call_keeps (add fd mask) r r' agrees e =
      let (agrees', set) = modify_interest-keeps fd mask r r' agrees e in
      (agrees', λ k. flags_at fd mask k r r' (set k))
  call_keeps (modify fd mask) r r' agrees e =
      let (agrees', set) = modify_interest-keeps fd mask r r' agrees e in
      (agrees', λ k. flags_at fd mask k r r' (set k))
  call_keeps (remove fd) r r' agrees e =
      let (agrees', set) = remove_interest-keeps fd r r' agrees e in
      (agrees', λ k. flags_at fd 0 k r r' (set k))

  abbrev pub kqueue_backend : Backend
  kqueue_backend = record {
    State = Reactor kernel;
    call = call kernel;
    waits = λ r k. interest_at k r % 4;
    IsValid = Agrees;
    call_keeps = call_keeps;
  }

-- For a kernel with the laws of kevent, and from a reactor whose table agrees with the kernel: after any
-- calls that all succeed, the kernel has just those filters registered that the calls ask for, replayed
-- on a map from descriptors to masks, and the table still agrees with it.
pub kqueue_refines :
    (kernel : Kernel) (laws : KernelLaws kernel) (calls : List Call) (r r' : Reactor kernel)
    → Agrees kernel laws r
    → Succeeds (kqueue_backend kernel laws) calls r r'
    → Agrees kernel laws r'
      × ((k : ℕ) (g : Filter)
          → kernel.registered r'.world k g
            ≡ wants g (replay calls (λ k. interest_at kernel laws k r % 4) k))
kqueue_refines kernel laws calls r r' agrees run =
    let (agrees', reads) = Succeeds-refines (kqueue_backend kernel laws) calls r r' agrees run in
    (
      agrees',
      λ k g.
          agrees' k g ∙ sym (wants_flags g (interest_at kernel laws k r')) ∙ ap (wants g) (reads k),
    )
