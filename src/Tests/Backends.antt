-- ===== src/Tests/Backends.antt =====
-- The event loop backends on small kernels that keep the laws.
use high_performance_http_se.Common.{
  ℕ, ◌≡◌, refl, ap, sym, Bool, true, false, not, List, [], ◌∷◌, Option, none, ◌==◌, if◌then◌else◌,
  is_some,
}
use high_performance_http_se.Common.Table.{find, assign}
use high_performance_http_se.Net.EventLoop.{Call, add, modify}
use high_performance_http_se.Net.EventLoop.Promise.{Succeeds, done, then_call, replay}
use high_performance_http_se.Net.EventLoop.Epoll
use high_performance_http_se.Net.EventLoop.Epoll.{Operation, ctl_add, ctl_mod, ctl_del, outcome}
use high_performance_http_se.Net.EventLoop.Epoll.Refines.{
  epoll_backend, epoll_refines, interest_at as epoll_at,
}
use high_performance_http_se.Net.EventLoop.Kqueue
use high_performance_http_se.Net.EventLoop.Kqueue.{
  Change, Filter, read, write, changed, KernelEvent, merge,
}
use high_performance_http_se.Net.EventLoop.Kqueue.Changes.{wants}
use high_performance_http_se.Net.EventLoop.Kqueue.Refines.{kqueue_backend, kqueue_refines, Agrees}
use high_performance_http_se.Net.EventLoop.Alike.{backends_alike}

-- Its world is the set of the registered filters, and every list of changes is taken.
abbrev small_kqueue : Kqueue.Kernel
small_kqueue = record {
  World = ℕ → Filter → Bool;
  kevent = λ w cs. (true, λ fd f. changed cs fd f (w fd f));
  registered = λ w. w;
}

small_kqueue_laws : Kqueue.KernelLaws small_kqueue
small_kqueue_laws = record {
  makes = λ w w' cs fd f e. ap (λ (p : Bool × (ℕ → Filter → Bool)). p.1 fd f) (sym e);
  deletes = λ w cs can. refl;
}

abbrev pub taken : Operation → Option ℕ → Bool
taken (ctl_add events) old = not (is_some old)
taken (ctl_mod events) old = is_some old
taken ctl_del old = is_some old

-- Its world is the events of each registered descriptor.
abbrev pub ctl : (ℕ → Option ℕ) → Operation → ℕ → Bool × (ℕ → Option ℕ)
ctl w op fd =
    if taken op (w fd) then (true, λ k. if fd == k then outcome op else w k) else (false, w)

abbrev pub small_epoll : Epoll.Kernel
small_epoll = record { World = ℕ → Option ℕ; epoll_ctl = ctl; registered = λ w. w }

makes :
    (b : Bool) (w w' : ℕ → Option ℕ) (op : Operation) (fd k : ℕ)
    → ◌≡◌ {A = Bool × (ℕ → Option ℕ)}
        (if b then (true, λ k. if fd == k then outcome op else w k) else (false, w))
        (true, w')
    → w' k ≡ (if fd == k then outcome op else w k)
makes true w w' op fd k e = ap (λ (p : Bool × (ℕ → Option ℕ)). p.1 k) (sym e)
makes false w w' op fd k e = cc

keeps :
    (b : Bool) (w w' : ℕ → Option ℕ) (op : Operation) (fd k : ℕ)
    → ◌≡◌ {A = Bool × (ℕ → Option ℕ)}
        (if b then (true, λ k. if fd == k then outcome op else w k) else (false, w))
        (false, w')
    → w' k ≡ w k
keeps true w w' op fd k e = cc
keeps false w w' op fd k e = ap (λ (p : Bool × (ℕ → Option ℕ)). p.1 k) (sym e)

pub small_epoll_laws : Epoll.KernelLaws small_epoll
small_epoll_laws = record {
  makes = λ w w' op fd k e. makes (taken op (w fd)) w w' op fd k e;
  keeps = λ w w' op fd k e. keeps (taken op (w fd)) w w' op fd k e;
  add_known = λ w fd events old known. rw known;
  mod_unknown = λ w fd events unknown. rw unknown;
  mod_known = λ w fd events old known. rw known;
}

abbrev some_calls : List Call
some_calls = add 4 1 ∷ modify 4 2 ∷ []

abbrev kqueue_start : Kqueue.Reactor small_kqueue
kqueue_start = record { interest = []; world = λ fd f. false }

abbrev kqueue_mid : Kqueue.Reactor small_kqueue
kqueue_mid = (Kqueue.call small_kqueue (add 4 1) kqueue_start).1

abbrev kqueue_end : Kqueue.Reactor small_kqueue
kqueue_end = (Kqueue.call small_kqueue (modify 4 2) kqueue_mid).1

kqueue_start-Agrees : Agrees small_kqueue small_kqueue_laws kqueue_start
unfolding find
kqueue_start-Agrees k read = refl
kqueue_start-Agrees k write = refl

kqueue_run :
    Succeeds (kqueue_backend small_kqueue small_kqueue_laws) some_calls kqueue_start kqueue_end
unfolding Kqueue.call Kqueue.modify_interest Kqueue.add_interest find assign
kqueue_run =
    then_call (add 4 1) (modify 4 2 ∷ []) kqueue_start kqueue_mid kqueue_end refl
      (then_call (modify 4 2) [] kqueue_mid kqueue_end kqueue_end refl (done kqueue_end))

kqueue_refines_example :
    Agrees small_kqueue small_kqueue_laws kqueue_end
    × ((k : ℕ) (g : Filter)
        → small_kqueue.registered kqueue_end.world k g ≡ wants g (replay some_calls (λ k. 0) k))
unfolding find
kqueue_refines_example =
    kqueue_refines small_kqueue small_kqueue_laws some_calls kqueue_start kqueue_end
      kqueue_start-Agrees kqueue_run

abbrev pub epoll_start : ℕ → Option ℕ
epoll_start k = none

abbrev epoll_mid : ℕ → Option ℕ
epoll_mid = (Epoll.call small_epoll (add 4 1) epoll_start).1

abbrev epoll_end : ℕ → Option ℕ
epoll_end = (Epoll.call small_epoll (modify 4 2) epoll_mid).1

epoll_run : Succeeds (epoll_backend small_epoll small_epoll_laws) some_calls epoll_start epoll_end
unfolding Epoll.call Epoll.modify_interest Epoll.add_interest
epoll_run =
    then_call (add 4 1) (modify 4 2 ∷ []) epoll_start epoll_mid epoll_end refl
      (then_call (modify 4 2) [] epoll_mid epoll_end epoll_end refl (done epoll_end))

epoll_refines_example :
    epoll_at small_epoll small_epoll_laws 4 epoll_end ≡ replay some_calls (λ k. 0) 4
epoll_refines_example =
    epoll_refines small_epoll small_epoll_laws some_calls epoll_start epoll_end epoll_run 4

backends_alike_example :
    small_kqueue.registered kqueue_end.world 4 write
    ≡ wants write (epoll_at small_epoll small_epoll_laws 4 epoll_end)
unfolding find
backends_alike_example =
    backends_alike small_kqueue small_kqueue_laws small_epoll small_epoll_laws some_calls
      kqueue_start kqueue_end epoll_start epoll_end kqueue_start-Agrees (λ k. refl) kqueue_run
      epoll_run 4 write
