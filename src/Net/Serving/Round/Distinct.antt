-- ===== src/Net/Serving/Round/Distinct.antt =====
-- Over kqueue, the events of a `wait` are of different descriptors.
use high_performance_http_se.Common.{
  ℕ, ◌≤◌, ◌≡◌, ap, List, [], ◌∷◌, map, Option, none, some, ==_self, refl, ◌∙◌, length, arith,
}
use high_performance_http_se.Common.Table.{count}
use high_performance_http_se.Http.Number.{ℤ}
use high_performance_http_se.Net.EventLoop.{IoEvent}
use high_performance_http_se.Net.EventLoop.Kqueue.{KernelEvent}
use high_performance_http_se.Net.EventLoop.Kqueue.Merging.{report}
use high_performance_http_se.Net.EventLoop.Wait.{Timespec, timespec_of, kqueue_wait}
use high_performance_http_se.Net.EventLoop.Wait.Once.{
  events_of, to_list, reported, kqueue_wait-report,
}
use high_performance_http_se.Net.Serving.Round.Stepwise.{Batch, fds_of, AreDistinct}

abbrev pub answered : Batch → List IoEvent
answered events = map (λ (p : IoEvent × List ℕ). p.0) events

count-events_of :
    (fd : ℕ) (events : Batch) → count fd (fds_of events) ≡ length (events_of fd (answered events))
count-events_of fd [] = refl
count-events_of fd ((ev, accepted) ∷ events) = ground (arith, count-events_of fd events)

one_each-AreDistinct :
    (events : Batch) → ((fd : ℕ) → count fd (fds_of events) ≤ 1) → AreDistinct events
one_each-AreDistinct [] few = tt
one_each-AreDistinct ((ev, accepted) ∷ events) few = (
  ground (arith, few ev.fd, ==_self ev.fd),
  one_each-AreDistinct events (λ fd. omega (arith, few fd)),
)

length-to_list : (o : Option IoEvent) → length (to_list o) ≤ 1
length-to_list none = omega arith
length-to_list (some ev) = omega arith

pub kqueue_wait-AreDistinct :
    {World : Type 0} (kevent : World → Option Timespec → Option (List KernelEvent) × World)
    (timeout_ms : ℤ) (w : World) (events : Batch)
    → answered events ≡ (kqueue_wait kevent timeout_ms w).0.out
    → AreDistinct events
kqueue_wait-AreDistinct kevent timeout_ms w events e = one_each-AreDistinct events (λ fd.
    let o = report fd (reported (kevent w (timespec_of timeout_ms)).0) in
    let one = length-to_list o in
    let e1 : length (events_of fd (answered events)) ≡ length (to_list o) =
      ap (λ out. length (events_of fd out)) e
      ∙ ap length (kqueue_wait-report kevent timeout_ms w fd).0 in
    omega (arith, count-events_of fd events))
