-- ===== src/Net/EventLoop/Alike.antt =====
-- The two backends against each other: the calls. What they report is not the same: at a half-close kqueue
-- sets EV_EOF, which becomes an error, and epoll reports EPOLLIN alone.
use high_performance_http_se.Common.{ℕ, ◌%◌, ◌≡◌, sym, ap, ◌∙◌, List}
use high_performance_http_se.Net.EventLoop.{Call}
use high_performance_http_se.Net.EventLoop.Promise.{Succeeds, replay-agrees}
use high_performance_http_se.Net.EventLoop.Epoll
use high_performance_http_se.Net.EventLoop.Epoll.{
  epoll_in, epoll_out, event_from, from_epoll_events,
}
use high_performance_http_se.Net.EventLoop.Epoll.Refines.{
  epoll_backend, epoll_refines, interest_at as epoll_at,
}
use high_performance_http_se.Net.EventLoop.Kqueue
use high_performance_http_se.Net.EventLoop.Kqueue.{KernelEvent, merge}
use high_performance_http_se.Net.EventLoop.Kqueue.Changes.{wants}
use high_performance_http_se.Net.EventLoop.Kqueue.Refines.{
  kqueue_backend, kqueue_refines, Agrees, interest_at as kqueue_at,
}

-- For kernels with the laws of kevent and of epoll_ctl, from a table that agrees with its kernel, and
-- from states that wait for the same: after the same calls, which all succeed on both, kqueue has just those filters registered that epoll waits for.
pub backends_alike :
    (kq : Kqueue.Kernel) (kq_laws : Kqueue.KernelLaws kq) (ep : Epoll.Kernel)
    (ep_laws : Epoll.KernelLaws ep) (calls : List Call) (r r' : Kqueue.Reactor kq) (w w' : ep.World)
    → Agrees kq kq_laws r
    → ((k : ℕ) → kqueue_at kq kq_laws k r % 4 ≡ epoll_at ep ep_laws k w)
    → Succeeds (kqueue_backend kq kq_laws) calls r r'
    → Succeeds (epoll_backend ep ep_laws) calls w w'
    → (k : ℕ) (g : Kqueue.Filter) → kq.registered r'.world k g ≡ wants g (epoll_at ep ep_laws k w')
backends_alike kq kq_laws ep ep_laws calls r r' w w' agrees start run run' k g =
    (kqueue_refines kq kq_laws calls r r' agrees run).1 k g
    ∙ ap (wants g) (
        replay-agrees calls (λ k. kqueue_at kq kq_laws k r % 4) (λ k. epoll_at ep ep_laws k w) start
          k
        ∙ sym (epoll_refines ep ep_laws calls w w' run' k))
