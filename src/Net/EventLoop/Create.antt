-- ===== src/Net/EventLoop/Create.antt =====
-- EventLoop::create of src/net/event_loop.cpp.
use high_performance_http_se.Common.{Option, none, some}
use high_performance_http_se.Net.EventLoop.Promise.{Backend}
use high_performance_http_se.Net.EventLoop.Epoll
use high_performance_http_se.Net.EventLoop.Epoll.Refines.{epoll_backend}
use high_performance_http_se.Net.EventLoop.Kqueue
use high_performance_http_se.Net.EventLoop.Kqueue.Refines.{kqueue_backend}

-- The platforms that the preprocessor asks for, and any other.
pub data Platform : Type 0 where
  linux apple free_bsd net_bsd open_bsd unsupported : Platform

module _ (ep : Epoll.Kernel) (ep_laws : Epoll.KernelLaws ep) (kq : Kqueue.Kernel)
    (kq_laws : Kqueue.KernelLaws kq) where
  -- The backend that is compiled in; without one, the program is not compiled.
  unfoldable pub create : Platform → Option Backend
  create linux = some (epoll_backend ep ep_laws)
  create apple = some (kqueue_backend kq kq_laws)
  create free_bsd = some (kqueue_backend kq kq_laws)
  create net_bsd = some (kqueue_backend kq kq_laws)
  create open_bsd = some (kqueue_backend kq kq_laws)
  create unsupported = none
