-- ===== src/Lib.antt =====
-- A verification library for the HTTP server and the load balancer: a multithreaded HTTP/1.1 server
-- and a round-robin reverse proxy on raw sockets, in C++17.
--
-- Both programs run one reactor thread and a pool of workers. The reactor accepts connections and
-- waits for events; for each event it disarms the descriptor and queues a task. A worker reads, feeds
-- the connection's request parser, answers a complete request, flushes, and posts a rearm that the
-- reactor applies. The server answers from a router; the load balancer picks an upstream, sends it the
-- request, reads the response with the response parser, and relays it.
--
-- Files, and what they model (paths from the repository's root):
-- - Common: tests, lists, early return, and tables, shared by all.
-- - Http.Text, Http.Number: the text helpers of src/net/http_parser.cpp, with the operations of the C++
--   standard library that they use. A std::string is a list of bytes, npos is `none`.
-- - Http.Message: include/net/http_message.h, findHeader, serialize, makeJsonResponse.
-- - Http.Headers: parseGenericHeaderLine, contentLengthFrom, connectionKeepAlive.
-- - Http.Incremental: the state machine that HttpParser and HttpResponseParser write out twice; its
--   argument `Format` holds what they do with the start line, the headers and the body. Http.Request
--   and Http.Response are the two instances.
-- - Net.Sys: the system calls, as a record of functions on a state `World`; `SendLaws` says what is
--   relied on of send, and `RecvLaws` of recv. Net.Connection: include/net/connection.h and src/net/connection.cpp.
-- - Net.EventLoop: include/net/event_loop.h; Promise is its contract as a map from descriptors to masks,
--   and an interface that a backend fills. Epoll and Kqueue are src/net/epoll_reactor.cpp and
--   src/net/kqueue_reactor.cpp, each over a kernel that is a record of functions with the documented
--   laws of its system call; Alike compares the calls of the two. Wait is `wait` of both. Create is
--   src/net/event_loop.cpp.
-- - Net.Socket: the class Socket of src/net/socket.cpp, as numbered objects with the descriptors that they
--   hold; Opening has the functions that make descriptors, over a kernel that is a record of functions.
-- - Net.Serving: the reactor and a worker's event, which src/server/http_server.cpp and
--   src/loadbalancer/load_balancer.cpp both write out; the argument `serve` is what they do with a
--   complete request. Server.Serve and Lb.Proxy are the two instances.
-- - Net.Serving.Round: an iteration of reactorLoop, and the calls that it makes on a backend of EventLoop.
--   Stepwise puts it together from the steps of Net.Serving.Steps, and Distinct has what it needs of the events
--   that kqueue answers.
-- - Net.Serving.Exchange: the events of one connection from the first read of a request to the last send of
--   its response; Server.Serve.Session and Lb.Handler.Session use it, and Server.Serve.KeepAlive puts
--   several requests on one connection together. Malformed has the requests that the parser refuses.
-- - Net.Serving.Steps: the interleavings of the reactor and the workers as a step relation on a
--   `System`, with the rearms that the reactor has taken over, and the descriptors that are worked on;
--   the world may change between any two steps. Net.Serving.Waiting is what a connection waits for, and
--   Net.Serving.Draining how the work under way ends.
--   An event for a connection comes while its mask waits for something, or as a hang-up at mask 0, if the
--   event loop reports that: epoll does, kqueue does not, and `hang_up_unasked` of Net.Sys says which. accept
--   answers descriptors that are not open. Net.Serving.Counted, Ownership and
--   Unshared hold the proofs for an event loop without such hang-ups, and HangUp has what one does; HalfClose
--   has where kqueue and epoll part.
-- - Net.ThreadPool: include/net/thread_pool.h and src/net/thread_pool.cpp, as a step relation with the
--   tasks that have been enqueued and those that have been started.
-- - Server.Router, Server.Routes: src/server/router.cpp, and the routes of src/server/main.cpp.
-- - Common.Options: the loop over the arguments of both main functions; Server.Options and Lb.Options hold
--   what each does with an option, and parseUpstreams.
-- - Lb.UpstreamPool: src/loadbalancer/upstream_pool.cpp; its child Racing is pickNext beside a thread that
--   writes the health of upstreams. Lb.Proxy: proxyRequest and sendAll of
--   src/loadbalancer/load_balancer.cpp.
-- - Lb.Proxy.Through puts the two programs together: the forwarded text in the server's parser, its
--   routes, and its response in the balancer's parser.
-- - Lb.HealthChecker: a probe, a pass over the pool, start and stop, of src/loadbalancer/health_checker.cpp.
-- - Lb.Handler: the load balancer as an instance of Net.Serving, with the pool of upstreams in the world, since
--   the workers and the health checker share it.
-- - Lb.Descriptors: the descriptors that a proxied request and a probe open.
-- - Lifecycle: the ends of the main functions in src/server/main.cpp and src/loadbalancer/main.cpp, with
--   run, stop and the test of the loop in reactorLoop: the turns of the main thread, of the thread that
--   watches for a signal, and of signals, in any order.
-- - Tests: runs on small inputs, and the theorems at inputs that meet their hypotheses.
--
-- Bounds and fuel. The header loop takes the length of the buffer and one more, and each of its rounds
-- takes a line off the buffer. flush_write and send_all take the length of the data and one more, and
-- each of their rounds that goes on sends a byte. The source sets no bound on the reads of a response:
-- `read_response` takes one as an argument, and what is said of it is said for every bound above the
-- number of reads. The status is an int of 32 bits, a long has 64, and the index of the pool is a
-- size_t of 64 bits that wraps round.
--
-- Not modelled: mutexes and atomics (each modelled call is one step), SIGPIPE, the timeouts of sockets, and the
-- sleep of the health checker between two passes.
mod Common
pub mod Http
pub mod Lifecycle
pub mod Net
pub mod Lb
pub mod Server
mod Tests
