-- ===== src/Lb/Proxy.antt =====
-- LoadBalancer::proxyRequest of src/loadbalancer/load_balancer.cpp, and what handleClientEvent does
-- with a complete request.
pub mod ForwardText
pub mod Forward
pub mod Closing
pub mod Exchanged
pub mod Answers
pub mod Relay
pub mod Through
use high_performance_http_se.Common.{
  ℕ, zero, suc, ◌+◌, Bool, true, false, not, [], ◌∷◌, ◌++◌, Option, none, some, Bytes, codes,
  bytes_eq, ◌==◌, ◌||◌, ltb, if◌then◌else◌, length, drop, get_elem?,
}
use high_performance_http_se.Http.Text.{crlf, to_lower}
use high_performance_http_se.Http.Number.{pos}
use high_performance_http_se.Http.Message.{
  Header, HeaderList, HttpRequest, HttpResponse, header_line, serialize, make_json_response,
}
use high_performance_http_se.Http.Incremental.{ParseStatus}
use high_performance_http_se.Http.Response
use high_performance_http_se.Http.Response.{HttpResponseParser}
use high_performance_http_se.Net.Sys.{Sys, SendAnswer, sent, RecvAnswer, received}
use high_performance_http_se.Net.Connection.{
  Connection, queue_write, set_pending_keep_alive, flush_write,
}
use high_performance_http_se.Net.Serving.{Handling, wait_writable, rearm_for, reset_parser}
use high_performance_http_se.Lb.UpstreamPool.{Upstream, UpstreamPool, pick_next}

-- What `c_str()` shows of a string.
unfoldable pub c_string : Bytes → Bytes
c_string [] = []
c_string (b ∷ s) = if b == 0 then [] else b ∷ c_string s

-- `strcasecmp(k.c_str(), "connection") == 0`
unfoldable pub is_connection : Bytes → Bool
is_connection k = bytes_eq (to_lower (c_string k)) (codes "connection")

abbrev pub close_line : Bytes
close_line = codes "Connection: close" ++ crlf

-- The header lines, and `sawConnection`.
unfoldable pub forward_headers : Bytes → Bool → HeaderList → Bytes × Bool
forward_headers out saw [] = (out, saw)
forward_headers out saw ((k, v) ∷ headers) =
    forward_headers (out ++ (if is_connection k then close_line else header_line (k, v)))
      (is_connection k || saw) headers

-- The text that is sent to the upstream.
unfoldable pub forward_text : HttpRequest → Bytes
forward_text req =
    let start = req.method ++ (codes " " ++ (req.target ++ (codes " " ++ (req.version ++ crlf)))) in
    let (out, saw) = forward_headers start false req.headers in
    (if not saw then out ++ close_line else out) ++ (crlf ++ req.body)

abbrev pub bad_gateway : Bytes → HttpResponse
bad_gateway json = make_json_response (pos 502) (codes "Bad Gateway") json

module _ (sys : Sys) where
  -- A round of `sendAll` behind its `send`; `offset` is what has been sent.
  abbrev pub after_send_part :
      (ℕ → sys.World → Bool × sys.World) → ℕ → SendAnswer × sys.World → Bool × sys.World
  after_send_part k offset (sent zero, w) = (false, w)
  after_send_part k offset (sent (suc n), w) = k (offset + suc n) w
  after_send_part k offset (SendAnswer.would_block, w) = (false, w)
  after_send_part k offset (SendAnswer.failed, w) = (false, w)

  -- Each round that goes on sends a byte, so the length of the data bounds the rounds.
  unfoldable pub send_loop : ℕ → ℕ → Bytes → ℕ → sys.World → Bool × sys.World
  send_loop zero fd bytes offset w = (false, w)
  send_loop (suc fuel) fd bytes offset w =
      let round =
        after_send_part (send_loop fuel fd bytes) offset (sys.send w fd (drop offset bytes)) in
      if ltb offset (length bytes) then round else (true, w)

  unfoldable pub send_all : ℕ → Bytes → sys.World → Bool × sys.World
  send_all fd bytes w = send_loop (suc (length bytes)) fd bytes 0 w

  abbrev pub Relayed : Type 0
  Relayed = Option HttpResponse × sys.World

  -- A round of the loop that reads the response, behind its `recv`.
  abbrev pub after_read_status :
      (HttpResponseParser → sys.World → Relayed)
      → HttpResponseParser × ParseStatus
      → sys.World
      → Relayed
  after_read_status k (p, ParseStatus.need_more_data) w = k p w
  after_read_status k (p, ParseStatus.complete) w = (some p.message, w)
  after_read_status k (p, ParseStatus.error) w = (none, w)

  abbrev pub after_read :
      (HttpResponseParser → sys.World → Relayed)
      → HttpResponseParser
      → RecvAnswer × sys.World
      → Relayed
  after_read k p (received b bytes, w) = after_read_status k (Response.consume p (b ∷ bytes)) w
  after_read k p (RecvAnswer.closed, w) = (none, w)
  after_read k p (RecvAnswer.would_block, w) = (none, w)
  after_read k p (RecvAnswer.failed, w) = (none, w)

  -- `for (;;)`, with a buffer of `capacity` bytes. The source sets no bound on the reads; `reads` is
  -- one, and a run of the loop that ends is the one at any greater bound.
  unfoldable pub read_response : ℕ → ℕ → ℕ → HttpResponseParser → sys.World → Relayed
  read_response zero fd capacity p w = (none, w)
  read_response (suc reads) fd capacity p w =
      after_read (read_response reads fd capacity) p (sys.recv w fd capacity)

  -- From `connect` on.
  unfoldable pub exchange : ℕ → ℕ → Upstream → HttpRequest → sys.World → Relayed
  exchange reads ufd upstream req w =
      let address : sys.Address = elim (sys.parse_address upstream.host) [
        | none ↦ sys.zero_address
        | some a ↦ a
      ] in
      let (connected, w1) = sys.connect w ufd address upstream.port in
      let (all_sent, w2) = send_all ufd (forward_text req) w1 in
      if not connected
      then (none, w1)
      else if not all_sent
      then (none, w2)
      else read_response reads ufd 8192 Response.new_parser w2

  -- The end of `proxyRequest`.
  abbrev pub answer_client : Connection → Option HttpResponse → Connection × Bool
  answer_client c none = (
    queue_write (set_pending_keep_alive c c.parser.message.keep_alive) (
        serialize (record (bad_gateway (codes "{\"error\":\"upstream request failed\"}")) {
          keep_alive = c.parser.message.keep_alive;
        })),
    false,
  )
  answer_client c (some resp) = (
    queue_write (set_pending_keep_alive c c.parser.message.keep_alive)
        (serialize (record resp { keep_alive = c.parser.message.keep_alive })),
    true,
  )

  abbrev pub refuse_client : Connection → Bytes → Connection × Bool
  refuse_client c json = (
    queue_write (set_pending_keep_alive c false)
        (serialize (record (bad_gateway json) { keep_alive = false })),
    false,
  )

  abbrev pub Proxied : Type 0
  Proxied = (Connection × Bool) × sys.World

  -- From `socket` on.
  unfoldable pub proxy_to : ℕ → Upstream → Connection → sys.World → Proxied
  proxy_to reads upstream c w = elim (sys.socket w).0 [
    | none ↦ (refuse_client c (codes "{\"error\":\"upstream connect failed\"}"), (sys.socket w).1)
    | some ufd ↦
        let (resp, w') = exchange reads ufd upstream c.parser.message (sys.socket w).1 in
        (answer_client c resp, sys.close w' ufd)
  ]

  -- The upstream at the index that `pickNext` answers.
  abbrev pub picked : UpstreamPool → Option Upstream
  picked pool = elim (pick_next pool).1 [ none ↦ none | some k ↦ get_elem? pool.upstreams k ]

  -- The pool is shared by the workers; the call leaves it with its index moved on.
  unfoldable pub proxy_request : ℕ → UpstreamPool → Connection → sys.World → UpstreamPool × Proxied
  proxy_request reads pool c w = elim (picked pool) [
    | none ↦
        ((pick_next pool).0, (refuse_client c (codes "{\"error\":\"no healthy upstream\"}"), w))
    | some upstream ↦ ((pick_next pool).0, proxy_to reads upstream c w)
  ]

  -- What handleClientEvent does with a complete request.
  unfoldable pub serve_client :
      ℕ → UpstreamPool → Connection → sys.World → UpstreamPool × Handling sys
  serve_client reads pool c w =
      let (pool', ((queued, ok), w1)) = proxy_request reads pool c w in
      let (c', flushed, w2) = flush_write sys queued w1 in
      (
        pool',
        if not flushed
            then (c', w2, wait_writable)
            else (reset_parser sys c', w2, rearm_for sys c'.pending_keep_alive),
      )
