-- ===== src/Lb/Proxy/Answers.antt =====
-- What proxyRequest leaves for the client on each of its branches.
use high_performance_http_se.Common.{
  ℕ, ◌≡◌, ◌⊎◌, refl, inl, inr, Bool, true, false, Option, none, some, Bytes, codes, ◌++◌,
  Option-cases, ap,
}
use high_performance_http_se.Http.Number.{pos}
use high_performance_http_se.Http.Message.{HttpRequest, HttpResponse, serialize, make_json_response}
use high_performance_http_se.Net.Sys.{Sys}
use high_performance_http_se.Net.Connection.{Connection}
use high_performance_http_se.Lb.UpstreamPool.{Upstream, UpstreamPool}
use high_performance_http_se.Lb.Proxy.{
  answer_client, refuse_client, exchange, picked, proxy_to, proxy_request,
}
use high_performance_http_se.Lb.Proxy.Exchanged.{Exchanged, exchange-Exchanged}

module _ (sys : Sys) where
  -- A whole response has been read from the upstream that was picked, over a new socket.
  pub record Relays (pool : UpstreamPool) (req : HttpRequest) (w : sys.World) (r : HttpResponse)
      : Type 0 where
    pub upstream : Upstream
    pub fd : ℕ
    pub is_picked : picked sys pool ≡ some upstream
    pub opened : (sys.socket w).0 ≡ some fd
    pub exchanged : Exchanged sys fd upstream req (sys.socket w).1 r

  -- No upstream was picked, no socket opened, or the exchange gave no response.
  abbrev pub Fails : ℕ → UpstreamPool → HttpRequest → sys.World → Type 0
  Fails reads pool req w =
      (picked sys pool ≡ none)
      ⊎ (u : Upstream) × (picked sys pool ≡ some u)
        × (((sys.socket w).0 ≡ none)
            ⊎ (fd : ℕ) × ((sys.socket w).0 ≡ some fd)
              × ((exchange sys reads fd u req (sys.socket w).1).0 ≡ none))

  -- One response is queued behind what was there, and the parser, the descriptor and the offset are kept.
  -- Where the call answers true it is the upstream's, with the keep-alive flag of the request, and where it
  -- answers false a 502.
  pub record Answers (reads : ℕ) (pool : UpstreamPool) (w : sys.World) (c : Connection)
      (c' : Connection) (ok : Bool) : Type 0 where
    pub response : HttpResponse
    pub queued : c'.write_buffer ≡ c.write_buffer ++ serialize response
    pub outcome :
        ((ok ≡ true)
          × ((r : HttpResponse) × (Relays pool c.parser.message w r)
              × (response ≡ record r { keep_alive = c.parser.message.keep_alive })))
        ⊎ (ok ≡ false) × (response.status ≡ pos 502) × Fails reads pool c.parser.message w
    pub asked : c'.pending_keep_alive ≡ true → c.parser.message.keep_alive ≡ true
    pub parser_kept : c'.parser ≡ c.parser
    pub fd_kept : c'.fd ≡ c.fd
    pub offset_kept : c'.write_offset ≡ c.write_offset

  module _ (reads : ℕ) (pool : UpstreamPool) (w : sys.World) where
    refuse_client-Answers :
        (c : Connection) (json : Bytes)
        → Fails reads pool c.parser.message w
        → Answers reads pool w c (refuse_client sys c json).0 (refuse_client sys c json).1
    unfolding make_json_response
    refuse_client-Answers c json fails = record {
      response = _;
      queued = refl;
      outcome = inr (refl, refl, fails);
      asked = λ e. cc;
      parser_kept = refl;
      fd_kept = refl;
      offset_kept = refl;
    }

    answer_client-Answers :
        (u : Upstream) (fd : ℕ) (c : Connection) (o : Option HttpResponse × sys.World)
        → picked sys pool ≡ some u
        → (sys.socket w).0 ≡ some fd
        → exchange sys reads fd u c.parser.message (sys.socket w).1 ≡ o
        → Answers reads pool w c (answer_client sys c o.0).0 (answer_client sys c o.0).1
    unfolding make_json_response
    answer_client-Answers u fd c (none, w') is_picked opened e = record {
      response = _;
      queued = refl;
      outcome = inr (refl, refl, inr (u, is_picked, inr (fd, opened, ap (λ o. o.0) e)));
      asked = λ e. e;
      parser_kept = refl;
      fd_kept = refl;
      offset_kept = refl;
    }
    answer_client-Answers u fd c (some r, w') is_picked opened e = record {
      response = _;
      queued = refl;
      outcome = inl (
        refl,
        (
          r,
          record {
            upstream = u;
            fd = fd;
            is_picked = is_picked;
            opened = opened;
            exchanged = exchange-Exchanged sys reads fd u c.parser.message (sys.socket w).1 w' r e;
          },
          refl,
        ),
      );
      asked = λ e. e;
      parser_kept = refl;
      fd_kept = refl;
      offset_kept = refl;
    }

    proxy_to-Answers :
        (u : Upstream) (c : Connection)
        → picked sys pool ≡ some u
        → Answers reads pool w c (proxy_to sys reads u c w).0.0 (proxy_to sys reads u c w).0.1
    unfolding proxy_to
    proxy_to-Answers u c is_picked = elim (Option-cases (sys.socket w).0) [
      | inl e ↦
          rw (proxy_to, e)
            (refuse_client-Answers c (codes "{\"error\":\"upstream connect failed\"}")
              (inr (u, is_picked, inl e)))
      | inr (fd, e) ↦ rw (proxy_to, e) (answer_client-Answers u fd c _ is_picked e refl)
    ]

  -- Whatever the upstreams and the system calls do, proxyRequest queues exactly one response behind what
  -- was queued, and keeps the parser, the descriptor and the offset. Where it answers true, it has connected
  -- to the upstream that was picked, sent it the whole request, and read from it until the parser had a whole
  -- response, and that is the response, with the keep-alive flag of the request. Where it answers false, the
  -- response is a 502, and no upstream was picked, no socket opened, or the exchange gave no response. The
  -- connection is kept for another request only if the client's asked for that.
  pub proxy_request-Answers :
      (reads : ℕ) (pool : UpstreamPool) (c : Connection) (w : sys.World)
      → Answers reads pool w c
          (proxy_request sys reads pool c w).1.0.0
          (proxy_request sys reads pool c w).1.0.1
  unfolding proxy_request
  proxy_request-Answers reads pool c w = elim (Option-cases (picked sys pool)) [
    | inl e ↦
        rw (proxy_request, e)
          (refuse_client-Answers reads pool w c (codes "{\"error\":\"no healthy upstream\"}")
            (inl e))
    | inr (u, e) ↦ rw (proxy_request, e) (proxy_to-Answers reads pool w u c e)
  ]
