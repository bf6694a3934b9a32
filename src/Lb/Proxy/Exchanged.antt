-- ===== src/Lb/Proxy/Exchanged.antt =====
-- When the exchange with an upstream has a response for the client: the whole of one has been read.
use high_performance_http_se.Common.{
  ℕ, zero, suc, ◌≡◌, refl, Bool, true, false, ◌∷◌, none, some, Bytes, not, if◌then◌else◌,
}
use high_performance_http_se.Http.Message.{HttpRequest, HttpResponse}
use high_performance_http_se.Http.Incremental.{ParseStatus}
use high_performance_http_se.Http.Response
use high_performance_http_se.Http.Response.{HttpResponseParser}
use high_performance_http_se.Net.Sys.{Sys, RecvAnswer, received, closed, failed}
use high_performance_http_se.Lb.UpstreamPool.{Upstream}
use high_performance_http_se.Lb.Proxy.{
  forward_text, Relayed, after_read_status, after_read, read_response, send_all, exchange,
}

module _ (sys : Sys) (fd capacity : ℕ) where
  -- Reads of at least one byte each, of which the last, and none before it, makes the response complete.
  pub data ReadsWhole : HttpResponseParser → sys.World → HttpResponse → sys.World → Type 0 where
    last_read :
        (p q : HttpResponseParser) (w w1 : sys.World) (b : ℕ) (bytes : Bytes)
        → sys.recv w fd capacity ≡ (received b bytes, w1)
        → Response.consume p (b ∷ bytes) ≡ (q, ParseStatus.complete)
        → ReadsWhole p w q.message w1
    then_reads :
        (p q : HttpResponseParser) (w w1 w2 : sys.World) (r : HttpResponse) (b : ℕ) (bytes : Bytes)
        → sys.recv w fd capacity ≡ (received b bytes, w1)
        → Response.consume p (b ∷ bytes) ≡ (q, ParseStatus.need_more_data)
        → ReadsWhole q w1 r w2
        → ReadsWhole p w r w2

  after_read_status-ReadsWhole :
      (k : HttpResponseParser → sys.World → Relayed sys) (p : HttpResponseParser)
      (w w1 w2 : sys.World) (r : HttpResponse) (b : ℕ) (bytes : Bytes)
      (o : HttpResponseParser × ParseStatus)
      → ((q : HttpResponseParser) → k q w1 ≡ (some r, w2) → ReadsWhole q w1 r w2)
      → sys.recv w fd capacity ≡ (received b bytes, w1)
      → Response.consume p (b ∷ bytes) ≡ o
      → after_read_status sys k o w1 ≡ (some r, w2)
      → ReadsWhole p w r w2
  after_read_status-ReadsWhole k p w w1 w2 r b bytes (q, ParseStatus.need_more_data) later e s out =
      then_reads p q w w1 w2 r b bytes e s (later q out)
  after_read_status-ReadsWhole k p w w1 w2 r b bytes (q, ParseStatus.complete) later e s out =
      let same : q.message ≡ r = cc in
      let then_is : w1 ≡ w2 = cc in rw (← same, ← then_is) (last_read p q w w1 b bytes e s)
  after_read_status-ReadsWhole k p w w1 w2 r b bytes (q, ParseStatus.error) later e s out =
      absurd (cc)

  after_read-ReadsWhole :
      (k : HttpResponseParser → sys.World → Relayed sys) (p : HttpResponseParser) (w w2 : sys.World)
      (r : HttpResponse) (a : RecvAnswer × sys.World)
      → ((q : HttpResponseParser) (w1 : sys.World) → k q w1 ≡ (some r, w2) → ReadsWhole q w1 r w2)
      → sys.recv w fd capacity ≡ a
      → after_read sys k p a ≡ (some r, w2)
      → ReadsWhole p w r w2
  after_read-ReadsWhole k p w w2 r (received b bytes, w1) later e out =
      after_read_status-ReadsWhole k p w w1 w2 r b bytes _ (λ q. later q w1) e refl out
  after_read-ReadsWhole k p w w2 r (closed, w1) later e out = absurd (cc)
  after_read-ReadsWhole k p w w2 r (RecvAnswer.would_block, w1) later e out = absurd (cc)
  after_read-ReadsWhole k p w w2 r (failed, w1) later e out = absurd (cc)

  pub read_response-ReadsWhole :
      (reads : ℕ) (p : HttpResponseParser) (w w2 : sys.World) (r : HttpResponse)
      → read_response sys reads fd capacity p w ≡ (some r, w2)
      → ReadsWhole p w r w2
  unfolding read_response
  read_response-ReadsWhole zero p w w2 r out = absurd (cc)
  read_response-ReadsWhole (suc reads) p w w2 r out =
      after_read-ReadsWhole (read_response sys reads fd capacity) p w w2 r _
        (λ q w1. read_response-ReadsWhole reads q w1 w2 r) refl out

module _ (sys : Sys) where
  -- What `inet_pton` leaves in the address; it stays zero where that fails.
  abbrev pub address_of : Upstream → sys.Address
  address_of u = elim (sys.parse_address u.host) [ none ↦ sys.zero_address | some a ↦ a ]

  -- Connected, sent whole, and answered with a whole response.
  pub record Exchanged (fd : ℕ) (u : Upstream) (req : HttpRequest) (w : sys.World)
      (r : HttpResponse) : Type 0 where
    pub connected_to : sys.World
    pub sent_to : sys.World
    pub read_to : sys.World
    pub connects : sys.connect w fd (address_of u) u.port ≡ (true, connected_to)
    pub sends : send_all sys fd (forward_text req) connected_to ≡ (true, sent_to)
    pub reads_whole : ReadsWhole sys fd 8192 Response.new_parser sent_to r read_to

  pub exchange-Exchanged :
      (reads fd : ℕ) (u : Upstream) (req : HttpRequest) (w w2 : sys.World) (r : HttpResponse)
      → exchange sys reads fd u req w ≡ (some r, w2)
      → Exchanged fd u req w r
  unfolding exchange
  exchange-Exchanged reads fd u req w w2 r out =
      go (sys.connect w fd (address_of u) u.port) refl out
    where
      go :
          (a : Bool × sys.World)
          → sys.connect w fd (address_of u) u.port ≡ a
          → (let (connected, w1) = a in
              let (all_sent, w3) = send_all sys fd (forward_text req) w1 in
              if not connected
              then (none, w1)
              else if not all_sent
              then (none, w3)
              else read_response sys reads fd 8192 Response.new_parser w3)
            ≡ (some r, w2)
          → Exchanged fd u req w r
      go (false, w1) e out = absurd (cc)
      go (true, w1) e out = sent_all (send_all sys fd (forward_text req) w1) refl out
        where
          sent_all :
              (a : Bool × sys.World)
              → send_all sys fd (forward_text req) w1 ≡ a
              → (if not a.0
                  then (none, a.1)
                  else read_response sys reads fd 8192 Response.new_parser a.1)
                ≡ (some r, w2)
              → Exchanged fd u req w r
          sent_all (false, w3) e' out = absurd (cc)
          sent_all (true, w3) e' out = record {
            connected_to = w1;
            sent_to = w3;
            read_to = w2;
            connects = e;
            sends = e';
            reads_whole =
                read_response-ReadsWhole sys fd 8192 reads Response.new_parser w3 w2 r out;
          }
