-- ===== src/Lb/Proxy/Relay.antt =====
-- What the client is sent when the upstream has answered.
use high_performance_http_se.Common.{
  ℕ, zero, suc, ◌<◌, ◌≡◌, refl, sym, ap, ◌∙◌, inl, inr, Bool, true, List, [], ◌∷◌, ◌++◌, some,
  Bytes, length, append-nil, arith, is_some, Option-cases, Bool-cases,
}
use high_performance_http_se.Http.Message.{
  HttpResponse, HeaderList, find_header, serialize, connection_text, same_name,
}
use high_performance_http_se.Http.Message.Lookup.{find_header-append}
use high_performance_http_se.Http.Message.Serialize.{
  sent_headers, added_length, added_connection, connection_name, content_length_name,
  serialize-parts,
}
use high_performance_http_se.Http.Incremental.{ParseStatus}
use high_performance_http_se.Http.Incremental.Chunks.{consume-append, resume}
use high_performance_http_se.Http.Incremental.{append_bytes}
use high_performance_http_se.Http.Response
use high_performance_http_se.Http.Response.{HttpResponseParser, response_format}
use high_performance_http_se.Http.Response.RoundTrip.{
  IsSendable, received, parser_with, consume-serialize,
}
use high_performance_http_se.Net.Sys.{Sys, RecvAnswer}
use high_performance_http_se.Net.Connection.{Connection}
use high_performance_http_se.Lb.Proxy.{answer_client, Relayed, after_read_status, read_response}

-- A read of at least one byte.
abbrev pub Chunk : Type 0
Chunk = ℕ × Bytes

abbrev pub joined : List Chunk → Bytes
joined [] = []
joined ((b, bytes) ∷ chunks) = (b ∷ bytes) ++ joined chunks

module _ (sys : Sys) (fd capacity : ℕ) where
  -- The reads from `w` on answer the chunks one by one.
  abbrev pub Delivers : sys.World → List Chunk → Type 0
  Delivers w [] = Unit {0}
  Delivers w ((b, bytes) ∷ chunks) =
      (w' : sys.World) × (sys.recv w fd capacity ≡ (RecvAnswer.received b bytes, w'))
      × Delivers w' chunks

  read_response-one :
      (reads : ℕ) (p : HttpResponseParser) (w w' : sys.World) (b : ℕ) (bytes : Bytes)
      → sys.recv w fd capacity ≡ (RecvAnswer.received b bytes, w')
      → read_response sys (suc reads) fd capacity p w
        ≡ after_read_status sys
            (read_response sys reads fd capacity)
            (Response.consume p (b ∷ bytes))
            w'
  unfolding read_response
  read_response-one reads p w w' b bytes e = rw (read_response, e)

  -- The first read decides, or the rest of the text does.
  after_read_status-message :
      (k : HttpResponseParser → sys.World → Relayed sys) (w : sys.World) (rest : Bytes)
      (q : HttpResponseParser) (o : HttpResponseParser × ParseStatus)
      → resume response_format rest o ≡ (q, ParseStatus.complete)
      → ((p : HttpResponseParser)
          → Response.consume p rest ≡ (q, ParseStatus.complete)
          → (k p w).0 ≡ some q.message)
      → (after_read_status sys k o w).0 ≡ some q.message
  unfolding resume append_bytes
  after_read_status-message k w rest q (p, ParseStatus.need_more_data) e later = later p e
  after_read_status-message k w rest q (p, ParseStatus.complete) e later =
      ap (λ (r : HttpResponseParser × ParseStatus). some r.0.message) e
  after_read_status-message k w rest q (p, ParseStatus.error) e later = cc

  -- However the text is cut into reads, the loop answers the message that the whole text gives.
  pub read_response-joined :
      (c : Chunk) (chunks : List Chunk) (reads : ℕ) (p q : HttpResponseParser) (w : sys.World)
      → length chunks < reads
      → Delivers w (c ∷ chunks)
      → Response.consume p (joined (c ∷ chunks)) ≡ (q, ParseStatus.complete)
      → (read_response sys reads fd capacity p w).0 ≡ some q.message
  read_response-joined c chunks zero p q w few d whole = absurd (omega arith)
  read_response-joined (b, bytes) [] (suc reads) p q w few (w', answered, d) whole =
      let exact : Response.consume p (b ∷ bytes) ≡ (q, ParseStatus.complete) =
        ap (Response.consume p) (sym (append-nil (b ∷ bytes))) ∙ whole in
      rw (read_response-one reads p w w' b bytes answered, exact)
  read_response-joined (b, bytes) (c2 ∷ chunks) (suc reads) p q w few (w', answered, d) whole =
      rw (read_response-one reads p w w' b bytes answered) (
        after_read_status-message (read_response sys reads fd capacity) w' (joined (c2 ∷ chunks)) q
          (Response.consume p (b ∷ bytes))
          (sym (consume-append response_format p (b ∷ bytes) (joined (c2 ∷ chunks))) ∙ whole)
          (λ p'. read_response-joined c2 chunks reads p' q w' (omega arith) d))

  -- If the reads from the upstream answer, piece by piece, the text of a sendable response, and the bound
  -- on the reads is at least their number, the proxy reads that response, with the headers of the text.
  pub read_response-serialize :
      (r : HttpResponse) (c : Chunk) (chunks : List Chunk) (reads : ℕ) (w : sys.World)
      → IsSendable r
      → joined (c ∷ chunks) ≡ serialize r
      → length chunks < reads
      → Delivers w (c ∷ chunks)
      → (read_response sys reads fd capacity Response.new_parser w).0 ≡ some (received r)
  read_response-serialize r c chunks reads w ok text few d =
      read_response-joined c chunks reads Response.new_parser (parser_with r []) w few d (
        ap (Response.consume Response.new_parser) (text ∙ sym (append-nil (serialize r)))
        ∙ consume-serialize r [] ok)

-- A response with a Connection header is serialised with that header, whatever `keepAlive` says.
pub serialize-ignores_keep_alive :
    (r : HttpResponse) (a b : Bool)
    → is_some (find_header r.headers connection_name) ≡ true
    → serialize (record r { keep_alive = a }) ≡ serialize (record r { keep_alive = b })
serialize-ignores_keep_alive r a b named =
    serialize-parts (record r { keep_alive = a })
    ∙ (rw named)
    ∙ sym (serialize-parts (record r { keep_alive = b }))

added_length-connection :
    (r : HttpResponse) (more : HeaderList)
    → find_header (added_length r ++ more) connection_name ≡ find_header more connection_name
unfolding find_header same_name
added_length-connection r more =
    elim (Bool-cases (is_some (find_header r.headers content_length_name))) [
      | inl e ↦ rw e
      | inr e ↦ rw e
    ]

added_connection-connection :
    (keep_alive : Bool)
    → is_some (find_header ((connection_name, connection_text keep_alive) ∷ []) connection_name)
      ≡ true
unfolding find_header same_name
added_connection-connection keep_alive = refl

sent_headers-connection :
    (r : HttpResponse) → is_some (find_header (sent_headers r) connection_name) ≡ true
sent_headers-connection r = elim (Option-cases (find_header r.headers connection_name)) [
  | inl e ↦
      rw
        (
          find_header-append r.headers (added_length r ++ added_connection r) connection_name,
          e,
          added_length-connection r (added_connection r),
          e,
        )
        (added_connection-connection r.keep_alive)
  | inr (v, e) ↦
      rw (find_header-append r.headers (added_length r ++ added_connection r) connection_name, e)
]

-- A client whose request asks to keep the connection open, or to close it.
abbrev pub asking : Connection → Bool → Connection
asking c keep_alive = record c {
  parser = record c.parser { message = record c.parser.message { keep_alive = keep_alive } };
}

-- What is queued for the client of an upstream's response, as read back, is the same whether the
-- client's request asks to keep the connection open or to close it.
pub answer_client-ignores_keep_alive :
    (sys : Sys) (c : Connection) (r : HttpResponse) (a b : Bool)
    → (answer_client sys (asking c a) (some (received r))).0.write_buffer
      ≡ (answer_client sys (asking c b) (some (received r))).0.write_buffer
answer_client-ignores_keep_alive sys c r a b =
    ap (◌++◌ c.write_buffer)
      (serialize-ignores_keep_alive (received r) a b (sent_headers-connection r))
