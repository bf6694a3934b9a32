-- ===== src/Net/Serving/Exchange/Pieces.antt =====
-- A request that comes in pieces is served once, when the last piece is read.
use high_performance_http_se.Common.{
  ℕ, ◌≡◌, refl, sym, ap, ◌∙◌, false, List, [], ◌∷◌, ◌++◌, Bytes, length, append-nil, length-append,
  arith,
}
use high_performance_http_se.Http.Incremental.{ParseStatus, append_bytes}
use high_performance_http_se.Http.Incremental.Chunks.{consume-append, resume}
use high_performance_http_se.Http.Request
use high_performance_http_se.Http.Request.{HttpParser, request_format}
use high_performance_http_se.Net.Sys.{Sys, RecvAnswer}
use high_performance_http_se.Net.Connection.{Connection, has_pending_write}
use high_performance_http_se.Net.Serving.{Handling, Serve, after_consume, work}
use high_performance_http_se.Net.Serving.Exchange.{then_read, read_events}

-- A read of at least one byte.
abbrev pub Piece : Type 0
Piece = ℕ × Bytes

abbrev pub whole : List Piece → Bytes
whole [] = []
whole ((b, bytes) ∷ pieces) = (b ∷ bytes) ++ whole pieces

module _ (sys : Sys) (serve : Serve sys) where
  -- The reads of `fd` from `w` on answer the pieces one by one, and leave `w'`.
  abbrev pub Receives : ℕ → sys.World → List Piece → sys.World → Type 0
  Receives fd w [] w' = w ≡ w'
  Receives fd w ((b, bytes) ∷ pieces) w' =
      (w1 : sys.World) × (sys.recv w fd 8192 ≡ (RecvAnswer.received b bytes, w1))
      × Receives fd w1 pieces w'

  pub work-received :
      (c : Connection) (w w1 : sys.World) (b : ℕ) (bytes : Bytes)
      → has_pending_write c ≡ false
      → sys.recv w c.fd 8192 ≡ (RecvAnswer.received b bytes, w1)
      → work sys serve c w ≡ (
          let (p, status) = Request.consume c.parser (b ∷ bytes) in
          after_consume sys serve (record c { parser = p }) w1 status)
  unfolding work
  work-received c w w1 b bytes idle e = rw (idle, e)

  -- The rest of the pieces decides, if the first does not.
  then_read-served :
      (next : Connection → sys.World → Handling sys) (c : Connection) (w : sys.World)
      (h : Handling sys) (b : ℕ) (rest : Bytes) (q : HttpParser) (o : HttpParser × ParseStatus)
      → resume request_format (b ∷ rest) o ≡ (q, ParseStatus.complete)
      → q.buffer ≡ []
      → ((p : HttpParser)
          → Request.consume p (b ∷ rest) ≡ (q, ParseStatus.complete)
          → next (record c { parser = p }) w ≡ h)
      → then_read sys serve next (after_consume sys serve (record c { parser = o.0 }) w o.1) ≡ h
  unfolding resume append_bytes
  then_read-served next c w h b rest q (p, ParseStatus.need_more_data) e empty later = later p e
  then_read-served next c w h b rest q (p, ParseStatus.complete) e empty later =
      let over : p.buffer ++ b ∷ rest ≡ [] =
        ap (λ (o : HttpParser × ParseStatus). o.0.buffer) e ∙ empty in
      let none_over : length (p.buffer ++ b ∷ rest) ≡ 0 = ap length over in
      absurd (omega (arith, length-append p.buffer (b ∷ rest)))
  then_read-served next c w h b rest q (p, ParseStatus.error) e empty later = cc

  -- If the pieces give a complete request with no byte over, the events that read them end in the serving
  -- of that request, and not before the last.
  pub read_events-served :
      (piece : Piece) (pieces : List Piece) (c : Connection) (q : HttpParser) (w w' : sys.World)
      → has_pending_write c ≡ false
      → Receives c.fd w (piece ∷ pieces) w'
      → Request.consume c.parser (whole (piece ∷ pieces)) ≡ (q, ParseStatus.complete)
      → q.buffer ≡ []
      → read_events sys serve (length pieces) c w ≡ serve (record c { parser = q }) w'
  unfolding read_events
  read_events-served (b, bytes) [] c q w w' idle (w1, e, same) text empty =
      let exact : Request.consume c.parser (b ∷ bytes) ≡ (q, ParseStatus.complete) =
        ap (Request.consume c.parser) (sym (append-nil (b ∷ bytes))) ∙ text in
      work-received c w w1 b bytes idle e ∙ rw (exact, same) refl
  read_events-served (b, bytes) ((b2, bytes2) ∷ pieces) c q w w' idle (w1, e, more) text empty =
      ap (then_read sys serve (read_events sys serve (length pieces)))
        (work-received c w w1 b bytes idle e)
      ∙ then_read-served (read_events sys serve (length pieces)) c w1
          (serve (record c { parser = q }) w') b2 (bytes2 ++ whole pieces) q
          (Request.consume c.parser (b ∷ bytes))
          (sym (consume-append request_format c.parser (b ∷ bytes) (whole ((b2, bytes2) ∷ pieces)))
            ∙ text)
          empty
          (λ p t.
            read_events-served (b2, bytes2) pieces (record c { parser = p }) q w1 w' idle more t
              empty)
