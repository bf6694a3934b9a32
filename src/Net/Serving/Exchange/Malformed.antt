-- ===== src/Net/Serving/Exchange/Malformed.antt =====
-- A malformed request that comes in pieces is rejected once, at the piece that the parser refuses.
use high_performance_http_se.Common.{
  ℕ, ◌≡◌, refl, sym, ap, ◌∙◌, subst, false, List, [], ◌∷◌, ◌++◌, Bytes, length, append-nil,
}
use high_performance_http_se.Http.Incremental.{ParseStatus}
use high_performance_http_se.Http.Incremental.Chunks.{consume-append, resume}
use high_performance_http_se.Http.Message.{serialize}
use high_performance_http_se.Http.Request
use high_performance_http_se.Http.Request.{HttpParser, request_format}
use high_performance_http_se.Net.Sys.{Sys, SendLaws, RecvLaws, RecvAnswer}
use high_performance_http_se.Net.Connection.{Connection, has_pending_write}
use high_performance_http_se.Net.Connection.Flush.{IsValid}
use high_performance_http_se.Net.Serving.{Handling, Serve, bad_request, reject, after_consume}
use high_performance_http_se.Net.Serving.Exchange.{then_read, read_events, write_events}
use high_performance_http_se.Net.Serving.Exchange.Rejected.{
  Rejected, reject-Rejected, write_events-Rejected, then_read-Rejected,
}
use high_performance_http_se.Net.Serving.Exchange.Pieces.{Piece, whole, Receives, work-received}

module _ (sys : Sys) (laws : SendLaws sys) (recv_laws : RecvLaws sys) (serve : Serve sys) where
  read-output :
      (fd : ℕ) (w w1 : sys.World) (b : ℕ) (bytes : Bytes)
      → sys.recv w fd 8192 ≡ (RecvAnswer.received b bytes, w1)
      → sys.output w1 fd ≡ sys.output w fd
  read-output fd w w1 b bytes e =
      ap (λ r. sys.output r.1 fd) (sym e) ∙ recv_laws.sends_nothing w fd 8192 fd

  Rejected-here :
      (c : Connection) (p : HttpParser) (w w1 : sys.World) (b : ℕ) (bytes text : Bytes)
      → IsValid c
      → has_pending_write c ≡ false
      → sys.recv w c.fd 8192 ≡ (RecvAnswer.received b bytes, w1)
      → sys.output w c.fd ++ serialize (bad_request sys) ≡ text
      → Rejected sys c.fd text (reject sys (record c { parser = p }) w1)
  Rejected-here c p w w1 b bytes text valid idle e out =
      subst (λ t. Rejected sys c.fd t (reject sys (record c { parser = p }) w1))
        (ap (λ t. t ++ serialize (bad_request sys)) (read-output c.fd w w1 b bytes e) ∙ out)
        (reject-Rejected sys laws serve (record c { parser = p }) w1 valid idle)

  -- Either the first piece is refused, or the rest is by what it leaves.
  then_read-refused :
      (next : Connection → sys.World → Handling sys) (c : Connection) (w : sys.World)
      (text rest : Bytes) (q : HttpParser) (o : HttpParser × ParseStatus)
      → resume request_format rest o ≡ (q, ParseStatus.error)
      → ((p : HttpParser) → Rejected sys c.fd text (reject sys (record c { parser = p }) w))
      → ((p : HttpParser)
          → Request.consume p rest ≡ (q, ParseStatus.error)
          → Rejected sys c.fd text (next (record c { parser = p }) w))
      → Rejected sys c.fd text
          (then_read sys serve next (after_consume sys serve (record c { parser = o.0 }) w o.1))
  unfolding resume
  then_read-refused next c w text rest q (p, ParseStatus.need_more_data) e here later = later p e
  then_read-refused next c w text rest q (p, ParseStatus.complete) e here later = cc
  then_read-refused next c w text rest q (p, ParseStatus.error) e here later =
      then_read-Rejected sys laws serve next c.fd text (reject sys (record c { parser = p }) w)
        (here p)

  read_events-Rejected :
      (piece : Piece) (pieces : List Piece) (c : Connection) (q : HttpParser) (w w' : sys.World)
      (text : Bytes)
      → IsValid c
      → has_pending_write c ≡ false
      → Receives sys serve c.fd w (piece ∷ pieces) w'
      → Request.consume c.parser (whole (piece ∷ pieces)) ≡ (q, ParseStatus.error)
      → sys.output w c.fd ++ serialize (bad_request sys) ≡ text
      → Rejected sys c.fd text (read_events sys serve (length pieces) c w)
  unfolding read_events
  read_events-Rejected (b, bytes) [] c q w w' text valid idle (w1, e, same) malformed out =
      let exact : Request.consume c.parser (b ∷ bytes) ≡ (q, ParseStatus.error) =
        ap (Request.consume c.parser) (sym (append-nil (b ∷ bytes))) ∙ malformed in
      subst (Rejected sys c.fd text)
        (sym (work-received sys serve c w w1 b bytes idle e ∙ rw exact refl))
        (Rejected-here c q w w1 b bytes text valid idle e out)
  read_events-Rejected (b, bytes) (piece ∷ pieces) c q w w' text valid idle (w1, e, more) malformed
        out =
      subst
        (λ h.
          Rejected sys c.fd text (then_read sys serve (read_events sys serve (length pieces)) h))
        (sym (work-received sys serve c w w1 b bytes idle e))
        (then_read-refused (read_events sys serve (length pieces)) c w1 text
          (whole (piece ∷ pieces)) q (Request.consume c.parser (b ∷ bytes))
          (sym (consume-append request_format c.parser (b ∷ bytes) (whole (piece ∷ pieces)))
            ∙ malformed)
          (λ p. Rejected-here c p w w1 b bytes text valid idle e out)
          (λ p refused.
            read_events-Rejected piece pieces (record c { parser = p }) q w1 w' text valid idle more
              refused
              (ap (λ t. t ++ serialize (bad_request sys)) (read-output c.fd w w1 b bytes e) ∙ out)))

  -- For a kernel with the laws of send and recv, either program, and a connection with nothing to send: if
  -- reads bring bytes in any pieces that its parser refuses as a whole, then the events that read them, as
  -- far as the one that the parser refuses, and any number of events after that for writing, leave the 400
  -- response behind what was out before, once: while the connection waits for writing, what is out and what
  -- is pending make it up; else it is to be closed, nothing is pending, and it is all out, unless a `send` of
  -- what was left of it failed or took no byte.
  pub malformed_refused :
      (c : Connection) (q : HttpParser) (piece : Piece) (pieces : List Piece) (w w' : sys.World)
      (n : ℕ)
      → IsValid c
      → has_pending_write c ≡ false
      → Receives sys serve c.fd w (piece ∷ pieces) w'
      → Request.consume c.parser (whole (piece ∷ pieces)) ≡ (q, ParseStatus.error)
      → Rejected sys c.fd
          (sys.output w c.fd ++ serialize (bad_request sys))
          (write_events sys serve n (read_events sys serve (length pieces) c w))
  malformed_refused c q piece pieces w w' n valid idle reads refused =
      write_events-Rejected sys laws serve n c.fd _ (read_events sys serve (length pieces) c w)
        (read_events-Rejected piece pieces c q w w' _ valid idle reads refused refl)
