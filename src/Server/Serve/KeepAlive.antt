-- ===== src/Server/Serve/KeepAlive.antt =====
-- Several requests on one connection of the server, each answered before the next is read.
use high_performance_http_se.Common.{
  ℕ, ◌≡◌, refl, sym, ap, ◌∙◌, subst, false, List, [], ◌∷◌, ◌++◌, Bytes, append_assoc, append-nil,
  length,
}
use high_performance_http_se.Http.Incremental.{ParseStatus}
use high_performance_http_se.Http.Message.{serialize}
use high_performance_http_se.Http.Request
use high_performance_http_se.Http.Request.{HttpParser}
use high_performance_http_se.Net.Sys.{Sys, SendLaws, RecvLaws}
use high_performance_http_se.Net.Connection.{Connection, has_pending_write}
use high_performance_http_se.Net.Connection.Delivery.{PeerStays, Delivered-stays}
use high_performance_http_se.Net.Connection.Flush.{IsValid}
use high_performance_http_se.Net.Serving.{Handling, wait_readable}
use high_performance_http_se.Net.Serving.Exchange.{read_events, write_events}
use high_performance_http_se.Net.Serving.Exchange.Answered.{Answered}
use high_performance_http_se.Net.Serving.Exchange.Pieces.{Piece, whole, Receives}
use high_performance_http_se.Server.Router.{Router}
use high_performance_http_se.Server.Serve.{response_to, serve}
use high_performance_http_se.Server.Serve.Session.{request_replied}

module _ (sys : Sys) (router : Router) where
  -- The events of a request in one piece and these, and at most `n` for writing after them.
  abbrev pub replied : List Piece → ℕ → Connection → sys.World → Handling sys
  replied pieces n c w =
      write_events sys (serve sys router) n (read_events sys (serve sys router) (length pieces) c w)

  -- From a connection to another one, with the responses of the router in between. Each request is read whole
  -- with no byte over, and answered before the next one; between two requests the
  -- world may change, but not what the peer has been sent.
  pub data Visit : Connection → sys.World → Bytes → Connection → sys.World → Type 0 where
    ends : (c : Connection) (w : sys.World) → Visit c w [] c w
    time_passes :
        (c c2 : Connection) (w w1 w2 : sys.World) (text : Bytes)
        → sys.output w1 c.fd ≡ sys.output w c.fd
        → Visit c w1 text c2 w2
        → Visit c w text c2 w2
    request :
        (c c1 c2 : Connection) (w w' w1 w2 : sys.World) (piece : Piece) (pieces : List Piece)
        (q : HttpParser) (n : ℕ) (text : Bytes)
        → Receives sys (serve sys router) c.fd w (piece ∷ pieces) w'
        → Request.consume c.parser (whole (piece ∷ pieces)) ≡ (q, ParseStatus.complete)
        → q.buffer ≡ []
        → replied pieces n c w ≡ (c1, w1, wait_readable)
        → Visit c1 w1 text c2 w2
        → Visit c w (serialize (response_to sys router (record c { parser = q })) ++ text) c2 w2

-- A connection that waits for a request.
pub record IsWaiting (c : Connection) : Type 0 where
  pub valid : IsValid c
  pub idle : has_pending_write c ≡ false
  pub parser_is_new : c.parser ≡ Request.new_parser

module _ (sys : Sys) (router : Router) (recv_laws : RecvLaws sys) where
  Receives-output :
      (fd : ℕ) (w w' : sys.World) (pieces : List Piece)
      → Receives sys (serve sys router) fd w pieces w'
      → sys.output w' fd ≡ sys.output w fd
  Receives-output fd w w' [] e = ap (λ w. sys.output w fd) (sym e)
  Receives-output fd w w' ((b, bytes) ∷ pieces) (w1, e, more) =
      Receives-output fd w1 w' pieces more
      ∙ ap (λ r. sys.output r.1 fd) (sym e)
      ∙ recv_laws.sends_nothing w fd 8192 fd

  -- For a kernel with the laws of send and recv, and a connection that waits for a request: after any number
  -- of requests, one after the other and to a peer that stays, what the peer has been sent has grown by the
  -- responses of the router, in the order of the requests, each once; and the connection waits for a request.
  pub Visit-replied :
      (laws : SendLaws sys) (c c2 : Connection) (w w2 : sys.World) (text : Bytes)
      → PeerStays sys c.fd
      → IsWaiting c
      → Visit sys router c w text c2 w2
      → IsWaiting c2 × (c2.fd ≡ c.fd) × (sys.output w2 c.fd ≡ sys.output w c.fd ++ text)
  Visit-replied laws c _ w _ _ stays waits (ends _ _) = (waits, refl, sym (append-nil _))
  Visit-replied laws c c2 w w2 text stays waits (time_passes _ _ _ w1 _ _ same more) =
      let (waits2, fd2, out) = Visit-replied laws c c2 w1 w2 text stays waits more in
      (waits2, fd2, out ∙ ap (λ out. out ++ text) same)
  Visit-replied laws c c2 w w2 _ stays waits
        (request _ c1 _ _ w' w1 _ piece pieces q n text reads whole_is empty then_waits more) =
      let (idle1, valid1, fd1, parser1, out1) =
        subst
          (Answered sys c.fd
            (sys.output w' c.fd ++ serialize (response_to sys router (record c { parser = q }))))
          then_waits
          (request_replied sys laws router c q piece pieces w w' n waits.valid waits.idle reads
            whole_is empty) in
      let (waits2, fd2, out) =
        Visit-replied laws c1 c2 w1 w2 text (subst (PeerStays sys) (sym fd1) stays)
          (record { valid = valid1; idle = idle1; parser_is_new = parser1 }) more in
      (
        waits2,
        fd2 ∙ fd1,
        subst (λ fd. sys.output w2 fd ≡ sys.output w1 fd ++ text) fd1 out
            ∙ ap (λ out. out ++ text)
                (Delivered-stays sys c.fd _ c1 w1 stays out1
                  ∙ ap (λ out. out ++ serialize (response_to sys router (record c { parser = q })))
                      (Receives-output c.fd w w' (piece ∷ pieces) reads))
            ∙ append_assoc (sys.output w c.fd)
                (serialize (response_to sys router (record c { parser = q }))) text,
      )
