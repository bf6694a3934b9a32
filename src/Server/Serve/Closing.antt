-- ===== src/Server/Serve/Closing.antt =====
-- The rearm that the server posts behind a response.
use high_performance_http_se.Common.{
  ◌≡◌, ◌⊎◌, inl, inr, refl, sym, ◌∙◌, subst, true, false, not, if◌then◌else◌,
}
use high_performance_http_se.Http.Incremental
use high_performance_http_se.Http.Request
use high_performance_http_se.Net.Sys.{Sys, SendLaws}
use high_performance_http_se.Net.Connection.{Connection, Flushed, flush_write}
use high_performance_http_se.Net.Connection.Flush.{IsValid, Outcome, flush_write-Outcome}
use high_performance_http_se.Net.Serving.{
  Handling, wait_readable, wait_writable, close, rearm_for, reset_parser, resume_write, work,
}
use high_performance_http_se.Net.Serving.Handled.{
  ServeRearms, flush-Rearms, rearm_for-ends, queue_write-IsValid,
}
use high_performance_http_se.Net.Serving.Exchange.Answered.{work-resume_write}
use high_performance_http_se.Server.Router.{Router}
use high_performance_http_se.Server.Serve.{queue_response, serve}

module _ (sys : Sys) (laws : SendLaws sys) (router : Router) where
  pub serve-ServeRearms : ServeRearms sys (serve sys router)
  unfolding serve
  serve-ServeRearms c w v =
      flush-Rearms sys laws (queue_response sys router c) w (λ c'. Request.reset c'.parser)
        (λ c'. rearm_for sys (Request.reset c'.parser).message.keep_alive)
        (queue_write-IsValid sys laws c _ v) (λ c'. rearm_for-ends sys laws _)

  -- The event after an unfinished flush of a connection that is not to be kept.
  resumed_closes :
      (c : Connection) (w : sys.World) (r : Flushed sys)
      → c.pending_keep_alive ≡ false
      → Outcome sys laws c w r
      → let (c', w', action) : Handling sys =
          if not r.1
          then (r.0, r.2, wait_writable)
          else (reset_parser sys r.0, r.2, rearm_for sys r.0.pending_keep_alive) in
        (action ≡ wait_writable) ⊎ (action ≡ close)
  resumed_closes c w (c', true, w') closing (same, valid, done) =
      inr (rw (same.pending_keep_alive, closing) refl)
  resumed_closes c w (c', false, w') closing (same, valid, blocked) = inl refl

  -- For a kernel with the laws of send, and a request that asks for its connection to be closed: if the flush
  -- of the response ends with it, the connection is rearmed for reading; if it does not, the connection waits
  -- for writing, and an event after that, in whatever world, has it wait for writing again or closes it. So it
  -- is closed only where the socket does not take the response at once.
  pub close_depends_on_socket :
      (c : Connection) (w : sys.World)
      → IsValid c
      → c.parser.message.keep_alive ≡ false
      → let flushed = (flush_write sys (queue_response sys router c) w).1 in
        let (c1, w1, action) = serve sys router c w in
        (flushed ≡ true) × (action ≡ wait_readable)
        ⊎ (flushed ≡ false)
          × (action ≡ wait_writable)
          × ((w2 : sys.World)
              → let (c2, w3, next) = work sys (serve sys router) c1 w2 in
                (next ≡ wait_writable) ⊎ (next ≡ close))
  unfolding serve Incremental.fresh resume_write
  close_depends_on_socket c w valid closing = go (flush_write sys (queue_response sys router c) w) (
      flush_write-Outcome sys laws (queue_response sys router c) w
        (queue_write-IsValid sys laws c _ valid))
    where
      go :
          (r : Flushed sys)
          → Outcome sys laws (queue_response sys router c) w r
          → let (c1, w1, action) : Handling sys = if not r.1 then (r.0, r.2, wait_writable) else (
            reset_parser sys r.0,
            r.2,
            rearm_for sys (reset_parser sys r.0).parser.message.keep_alive,
          ) in
            (r.1 ≡ true) × (action ≡ wait_readable)
            ⊎ (r.1 ≡ false)
              × (action ≡ wait_writable)
              × ((w2 : sys.World)
                  → let (c2, w3, next) = work sys (serve sys router) c1 w2 in
                    (next ≡ wait_writable) ⊎ (next ≡ close))
      go (c', true, w') outcome = inl (refl, refl)
      go (c', false, w') (same, valid', (left, kept, blocked)) = inr (
        refl,
        refl,
        λ w2.
            subst (λ (h : Handling sys). (h.2 ≡ wait_writable) ⊎ (h.2 ≡ close))
              (sym (work-resume_write sys laws (serve sys router) c' w2 left))
              (resumed_closes c' w2 (flush_write sys c' w2) (same.pending_keep_alive ∙ closing)
                (flush_write-Outcome sys laws c' w2 valid')),
      )
