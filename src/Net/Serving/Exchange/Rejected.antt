-- ===== src/Net/Serving/Exchange/Rejected.antt =====
-- The 400 response goes out once, over any number of events, and then the connection is closed.
use high_performance_http_se.Common.{
  ℕ, zero, suc, ◌≡◌, refl, sym, ap, ◌∙◌, subst, Bool, true, false, not, ◌++◌, Bytes, length,
  if◌then◌else◌, arith,
}
use high_performance_http_se.Http.Message.{serialize}
use high_performance_http_se.Net.Sys.{Sys, SendLaws}
use high_performance_http_se.Net.Connection.{
  Connection, has_pending_write, flush_write, queue_write, set_pending_keep_alive,
}
use high_performance_http_se.Net.Connection.Delivery.{Delivered}
use high_performance_http_se.Net.Connection.Flush.{IsValid, pending, Outcome, flush_write-Outcome}
use high_performance_http_se.Net.Serving.{
  RearmAction, wait_readable, wait_writable, close, Handling, Serve, bad_request, reject, rearm_for,
  reset_parser, resume_write, work,
}
use high_performance_http_se.Net.Serving.Handled.{queue_write-IsValid}
use high_performance_http_se.Net.Serving.Exchange.{then_read, write_events}
use high_performance_http_se.Net.Serving.Exchange.Answered.{drop-append_at, work-resume_write}

module _ (sys : Sys) where
  -- The connection waits for writing, and what is out and what is pending make up the text; or it is to be
  -- closed, nothing is pending, and the text is out, unless a `send` has refused the rest of it.
  abbrev pub RejectedBy : RearmAction → ℕ → Bytes → Connection → sys.World → Type 0
  RejectedBy wait_readable fd text c w = ⊥
  RejectedBy wait_writable fd text c w =
      (has_pending_write c ≡ true)
      × IsValid c
      × (c.fd ≡ fd)
      × (c.pending_keep_alive ≡ false)
      × (sys.output w fd ++ pending c ≡ text)
  RejectedBy close fd text c w = (has_pending_write c ≡ false) × Delivered sys fd text c w

  abbrev pub Rejected : ℕ → Bytes → Handling sys → Type 0
  Rejected fd text (c, w, action) = RejectedBy action fd text c w

module _ (sys : Sys) (laws : SendLaws sys) (serve : Serve sys) where
  -- A flush of the text for a connection that is not kept alive.
  flush-Rejected :
      (c : Connection) (w : sys.World) (text : Bytes) (r : Connection × Bool × sys.World)
      → c.pending_keep_alive ≡ false
      → sys.output w c.fd ++ pending c ≡ text
      → Outcome sys laws c w r
      → Rejected sys c.fd text (if not r.1 then (r.0, r.2, wait_writable) else (r.0, r.2, close))
  flush-Rejected c w text (c', true, w') closing e (same, valid, (finished, sent)) =
      (finished, subst (λ t. Delivered sys c.fd t c' w') e sent)
  flush-Rejected c w text (c', false, w') closing e (same, valid, (unfinished, kept, blocked)) =
      (unfinished, valid, same.fd, same.pending_keep_alive ∙ closing, kept ∙ e)

  resume-Rejected :
      (c : Connection) (w : sys.World) (text : Bytes) (r : Connection × Bool × sys.World)
      → c.pending_keep_alive ≡ false
      → sys.output w c.fd ++ pending c ≡ text
      → Outcome sys laws c w r
      → Rejected sys c.fd text (
          if not r.1
          then (r.0, r.2, wait_writable)
          else (reset_parser sys r.0, r.2, rearm_for sys r.0.pending_keep_alive))
  resume-Rejected c w text (c', true, w') closing e (same, valid, (finished, sent)) =
      rw (same.pending_keep_alive, closing)
        (finished, subst (λ t. Delivered sys c.fd t c' w') e sent)
  resume-Rejected c w text (c', false, w') closing e (same, valid, (unfinished, kept, blocked)) =
      (unfinished, valid, same.fd, same.pending_keep_alive ∙ closing, kept ∙ e)

  pub reject-Rejected :
      (c : Connection) (w : sys.World)
      → IsValid c
      → has_pending_write c ≡ false
      → Rejected sys c.fd (sys.output w c.fd ++ serialize (bad_request sys)) (reject sys c w)
  unfolding reject
  reject-Rejected c w valid idle =
      let queued = queue_write (set_pending_keep_alive c false) (serialize (bad_request sys)) in
      let at_end : c.write_offset ≡ length c.write_buffer = ground arith in
      flush-Rejected queued w (sys.output w c.fd ++ serialize (bad_request sys))
        (flush_write sys queued w) refl
        (ap (λ t. sys.output w c.fd ++ t)
          (drop-append_at c.write_offset c.write_buffer (serialize (bad_request sys)) at_end))
        (flush_write-Outcome sys laws queued w (queue_write-IsValid sys laws c _ valid))

  resumed-Rejected :
      (fd : ℕ) (text : Bytes) (c : Connection) (w : sys.World)
      → RejectedBy sys wait_writable fd text c w
      → Rejected sys fd text (work sys serve c w)
  unfolding resume_write
  resumed-Rejected fd text c w (waits, valid, same, closing, out) =
      subst (Rejected sys fd text) (sym (work-resume_write sys laws serve c w waits)) (
        subst (λ n. Rejected sys n text (resume_write sys c w)) same
          (resume-Rejected c w text (flush_write sys c w) closing
            (ap (λ n. sys.output w n ++ pending c) same ∙ out)
            (flush_write-Outcome sys laws c w valid)))

  pub write_events-Rejected :
      (n fd : ℕ) (text : Bytes) (h : Handling sys)
      → Rejected sys fd text h
      → Rejected sys fd text (write_events sys serve n h)
  unfolding write_events
  write_events-Rejected zero fd text h r = r
  write_events-Rejected (suc n) fd text (c, w, wait_readable) r = absurd r
  write_events-Rejected (suc n) fd text (c, w, close) r = r
  write_events-Rejected (suc n) fd text (c, w, wait_writable) r =
      write_events-Rejected n fd text (work sys serve c w) (resumed-Rejected fd text c w r)

  pub then_read-Rejected :
      (next : Connection → sys.World → Handling sys) (fd : ℕ) (text : Bytes) (h : Handling sys)
      → Rejected sys fd text h
      → Rejected sys fd text (then_read sys serve next h)
  then_read-Rejected next fd text (c, w, wait_readable) r = absurd r
  then_read-Rejected next fd text (c, w, wait_writable) r = r
  then_read-Rejected next fd text (c, w, close) r = r
