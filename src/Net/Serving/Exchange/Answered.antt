-- ===== src/Net/Serving/Exchange/Answered.antt =====
-- A response that is queued goes out once, in order, over any number of events.
use high_performance_http_se.Common.{
  subst, ℕ, zero, suc, ◌≡◌, refl, sym, ap, ◌∙◌, Bool, true, false, not, ◌++◌, Bytes, if◌then◌else◌,
  length, drop, drop-length_append,
}
use high_performance_http_se.Http.Incremental
use high_performance_http_se.Http.Request
use high_performance_http_se.Net.Sys.{Sys, SendLaws}
use high_performance_http_se.Net.Connection.{Connection, has_pending_write, flush_write}
use high_performance_http_se.Net.Connection.Delivery.{Delivered}
use high_performance_http_se.Net.Connection.Flush.{IsValid, pending, Outcome, flush_write-Outcome}
use high_performance_http_se.Net.Serving.{
  RearmAction, wait_readable, wait_writable, close, Handling, Serve, rearm_for, resume_write, work,
}
use high_performance_http_se.Net.Serving.Handled.{is_wait_writable, rearm_for-ends}
use high_performance_http_se.Net.Serving.Exchange.{write_events}

-- Behind what has been written, the new text is what is pending.
pub drop-append_at : (n : ℕ) (xs ys : Bytes) → n ≡ length xs → drop n (xs ++ ys) ≡ ys
drop-append_at n xs ys e = rw e (drop-length_append xs ys)

module _ (sys : Sys) where
  -- While it waits for writing, what is out and what is pending make up the text. When it does not, nothing
  -- is pending, the parser is new, and the text is out, unless a `send` has refused the rest of it.
  abbrev pub AnsweredBy : Bool → ℕ → Bytes → Connection → sys.World → Type 0
  AnsweredBy true fd text c w =
      (has_pending_write c ≡ true) × IsValid c × (c.fd ≡ fd) × (sys.output w fd ++ pending c ≡ text)
  AnsweredBy false fd text c w =
      (has_pending_write c ≡ false)
      × IsValid c
      × (c.fd ≡ fd)
      × (c.parser ≡ Request.new_parser)
      × Delivered sys fd text c w

  abbrev pub Answered : ℕ → Bytes → Handling sys → Type 0
  Answered fd text (c, w, action) = AnsweredBy (is_wait_writable action) fd text c w

module _ (sys : Sys) (laws : SendLaws sys) where
  -- A flush of the text, and then a new parser.
  pub flush-Answered :
      (c : Connection) (w : sys.World) (text : Bytes) (action : Connection → RearmAction)
      → IsValid c
      → sys.output w c.fd ++ pending c ≡ text
      → ((c' : Connection) → is_wait_writable (action c') ≡ false)
      → let (c', flushed, w') = flush_write sys c w in
        Answered sys c.fd text (
          if not flushed
          then (c', w', wait_writable)
          else (record c' { parser = Request.reset c'.parser }, w', action c'))
  flush-Answered c w text action v e ends =
      go (flush_write sys c w) (flush_write-Outcome sys laws c w v)
    where
      go :
          (r : Connection × Bool × sys.World)
          → Outcome sys laws c w r
          → Answered sys c.fd text (
              if not r.1
              then (r.0, r.2, wait_writable)
              else (record r.0 { parser = Request.reset r.0.parser }, r.2, action r.0))
      go (c', true, w') (same, valid, (finished, sent)) = rw (ends c') (
        finished,
        valid,
        same.fd,
        unfold Incremental.fresh in refl,
        subst (λ t. Delivered sys c.fd t c' w') e sent,
      )
      go (c', false, w') (same, valid, (unfinished, kept, blocked)) =
          (unfinished, valid, same.fd, kept ∙ e)

  pub work-resume_write :
      (serve : Serve sys) (c : Connection) (w : sys.World)
      → has_pending_write c ≡ true
      → work sys serve c w ≡ resume_write sys c w
  unfolding work
  work-resume_write serve c w waits = rw waits refl

  resumed-Answered :
      (serve : Serve sys) (fd : ℕ) (text : Bytes) (c : Connection) (w : sys.World)
      → has_pending_write c ≡ true
      → IsValid c
      → c.fd ≡ fd
      → sys.output w fd ++ pending c ≡ text
      → Answered sys fd text (work sys serve c w)
  unfolding resume_write
  resumed-Answered serve fd text c w waits valid same out =
      subst (Answered sys fd text) (sym (work-resume_write serve c w waits)) (
        subst (λ n. Answered sys n text (resume_write sys c w)) same
          (flush-Answered c w text (λ c'. rearm_for sys c'.pending_keep_alive) valid
            (ap (λ n. sys.output w n ++ pending c) same ∙ out)
            (λ c'. rearm_for-ends sys laws c'.pending_keep_alive)))

  module _ (serve : Serve sys) where
    pub write_events-Answered :
        (n fd : ℕ) (text : Bytes) (h : Handling sys)
        → Answered sys fd text h
        → Answered sys fd text (write_events sys serve n h)
    unfolding write_events
    write_events-Answered zero fd text h a = a
    write_events-Answered (suc n) fd text (c, w, wait_readable) a = a
    write_events-Answered (suc n) fd text (c, w, close) a = a
    write_events-Answered (suc n) fd text (c, w, wait_writable) (waits, valid, same, out) =
        write_events-Answered n fd text (work sys serve c w)
          (resumed-Answered serve fd text c w waits valid same out)
