-- ===== src/Net/Serving/Handled.antt =====
-- A worker posts one rearm for the connection that it has handled, and touches no other.
use high_performance_http_se.Common.{
  ℕ, ◌≡◌, refl, sym, ◌∙◌, inl, inr, Bool, true, false, not, [], ◌∷◌, ◌++◌, some, Bytes,
  length-append, arith, if◌then◌else◌, Bool-cases, ◌==◌, ==_self,
}
use high_performance_http_se.Common.Table.{find, find-assign}
use high_performance_http_se.Http.Message.{serialize}
use high_performance_http_se.Http.Incremental.{ParseStatus}
use high_performance_http_se.Http.Request
use high_performance_http_se.Http.Request.{HttpParser}
use high_performance_http_se.Net.Sys.{Sys, SendLaws, RecvAnswer, received, closed, failed}
use high_performance_http_se.Net.Connection.{
  Connection, queue_write, has_pending_write, set_pending_keep_alive, flush_write,
}
use high_performance_http_se.Net.Connection.Flush.{IsValid, Outcome, flush_write-Outcome}
use high_performance_http_se.Net.Serving.{
  RearmAction, wait_writable, Reactor, post_rearm, Handling, resume_write, rearm_for, bad_request,
  reject, Serve, after_consume, after_recv, work, handle_event,
}

abbrev pub is_wait_writable : RearmAction → Bool
is_wait_writable wait_writable = true
is_wait_writable _ = false

module _ (sys : Sys) where
  -- The connection is the same one, and waits for writing just when it has bytes to send.
  abbrev pub Rearms : Connection → Handling sys → Type 0
  Rearms c (c', w, action) =
      (has_pending_write c' ≡ is_wait_writable action) × IsValid c' × (c'.fd ≡ c.fd)

  abbrev pub ServeRearms : Serve sys → Type 0
  ServeRearms serve = (c : Connection) (w : sys.World) → IsValid c → Rearms c (serve c w)

module _ (sys : Sys) (laws : SendLaws sys) where
  -- A handler that flushes, and then answers by whether that is done.
  pub flush-Rearms :
      (c : Connection) (w : sys.World) (parser : Connection → HttpParser)
      (action : Connection → RearmAction)
      → IsValid c
      → ((c' : Connection) → is_wait_writable (action c') ≡ false)
      → let (c', flushed, w') = flush_write sys c w in
        Rearms sys c (
          if not flushed
          then (c', w', wait_writable)
          else (record c' { parser = parser c' }, w', action c'))
  flush-Rearms c w parser action v ends =
      go (flush_write sys c w) (flush_write-Outcome sys laws c w v)
    where
      go :
          (r : Connection × Bool × sys.World)
          → Outcome sys laws c w r
          → Rearms sys c (
              if not r.1
              then (r.0, r.2, wait_writable)
              else (record r.0 { parser = parser r.0 }, r.2, action r.0))
      go (c', true, w') (same, valid, (finished, sent)) = (finished ∙ sym (ends c'), valid, same.fd)
      go (c', false, w') (same, valid, (unfinished, kept, blocked)) = (unfinished, valid, same.fd)

  pub rearm_for-ends : (keep_alive : Bool) → is_wait_writable (rearm_for sys keep_alive) ≡ false
  rearm_for-ends true = refl
  rearm_for-ends false = refl

  resume_write-Rearms :
      (c : Connection) (w : sys.World) → IsValid c → Rearms sys c (resume_write sys c w)
  unfolding resume_write
  resume_write-Rearms c w v =
      flush-Rearms c w (λ c'. Request.reset c'.parser) (λ c'. rearm_for sys c'.pending_keep_alive) v
        (λ c'. rearm_for-ends c'.pending_keep_alive)

  pub queue_write-IsValid :
      (c : Connection) (bytes : Bytes) → IsValid c → IsValid (queue_write c bytes)
  queue_write-IsValid c bytes v = omega (arith, length-append c.write_buffer bytes)

  reject-Rearms : (c : Connection) (w : sys.World) → IsValid c → Rearms sys c (reject sys c w)
  unfolding reject
  reject-Rearms c w v =
      flush-Rearms (queue_write (set_pending_keep_alive c false) (serialize (bad_request sys))) w
        (λ c'. c'.parser) (λ _. RearmAction.close) (queue_write-IsValid c _ v) (λ _. refl)

  module _ (serve : Serve sys) (serves : ServeRearms sys serve) where
    after_consume-Rearms :
        (status : ParseStatus) (c : Connection) (w : sys.World)
        → IsValid c
        → has_pending_write c ≡ false
        → Rearms sys c (after_consume sys serve c w status)
    after_consume-Rearms ParseStatus.need_more_data c w v idle = (idle, v, refl)
    after_consume-Rearms ParseStatus.error c w v idle = reject-Rearms c w v
    after_consume-Rearms ParseStatus.complete c w v idle = serves c w v

    after_recv-Rearms :
        (c : Connection) (a : RecvAnswer × sys.World)
        → IsValid c
        → has_pending_write c ≡ false
        → Rearms sys c (after_recv sys serve c a)
    after_recv-Rearms c (closed, w) v idle = (idle, v, refl)
    after_recv-Rearms c (RecvAnswer.would_block, w) v idle = (idle, v, refl)
    after_recv-Rearms c (failed, w) v idle = (idle, v, refl)
    after_recv-Rearms c (received b bytes, w) v idle =
        let (p, status) = Request.consume c.parser (b ∷ bytes) in
        after_consume-Rearms status (record c { parser = p }) w v idle

    pub work-Rearms :
        (c : Connection) (w : sys.World) → IsValid c → Rearms sys c (work sys serve c w)
    unfolding work
    work-Rearms c w v = elim (Bool-cases (has_pending_write c)) [
      | inl busy ↦ rw busy (resume_write-Rearms c w v)
      | inr idle ↦ rw idle (after_recv-Rearms c (sys.recv w c.fd 8192) v idle)
    ]

-- The reactor `after` a worker's event for `fd`, from the reactor `before`.
pub record Handled (sys : Sys) (fd : ℕ) (before after : Reactor sys) : Type 0 where
  pub connection : Connection
  pub action : RearmAction
  pub posted :
      after.pending_rearms ≡ before.pending_rearms ++ record { fd = fd; action = action } ∷ []
  pub kept : find fd after.connections ≡ some connection
  pub rearms : has_pending_write connection ≡ is_wait_writable action
  pub valid : IsValid connection
  pub others : (k : ℕ) → (fd == k) ≡ false → find k after.connections ≡ find k before.connections
  pub listen_fd : after.listen_fd ≡ before.listen_fd
  pub interests : after.interests ≡ before.interests
  pub tasks : after.tasks ≡ before.tasks

-- For a kernel with the laws of send, and a `serve` that rearms for writing just when bytes are left to
-- send: a worker that handles an event of a known connection with a valid write offset posts one
-- rearm, for that descriptor and behind the others; it keeps the connection, waits for writing just
-- when the connection has bytes to send, and changes no other connection, no interest and no task.
pub handle_event-Handled :
    (sys : Sys) (laws : SendLaws sys) (serve : Serve sys)
    → ServeRearms sys serve
    → (fd : ℕ) (r : Reactor sys) (c : Connection) → find fd r.connections ≡ some c
    → IsValid c
    → Handled sys fd r (handle_event sys serve fd r)
unfolding handle_event post_rearm
handle_event-Handled sys laws serve serves fd r c found v =
    let (rearms, valid, same_fd) = work-Rearms sys laws serve serves c r.world v in
    let (c', w', action) = work sys serve c r.world in
    rw (handle_event, found, handle_event)
      (record {
        connection = c';
        action = action;
        posted = refl;
        kept = rw (find-assign fd fd c' r.connections, ==_self fd);
        rearms = rearms;
        valid = valid;
        others = λ k ne. rw (find-assign fd k c' r.connections, ne);
        listen_fd = refl;
        interests = refl;
        tasks = refl;
      })
