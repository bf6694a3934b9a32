-- ===== src/Net/Serving/HangUp.antt =====
-- What the error branch of reactorLoop does to a connection that a worker handles.
use high_performance_http_se.Common.{
  ℕ, ◌≡◌, refl, ap, ◌∙◌, inr, true, false, [], none, some, ◌==◌, ==_self, is_some,
}
use high_performance_http_se.Common.Table.{find, find-erase}
use high_performance_http_se.Net.Sys.{Sys}
use high_performance_http_se.Net.Serving.{IoEvent, Serve, drop_connection, handle_io_event}
use high_performance_http_se.Net.Serving.Steps.{System, Step, take_event}

module _ (sys : Sys) where
  abbrev pub hang_up : ℕ → IoEvent
  hang_up fd = record { fd = fd; mask = 0; error = true }

  handle_io_event-hang_up :
      (fd : ℕ) (s : System sys)
      → (fd == s.reactor.listen_fd) ≡ false
      → is_some (find fd s.reactor.connections) ≡ true
      → handle_io_event sys [] (hang_up fd) s.reactor ≡ drop_connection sys fd s.reactor
  unfolding handle_io_event
  handle_io_event-hang_up fd s apart known = rw (apart, known) refl

  -- Over an event loop that reports hang-ups at mask 0, as epoll: in every state in which the reactor handles
  -- events, and a connection is disarmed, as it is while a worker handles it, there is a step of the reactor
  -- that takes the connection out of the table and of the event loop, and the worker goes on with it.
  pub hang_up_takes_connection :
      (serve : Serve sys) (fd : ℕ) (s : System sys)
      → sys.hang_up_unasked ≡ true
      → s.applying ≡ []
      → (fd == s.reactor.listen_fd) ≡ false
      → is_some (find fd s.reactor.connections) ≡ true
      → find fd s.reactor.interests ≡ some 0
      → (s' : System sys) × Step sys serve s s'
        × (find fd s'.reactor.connections ≡ none)
        × (find fd s'.reactor.interests ≡ none)
        × (s'.running ≡ s.running)
  hang_up_takes_connection serve fd s unasked idle apart known off =
      let dropped = handle_io_event-hang_up fd s apart known in
      (
        record s { reactor = handle_io_event sys [] (hang_up fd) s.reactor },
        take_event s (hang_up fd) idle apart (inr (off, refl, unasked)),
        ap (λ r. find fd r.connections) dropped
            ∙ find-erase fd fd s.reactor.connections
            ∙ rw (==_self fd) refl,
        ap (λ r. find fd r.interests) dropped
            ∙ find-erase fd fd s.reactor.interests
            ∙ rw (==_self fd) refl,
        refl,
      )
