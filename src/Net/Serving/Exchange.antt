-- ===== src/Net/Serving/Exchange.antt =====
-- A request and its response over several events of one connection.
pub mod Answered
pub mod Pieces
pub mod Rejected
pub mod Malformed
use high_performance_http_se.Common.{ℕ, zero, suc}
use high_performance_http_se.Net.Sys.{Sys}
use high_performance_http_se.Net.Connection.{Connection}
use high_performance_http_se.Net.Serving.{
  RearmAction, wait_readable, wait_writable, close, Handling, Serve, work,
}

module _ (sys : Sys) (serve : Serve sys) where
  -- The next event, if the connection waits for reading.
  abbrev pub then_read : (Connection → sys.World → Handling sys) → Handling sys → Handling sys
  then_read next (c, w, wait_readable) = next c w
  then_read next (c, w, wait_writable) = (c, w, wait_writable)
  then_read next (c, w, close) = (c, w, close)

  -- An event, and at most `n` more that the connection waits for reading before.
  unfoldable pub read_events : ℕ → Connection → sys.World → Handling sys
  read_events zero c w = work sys serve c w
  read_events (suc n) c w = then_read (read_events n) (work sys serve c w)

  -- At most `n` events more, before each of which the connection waits for writing.
  unfoldable pub write_events : ℕ → Handling sys → Handling sys
  write_events zero h = h
  write_events (suc n) (c, w, wait_writable) = write_events n (work sys serve c w)
  write_events (suc n) (c, w, wait_readable) = (c, w, wait_readable)
  write_events (suc n) (c, w, close) = (c, w, close)
