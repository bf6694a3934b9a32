-- ===== src/Net/Connection.antt =====
-- include/net/connection.h and src/net/connection.cpp.
pub mod Delivery
pub mod Flush
use high_performance_http_se.Common.{
  ℕ, zero, suc, ◌+◌, ◌-◌, Bool, true, false, not, ◌&&◌, [], ◌++◌, Bytes, ◌==◌, ltb, if◌then◌else◌,
  length, drop, is_empty,
}
use high_performance_http_se.Net.Sys.{Sys, SendAnswer, sent, failed}
use high_performance_http_se.Http.Request.{HttpParser, new_parser}

pub record Connection : Type 0 where
  pub fd : ℕ
  pub parser : HttpParser
  pub write_buffer : Bytes
  pub write_offset : ℕ
  pub pending_keep_alive : Bool

abbrev pub new_connection : ℕ → Connection
new_connection fd = record {
  fd = fd;
  parser = new_parser;
  write_buffer = [];
  write_offset = 0;
  pending_keep_alive = true;
}

abbrev pub queue_write : Connection → Bytes → Connection
queue_write c bytes = record c { write_buffer = c.write_buffer ++ bytes }

abbrev pub has_pending_write : Connection → Bool
has_pending_write c = ltb c.write_offset (length c.write_buffer)

abbrev pub set_pending_keep_alive : Connection → Bool → Connection
set_pending_keep_alive c keep_alive = record c { pending_keep_alive = keep_alive }

-- What the code does behind the loop.
abbrev pub clear_written : Connection → Connection
clear_written c =
    if c.write_offset == length c.write_buffer && not (is_empty c.write_buffer)
    then record c { write_buffer = []; write_offset = 0 }
    else c

module _ (sys : Sys) where
  abbrev pub Flushed : Type 0
  Flushed = Connection × Bool × sys.World

  -- `send` has accepted 0 bytes, or failed: the rest is given up.
  abbrev pub give_up : Connection → sys.World → Flushed
  give_up c w = (record c { write_offset = length c.write_buffer }, true, w)

  -- A round behind its `send`; the next round is `k`.
  abbrev pub after_send :
      (Connection → sys.World → Flushed) → Connection → SendAnswer × sys.World → Flushed
  after_send k c (sent zero, w) = give_up c w
  after_send k c (sent (suc n), w) = k (record c { write_offset = c.write_offset + suc n }) w
  after_send k c (SendAnswer.would_block, w) = (c, false, w)
  after_send k c (failed, w) = give_up c w

  -- `while (writeOffset_ < writeBuffer_.size())`. Each round that goes on has sent a byte, so the
  -- length of the buffer bounds the rounds.
  unfoldable pub flush_loop : ℕ → Connection → sys.World → Flushed
  flush_loop zero c w = (c, false, w)
  flush_loop (suc fuel) c w =
      let round =
        after_send (flush_loop fuel) c (sys.send w c.fd (drop c.write_offset c.write_buffer)) in
      if has_pending_write c then round else (clear_written c, true, w)

  unfoldable pub flush_write : Connection → sys.World → Flushed
  flush_write c w = flush_loop (suc (length c.write_buffer)) c w
