-- ===== src/Net/Connection/Flush.antt =====
-- What flush_write has done when it returns.
use high_performance_http_se.Common.{
  ℕ, zero, suc, ◌+◌, ◌≤◌, ◌<◌, ◌≡◌, refl, ap, ◌∙◌, inl, inr, true, false, [], ◌++◌, Bytes, length,
  length-drop, drop, drop-drop, drop-length, take, take-append-drop, append_assoc, append-nil,
  arith, Bool-cases, is_empty, ==_self, subst, ◌⊎◌, ◌∷◌,
}
use high_performance_http_se.Net.Sys.{Sys, SendLaws, SendAnswer, sent, failed}
use high_performance_http_se.Net.Connection.Delivery.{Delivered, Blocked}
use high_performance_http_se.Net.Connection.{
  Connection, has_pending_write, clear_written, give_up, after_send, Flushed, flush_loop,
  flush_write,
}

-- What is still to be sent.
abbrev pub pending : Connection → Bytes
pending c = drop c.write_offset c.write_buffer

abbrev pub IsValid : Connection → Type 0
IsValid c = c.write_offset ≤ length c.write_buffer

-- Only the write buffer and its offset have changed.
pub record SameButWrites (c c' : Connection) : Type 0 where
  pub fd : c'.fd ≡ c.fd
  pub parser : c'.parser ≡ c.parser
  pub pending_keep_alive : c'.pending_keep_alive ≡ c.pending_keep_alive

is_empty-nil : (xs : Bytes) → is_empty xs ≡ true → xs ≡ []
is_empty-nil [] e = refl
is_empty-nil (x ∷ xs) e = cc

module _ (sys : Sys) (laws : SendLaws sys) where
  -- A finished flush leaves nothing pending, and all of it is out, but for what a `send` has refused. An
  -- unfinished one has sent a front part of what was pending, and keeps the rest, which the socket would
  -- not take.
  abbrev pub Flushes : Connection → sys.World → Flushed sys → Type 0
  Flushes c w (c', true, w') =
      (has_pending_write c' ≡ false) × Delivered sys c.fd (sys.output w c.fd ++ pending c) c' w'
  Flushes c w (c', false, w') =
      (has_pending_write c' ≡ true)
      × (sys.output w' c.fd ++ pending c' ≡ sys.output w c.fd ++ pending c)
      × Blocked sys c.fd (pending c') w'

  abbrev pub Outcome : Connection → sys.World → Flushed sys → Type 0
  Outcome c w r = SameButWrites c r.0 × IsValid r.0 × Flushes c w r

  rest_of :
      (c : Connection) (n : ℕ) (w w' : sys.World)
      → sys.output w' c.fd ≡ sys.output w c.fd ++ take n (pending c)
      → sys.output w' c.fd ++ drop (c.write_offset + n) c.write_buffer
        ≡ sys.output w c.fd ++ pending c
  rest_of c n w w' grown =
      rw (grown, append_assoc, ← drop-drop n c.write_offset c.write_buffer, take-append-drop)

  flush_loop-done :
      (fuel : ℕ) (c : Connection) (w : sys.World)
      → has_pending_write c ≡ false
      → flush_loop sys (suc fuel) c w ≡ (clear_written c, true, w)
  unfolding flush_loop
  flush_loop-done fuel c w e = rw e

  flush_loop-round :
      (fuel : ℕ) (c : Connection) (w : sys.World)
      → has_pending_write c ≡ true
      → flush_loop sys (suc fuel) c w
        ≡ after_send sys (flush_loop sys fuel) c (sys.send w c.fd (pending c))
  unfolding flush_loop
  flush_loop-round fuel c w e = rw e

  give_up-Outcome :
      (c : Connection) (w w' : sys.World)
      → has_pending_write c ≡ true
      → (sys.send w c.fd (pending c) ≡ (failed, w')) ⊎ (sys.send w c.fd (pending c) ≡ (sent 0, w'))
      → Outcome c w (give_up sys c w')
  give_up-Outcome c w w' e refused =
      let left = length-drop c.write_offset c.write_buffer in
      (
        record { fd = refl; parser = refl; pending_keep_alive = refl },
        omega arith,
        (ground arith, inr (w, pending c, ground arith, refl, refused)),
      )

  cleared :
      (c : Connection)
      → c.write_offset ≡ length c.write_buffer
      → (clear_written c).write_buffer ≡ []
  cleared c at_end = elim (Bool-cases (is_empty c.write_buffer)) [
    | inl empty ↦
        rw (at_end, empty, ==_self (length c.write_buffer)) (is_empty-nil c.write_buffer empty)
    | inr some_left ↦ rw (at_end, some_left, ==_self (length c.write_buffer)) refl
  ]

  clear_written-Outcome :
      (c : Connection) (w : sys.World)
      → IsValid c
      → has_pending_write c ≡ false
      → Outcome c w (clear_written c, true, w)
  clear_written-Outcome c w v e =
      let at_end : c.write_offset ≡ length c.write_buffer = ground arith in
      let nothing : pending c ≡ [] =
        ap (λ n. drop n c.write_buffer) at_end ∙ drop-length c.write_buffer in
      (ground arith, ground arith, (ground arith, inl (cleared c at_end, rw (nothing, append-nil))))

  -- A round that has sent `n` bytes, and then the rest of the loop.
  sent-Outcome :
      (c : Connection) (n : ℕ) (w w' : sys.World) (r : Flushed sys)
      → sys.output w' c.fd ≡ sys.output w c.fd ++ take n (pending c)
      → Outcome (record c { write_offset = c.write_offset + n }) w' r
      → Outcome c w r
  sent-Outcome c n w w' (c', true, w2) grown (same_fields, valid, (finished, delivered)) = (
    record {
      fd = same_fields.fd;
      parser = same_fields.parser;
      pending_keep_alive = same_fields.pending_keep_alive;
    },
    valid,
    (finished, subst (λ text. Delivered sys c.fd text c' w2) (rest_of c n w w' grown) delivered),
  )
  sent-Outcome c n w w' (c', false, w2) grown (same_fields, valid, (unfinished, kept, blocked)) = (
    record {
      fd = same_fields.fd;
      parser = same_fields.parser;
      pending_keep_alive = same_fields.pending_keep_alive;
    },
    valid,
    (unfinished, kept ∙ rest_of c n w w' grown, blocked),
  )

  after_send-Outcome :
      (k : Connection → sys.World → Flushed sys) (c : Connection) (w : sys.World)
      (a : SendAnswer × sys.World)
      → IsValid c
      → has_pending_write c ≡ true
      → sys.send w c.fd (pending c) ≡ a
      → ((n : ℕ) (w' : sys.World)
          → c.write_offset + suc n ≤ length c.write_buffer
          → let c' = record c { write_offset = c.write_offset + suc n } in Outcome c' w' (k c' w'))
      → Outcome c w (after_send sys k c a)
  after_send-Outcome k c w (sent zero, w') v more e next = give_up-Outcome c w w' more (inr e)
  after_send-Outcome k c w (sent (suc n), w') v more e next =
      let (few, grown) = laws.takes_part w c.fd (suc n) (pending c) w' e in
      let left = length-drop c.write_offset c.write_buffer in
      sent-Outcome c (suc n) w w' _ grown (next n w' (omega arith))
  after_send-Outcome k c w (SendAnswer.would_block, w') v more e next =
      (ground arith, v, (more, rw (laws.takes_none w c.fd (pending c) w' e), (w, e)))
  after_send-Outcome k c w (failed, w') v more e next = give_up-Outcome c w w' more (inl e)

  flush_loop-Outcome :
      (fuel : ℕ) (c : Connection) (w : sys.World)
      → IsValid c
      → length c.write_buffer < fuel + c.write_offset
      → Outcome c w (flush_loop sys fuel c w)
  flush_loop-Outcome zero c w v h = absurd (omega arith)
  flush_loop-Outcome (suc fuel) c w v h = elim (Bool-cases (has_pending_write c)) [
    | inl more ↦ rw (flush_loop-round fuel c w more) (
        after_send-Outcome (flush_loop sys fuel) c w (sys.send w c.fd (pending c)) v more refl
          (λ n w' inside.
            flush_loop-Outcome fuel (record c { write_offset = c.write_offset + suc n }) w' inside
              (omega arith)))
    | inr none_left ↦
        rw (flush_loop-done fuel c w none_left) (clear_written-Outcome c w v none_left)
  ]

  -- For a kernel with the laws of send and a valid write offset: the flush changes the write buffer and
  -- its offset alone, and keeps the offset valid. If it answers true nothing is pending, and all that was
  -- pending has been sent, unless a `send` of what was left of it failed or took no byte. If it answers
  -- false, bytes are pending that a `send` would have blocked for, and with what has been sent they are what
  -- was pending before, in order.
  pub flush_write-Outcome :
      (c : Connection) (w : sys.World) → IsValid c → Outcome c w (flush_write sys c w)
  unfolding flush_write
  flush_write-Outcome c w v = flush_loop-Outcome _ c w v (omega arith)
