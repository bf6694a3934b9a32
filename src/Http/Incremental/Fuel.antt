-- ===== src/Http/Incremental/Fuel.antt =====
-- The header loop ends: its rounds are fewer than the bytes of the buffer.
use high_performance_http_se.Common.{
  ℕ, zero, suc, ◌<◌, ◌≡◌, sym, ap, ◌∙◌, inl, inr, true, false, some, none, Bytes, length, drop,
  is_empty, returned, goes_on, ◌>>=◌, >>=-agree, Bool-cases, Option-cases, arith,
}
use high_performance_http_se.Http.Text.{extract_line}
use high_performance_http_se.Http.Text.Lines.{extract_line-shrinks}
use high_performance_http_se.Http.Incremental.{
  Format, Parser, take_header_line, end_headers, header_loop, read_headers, State, need_more_data,
}

module _ {M : Type 0} (format : Format M) where
  pub take_header_line-buffer :
      (p : Parser M) (line : Bytes) (pos : ℕ) {q : Parser M}
      → take_header_line format p line pos ≡ goes_on q
      → (q.buffer ≡ drop pos p.buffer) × (q.state ≡ p.state)
  unfolding take_header_line
  take_header_line-buffer p line pos h = ground arith

  -- One round, with the fuel that is left.
  pub header_loop-stuck :
      (fuel : ℕ) (p : Parser M)
      → extract_line p.buffer 0 ≡ none
      → header_loop format (suc fuel) p ≡ returned (p, need_more_data)
  unfolding header_loop
  header_loop-stuck fuel p e = rw (e, header_loop)

  pub header_loop-last :
      (fuel : ℕ) (p : Parser M) {line : Bytes} {pos : ℕ}
      → extract_line p.buffer 0 ≡ some (line, pos)
      → is_empty line ≡ true
      → header_loop format (suc fuel) p ≡ goes_on (end_headers format p pos)
  unfolding header_loop
  header_loop-last fuel p e last = rw (e, header_loop, last)

  pub header_loop-line :
      (fuel : ℕ) (p : Parser M) {line : Bytes} {pos : ℕ}
      → extract_line p.buffer 0 ≡ some (line, pos)
      → is_empty line ≡ false
      → header_loop format (suc fuel) p
        ≡ (take_header_line format p line pos >>= header_loop format fuel)
  unfolding header_loop
  header_loop-line fuel p e more = rw (e, header_loop, more)

  -- Any two bounds above the length of the buffer give the header loop the same result.
  pub header_loop-fuel :
      (f g : ℕ) (p : Parser M)
      → length p.buffer < f
      → length p.buffer < g
      → header_loop format f p ≡ header_loop format g p
  header_loop-fuel zero g p hf hg = absurd (omega arith)
  header_loop-fuel (suc f) zero p hf hg = absurd (omega arith)
  header_loop-fuel (suc f) (suc g) p hf hg = elim (Option-cases (extract_line p.buffer 0)) [
    | inl e ↦ header_loop-stuck f p e ∙ sym (header_loop-stuck g p e)
    | inr ((line, pos), e) ↦ elim (Bool-cases (is_empty line)) [
      | inl last ↦ header_loop-last f p e last ∙ sym (header_loop-last g p e last)
      | inr more ↦
          header_loop-line f p e more
          ∙ >>=-agree (take_header_line format p line pos) (header_loop format f)
              (header_loop format g)
              (λ q taken.
                let less = extract_line-shrinks p.buffer e in
                let shorter = ap length (take_header_line-buffer p line pos taken).0 in
                header_loop-fuel f g q (omega arith) (omega arith))
          ∙ sym (header_loop-line g p e more)
    ]
  ]

  pub read_headers-loop :
      (p : Parser M)
      → p.state ≡ State.headers
      → read_headers format p ≡ header_loop format (suc (length p.buffer)) p
  unfolding read_headers
  read_headers-loop p e = rw e

  -- One round of the loop, with no fuel in sight.
  pub read_headers-last :
      (p : Parser M) {line : Bytes} {pos : ℕ}
      → p.state ≡ State.headers
      → extract_line p.buffer 0 ≡ some (line, pos)
      → is_empty line ≡ true
      → read_headers format p ≡ goes_on (end_headers format p pos)
  read_headers-last p e x last = read_headers-loop p e ∙ header_loop-last _ p x last

  pub read_headers-line :
      (p q : Parser M) {line : Bytes} {pos : ℕ}
      → p.state ≡ State.headers
      → extract_line p.buffer 0 ≡ some (line, pos)
      → is_empty line ≡ false
      → take_header_line format p line pos ≡ goes_on q
      → read_headers format p ≡ read_headers format q
  read_headers-line p q {line} {pos} e x more taken =
      let (kept, state) = take_header_line-buffer p line pos taken in
      let less = extract_line-shrinks p.buffer x in
      let shorter = ap length kept in
      read_headers-loop p e
      ∙ header_loop-line _ p x more
      ∙ rw taken
          (header_loop-fuel (length p.buffer) (suc (length q.buffer)) q (omega arith) (omega arith))
      ∙ sym (read_headers-loop q (state ∙ e))
