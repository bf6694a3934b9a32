-- ===== src/Http/Incremental/Ends.antt =====
-- Every run of the header loop ends, and by an exit of its own.
use high_performance_http_se.Common.{
  ℕ, zero, suc, ◌<◌, ◌≡◌, refl, ap, inl, inr, true, false, some, none, Bytes, length, is_empty,
  Flow, returned, goes_on, ◌>>=◌, Bool-cases, Option-cases, arith,
}
use high_performance_http_se.Http.Text.{extract_line}
use high_performance_http_se.Http.Text.Lines.{extract_line-shrinks}
use high_performance_http_se.Http.Incremental.{
  Format, Parser, Outcome, State, need_more_data, take_header_line, end_headers, header_loop,
  read_headers,
}
use high_performance_http_se.Http.Incremental.Fuel.{
  take_header_line-buffer, header_loop-stuck, header_loop-last, header_loop-line, read_headers-loop,
}

module _ {M : Type 0} (format : Format M) where
  -- A finite run of `for (;;)`: rounds that take a line, and one that leaves the loop.
  pub data HeaderRun : Parser M → Flow (Outcome format) (Parser M) → Type 0 where
    no_line :
        (p : Parser M) → extract_line p.buffer 0 ≡ none → HeaderRun p (returned (p, need_more_data))
    empty_line :
        (p : Parser M) (line : Bytes) (pos : ℕ)
        → extract_line p.buffer 0 ≡ some (line, pos)
        → is_empty line ≡ true
        → HeaderRun p (goes_on (end_headers format p pos))
    bad_line :
        (p : Parser M) (line : Bytes) (pos : ℕ) (o : Outcome format)
        → extract_line p.buffer 0 ≡ some (line, pos)
        → is_empty line ≡ false
        → take_header_line format p line pos ≡ returned o
        → HeaderRun p (returned o)
    good_line :
        (p q : Parser M) (line : Bytes) (pos : ℕ) (r : Flow (Outcome format) (Parser M))
        → extract_line p.buffer 0 ≡ some (line, pos)
        → is_empty line ≡ false
        → take_header_line format p line pos ≡ goes_on q
        → HeaderRun q r
        → HeaderRun p r

  header_loop-HeaderRun :
      (fuel : ℕ) (p : Parser M) → length p.buffer < fuel → HeaderRun p (header_loop format fuel p)
  header_loop-HeaderRun zero p few = absurd (omega arith)
  header_loop-HeaderRun (suc fuel) p few = elim (Option-cases (extract_line p.buffer 0)) [
    | inl e ↦ rw (header_loop-stuck format fuel p e) (no_line p e)
    | inr ((line, pos), e) ↦ elim (Bool-cases (is_empty line)) [
      | inl last ↦ rw (header_loop-last format fuel p e last) (empty_line p line pos e last)
      | inr more ↦ rw (header_loop-line format fuel p e more) (
          taken line pos e more (take_header_line format p line pos) refl
            (λ q shorter. header_loop-HeaderRun fuel q shorter))
    ]
  ]
    where
      taken :
          (line : Bytes) (pos : ℕ)
          → extract_line p.buffer 0 ≡ some (line, pos)
          → is_empty line ≡ false
          → (o : Flow (Outcome format) (Parser M)) → take_header_line format p line pos ≡ o
          → ((q : Parser M) → length q.buffer < fuel → HeaderRun q (header_loop format fuel q))
          → HeaderRun p (o >>= header_loop format fuel)
      taken line pos e more (returned o) t rest = bad_line p line pos o e more t
      taken line pos e more (goes_on q) t rest =
          let less = extract_line-shrinks p.buffer e in
          let shorter = ap length (take_header_line-buffer format p line pos t).0 in
          good_line p q line pos _ e more t (rest q (omega arith))

  -- In every state of the buffer, the header loop ends after finitely many rounds, each of which takes a line
  -- that the parser accepts, by an exit that the source has: no line is whole, the empty line, or a line that
  -- is refused. The bound on the rounds is never what ends it.
  pub read_headers-HeaderRun :
      (p : Parser M) → p.state ≡ State.headers → HeaderRun p (read_headers format p)
  read_headers-HeaderRun p e =
      rw (read_headers-loop format p e)
        (header_loop-HeaderRun (suc (length p.buffer)) p (omega arith))
