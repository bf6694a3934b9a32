-- ===== src/Http/Incremental/Carried.antt =====
-- A parser with more bytes behind its buffer reads the header lines as it does without them.
use high_performance_http_se.Common.{
  ℕ, zero, suc, ◌<◌, ◌≡◌, refl, sym, ap, ◌∙◌, inl, inr, Bytes, ◌++◌, length, length-append, drop,
  is_empty, Flow, returned, goes_on, ◌>>=◌, Bool-cases, Option-cases, arith,
}
use high_performance_http_se.Http.Text.{extract_line}
use high_performance_http_se.Http.Text.Lines.{extract_line-shrinks, extract_line-more}
use high_performance_http_se.Http.Incremental.{
  Format, Parser, take_start_line, take_header_line, end_headers, header_loop, read_headers,
  process, Outcome, State, ParseStatus,
}
use high_performance_http_se.Http.Incremental.Fuel.{
  take_header_line-buffer, header_loop-stuck, header_loop-last, header_loop-line, header_loop-fuel,
}

module _ {M : Type 0} (format : Format M) (b : Bytes) where
  abbrev pub more : Parser M → Parser M
  more p = record p { buffer = p.buffer ++ b }

  -- The outcome of the whole input, from the outcome of its first part.
  abbrev pub after : Outcome format → Outcome format
  after (q, ParseStatus.need_more_data) = process format (more q)
  after (q, ParseStatus.complete) = (more q, ParseStatus.complete)
  after (q, ParseStatus.error) = (more q, ParseStatus.error)

  abbrev pub Carries : Flow (Outcome format) (Parser M) → Flow (Outcome format) (Parser M) → Type 0
  Carries (goes_on q) r = r ≡ goes_on (more q)
  Carries (returned (q, ParseStatus.need_more_data)) r =
      (q.state ≡ State.headers) × (r ≡ read_headers format (more q))
  Carries (returned (q, ParseStatus.complete)) r = r ≡ returned (more q, ParseStatus.complete)
  Carries (returned (q, ParseStatus.error)) r = r ≡ returned (more q, ParseStatus.error)

  read_headers-loop :
      (p : Parser M)
      → p.state ≡ State.headers
      → read_headers format p ≡ header_loop format (suc (length p.buffer)) p
  unfolding read_headers
  read_headers-loop p e = rw e

  end_headers-more :
      (p : Parser M) (pos : ℕ)
      → drop pos (p.buffer ++ b) ≡ drop pos p.buffer ++ b
      → end_headers format (more p) pos ≡ more (end_headers format p pos)
  unfolding end_headers
  end_headers-more p pos e = rw e

  -- A header line is taken off the longer buffer as off the shorter one.
  abbrev pub TakenAlike :
      Flow (Outcome format) (Parser M) → Flow (Outcome format) (Parser M) → Type 0
  TakenAlike (goes_on q) r = r ≡ goes_on (more q)
  TakenAlike (returned (q, s)) r = (s ≡ ParseStatus.error) × (r ≡ returned (more q, s))

  take_header_line-TakenAlike :
      (p : Parser M) (line : Bytes) (pos : ℕ)
      → drop pos (p.buffer ++ b) ≡ drop pos p.buffer ++ b
      → TakenAlike (take_header_line format p line pos) (take_header_line format (more p) line pos)
  unfolding take_header_line
  take_header_line-TakenAlike p line pos e =
      elim (Bool-cases (format.parse_header_line line p.message).1) [
        | inl ok ↦ rw (ok, e) refl
        | inr bad ↦ rw bad (refl, refl)
      ]

  pub take_start_line-TakenAlike :
      (p : Parser M) (line : Bytes) (pos : ℕ)
      → drop pos (p.buffer ++ b) ≡ drop pos p.buffer ++ b
      → TakenAlike (take_start_line format p line pos) (take_start_line format (more p) line pos)
  unfolding take_start_line
  take_start_line-TakenAlike p line pos e =
      elim (Bool-cases (format.parse_start_line line p.message).1) [
        | inl ok ↦ rw (ok, e) refl
        | inr bad ↦ rw bad (refl, refl)
      ]

  bind-Carries :
      (m m' : Flow (Outcome format) (Parser M)) (k k' : Parser M → Flow (Outcome format) (Parser M))
      → TakenAlike m m'
      → ((q : Parser M) → m ≡ goes_on q → Carries (k q) (k' (more q)))
      → Carries (m >>= k) (m' >>= k')
  bind-Carries (goes_on q) m' k k' t h = rw t (h q refl)
  bind-Carries (returned (q, ParseStatus.error)) m' k k' t h = rw t.1 refl
  bind-Carries (returned (q, ParseStatus.need_more_data)) m' k k' t h = cc
  bind-Carries (returned (q, ParseStatus.complete)) m' k k' t h = cc

  header_loop-Carries :
      (f g : ℕ) (p : Parser M)
      → p.state ≡ State.headers
      → length p.buffer < f
      → length (p.buffer ++ b) < g
      → Carries (header_loop format f p) (header_loop format g (more p))
  header_loop-Carries zero g p e hf hg = absurd (omega arith)
  header_loop-Carries (suc f) zero p e hf hg = absurd (omega arith)
  header_loop-Carries (suc f) (suc g) p e hf hg = elim (Option-cases (extract_line p.buffer 0)) [
    | inl x ↦ rw (header_loop-stuck format f p x) (
      e,
      header_loop-fuel format (suc g) (suc (length (p.buffer ++ b))) (more p) hg (omega arith)
          ∙ sym (read_headers-loop (more p) e),
    )
    | inr ((line, pos), x) ↦
        let (x', rest) = extract_line-more p.buffer b x in
        elim (Bool-cases (is_empty line)) [
          | inl last ↦ rw (header_loop-last format f p x last) (
              header_loop-last format g (more p) x' last ∙ ap goes_on (end_headers-more p pos rest))
          | inr line_follows ↦
              rw
                (
                  header_loop-line format f p x line_follows,
                  header_loop-line format g (more p) x' line_follows,
                )
                (bind-Carries (take_header_line format p line pos) _ (header_loop format f)
                  (header_loop format g) (take_header_line-TakenAlike p line pos rest)
                  (λ q taken.
                    let less = extract_line-shrinks p.buffer x in
                    let (kept, state) = take_header_line-buffer format p line pos taken in
                    let shorter = ap length kept in
                    let joined = length-append p.buffer b in
                    let joined' = length-append q.buffer b in
                    header_loop-Carries f g q (state ∙ e) (omega arith) (omega arith)))
        ]
  ]

  pub read_headers-Carries :
      (p : Parser M)
      → p.state ≡ State.headers
      → Carries (read_headers format p) (read_headers format (more p))
  read_headers-Carries p e =
      rw (read_headers-loop p e, read_headers-loop (more p) e)
        (header_loop-Carries _ _ p e (omega arith) (omega arith))
