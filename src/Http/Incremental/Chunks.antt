-- ===== src/Http/Incremental/Chunks.antt =====
-- How the input is cut into reads does not matter.
use high_performance_http_se.Common.{
  ℕ, ◌≤◌, ◌≡◌, refl, sym, ap, ◌∙◌, inl, inr, true, false, some, none, Bytes, ◌++◌, length,
  length-append, take, drop, take-append, drop-append, Flow, returned, goes_on, ◌>>=◌, value,
  Bool-cases, Option-cases, arith, ltb, ltb-of-le, append_assoc,
}
use high_performance_http_se.Http.Text.{extract_line}
use high_performance_http_se.Http.Text.Lines.{extract_line-more}
use high_performance_http_se.Http.Incremental.{
  Format, Parser, take_start_line, read_start_line, read_headers, read_body, process, append_bytes,
  consume, Outcome, State, ParseStatus, need_more_data,
}
use high_performance_http_se.Http.Incremental.Carried.{
  more, after, Carries, TakenAlike, take_start_line-TakenAlike, read_headers-Carries,
}

module _ {M : Type 0} (format : Format M) (b : Bytes) where
  -- The end of `process`, behind the headers, and behind the start line.
  abbrev from_body : Parser M → Outcome format
  from_body p = value do q ← read_body format p; returned (q, ParseStatus.complete)

  abbrev from_headers : Parser M → Outcome format
  from_headers p =
      value do q ← read_headers format p; r ← read_body format q; returned (r, ParseStatus.complete)

  process-from_headers :
      (p : Parser M) → p.state ≡ State.headers → process format p ≡ from_headers p
  unfolding process read_start_line
  process-from_headers p e = rw e

  process-from_body : (p : Parser M) → p.state ≡ State.body → process format p ≡ from_body p
  unfolding process read_start_line read_headers
  process-from_body p e = rw e

  read_body-short :
      (p : Parser M)
      → p.state ≡ State.body
      → ltb (length p.buffer) p.body_bytes_needed ≡ true
      → from_body p ≡ (p, need_more_data)
  unfolding read_body
  read_body-short p e short = rw (e, short)

  -- The parser that has taken its body.
  abbrev with_body : Parser M → Parser M
  with_body p = record p {
    message = format.set_body (take p.body_bytes_needed p.buffer) p.message;
    buffer = drop p.body_bytes_needed p.buffer;
    state = State.complete;
  }

  read_body-enough :
      (p : Parser M)
      → p.state ≡ State.body
      → ltb (length p.buffer) p.body_bytes_needed ≡ false
      → from_body p ≡ (with_body p, ParseStatus.complete)
  unfolding read_body
  read_body-enough p e enough = rw (e, enough)

  from_body-after_body :
      (p : Parser M)
      → p.state ≡ State.body
      → from_body (more format b p) ≡ after format b (from_body p)
  from_body-after_body p e = elim (Bool-cases (ltb (length p.buffer) p.body_bytes_needed)) [
    | inl short ↦ rw (read_body-short p e short) (sym (process-from_body (more format b p) e))
    | inr enough ↦
        let fits : p.body_bytes_needed ≤ length p.buffer = ground arith in
        rw (read_body-enough p e enough) (
          read_body-enough (more format b p) e (
            ltb-of-le (length (p.buffer ++ b)) p.body_bytes_needed
              (omega (arith, length-append p.buffer b)))
          ∙ rw (
            take-append p.body_bytes_needed p.buffer b fits,
            drop-append p.body_bytes_needed p.buffer b fits,
          ))
  ]

  from_body-after :
      (s : State) (p : Parser M)
      → p.state ≡ s
      → from_body (more format b p) ≡ after format b (from_body p)
  unfolding read_body
  from_body-after State.body p e = from_body-after_body p e
  from_body-after _ p e = rw e

  abbrev behind_headers : Flow (Outcome format) (Parser M) → Outcome format
  behind_headers m = value do q ← m; r ← read_body format q; returned (r, ParseStatus.complete)

  behind_headers-after :
      (m m' : Flow (Outcome format) (Parser M))
      → Carries format b m m'
      → behind_headers m' ≡ after format b (behind_headers m)
  behind_headers-after (goes_on q) m' c = rw c (from_body-after q.state q refl)
  behind_headers-after (returned (q, ParseStatus.need_more_data)) m' c =
      rw c.1 (sym (process-from_headers (more format b q) c.0))
  behind_headers-after (returned (q, ParseStatus.complete)) m' c = rw c refl
  behind_headers-after (returned (q, ParseStatus.error)) m' c = rw c refl

  from_headers-after :
      (p : Parser M)
      → p.state ≡ State.headers
      → from_headers (more format b p) ≡ after format b (from_headers p)
  from_headers-after p e =
      behind_headers-after (read_headers format p) (read_headers format (more format b p))
        (read_headers-Carries format b p e)

  abbrev behind_start_line : Flow (Outcome format) (Parser M) → Outcome format
  behind_start_line m = value do
    p ← m
    q ← read_headers format p
    r ← read_body format q
    returned (r, ParseStatus.complete)

  behind_start_line-after :
      (m m' : Flow (Outcome format) (Parser M))
      → TakenAlike format b m m'
      → ((q : Parser M) → m ≡ goes_on q → q.state ≡ State.headers)
      → behind_start_line m' ≡ after format b (behind_start_line m)
  behind_start_line-after (goes_on q) m' t h = rw t (from_headers-after q (h q refl))
  behind_start_line-after (returned (q, ParseStatus.error)) m' t h = rw t.1 refl
  behind_start_line-after (returned (q, ParseStatus.need_more_data)) m' t h = cc
  behind_start_line-after (returned (q, ParseStatus.complete)) m' t h = cc

  take_start_line-state :
      (p : Parser M) (line : Bytes) (pos : ℕ) (q : Parser M)
      → take_start_line format p line pos ≡ goes_on q
      → q.state ≡ State.headers
  unfolding take_start_line
  take_start_line-state p line pos q h = ground arith

  process-stuck :
      (p : Parser M)
      → p.state ≡ State.start_line
      → extract_line p.buffer 0 ≡ none
      → process format p ≡ (p, need_more_data)
  unfolding process read_start_line
  process-stuck p e x = ground arith

  process-start_line :
      (p : Parser M) {line : Bytes} {pos : ℕ}
      → p.state ≡ State.start_line
      → extract_line p.buffer 0 ≡ some (line, pos)
      → process format p ≡ behind_start_line (take_start_line format p line pos)
  unfolding process read_start_line
  process-start_line p e x = ground arith

  process-after_start_line :
      (p : Parser M)
      → p.state ≡ State.start_line
      → process format (more format b p) ≡ after format b (process format p)
  process-after_start_line p e = elim (Option-cases (extract_line p.buffer 0)) [
    | inl x ↦ rw (process-stuck p e x)
    | inr ((line, pos), x) ↦
        let (x', rest) = extract_line-more p.buffer b x in
        rw (process-start_line p e x, process-start_line (more format b p) e x')
          (behind_start_line-after (take_start_line format p line pos) _
            (take_start_line-TakenAlike format b p line pos rest)
            (take_start_line-state p line pos))
  ]

  process-after :
      (s : State) (p : Parser M)
      → p.state ≡ s
      → process format (more format b p) ≡ after format b (process format p)
  unfolding process read_start_line read_headers read_body
  process-after State.start_line p e = process-after_start_line p e
  process-after State.headers p e =
      rw (process-from_headers p e, process-from_headers (more format b p) e)
        (from_headers-after p e)
  process-after State.body p e =
      rw (process-from_body p e, process-from_body (more format b p) e)
        (from_body-after State.body p e)
  process-after State.complete p e = rw e
  process-after State.error p e = rw e

  -- What `consume` answers for more format b input, from its answer for the first part of it.
  unfoldable pub resume : Outcome format → Outcome format
  resume (q, ParseStatus.need_more_data) = consume format q b
  resume (q, ParseStatus.complete) = (append_bytes format q b, ParseStatus.complete)
  resume (q, ParseStatus.error) = (append_bytes format q b, ParseStatus.error)

  after-resume : (o : Outcome format) → after format b o ≡ resume o
  unfolding resume consume append_bytes
  after-resume (q, ParseStatus.need_more_data) = refl
  after-resume (q, ParseStatus.complete) = refl
  after-resume (q, ParseStatus.error) = refl

-- Feeding `a ++ b` at once gives the outcome of feeding `a`, resumed: where that wants more data, `b` is
-- fed to the parser that it left; where it is complete or has failed, that stands, and `b` is added
-- behind the buffer.
pub consume-append :
    {M : Type 0} (format : Format M) (p : Parser M) (a b : Bytes)
    → consume format p (a ++ b) ≡ resume format b (consume format p a)
unfolding consume append_bytes
consume-append format p a b =
    ap (λ s. process format (record p { buffer = s })) (sym (append_assoc p.buffer a b))
    ∙ process-after format b _ (record p { buffer = p.buffer ++ a }) refl
    ∙ after-resume format b (process format (record p { buffer = p.buffer ++ a }))

-- A parser that has failed answers `complete` to all further input, and keeps its message.
pub consume_after_error :
    {M : Type 0} (format : Format M) (p : Parser M) (bytes : Bytes)
    → p.state ≡ State.error
    → consume format p bytes ≡ (append_bytes format p bytes, ParseStatus.complete)
unfolding consume append_bytes process read_start_line read_headers read_body
consume_after_error format p bytes e = rw e
