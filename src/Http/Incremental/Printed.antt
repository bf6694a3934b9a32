-- ===== src/Http/Incremental/Printed.antt =====
-- A message that is printed line by line is read back, whatever follows it.
use high_performance_http_se.Common.{
  ℕ, suc, ◌+◌, ◌≡◌, refl, ap, ◌∙◌, true, false, Bytes, [], ◌∷◌, ◌++◌, length, drop, is_empty,
  ltb-of-le, length-append, take-length_append, drop-length_append, append_assoc, goes_on, arith,
}
use high_performance_http_se.Http.Text.{cr, lf, crlf}
use high_performance_http_se.Http.Text.Lines.{HasNoCrlf, HasNoCrlf-empty, extract_line-append}
use high_performance_http_se.Http.Message.{Header, HeaderList, header_line}
use high_performance_http_se.Http.Message.Serialize.{header_lines}
use high_performance_http_se.Http.Headers.Printed.{IsPrintable, bare_line, bare_line-HasNoCrlf}
use high_performance_http_se.Http.Incremental.{
  Format, Parser, State, ParseStatus, fresh, take_start_line, take_header_line, end_headers,
  read_start_line, read_headers, read_body, process, consume, append_bytes,
}
use high_performance_http_se.Http.Incremental.Fuel.{read_headers-last, read_headers-line}

abbrev pub AllPrintable : HeaderList → Type 0
AllPrintable [] = Unit {0}
AllPrintable (h ∷ hs) = IsPrintable h × AllPrintable hs

drop-line : (l rest : Bytes) → drop (length l + 2) (l ++ cr ∷ lf ∷ rest) ≡ rest
drop-line [] rest = refl
drop-line (x ∷ l) rest =
    let e : suc (length l) + 2 ≡ suc (length l + 2) = omega arith in rw e (drop-line l rest)

header_line-bare_line :
    (h : Header) (rest : Bytes) → header_line h ++ rest ≡ bare_line h ++ cr ∷ lf ∷ rest
header_line-bare_line h rest = simp append_assoc

bare_line-ne_empty : (h : Header) → is_empty (bare_line h) ≡ false
bare_line-ne_empty ([], v) = refl
bare_line-ne_empty (c ∷ k, v) = refl

abbrev pub Adds : {M : Type 0} → Format M → (Header → M → M) → Type 0
Adds {M} format add =
    (h : Header) (m : M)
    → IsPrintable h
    → format.parse_header_line (bare_line h) m ≡ (add h m, true)

module _ {M : Type 0} (format : Format M) (add : Header → M → M) (adds : Adds format add) where
  abbrev pub add_all : HeaderList → M → M
  add_all [] m = m
  add_all (h ∷ hs) m = add_all hs (add h m)

  abbrev at_headers : ℕ → M → Bytes → Parser M
  at_headers n m buffer = record {
    state = State.headers;
    buffer = buffer;
    body_bytes_needed = n;
    message = m;
  }

  take_header_line-bare_line :
      (n : ℕ) (m : M) (h : Header) (rest : Bytes)
      → IsPrintable h
      → take_header_line format
          (at_headers n m (bare_line h ++ cr ∷ lf ∷ rest))
          (bare_line h)
          (length (bare_line h) + 2)
        ≡ goes_on (at_headers n (add h m) rest)
  unfolding take_header_line
  take_header_line-bare_line n m h rest ok = rw (adds h m ok, drop-line (bare_line h) rest)

  -- The parser behind the headers `hs`, with `rest` in its buffer.
  abbrev pub behind : HeaderList → M → Bytes → Parser M
  behind hs m rest = record {
    state = State.body;
    buffer = rest;
    body_bytes_needed = (format.finalize_headers (add_all hs m)).1;
    message = (format.finalize_headers (add_all hs m)).0;
  }

  read_headers-header_lines :
      (hs : HeaderList) (n : ℕ) (m : M) (rest : Bytes)
      → AllPrintable hs
      → read_headers format (at_headers n m (header_lines hs ++ (crlf ++ rest)))
        ≡ goes_on (behind hs m rest)
  unfolding end_headers
  read_headers-header_lines [] n m rest ok =
      read_headers-last format (at_headers n m (crlf ++ rest)) refl
        (extract_line-append [] rest HasNoCrlf-empty) refl
  read_headers-header_lines (h ∷ hs) n m rest ok =
      let rest' = header_lines hs ++ (crlf ++ rest) in
      ap (λ s. read_headers format (at_headers n m s))
        (append_assoc (header_line h) (header_lines hs) (crlf ++ rest)
          ∙ header_line-bare_line h rest')
      ∙ read_headers-line format (at_headers n m (bare_line h ++ cr ∷ lf ∷ rest'))
          (at_headers n (add h m) rest') refl
          (extract_line-append (bare_line h) rest' (bare_line-HasNoCrlf h ok.0))
          (bare_line-ne_empty h) (take_header_line-bare_line n m h rest' ok.0)
      ∙ read_headers-header_lines hs n (add h m) rest ok.1

  read_body-exact :
      (needed : ℕ) (m : M) (body rest : Bytes)
      → needed ≡ length body
      → read_body format (record {
        state = State.body;
        buffer = body ++ rest;
        body_bytes_needed = needed;
        message = m;
      })
        ≡ goes_on (record {
          state = State.complete;
          buffer = rest;
          body_bytes_needed = needed;
          message = format.set_body body m;
        })
  unfolding read_body
  read_body-exact needed m body rest e = rw (
    e,
    ltb-of-le (length (body ++ rest)) (length body) (omega (arith, length-append body rest)),
    take-length_append body rest,
    drop-length_append body rest,
  )

  -- The parser that has read the message with first line `l`, headers `hs` and body `body`.
  abbrev pub finished : HeaderList → M → Bytes → Bytes → Parser M
  finished hs m body rest = record {
    state = State.complete;
    buffer = rest;
    body_bytes_needed = (format.finalize_headers (add_all hs m)).1;
    message = format.set_body body (format.finalize_headers (add_all hs m)).0;
  }

  pub consume-printed :
      (l : Bytes) (m : M) (hs : HeaderList) (body rest : Bytes)
      → HasNoCrlf l
      → format.parse_start_line l format.blank ≡ (m, true)
      → AllPrintable hs
      → (format.finalize_headers (add_all hs m)).1 ≡ length body
      → consume format (fresh format) (l ++ (crlf ++ (header_lines hs ++ (crlf ++ (body ++ rest)))))
        ≡ (finished hs m body rest, ParseStatus.complete)
  unfolding consume append_bytes process fresh read_start_line take_start_line
  consume-printed l m hs body rest clean first ok sized =
      let tail = header_lines hs ++ (crlf ++ (body ++ rest)) in
      let (m', needed) = format.finalize_headers (add_all hs m) in
      rw (
        extract_line-append l tail clean,
        read_start_line,
        take_start_line,
        first,
        drop-line l tail,
        read_headers-header_lines hs 0 m (body ++ rest) ok,
        read_body-exact needed m' body rest sized,
      )
