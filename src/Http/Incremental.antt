-- ===== src/Http/Incremental.antt =====
-- The incremental state machine that HttpParser and HttpResponseParser of src/net/http_parser.cpp
-- both write out. Their bodies agree but for the first line and the message, which are `Format`.
pub mod Fuel
pub mod Ends
pub mod Carried
pub mod Chunks
pub mod Printed
use high_performance_http_se.Common.{
  ℕ, zero, suc, ◌+◌, Bool, true, false, List, [], ◌∷◌, ◌++◌, Option, none, some, Bytes, ltb,
  if◌then◌else◌, length, take, drop, is_empty, Flow, returned, goes_on, ◌>>=◌, value,
}
use high_performance_http_se.Http.Text.{extract_line}

pub data ParseStatus : Type 0 where
  need_more_data complete error : ParseStatus

-- `start_line` is State::RequestLine or State::StatusLine.
pub data State : Type 0 where
  start_line headers body complete error : State

-- What a parser does with its message: each function gives the new message, and its answer.
pub record Format (M : Type 0) : Type 0 where
  pub blank : M
  pub parse_start_line : Bytes → M → M × Bool
  pub parse_header_line : Bytes → M → M × Bool
  pub finalize_headers : M → M × ℕ
  pub set_body : Bytes → M → M

pub record Parser (M : Type 0) : Type 0 where
  pub state : State
  pub buffer : Bytes
  pub body_bytes_needed : ℕ
  pub message : M

module _ {M : Type 0} (format : Format M) where
  open format use {blank, parse_start_line, parse_header_line, finalize_headers, set_body}

  -- A parser as constructed, and as `reset` leaves it.
  unfoldable pub fresh : Parser M
  fresh = record { state = State.start_line; buffer = []; body_bytes_needed = 0; message = blank }

  abbrev pub Outcome : Type 0
  Outcome = Parser M × ParseStatus

  -- The parser after a start line `line` that ends before `pos`.
  unfoldable pub take_start_line : Parser M → Bytes → ℕ → Flow Outcome (Parser M)
  take_start_line p line pos =
      let (m, ok) = parse_start_line line p.message in
      if ok
      then goes_on (record p { message = m; buffer = drop pos p.buffer; state = State.headers })
      else returned (record p { message = m; state = State.error }, ParseStatus.error)

  unfoldable pub read_start_line : Parser M → Flow Outcome (Parser M)
  read_start_line p = elim p.state [
    | State.start_line ↦ elim (extract_line p.buffer 0) [
      | none ↦ returned (p, need_more_data)
      | some (line, pos) ↦ take_start_line p line pos
    ]
    | _ ↦ goes_on p
  ]

  -- The empty line ends the headers.
  unfoldable pub end_headers : Parser M → ℕ → Parser M
  end_headers p pos =
      let (m, needed) = finalize_headers p.message in
      record p {
        buffer = drop pos p.buffer;
        message = m;
        body_bytes_needed = needed;
        state = State.body;
      }

  -- The parser after a header line `line` that ends before `pos`.
  unfoldable pub take_header_line : Parser M → Bytes → ℕ → Flow Outcome (Parser M)
  take_header_line p line pos =
      let (m, ok) = parse_header_line line p.message in
      if ok
      then goes_on (record p { message = m; buffer = drop pos p.buffer })
      else returned (record p { message = m; state = State.error }, ParseStatus.error)

  -- `for (;;)`. Each round takes a line off the buffer, so its length bounds the rounds. Past the bound it
  -- goes on in State.headers, which is the answer of no exit of the loop: the only one that goes on ends the
  -- headers.
  unfoldable pub header_loop : ℕ → Parser M → Flow Outcome (Parser M)
  header_loop zero p = goes_on p
  header_loop (suc fuel) p = elim (extract_line p.buffer 0) [
    | none ↦ returned (p, need_more_data)
    | some (line, pos) ↦
        let next = take_header_line p line pos >>= header_loop fuel in
        if is_empty line then goes_on (end_headers p pos) else next
  ]

  unfoldable pub read_headers : Parser M → Flow Outcome (Parser M)
  read_headers p = elim p.state [
    | State.headers ↦ header_loop (suc (length p.buffer)) p
    | _ ↦ goes_on p
  ]

  unfoldable pub read_body : Parser M → Flow Outcome (Parser M)
  read_body p = elim p.state [
    | State.body ↦
        if ltb (length p.buffer) p.body_bytes_needed
        then returned (p, need_more_data)
        else goes_on (record p {
          message = set_body (take p.body_bytes_needed p.buffer) p.message;
          buffer = drop p.body_bytes_needed p.buffer;
          state = State.complete;
        })
    | _ ↦ goes_on p
  ]

  unfoldable pub process : Parser M → Outcome
  process p = value do
    p ← read_start_line p
    p ← read_headers p
    p ← read_body p
    returned (p, ParseStatus.complete)

  -- The buffer with more bytes behind it.
  unfoldable pub append_bytes : Parser M → Bytes → Parser M
  append_bytes p bytes = record p { buffer = p.buffer ++ bytes }

  unfoldable pub consume : Parser M → Bytes → Outcome
  consume p bytes = process (append_bytes p bytes)
