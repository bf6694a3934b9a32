-- ===== src/Lb/Proxy/Forward.antt =====
-- The request that the balancer sends to the upstream, as HttpParser reads it.
use high_performance_http_se.Common.{
  ℕ, suc, ◌+◌, ◌-◌, ◌≡◌, refl, sym, ap, ◌∙◌, inl, inr, true, some, [], ◌∷◌, ◌++◌, length,
  append_assoc, append-nil, arith, Bool-cases, if◌then◌else◌, take-length_append, drop, drop-drop,
  drop-past,
}
use high_performance_http_se.Http.Text.{find_byte, find_byte_from, find_text, trim}
use high_performance_http_se.Http.Text.Lines.{HasNoCrlf}
use high_performance_http_se.Http.Text.Find.{Lacks, find_byte-append}
use high_performance_http_se.Http.Message.{Header, HeaderList, HttpRequest, new_request}
use high_performance_http_se.Http.Headers.{content_length_from, connection_keep_alive}
use high_performance_http_se.Http.Headers.Printed.{IsPrintable, parse_generic_header_line-bare_line}
use high_performance_http_se.Http.Incremental.{ParseStatus, State}
use high_performance_http_se.Http.Incremental.Printed.{AllPrintable, Adds, add_all, consume-printed}
use high_performance_http_se.Http.Request.{
  request_format, with_request_line, request_line_accepted, parse_request_line, parse_header_line,
  finalize_headers, HttpParser, new_parser, consume,
}
use high_performance_http_se.Lb.Proxy.{is_connection, forward_text}
use high_performance_http_se.Lb.Proxy.ForwardText.{
  close_header, any_connection, closed_each, closed_headers, request_line, forward_text-lines,
}

abbrev add_header : Header → HttpRequest → HttpRequest
add_header h r = record r { headers = r.headers ++ h ∷ [] }

add_header-Adds : Adds request_format add_header
unfolding parse_header_line
add_header-Adds h r ok = rw (parse_generic_header_line-bare_line h r.headers ok)

add_all-headers :
    (hs : HeaderList) (r : HttpRequest)
    → add_all request_format add_header add_header-Adds hs r
      ≡ record r { headers = r.headers ++ hs }
add_all-headers [] r = rw append-nil
add_all-headers (h ∷ hs) r = add_all-headers hs (add_header h r) ∙ rw append_assoc

close_header-IsPrintable : IsPrintable close_header
unfolding find_byte trim find_text
close_header-IsPrintable = record {
  has_name = refl;
  no_colon = refl;
  name_trimmed = refl;
  value_trimmed = refl;
  name_clean = refl;
  value_clean = refl;
}

closed_headers-AllPrintable :
    (hs : HeaderList) (more : HeaderList)
    → AllPrintable hs
    → AllPrintable more
    → AllPrintable (closed_each hs ++ more)
closed_headers-AllPrintable [] more ok ok' = ok'
closed_headers-AllPrintable (h ∷ hs) more ok ok' = (
  elim (Bool-cases (is_connection h.0)) [
    | inl e ↦ rw e close_header-IsPrintable
    | inr e ↦ rw e ok.0
  ],
  closed_headers-AllPrintable hs more ok.1 ok',
)

-- A request that its text determines.
pub record IsForwardable (r : HttpRequest) : Type 0 where
  pub accepted : request_line_accepted r ≡ true
  pub method_whole : Lacks b' ' r.method
  pub target_whole : Lacks b' ' r.target
  pub line_clean : HasNoCrlf (request_line r)
  pub headers_printable : AllPrintable r.headers
  pub length_true : content_length_from (closed_headers r.headers) ≡ length r.body

abbrev opened : HttpRequest → HttpRequest
opened r = record new_request { method = r.method; target = r.target; version = r.version }

find_byte_from-request_line :
    (r : HttpRequest)
    → Lacks b' ' r.target
    → find_byte_from b' ' (request_line r) (length r.method + 1)
      ≡ some (length r.method + 1 + length r.target)
unfolding find_byte_from
find_byte_from-request_line r whole =
    let next : length r.method + 1 ≡ suc (length r.method) = omega arith in
    rw (
      next,
      drop-past r.method b' ' (r.target ++ (b' ' ∷ r.version)),
      find_byte-append b' ' r.target r.version whole,
    )

with_request_line-request_line :
    (r : HttpRequest)
    → with_request_line new_request
        (request_line r)
        (length r.method)
        (length r.method + 1 + length r.target)
      ≡ opened r
with_request_line-request_line r =
    let next : length r.method + 1 ≡ suc (length r.method) = omega arith in
    let behind_method : drop (suc (length r.target)) (drop (suc (length r.method)) (request_line r))
        ≡ r.version =
      rw (drop-past r.method b' ' (r.target ++ (b' ' ∷ r.version)))
        (drop-past r.target b' ' r.version) in
    let width : suc (length r.method) + length r.target - length r.method - 1 ≡ length r.target =
      omega arith in
    let last : suc (length r.method) + length r.target + 1
        ≡ suc (length r.method) + suc (length r.target) =
      omega arith in
    rw
      (
        next,
        width,
        last,
        take-length_append r.method (b' ' ∷ (r.target ++ (b' ' ∷ r.version))),
        drop-past r.method b' ' (r.target ++ (b' ' ∷ r.version)),
        take-length_append r.target (b' ' ∷ r.version),
      )
      (ap (λ v. record (opened r) { version = v })
        (sym (drop-drop (suc (length r.target)) (suc (length r.method)) (request_line r))
          ∙ behind_method))

accepted-opened : (r : HttpRequest) → request_line_accepted (opened r) ≡ request_line_accepted r
unfolding request_line_accepted
accepted-opened r = refl

parse_request_line-request_line :
    (r : HttpRequest)
    → IsForwardable r
    → parse_request_line (request_line r) new_request ≡ (opened r, true)
unfolding parse_request_line
parse_request_line-request_line r ok =
    let first = find_byte-append b' ' r.method (r.target ++ (b' ' ∷ r.version)) ok.method_whole in
    rw
      (
        first,
        parse_request_line,
        find_byte_from-request_line r ok.target_whole,
        with_request_line-request_line r,
        accepted-opened r,
        ok.accepted,
      )
      refl

-- What the upstream reads: the same request, with its Connection headers replaced.
abbrev pub forwarded : HttpRequest → HttpRequest
forwarded r = record r {
  headers = closed_headers r.headers;
  keep_alive = connection_keep_alive (closed_headers r.headers) r.version;
}

abbrev pub parser_with : HttpRequest → HttpParser
parser_with r = record {
  state = State.complete;
  buffer = [];
  body_bytes_needed = length r.body;
  message = forwarded r;
}

finalize_headers-closed :
    (r : HttpRequest)
    → IsForwardable r
    → finalize_headers
        (add_all request_format add_header add_header-Adds (closed_headers r.headers) (opened r))
      ≡ (record (forwarded r) { body = [] }, length r.body)
unfolding finalize_headers
finalize_headers-closed r ok =
    rw (add_all-headers (closed_headers r.headers) (opened r), finalize_headers, ok.length_true)
      refl

-- A request with a line that the parser takes, with no space in its method and target, printable headers
-- and a true content length is read by an upstream with the same parser from the text that it is
-- forwarded as: the parser is complete with the same method, target, version and body, the headers with
-- each Connection header replaced by one that asks to close, or such a header added, and an empty buffer.
pub consume-forward_text :
    (r : HttpRequest)
    → IsForwardable r
    → consume new_parser (forward_text r) ≡ (parser_with r, ParseStatus.complete)
consume-forward_text r ok =
    ap (consume new_parser) (forward_text-lines r)
    ∙ consume-printed request_format add_header add_header-Adds (request_line r) (opened r)
        (closed_headers r.headers) r.body [] ok.line_clean (parse_request_line-request_line r ok)
        (closed_headers-AllPrintable r.headers _ ok.headers_printable (added r.headers))
        (ap (λ (p : HttpRequest × ℕ). p.1) (finalize_headers-closed r ok))
    ∙ rw (finalize_headers-closed r ok) refl
  where
    added : (hs : HeaderList) → AllPrintable (if any_connection hs then [] else close_header ∷ [])
    added hs = elim (Bool-cases (any_connection hs)) [
      | inl e ↦ rw e tt
      | inr e ↦ rw e (close_header-IsPrintable, tt)
    ]
