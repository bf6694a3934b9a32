-- ===== src/Http/Response/RoundTrip.antt =====
-- HttpResponse::serialize against HttpResponseParser.

use high_performance_http_se.Common.{
  ℕ, ◌^◌, ◌<◌, ◌≡◌, refl, sym, ap, ◌∙◌, Bytes, ◌++◌, length, codes, append_assoc,
}
use high_performance_http_se.Http.Text.{crlf}
use high_performance_http_se.Http.Text.Lines.{HasNoCrlf}
use high_performance_http_se.Http.Number.{pos, int_text}
use high_performance_http_se.Http.Message.{HttpResponse, new_response, serialize}
use high_performance_http_se.Http.Message.Serialize.{
  header_lines, added_length, sent_headers, status_line, serialize-parts,
}
use high_performance_http_se.Http.Headers.{content_length_from, connection_keep_alive}
use high_performance_http_se.Http.Incremental.{ParseStatus, State}
use high_performance_http_se.Http.Incremental.Printed.{
  AllPrintable, add_all, finished, consume-printed,
}
use high_performance_http_se.Http.Response.{
  finalize_headers, response_format, HttpResponseParser, new_parser, consume,
}
use high_performance_http_se.Http.Response.StatusLine.{
  status_line-HasNoCrlf, line_of, parse_status_line-line_of, add_header, add_header-Adds,
  add_all-headers, AllPrintable-append, added_length-AllPrintable, added_connection-AllPrintable,
}

-- A response that its text determines.
pub record IsSendable (r : HttpResponse) : Type 0 where
  pub code : ℕ
  pub status_is : r.status ≡ pos code
  pub code_small : code < 2 ^ 31
  pub reason_clean : HasNoCrlf r.reason
  pub headers_printable : AllPrintable r.headers
  pub length_true : content_length_from (sent_headers r) ≡ length r.body

-- What the other side has read: the same response, with the headers of the text.
abbrev pub received : HttpResponse → HttpResponse
received r = record r {
  headers = sent_headers r;
  keep_alive = connection_keep_alive (sent_headers r) (codes "HTTP/1.1");
}

abbrev pub parser_with : HttpResponse → Bytes → HttpResponseParser
parser_with r rest = record {
  state = State.complete;
  buffer = rest;
  body_bytes_needed = length r.body;
  message = received r;
}

serialize-line_of :
    (r : HttpResponse) (code : ℕ) → r.status ≡ pos code → status_line r ≡ line_of code r.reason
unfolding int_text
serialize-line_of r code e = rw e

serialize_text :
    (r : HttpResponse) (code : ℕ) (rest : Bytes)
    → r.status ≡ pos code
    → serialize r ++ rest
      ≡ line_of code r.reason
        ++ (crlf ++ (header_lines (sent_headers r) ++ (crlf ++ (r.body ++ rest))))
serialize_text r code rest e =
    ap (λ s. s ++ rest) (serialize-parts r)
    ∙ ap (λ l. (l ++ (crlf ++ (header_lines (sent_headers r) ++ (crlf ++ r.body)))) ++ rest)
        (serialize-line_of r code e)
    ∙ simp append_assoc

-- The message behind the status line, and behind the headers.
abbrev opened : ℕ → Bytes → HttpResponse
opened code reason = record new_response { status = pos code; reason = reason }

abbrev with_headers : ℕ → HttpResponse → HttpResponse
with_headers code r = record (opened code r.reason) { headers = sent_headers r }

add_all-sent_headers :
    (code : ℕ) (r : HttpResponse)
    → add_all response_format add_header add_header-Adds (sent_headers r) (opened code r.reason)
      ≡ with_headers code r
add_all-sent_headers code r = add_all-headers (sent_headers r) (opened code r.reason)

finalize_headers-sent :
    (code : ℕ) (r : HttpResponse)
    → finalize_headers (with_headers code r) ≡ (
      record (with_headers code r) {
        keep_alive = connection_keep_alive (sent_headers r) (codes "HTTP/1.1");
      },
      content_length_from (sent_headers r),
    )
unfolding finalize_headers
finalize_headers-sent code r = refl

finished-parser_with :
    (r : HttpResponse) (rest : Bytes) (ok : IsSendable r)
    → finished response_format add_header add_header-Adds
        (sent_headers r)
        (opened ok.code r.reason)
        r.body
        rest
      ≡ parser_with r rest
finished-parser_with r rest ok =
    rw (add_all-sent_headers ok.code r, finalize_headers-sent ok.code r, ok.length_true)
      (ap
        (λ status. record (parser_with r rest) {
          message = record (received r) { status = status };
        })
        (sym ok.status_is))

sent_headers-AllPrintable :
    (r : HttpResponse) → AllPrintable r.headers → AllPrintable (sent_headers r)
sent_headers-AllPrintable r ok = AllPrintable-append r.headers _ ok (
    AllPrintable-append (added_length r) _ (added_length-AllPrintable r)
      (added_connection-AllPrintable r))

-- A response with a status from 0 to 2^31 - 1, a reason with no CRLF, printable headers and a true
-- content length is read back from its text by a new parser, whatever follows it: the parser is
-- complete with the same status, reason and body, the headers of the text, the keep-alive flag that
-- these ask for, and just what follows in its buffer.
pub consume-serialize :
    (r : HttpResponse) (rest : Bytes)
    → IsSendable r
    → consume new_parser (serialize r ++ rest) ≡ (parser_with r rest, ParseStatus.complete)
consume-serialize r rest ok =
    ap (consume new_parser) (serialize_text r ok.code rest ok.status_is)
    ∙ consume-printed response_format add_header add_header-Adds (line_of ok.code r.reason)
        (opened ok.code r.reason) (sent_headers r) r.body rest
        (status_line-HasNoCrlf ok.code r.reason ok.reason_clean)
        (parse_status_line-line_of ok.code r.reason ok.code_small)
        (sent_headers-AllPrintable r ok.headers_printable)
        (rw (add_all-sent_headers ok.code r, finalize_headers-sent ok.code r) ok.length_true)
    ∙ ap (λ p. (p, ParseStatus.complete)) (finished-parser_with r rest ok)
