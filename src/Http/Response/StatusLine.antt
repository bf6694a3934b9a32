-- ===== src/Http/Response/StatusLine.antt =====
-- HttpResponseParser::parseStatusLine on the status line of HttpResponse::serialize, and the parser's
-- header lines on its headers.
use high_performance_http_se.Common.{
  ℕ, suc, ◌+◌, ◌-◌, ◌^◌, ◌<◌, ◌≡◌, refl, ◌∙◌, inl, inr, Bool, true, false, some, Bytes, [], ◌∷◌,
  ◌++◌, length, length-append, codes, bytes_eq, ltb-of-lt, is_some, take-length_append, drop-past,
  append_assoc, append-nil, arith, Bool-cases,
}
use high_performance_http_se.Http.Text.{find_text, find_byte, find_byte_from, trim}
use high_performance_http_se.Http.Text.Lines.{HasNoCrlf}
use high_performance_http_se.Http.Text.Find.{find_byte-append, HasNoCrlf-join, HasNoCrlf-cons}
use high_performance_http_se.Http.Number.{pos, decimal}
use high_performance_http_se.Http.Number.Decimal.{
  strtol-decimal, to_int-pos, decimal-AllDigits, AllDigits-Lacks, AllDigits-HasNoCrlf,
  AllDigits-trim,
}
use high_performance_http_se.Http.Message.{
  Header, HeaderList, HttpResponse, new_response, find_header, connection_text,
}
use high_performance_http_se.Http.Message.Serialize.{
  content_length_name, connection_name, added_length, added_connection,
}
use high_performance_http_se.Http.Headers.Printed.{IsPrintable, parse_generic_header_line-bare_line}
use high_performance_http_se.Http.Incremental.Printed.{AllPrintable, Adds, add_all}
use high_performance_http_se.Http.Response.{
  parse_status_line, parse_status_fields, second_space, parse_header_line, response_format,
}

pub status_line-HasNoCrlf :
    (n : ℕ) (reason : Bytes)
    → HasNoCrlf reason
    → HasNoCrlf (codes "HTTP/1.1 " ++ (decimal n ++ (b' ' ∷ reason)))
status_line-HasNoCrlf n reason clean =
    HasNoCrlf-join (codes "HTTP/1.1") b' ' (decimal n ++ (b' ' ∷ reason)) (omega arith)
      (unfold find_text in refl)
      (HasNoCrlf-cons b' ' _ (omega arith) (
        HasNoCrlf-join (decimal n) b' ' reason (omega arith)
          (AllDigits-HasNoCrlf (decimal n) (decimal-AllDigits n))
          (HasNoCrlf-cons b' ' reason (omega arith) clean)))

abbrev pub line_of : ℕ → Bytes → Bytes
line_of n reason = codes "HTTP/1.1 " ++ (decimal n ++ (b' ' ∷ reason))

find_byte-first : (n : ℕ) (reason : Bytes) → find_byte b' ' (line_of n reason) ≡ some 8
unfolding find_byte
find_byte-first n reason = refl

find_byte_from-line_of :
    (n : ℕ) (reason : Bytes)
    → find_byte_from b' ' (line_of n reason) 9 ≡ some (9 + length (decimal n))
unfolding find_byte_from
find_byte_from-line_of n reason =
    rw
      (find_byte-append b' ' (decimal n) reason (AllDigits-Lacks (decimal n) (decimal-AllDigits n)))

second_space-line_of :
    (n : ℕ) (reason : Bytes) → second_space (line_of n reason) 8 ≡ 9 + length (decimal n)
second_space-line_of n reason = rw (second_space, find_byte_from-line_of n reason)

-- The number of the digits stands at `status`, and the reason behind it.
abbrev nine : ℕ → ℕ
nine k = suc (suc (suc (suc (suc (suc (suc (suc (suc k))))))))

parse_status_fields-line_of :
    (n : ℕ) (reason : Bytes) (r : HttpResponse)
    → n < 2 ^ 31
    → parse_status_fields (line_of n reason) r 8 (9 + length (decimal n))
      ≡ (record r { status = pos n; reason = reason }, true)
unfolding parse_status_fields bytes_eq
parse_status_fields-line_of n reason r small =
    let width : 9 + length (decimal n) - 8 - 1 ≡ length (decimal n) = omega arith in
    let past : 9 + length (decimal n) + 1 ≡ nine (suc (length (decimal n))) = omega arith in
    let inside : 9 + length (decimal n) < length (line_of n reason) =
      omega (arith, length-append (decimal n) (b' ' ∷ reason)) in
    rw (
      width,
      take-length_append (decimal n) (b' ' ∷ reason),
      strtol-decimal n (omega arith),
      to_int-pos n small,
      past,
      drop-past (decimal n) b' ' reason,
      ltb-of-lt _ _ inside,
    )

pub parse_status_line-line_of :
    (n : ℕ) (reason : Bytes)
    → n < 2 ^ 31
    → parse_status_line (line_of n reason) new_response
      ≡ (record new_response { status = pos n; reason = reason }, true)
unfolding parse_status_line
parse_status_line-line_of n reason small =
    rw (find_byte-first n reason, parse_status_line, second_space-line_of n reason)
      (parse_status_fields-line_of n reason new_response small)

abbrev pub add_header : Header → HttpResponse → HttpResponse
add_header h r = record r { headers = r.headers ++ h ∷ [] }

pub add_header-Adds : Adds response_format add_header
unfolding parse_header_line
add_header-Adds h r ok = rw (parse_generic_header_line-bare_line h r.headers ok)

pub add_all-headers :
    (hs : HeaderList) (r : HttpResponse)
    → add_all response_format add_header add_header-Adds hs r
      ≡ record r { headers = r.headers ++ hs }
add_all-headers [] r = rw append-nil
add_all-headers (h ∷ hs) r = add_all-headers hs (add_header h r) ∙ rw append_assoc

pub AllPrintable-append :
    (hs more : HeaderList) → AllPrintable hs → AllPrintable more → AllPrintable (hs ++ more)
AllPrintable-append [] more h k = k
AllPrintable-append (x ∷ hs) more h k = (h.0, AllPrintable-append hs more h.1 k)

pub added_length-AllPrintable : (r : HttpResponse) → AllPrintable (added_length r)
unfolding find_byte trim find_text
added_length-AllPrintable r =
    elim (Bool-cases (is_some (find_header r.headers content_length_name))) [
      | inl e ↦ rw e tt
      | inr e ↦ rw e (
        record {
          has_name = refl;
          no_colon = refl;
          name_trimmed = refl;
          value_trimmed = AllDigits-trim _ (decimal-AllDigits (length r.body));
          name_clean = refl;
          value_clean = AllDigits-HasNoCrlf _ (decimal-AllDigits (length r.body));
        },
        tt,
      )
    ]

connection-IsPrintable :
    (keep_alive : Bool) → IsPrintable (connection_name, connection_text keep_alive)
unfolding find_byte trim find_text
connection-IsPrintable true = record {
  has_name = refl;
  no_colon = refl;
  name_trimmed = refl;
  value_trimmed = refl;
  name_clean = refl;
  value_clean = refl;
}
connection-IsPrintable false = record {
  has_name = refl;
  no_colon = refl;
  name_trimmed = refl;
  value_trimmed = refl;
  name_clean = refl;
  value_clean = refl;
}

pub added_connection-AllPrintable : (r : HttpResponse) → AllPrintable (added_connection r)
added_connection-AllPrintable r =
    elim (Bool-cases (is_some (find_header r.headers connection_name))) [
      | inl e ↦ rw e tt
      | inr e ↦ rw e (connection-IsPrintable r.keep_alive, tt)
    ]
