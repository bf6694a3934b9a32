-- ===== src/Http/Message/Serialize.antt =====
-- The text of a response, part by part.
use high_performance_http_se.Common.{
  ◌≡◌, refl, sym, ap, ◌∙◌, Bool, true, false, ◌||◌, [], ◌∷◌, ◌++◌, Bytes, codes, bytes_eq, is_some,
  length, if◌then◌else◌, append_assoc, append-nil, arith, inl, inr, Bool-cases,
}
use high_performance_http_se.Http.Text.{crlf, to_lower}
use high_performance_http_se.Http.Number.{decimal, int_text}
use high_performance_http_se.Http.Message.{
  HeaderList, HttpResponse, Output, header_line, find_header, same_name, serialize_header,
  serialize_headers, connection_text, finish_output, serialize,
}
use high_performance_http_se.Http.Message.Lookup.{same_name-eq-bytes_eq}

abbrev pub header_lines : HeaderList → Bytes
header_lines [] = []
header_lines (h ∷ hs) = header_line h ++ header_lines hs

pub header_lines-append :
    (hs more : HeaderList) → header_lines (hs ++ more) ≡ header_lines hs ++ header_lines more
header_lines-append [] more = refl
header_lines-append (h ∷ hs) more =
    ap (◌++◌ (header_line h)) (header_lines-append hs more)
    ∙ sym (append_assoc (header_line h) (header_lines hs) (header_lines more))

abbrev pub content_length_name : Bytes
content_length_name = codes "Content-Length"

abbrev pub connection_name : Bytes
connection_name = codes "Connection"

-- The headers that the serialised text carries: those of the response, and the two that are added
-- where the response has none of that name.
abbrev pub added_length : HttpResponse → HeaderList
added_length r =
    if is_some (find_header r.headers content_length_name)
    then []
    else (content_length_name, decimal (length r.body)) ∷ []

abbrev pub added_connection : HttpResponse → HeaderList
added_connection r =
    if is_some (find_header r.headers connection_name)
    then []
    else (connection_name, connection_text r.keep_alive) ∷ []

abbrev pub sent_headers : HttpResponse → HeaderList
sent_headers r = r.headers ++ (added_length r ++ added_connection r)

abbrev pub status_line : HttpResponse → Bytes
status_line r = codes "HTTP/1.1 " ++ (int_text r.status ++ (codes " " ++ r.reason))

serialize_headers-out :
    (o : Output) (hs : HeaderList) → (serialize_headers o hs).out ≡ o.out ++ header_lines hs
unfolding serialize_headers
serialize_headers-out o [] = sym (append-nil o.out)
serialize_headers-out o (h ∷ hs) =
    serialize_headers-out (serialize_header o h) hs
    ∙ append_assoc o.out (header_line h) (header_lines hs)

lower_content_length : to_lower content_length_name ≡ codes "content-length"
unfolding to_lower
lower_content_length = refl

lower_connection : to_lower connection_name ≡ codes "connection"
unfolding to_lower
lower_connection = refl

same_content_length :
    (k : Bytes) → same_name k content_length_name ≡ bytes_eq (to_lower k) (codes "content-length")
same_content_length k = same_name-eq-bytes_eq k content_length_name ∙ rw lower_content_length

same_connection :
    (k : Bytes) → same_name k connection_name ≡ bytes_eq (to_lower k) (codes "connection")
same_connection k = same_name-eq-bytes_eq k connection_name ∙ rw lower_connection

-- The two flags say whether `find_header` finds a header of that name.
serialize_headers-flags :
    (o : Output) (hs : HeaderList)
    → ((serialize_headers o hs).has_content_length
        ≡ (is_some (find_header hs content_length_name) || o.has_content_length))
      × ((serialize_headers o hs).has_connection
          ≡ (is_some (find_header hs connection_name) || o.has_connection))
unfolding serialize_headers find_header
serialize_headers-flags o [] = (refl, refl)
serialize_headers-flags o ((k, v) ∷ hs) = ground (
  arith,
  serialize_headers-flags (serialize_header o (k, v)) hs,
  same_content_length k,
  same_connection k,
)

finish_output-lines :
    (r : HttpResponse) (o : Output)
    → o.has_content_length ≡ is_some (find_header r.headers content_length_name)
    → o.has_connection ≡ is_some (find_header r.headers connection_name)
    → finish_output r o
      ≡ o.out
        ++ (header_lines (added_length r)
            ++ (header_lines (added_connection r) ++ (crlf ++ r.body)))
unfolding finish_output
finish_output-lines r o e f =
    elim (Bool-cases (is_some (find_header r.headers content_length_name))) [
      | inl sized ↦ elim (Bool-cases (is_some (find_header r.headers connection_name))) [
        | inl connected ↦ rw (e, f, sized, connected)
        | inr bare ↦ rw (e, f, sized, bare) (simp append_assoc)
      ]
      | inr unsized ↦ elim (Bool-cases (is_some (find_header r.headers connection_name))) [
        | inl connected ↦ rw (e, f, unsized, connected) (simp append_assoc)
        | inr bare ↦ rw (e, f, unsized, bare) (simp append_assoc)
      ]
    ]

or_false : (b : Bool) → (b || false) ≡ b
or_false true = refl
or_false false = refl

-- The whole text: status line, header lines, an empty line, and the body.
pub serialize-parts :
    (r : HttpResponse)
    → serialize r ≡ status_line r ++ (crlf ++ (header_lines (sent_headers r) ++ (crlf ++ r.body)))
unfolding serialize
serialize-parts r =
    let (sized, connected) = serialize_headers-flags start r.headers in
    finish_output-lines r (serialize_headers start r.headers) (sized ∙ or_false _)
      (connected ∙ or_false _)
    ∙ rw (serialize_headers-out start r.headers) (simp (append_assoc, header_lines-append))
  where
    start : Output
    start = record {
      out = codes "HTTP/1.1 " ++ (int_text r.status ++ (codes " " ++ (r.reason ++ crlf)));
      has_content_length = false;
      has_connection = false;
    }
