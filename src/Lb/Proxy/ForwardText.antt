-- ===== src/Lb/Proxy/ForwardText.antt =====
-- The text that the balancer forwards, line by line.
use high_performance_http_se.Common.{
  ◌≡◌, refl, sym, ap, ◌∙◌, inl, inr, Bool, false, ◌||◌, Bytes, [], ◌∷◌, ◌++◌, codes, append_assoc,
  append-nil, arith, Bool-cases, if◌then◌else◌,
}
use high_performance_http_se.Http.Text.{crlf}
use high_performance_http_se.Http.Message.{Header, HeaderList, HttpRequest, header_line}
use high_performance_http_se.Http.Message.Serialize.{header_lines, header_lines-append}
use high_performance_http_se.Lb.Proxy.{is_connection, close_line, forward_headers, forward_text}

abbrev pub close_header : Header
close_header = (codes "Connection", codes "close")

abbrev pub any_connection : HeaderList → Bool
any_connection [] = false
any_connection (h ∷ hs) = is_connection h.0 || any_connection hs

abbrev pub closed_one : Header → Header
closed_one h = if is_connection h.0 then close_header else h

abbrev pub closed_each : HeaderList → HeaderList
closed_each [] = []
closed_each (h ∷ hs) = closed_one h ∷ closed_each hs

-- The headers that the upstream is sent: each Connection header is replaced, and one is added where
-- there is none.
abbrev pub closed_headers : HeaderList → HeaderList
closed_headers hs = closed_each hs ++ (if any_connection hs then [] else close_header ∷ [])

closed_one-line :
    (h : Header)
    → (if is_connection h.0 then close_line else header_line h) ≡ header_line (closed_one h)
closed_one-line h = elim (Bool-cases (is_connection h.0)) [ inl e ↦ rw e refl | inr e ↦ rw e refl ]

forward_headers-lines :
    (saw : Bool) (hs : HeaderList) (out : Bytes)
    → (forward_headers out saw hs).0 ≡ out ++ header_lines (closed_each hs)
unfolding forward_headers
forward_headers-lines saw [] out = sym (append-nil out)
forward_headers-lines saw (h ∷ hs) out =
    let line = if is_connection h.0 then close_line else header_line h in
    forward_headers-lines (is_connection h.0 || saw) hs (out ++ line)
    ∙ append_assoc out line (header_lines (closed_each hs))
    ∙ ap (λ l. out ++ (l ++ header_lines (closed_each hs))) (closed_one-line h)

forward_headers-saw :
    (saw : Bool) (hs : HeaderList) (out : Bytes)
    → (forward_headers out saw hs).1 ≡ any_connection hs || saw
unfolding forward_headers
forward_headers-saw saw [] out = refl
forward_headers-saw saw (h ∷ hs) out =
    forward_headers-saw (is_connection h.0 || saw) hs _ ∙ ground arith

abbrev pub request_line : HttpRequest → Bytes
request_line r = r.method ++ (b' ' ∷ (r.target ++ (b' ' ∷ r.version)))

pub forward_text-lines :
    (r : HttpRequest)
    → forward_text r
      ≡ request_line r
        ++ (crlf ++ (header_lines (closed_headers r.headers) ++ (crlf ++ (r.body ++ []))))
unfolding forward_text
forward_text-lines r = elim (Bool-cases (any_connection r.headers)) [
  | inl e ↦
      rw
        (
          forward_headers-lines false r.headers,
          forward_headers-saw false r.headers,
          e,
          header_lines-append (closed_each r.headers) [],
        )
        (simp (append_assoc, append-nil))
  | inr e ↦
      rw
        (
          forward_headers-lines false r.headers,
          forward_headers-saw false r.headers,
          e,
          header_lines-append (closed_each r.headers) (close_header ∷ []),
        )
        (simp (append_assoc, append-nil))
]
