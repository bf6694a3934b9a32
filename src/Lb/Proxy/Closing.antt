-- ===== src/Lb/Proxy/Closing.antt =====
-- The upstream is always asked to close the connection.
use high_performance_http_se.Common.{
  ◌≡◌, refl, sym, ◌∙◌, inl, inr, true, false, some, Bytes, [], ◌∷◌, ◌++◌, ◌==◌, codes, arith,
  Bool-cases, if◌then◌else◌, bytes_eq_iff,
}
use high_performance_http_se.Http.Text.{to_lower, lower_byte, find_text}
use high_performance_http_se.Http.Message.{HeaderList, HttpRequest, find_header, same_name}
use high_performance_http_se.Http.Message.Lookup.{same_name-eq-bytes_eq}
use high_performance_http_se.Http.Headers.{connection_keep_alive, keep_alive_value}
use high_performance_http_se.Http.Request.{new_parser, consume}
use high_performance_http_se.Lb.Proxy.{c_string, is_connection, forward_text}
use high_performance_http_se.Lb.Proxy.ForwardText.{
  closed_headers, closed_each, close_header, any_connection,
}
use high_performance_http_se.Lb.Proxy.Forward.{IsForwardable, consume-forward_text}

abbrev HasNoNul : Bytes → Type 0
HasNoNul [] = Unit
HasNoNul (x ∷ s) = ((x == 0) ≡ false) × HasNoNul s

c_string_self : (k n : Bytes) → to_lower k ≡ n → HasNoNul n → c_string k ≡ k
unfolding c_string to_lower lower_byte
c_string_self [] n e h = refl
c_string_self (c ∷ k) [] e h = cc
c_string_self (c ∷ k) (x ∷ n) e h = ground (arith, c_string_self k n)

-- Where findHeader finds a Connection header, strcasecmp finds one.
same_name-is_connection :
    (k : Bytes) → same_name k (codes "Connection") ≡ true → is_connection k ≡ true
unfolding is_connection to_lower
same_name-is_connection k e =
    let lower : to_lower k ≡ codes "connection" =
      (bytes_eq_iff _ _).0 (sym (same_name-eq-bytes_eq k (codes "Connection")) ∙ e) in
    let clean : HasNoNul (codes "connection") =
      (refl, (refl, (refl, (refl, (refl, (refl, (refl, (refl, (refl, (refl, tt)))))))))) in
    rw (is_connection, c_string_self k (codes "connection") lower clean)
      ((bytes_eq_iff _ _).1 lower)

other_name : (k : Bytes) → is_connection k ≡ false → same_name k (codes "Connection") ≡ false
other_name k e = let implied = same_name-is_connection k in ground arith

find_header-closed_each :
    (hs more : HeaderList)
    → find_header (closed_each hs ++ more) (codes "Connection")
      ≡ (if any_connection hs then some (codes "close") else find_header more (codes "Connection"))
unfolding find_header same_name
find_header-closed_each [] more = refl
find_header-closed_each (h ∷ hs) more = elim (Bool-cases (is_connection h.0)) [
  | inl e ↦ rw e refl
  | inr e ↦
      let other : same_name h.0 (codes "Connection") ≡ false = other_name h.0 e in
      rw (e, other) (find_header-closed_each hs more)
]

closed_headers-connection :
    (hs : HeaderList) → find_header (closed_headers hs) (codes "Connection") ≡ some (codes "close")
unfolding find_header same_name
closed_headers-connection hs =
    find_header-closed_each hs (if any_connection hs then [] else close_header ∷ [])
    ∙ elim (Bool-cases (any_connection hs)) [ inl e ↦ rw e refl | inr e ↦ rw e refl ]

-- The request that an upstream with the same parser reads has the keep-alive flag off, whatever the
-- client asked for.
forward_text_closes :
    (r : HttpRequest)
    → IsForwardable r
    → (consume new_parser (forward_text r)).0.message.keep_alive ≡ false
unfolding connection_keep_alive keep_alive_value to_lower find_text
forward_text_closes r ok =
    rw (consume-forward_text r ok, connection_keep_alive, closed_headers-connection r.headers) refl
