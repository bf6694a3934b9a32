-- ===== src/Http/Headers.antt =====
-- The header functions that both parsers of src/net/http_parser.cpp share.
pub mod Printed
use high_performance_http_se.Common.{
  ℕ, suc, ◌+◌, Bool, true, false, [], ◌∷◌, ◌++◌, Option, none, some, Bytes, codes, if◌then◌else◌,
  drop, is_empty, is_some, bytes_eq,
}
use high_performance_http_se.Http.Text.{to_lower, trim, find_byte, find_text, substr}
use high_performance_http_se.Http.Number.{ℤ, pos, negsuc, strtol}
use high_performance_http_se.Http.Message.{HeaderList, find_header}

-- The list after the call, and the answer.
unfoldable pub parse_generic_header_line : Bytes → HeaderList → HeaderList × Bool
parse_generic_header_line line headers = elim (find_byte b':' line) [
  | none ↦ (headers, false)
  | some colon ↦
      let name = trim (substr line 0 colon) in
      let value = trim (drop (suc colon) line) in
      if is_empty name then (headers, false) else (headers ++ (name, value) ∷ [], true)
]

-- No digits, or a negative number, count as 0.
abbrev pub size_of_long : Option ℤ → ℕ
size_of_long none = 0
size_of_long (some (pos n)) = n
size_of_long (some (negsuc n)) = 0

unfoldable pub content_length_from : HeaderList → ℕ
content_length_from headers = elim (find_header headers (codes "Content-Length")) [
  | none ↦ 0
  | some cl ↦ size_of_long (strtol cl)
]

abbrev pub contains : Bytes → Bytes → Bool
contains v t = is_some (find_text t v)

-- What the value of a Connection header asks for, and the default of the version else.
unfoldable pub keep_alive_value : Bytes → Bool → Bool
keep_alive_value v default =
    if contains v (codes "close")
    then false
    else if contains v (codes "keep-alive")
    then true
    else default

unfoldable pub connection_keep_alive : HeaderList → Bytes → Bool
connection_keep_alive headers version = elim (find_header headers (codes "Connection")) [
  | none ↦ bytes_eq version (codes "HTTP/1.1")
  | some conn ↦ keep_alive_value (to_lower conn) (bytes_eq version (codes "HTTP/1.1"))
]
