-- ===== src/Http/Message.antt =====
-- include/net/http_message.h, with findHeader, HttpResponse::serialize and makeJsonResponse of
-- src/net/http_parser.cpp.
pub mod Lookup
pub mod Serialize
use high_performance_http_se.Common.{
  ℕ, Bool, true, false, not, ◌&&◌, ◌||◌, List, [], ◌∷◌, ◌++◌, Option, none, some, Bytes, codes,
  ◌==◌, if◌then◌else◌, length, bytes_eq,
}
use high_performance_http_se.Http.Text.{crlf, lower_byte, to_lower}
use high_performance_http_se.Http.Number.{ℤ, pos, decimal, int_text}

abbrev pub Header : Type 0
Header = Bytes × Bytes

abbrev pub HeaderList : Type 0
HeaderList = List Header

-- The predicate of `std::equal`, byte by byte.
unfoldable pub equal_lower : Bytes → Bytes → Bool
unfolding lower_byte
equal_lower [] n = true
equal_lower (a ∷ k) [] = false
equal_lower (a ∷ k) (b ∷ n) = lower_byte a == lower_byte b && equal_lower k n

unfoldable pub same_name : Bytes → Bytes → Bool
unfolding equal_lower
same_name k name = length k == length name && equal_lower k name

-- The value of the first header of that name; `none` is the null pointer.
unfoldable pub find_header : HeaderList → Bytes → Option Bytes
unfolding same_name
find_header [] name = none
find_header ((k, v) ∷ headers) name = if same_name k name then some v else find_header headers name

pub record HttpRequest : Type 0 where
  pub method : Bytes
  pub target : Bytes
  pub version : Bytes
  pub headers : HeaderList
  pub body : Bytes
  pub keep_alive : Bool

pub record HttpResponse : Type 0 where
  pub status : ℤ
  pub reason : Bytes
  pub headers : HeaderList
  pub body : Bytes
  pub keep_alive : Bool

-- The values of the member initialisers.
abbrev pub new_request : HttpRequest
new_request = record {
  method = [];
  target = [];
  version = [];
  headers = [];
  body = [];
  keep_alive = true;
}

abbrev pub new_response : HttpResponse
new_response = record {
  status = pos 200;
  reason = codes "OK";
  headers = [];
  body = [];
  keep_alive = true;
}

-- `k + ": " + v + "\r\n"`
abbrev pub header_line : Header → Bytes
header_line (k, v) = k ++ (codes ": " ++ (v ++ crlf))

-- The local variables of `serialize`.
pub record Output : Type 0 where
  pub out : Bytes
  pub has_content_length : Bool
  pub has_connection : Bool

unfoldable pub serialize_header : Output → Header → Output
unfolding to_lower bytes_eq
serialize_header o (k, v) = record {
  out = o.out ++ header_line (k, v);
  has_content_length = bytes_eq (to_lower k) (codes "content-length") || o.has_content_length;
  has_connection = bytes_eq (to_lower k) (codes "connection") || o.has_connection;
}

unfoldable pub serialize_headers : Output → HeaderList → Output
unfolding serialize_header
serialize_headers o [] = o
serialize_headers o (h ∷ headers) = serialize_headers (serialize_header o h) headers

abbrev pub connection_text : Bool → Bytes
connection_text keep_alive = if keep_alive then codes "keep-alive" else codes "close"

-- What follows the loop.
unfoldable pub finish_output : HttpResponse → Output → Bytes
finish_output r o =
    let sized =
      if not o.has_content_length
      then o.out ++ (codes "Content-Length: " ++ (decimal (length r.body) ++ crlf))
      else o.out in
    let connected =
      if not o.has_connection
      then sized ++ (codes "Connection: " ++ (connection_text r.keep_alive ++ crlf))
      else sized in
    connected ++ (crlf ++ r.body)

unfoldable pub serialize : HttpResponse → Bytes
unfolding finish_output
serialize r =
    let start = codes "HTTP/1.1 " ++ (int_text r.status ++ (codes " " ++ (r.reason ++ crlf))) in
    finish_output r (
      serialize_headers (record { out = start; has_content_length = false; has_connection = false })
        r.headers)

unfoldable pub make_json_response : ℤ → Bytes → Bytes → HttpResponse
make_json_response status reason json = record new_response {
  status = status;
  reason = reason;
  headers = (codes "Content-Type", codes "application/json") ∷ [];
  body = json;
}
