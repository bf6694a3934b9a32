-- ===== src/Http/Response/Json.antt =====
-- The responses of makeJsonResponse can be sent.
use high_performance_http_se.Common.{ℕ, ◌^◌, ◌≤◌, ◌<◌, ◌≡◌, refl, Bool, Bytes, length}
use high_performance_http_se.Http.Text.{find_text, trim, find_byte}
use high_performance_http_se.Http.Text.Lines.{HasNoCrlf}
use high_performance_http_se.Http.Number.{pos, long_max}
use high_performance_http_se.Http.Number.Decimal.{strtol-decimal}
use high_performance_http_se.Http.Message.{HttpResponse, make_json_response, find_header, same_name}
use high_performance_http_se.Http.Headers.{content_length_from}
use high_performance_http_se.Http.Message.Serialize.{sent_headers}
use high_performance_http_se.Http.Response.RoundTrip.{IsSendable}

abbrev pub json_response : ℕ → Bytes → Bytes → Bool → HttpResponse
json_response code reason json keep_alive = record (make_json_response (pos code) reason json) {
  keep_alive = keep_alive;
}

json_response-length :
    (code : ℕ) (reason json : Bytes) (keep_alive : Bool)
    → length json ≤ long_max
    → content_length_from (sent_headers (json_response code reason json keep_alive)) ≡ length json
unfolding content_length_from find_header same_name make_json_response
json_response-length code reason json keep_alive fits = rw (strtol-decimal (length json) fits) refl

pub json_response-IsSendable :
    (code : ℕ) (reason json : Bytes) (keep_alive : Bool)
    → code < 2 ^ 31
    → HasNoCrlf reason
    → length json ≤ long_max
    → IsSendable (json_response code reason json keep_alive)
unfolding make_json_response find_text find_byte trim
json_response-IsSendable code reason json keep_alive small clean fits = record {
  code = code;
  status_is = refl;
  code_small = small;
  reason_clean = clean;
  headers_printable = (
    record {
      has_name = refl;
      no_colon = refl;
      name_trimmed = refl;
      value_trimmed = refl;
      name_clean = refl;
      value_clean = refl;
    },
    tt,
  );
  length_true = json_response-length code reason json keep_alive fits;
}
