-- ===== src/Tests/Forwarding.antt =====
-- The theorems on the forwarded request at a request that meets their hypotheses.
use high_performance_http_se.Common.{◌≡◌, refl, [], ◌∷◌, codes, bytes_eq}
use high_performance_http_se.Http.Text.{find_byte, find_text, trim, to_lower}
use high_performance_http_se.Http.Number.{strtol}
use high_performance_http_se.Http.Message.{HttpRequest, new_request, find_header, same_name}
use high_performance_http_se.Http.Headers.{content_length_from}
use high_performance_http_se.Http.Incremental.{ParseStatus}
use high_performance_http_se.Http.Request.{new_parser, consume, request_line_accepted}
use high_performance_http_se.Lb.Proxy.{is_connection, c_string, forward_text}
use high_performance_http_se.Lb.Proxy.Forward.{IsForwardable, parser_with, consume-forward_text}

abbrev posted_text : HttpRequest
posted_text = record new_request {
  method = codes "POST";
  target = codes "/echo";
  version = codes "HTTP/1.1";
  headers = (codes "connection", codes "keep-alive") ∷ (codes "Content-Length", codes "2") ∷ [];
  body = codes "hi";
}

posted_text-IsForwardable : IsForwardable posted_text
unfolding find_byte find_text trim content_length_from find_header same_name strtol is_connection
    c_string to_lower bytes_eq request_line_accepted
posted_text-IsForwardable = record {
  accepted = refl;
  method_whole = refl;
  target_whole = refl;
  line_clean = refl;
  headers_printable = (
    record {
      has_name = refl;
      no_colon = refl;
      name_trimmed = refl;
      value_trimmed = refl;
      name_clean = refl;
      value_clean = refl;
    },
    (
      record {
        has_name = refl;
        no_colon = refl;
        name_trimmed = refl;
        value_trimmed = refl;
        name_clean = refl;
        value_clean = refl;
      },
      tt,
    ),
  );
  length_true = refl;
}

consume-forward_text_example :
    consume new_parser (forward_text posted_text) ≡ (parser_with posted_text, ParseStatus.complete)
consume-forward_text_example = consume-forward_text posted_text posted_text-IsForwardable
