-- ===== src/Lb/Proxy/Through.antt =====
-- A request that goes through the balancer to the server of src/server, and the answer that comes back.
use high_performance_http_se.Common.{
  ℕ, ◌≤◌, ◌<◌, ◌≡◌, refl, ap, ◌∙◌, Bool, true, false, List, [], ◌∷◌, codes, some, bytes_eq, sym,
  none, length, if◌then◌else◌, arith,
}
use high_performance_http_se.Http.Number.{long_max}
use high_performance_http_se.Http.Text.{find_text}
use high_performance_http_se.Http.Message.{HttpRequest, HttpResponse, serialize, make_json_response}
use high_performance_http_se.Http.Incremental.{ParseStatus}
use high_performance_http_se.Http.Request
use high_performance_http_se.Http.Request.{HttpParser}
use high_performance_http_se.Http.Response
use high_performance_http_se.Http.Response.Json.{json_response-IsSendable}
use high_performance_http_se.Http.Response.RoundTrip.{IsSendable, received}
use high_performance_http_se.Net.Sys.{Sys}
use high_performance_http_se.Net.Connection.{Connection}
use high_performance_http_se.Server.Router.{
  Table, Router, answer, dispatch, find, assign, get, not_found, method_not_allowed,
}
use high_performance_http_se.Server.Routes.{health, hello, echo, server_router}
use high_performance_http_se.Server.Serve.{response_to}
use high_performance_http_se.Lb.Proxy.{forward_text, read_response}
use high_performance_http_se.Lb.Proxy.Forward.{IsForwardable, forwarded, consume-forward_text}
use high_performance_http_se.Lb.Proxy.Relay.{Chunk, joined, Delivers, read_response-serialize}

-- The routes, as a case distinction.
abbrev routed : ℕ → HttpRequest → HttpResponse
routed port r =
    if bytes_eq r.method (codes "GET")
    then (if bytes_eq (codes "/health") r.target
        then health r
        else if bytes_eq (codes "/") r.target
        then hello port r
        else if bytes_eq (codes "/api/echo") r.target
        then echo port r
        else not_found)
    else if bytes_eq r.method (codes "POST")
    then not_found
    else method_not_allowed

abbrev routes : ℕ → Table
routes port =
    (codes "/health", health) ∷ (codes "/", hello port) ∷ (codes "/api/echo", echo port) ∷ []

server_router-routes :
    (port : ℕ) → server_router port ≡ record { get_routes = routes port; post_routes = [] }
unfolding server_router get assign bytes_eq
server_router-routes port = refl

answer-routed :
    (port : ℕ) (r : HttpRequest) (a b c : Bool)
    → answer
        (if a
          then some health
          else if b
          then some (hello port)
          else if c
          then some (echo port)
          else none)
        r
      ≡ (if a then health r else if b then hello port r else if c then echo port r else not_found)
answer-routed port r true b c = refl
answer-routed port r false true c = refl
answer-routed port r false false true = refl
answer-routed port r false false false = refl

dispatch-routed : (port : ℕ) (r : HttpRequest) → dispatch (server_router port) r ≡ routed port r
unfolding dispatch find
dispatch-routed port r =
    ap (λ (router : Router). dispatch router r) (server_router-routes port)
    ∙ ap
        (λ (found : HttpResponse).
          if bytes_eq r.method (codes "GET")
          then found
          else if bytes_eq r.method (codes "POST")
          then not_found
          else method_not_allowed)
        (answer-routed port r (bytes_eq (codes "/health") r.target) (bytes_eq (codes "/") r.target)
          (bytes_eq (codes "/api/echo") r.target))

-- The headers, the version and the body of a request are not looked at.
dispatch-forwarded :
    (port : ℕ) (r : HttpRequest)
    → dispatch (server_router port) (forwarded r) ≡ dispatch (server_router port) r
dispatch-forwarded port r = dispatch-routed port (forwarded r) ∙ sym (dispatch-routed port r)

abbrev chosen : ℕ → HttpRequest → Bool → Bool → Bool → Bool → Bool → HttpResponse
chosen port r gets is_health is_root is_echo posts =
    if gets
    then (if is_health
        then health r
        else if is_root
        then hello port r
        else if is_echo
        then echo port r
        else not_found)
    else if posts
    then not_found
    else method_not_allowed

chosen-IsSendable :
    (port : ℕ) (r : HttpRequest) (keep_alive g h s e p : Bool)
    → length (chosen port r g h s e p).body ≤ long_max
    → IsSendable (record (chosen port r g h s e p) { keep_alive = keep_alive })
unfolding make_json_response find_text
chosen-IsSendable port r keep_alive true true s e p fits =
    json_response-IsSendable 200 (codes "OK") _ keep_alive (omega arith) refl fits
chosen-IsSendable port r keep_alive true false true e p fits =
    json_response-IsSendable 200 (codes "OK") _ keep_alive (omega arith) refl fits
chosen-IsSendable port r keep_alive true false false true p fits =
    json_response-IsSendable 200 (codes "OK") _ keep_alive (omega arith) refl fits
chosen-IsSendable port r keep_alive true false false false p fits =
    json_response-IsSendable 404 (codes "Not Found") _ keep_alive (omega arith) refl fits
chosen-IsSendable port r keep_alive false h s e true fits =
    json_response-IsSendable 404 (codes "Not Found") _ keep_alive (omega arith) refl fits
chosen-IsSendable port r keep_alive false h s e false fits =
    json_response-IsSendable 405 (codes "Method Not Allowed") _ keep_alive (omega arith) refl fits

dispatch-IsSendable :
    (port : ℕ) (r : HttpRequest) (keep_alive : Bool)
    → length (dispatch (server_router port) r).body ≤ long_max
    → IsSendable (record (dispatch (server_router port) r) { keep_alive = keep_alive })
dispatch-IsSendable port r keep_alive fits = rw (dispatch-routed port r) (
    chosen-IsSendable port r keep_alive (bytes_eq r.method (codes "GET"))
      (bytes_eq (codes "/health") r.target) (bytes_eq (codes "/") r.target)
      (bytes_eq (codes "/api/echo") r.target) (bytes_eq r.method (codes "POST"))
      (rw (dispatch-routed port r) at fits))

-- The server's answer to `r`, with the flag that the forwarded request gives it.
abbrev pub answer_through : ℕ → HttpRequest → HttpResponse
answer_through port r = record (dispatch (server_router port) r) {
  keep_alive = (forwarded r).keep_alive;
}

-- A request that its text determines is forwarded to the server with its routes, whose parser reads the
-- text; the server's response, whose body has a length that a long holds, comes back cut into reads in any
-- way, with a bound on the reads that is at least their number. Then the proxy reads the response that the
-- routes give the client's own request: its status, reason and body are the same, and the two headers of
-- `serialize` are added.
pub through_server :
    (sys server_sys : Sys) (port : ℕ) (r : HttpRequest) (server : Connection)
    (fd capacity reads : ℕ) (c : Chunk) (chunks : List Chunk) (w : sys.World)
    → IsForwardable r
    → length (dispatch (server_router port) r).body ≤ long_max
    → server.parser ≡ (Request.consume Request.new_parser (forward_text r)).0
    → joined (c ∷ chunks) ≡ serialize (response_to server_sys (server_router port) server)
    → length chunks < reads
    → Delivers sys fd capacity w (c ∷ chunks)
    → (read_response sys reads fd capacity Response.new_parser w).0
      ≡ some (received (answer_through port r))
through_server sys server_sys port r server fd capacity reads c chunks w ok fits read text few d =
    let heard : server.parser.message ≡ forwarded r =
      ap (λ (p : HttpParser). p.message) read
      ∙ ap (λ (o : HttpParser × ParseStatus). o.0.message) (consume-forward_text r ok) in
    let answered : response_to server_sys (server_router port) server ≡ answer_through port r =
      ap
        (λ (m : HttpRequest). record (dispatch (server_router port) m) {
          keep_alive = m.keep_alive;
        })
        heard
      ∙ ap (λ (a : HttpResponse). record a { keep_alive = (forwarded r).keep_alive })
          (dispatch-forwarded port r) in
    read_response-serialize sys fd capacity (answer_through port r) c chunks reads w
      (dispatch-IsSendable port r (forwarded r).keep_alive fits) (text ∙ ap serialize answered) few
      d
