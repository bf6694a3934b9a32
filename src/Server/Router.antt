-- ===== src/Server/Router.antt =====
-- src/server/router.h and src/server/router.cpp. A table is an association list that holds a path
-- once.
pub mod Dispatch
use high_performance_http_se.Common.{
  Bool, true, false, List, [], ◌∷◌, Option, none, some, Bytes, codes, bytes_eq, if◌then◌else◌,
}
use high_performance_http_se.Http.Number.{pos}
use high_performance_http_se.Http.Message.{HttpRequest, HttpResponse, make_json_response}

abbrev pub Handler : Type 0
Handler = HttpRequest → HttpResponse

abbrev pub Table : Type 0
Table = List (Bytes × Handler)

pub record Router : Type 0 where
  pub get_routes : Table
  pub post_routes : Table

abbrev pub new_router : Router
new_router = record { get_routes = []; post_routes = [] }

-- `table[path] = h`
unfoldable pub assign : Bytes → Handler → Table → Table
assign path h [] = (path, h) ∷ []
assign path h ((key, old) ∷ table) =
    if bytes_eq key path then (key, h) ∷ table else (key, old) ∷ assign path h table

unfoldable pub find : Bytes → Table → Option Handler
find path [] = none
find path ((key, h) ∷ table) = if bytes_eq key path then some h else find path table

unfoldable pub get : Bytes → Handler → Router → Router
get path h r = record r { get_routes = assign path h r.get_routes }

unfoldable pub post : Bytes → Handler → Router → Router
post path h r = record r { post_routes = assign path h r.post_routes }

abbrev pub method_not_allowed : HttpResponse
method_not_allowed =
    make_json_response (pos 405) (codes "Method Not Allowed")
      (codes "{\"error\":\"method not allowed\"}")

abbrev pub not_found : HttpResponse
not_found = make_json_response (pos 404) (codes "Not Found") (codes "{\"error\":\"not found\"}")

abbrev pub answer : Option Handler → HttpRequest → HttpResponse
answer none req = not_found
answer (some h) req = h req

unfoldable pub dispatch : Router → HttpRequest → HttpResponse
dispatch r req =
    if bytes_eq req.method (codes "GET")
    then answer (find req.target r.get_routes) req
    else if bytes_eq req.method (codes "POST")
    then answer (find req.target r.post_routes) req
    else method_not_allowed
