-- ===== src/Server/Router/Dispatch.antt =====
-- What a registration changes.
use high_performance_http_se.Common.{
  ◌≡◌, ◌&&◌, [], ◌∷◌, some, Bytes, codes, bytes_eq, bytes_eq_iff, if◌then◌else◌, arith,
}
use high_performance_http_se.Http.Message.{HttpRequest}
use high_performance_http_se.Server.Router.{
  Handler, Table, Router, assign, find, get, post, dispatch,
}

bytes_eq_sym : (a b : Bytes) → bytes_eq a b ≡ bytes_eq b a
bytes_eq_sym a b = ground (arith, bytes_eq_iff a b, bytes_eq_iff b a)

find-assign :
    (path key : Bytes) (h : Handler) (table : Table)
    → find key (assign path h table) ≡ (if bytes_eq key path then some h else find key table)
unfolding find assign
find-assign path key h [] = rw (bytes_eq_sym path key)
find-assign path key h ((k, old) ∷ table) = ground (
  arith,
  bytes_eq_iff k path,
  bytes_eq_iff k key,
  bytes_eq_iff key path,
  find-assign path key h table,
)

-- A route for GET answers the requests for its path by that method, in place of any route that was
-- there, and changes no other answer.
dispatch-get :
    (path : Bytes) (h : Handler) (r : Router) (req : HttpRequest)
    → dispatch (get path h r) req ≡ (
        if bytes_eq req.method (codes "GET") && bytes_eq req.target path
        then h req
        else dispatch r req)
unfolding dispatch get
dispatch-get path h r req = rw (find-assign path req.target h r.get_routes) (ground arith)

pub dispatch-post :
    (path : Bytes) (h : Handler) (r : Router) (req : HttpRequest)
    → dispatch (post path h r) req ≡ (
        if bytes_eq req.method (codes "POST") && bytes_eq req.target path
        then h req
        else dispatch r req)
unfolding dispatch post
dispatch-post path h r req = ground (
  arith,
  find-assign path req.target h r.post_routes,
  bytes_eq_iff req.method (codes "POST"),
  bytes_eq_iff req.method (codes "GET"),
)
