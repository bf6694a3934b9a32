-- ===== src/Server/Routes.antt =====
-- The routes that main of src/server/main.cpp registers.
use high_performance_http_se.Common.{ℕ, ◌++◌, codes}
use high_performance_http_se.Http.Number.{pos, decimal}
use high_performance_http_se.Http.Message.{make_json_response}
use high_performance_http_se.Server.Router.{Handler, Router, new_router, get}

abbrev pub health : Handler
health req = make_json_response (pos 200) (codes "OK") (codes "{\"status\":\"ok\"}")

abbrev pub hello : ℕ → Handler
hello port req =
    make_json_response (pos 200) (codes "OK") (
      codes "{\"server\":\""
      ++ (decimal port ++ codes "\",\"message\":\"hello from worker node\"}"))

abbrev pub echo : ℕ → Handler
echo port req = make_json_response (pos 200) (codes "OK") (
    codes "{\"server\":\""
    ++ (decimal port ++ (codes "\",\"target\":\"" ++ (req.target ++ codes "\"}"))))

unfoldable pub server_router : ℕ → Router
server_router port =
    get (codes "/api/echo") (echo port)
      (get (codes "/") (hello port) (get (codes "/health") health new_router))
