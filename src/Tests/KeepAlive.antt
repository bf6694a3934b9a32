-- ===== src/Tests/KeepAlive.antt =====
-- Two requests on one connection of the server.
use high_performance_http_se.Common.{
  ◌≡◌, refl, ◌∙◌, Bool, false, true, List, [], ◌∷◌, ◌++◌, Bytes, bytes_eq, arith,
}
use high_performance_http_se.Http.Text.{to_lower, find_text}
use high_performance_http_se.Http.Number.{decimal, int_text}
use high_performance_http_se.Http.Headers.{connection_keep_alive, keep_alive_value}
use high_performance_http_se.Http.Message
use high_performance_http_se.Http.Message.{serialize, make_json_response, find_header}
use high_performance_http_se.Http.Incremental
use high_performance_http_se.Net.Connection.{Connection, flush_write, flush_loop}
use high_performance_http_se.Net.Serving.{wait_readable}
use high_performance_http_se.Net.Serving.Exchange.{write_events}
use high_performance_http_se.Net.Serving.Exchange.Pieces.{Piece, read_events-served}
use high_performance_http_se.Server.Router.{dispatch, get, assign, find}
use high_performance_http_se.Server.Routes.{server_router}
use high_performance_http_se.Server.Serve.{response_to, serve}
use high_performance_http_se.Server.Serve.KeepAlive.{
  replied, Visit, ends, time_passes, request, IsWaiting, Visit-replied,
}
use high_performance_http_se.Lb.Proxy.Forward.{parser_with}
use high_performance_http_se.Tests.Kernel.{
  World, kernel, kernel_laws, kernel_recv_laws, kernel_stays,
}
use high_performance_http_se.Tests.Through.{asked}
use high_performance_http_se.Tests.Sessions.{router, client, first_piece, last_piece, whole_read}

-- The client, with what it has asked for in the request before.
abbrev waiting : Bool → Connection
waiting keep_alive = record client { pending_keep_alive = keep_alive }

abbrev asking : Bool → Connection
asking keep_alive = record (waiting keep_alive) { parser = parser_with asked }

abbrev served : Bool → World → World
served keep_alive w = (serve kernel router (asking keep_alive) w).1

serve-asking :
    (keep_alive : Bool) (w : World)
    → serve kernel router (asking keep_alive) w
      ≡ (waiting false, served keep_alive w, wait_readable)
unfolding serve flush_write flush_loop dispatch server_router get assign find make_json_response
    bytes_eq serialize Message.finish_output Message.serialize_headers Message.serialize_header
    find_header decimal int_text to_lower Incremental.fresh connection_keep_alive keep_alive_value
    find_text
serve-asking keep_alive w = refl

abbrev pieces : List Piece
pieces = first_piece ∷ last_piece ∷ []

abbrev reading : List Piece → World → World
reading reads w = record w { reads = reads }

replied-waiting :
    (keep_alive : Bool) (more : List Piece) (w : World)
    → replied kernel router
        (last_piece ∷ [])
        0
        (waiting keep_alive)
        (reading (first_piece ∷ last_piece ∷ more) w)
      ≡ (waiting false, served keep_alive (reading more w), wait_readable)
unfolding write_events
replied-waiting keep_alive more w =
    read_events-served kernel (serve kernel router) first_piece (last_piece ∷ [])
      (waiting keep_alive) (parser_with asked) (reading (first_piece ∷ last_piece ∷ more) w)
      (reading more w) refl (reading (last_piece ∷ more) w, refl, (reading more w, refl, refl))
      whole_read refl
    ∙ serve-asking keep_alive (reading more w)

abbrev four_reads : World
four_reads = record { out = []; reads = first_piece ∷ last_piece ∷ pieces }

abbrev after_one : World
after_one = served true (reading pieces four_reads)

-- The peer sends the second request when it has the first response.
abbrev after_two : World
after_two = served false (reading [] after_one)

abbrev response : Bytes
response = serialize (response_to kernel router (asking true))

two_requests :
    Visit kernel router client four_reads (response ++ (response ++ [])) (waiting false) after_two
two_requests =
    request client (waiting false) (waiting false) four_reads (reading pieces four_reads) after_one
      after_two first_piece (last_piece ∷ []) (parser_with asked) 0 (response ++ [])
      (reading (last_piece ∷ pieces) four_reads, refl, (reading pieces four_reads, refl, refl))
      whole_read refl (replied-waiting true pieces four_reads)
      (time_passes (waiting false) (waiting false) after_one (reading pieces after_one) after_two _
        refl
        (request (waiting false) (waiting false) (waiting false) (reading pieces after_one)
          (reading [] after_one) after_two after_two first_piece (last_piece ∷ [])
          (parser_with asked) 0 []
          (reading (last_piece ∷ []) after_one, refl, (reading [] after_one, refl, refl)) whole_read
          refl (replied-waiting false [] after_one) (ends (waiting false) after_two)))

Visit-replied_example :
    IsWaiting (waiting false)
    × ((waiting false).fd ≡ client.fd)
    × (after_two.out ≡ [] ++ (response ++ (response ++ [])))
Visit-replied_example =
    Visit-replied kernel router kernel_recv_laws kernel_laws client (waiting false) four_reads
      after_two (response ++ (response ++ [])) (kernel_stays 5)
      (record { valid = omega arith; idle = refl; parser_is_new = refl }) two_requests
