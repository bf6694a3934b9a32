-- ===== src/Tests/Malformed.antt =====
-- A line that is no request line, in two reads.
use high_performance_http_se.Common.{◌≡◌, refl, ◌++◌, [], ◌∷◌, codes, arith}
use high_performance_http_se.Http.Text.{extract_line, find_byte}
use high_performance_http_se.Http.Incremental
use high_performance_http_se.Http.Incremental.{ParseStatus}
use high_performance_http_se.Http.Message.{serialize}
use high_performance_http_se.Http.Request
use high_performance_http_se.Http.Request.{HttpParser}
use high_performance_http_se.Net.Serving.{bad_request}
use high_performance_http_se.Net.Serving.Exchange.{read_events, write_events}
use high_performance_http_se.Net.Serving.Exchange.Pieces.{Piece, whole}
use high_performance_http_se.Net.Serving.Exchange.Rejected.{Rejected}
use high_performance_http_se.Net.Serving.Exchange.Malformed.{malformed_refused}
use high_performance_http_se.Server.Serve.{serve}
use high_performance_http_se.Tests.Kernel.{World, kernel, kernel_laws, kernel_recv_laws}
use high_performance_http_se.Tests.Sessions.{router, client}

abbrev hello : Piece
hello = (b'h', codes "ello")

abbrev line_end : Piece
line_end = (b'\r', codes "\n")

abbrev refused : HttpParser
refused = (Request.consume Request.new_parser (whole (hello ∷ line_end ∷ []))).0

hello_is_bad :
    Request.consume Request.new_parser (whole (hello ∷ line_end ∷ []))
    ≡ (refused, ParseStatus.error)
unfolding Incremental.consume Incremental.process Incremental.read_start_line
    Incremental.append_bytes Incremental.fresh extract_line Incremental.take_start_line
    Request.parse_request_line find_byte
hello_is_bad = refl

abbrev two_reads : World
two_reads = record { out = []; reads = hello ∷ line_end ∷ [] }

abbrev no_reads : World
no_reads = record { out = []; reads = [] }

malformed_refused_example : Rejected kernel 5 ([] ++ serialize (bad_request kernel)) (
    write_events kernel
      (serve kernel router)
      2
      (read_events kernel (serve kernel router) 1 client two_reads))
malformed_refused_example =
    malformed_refused kernel kernel_laws kernel_recv_laws (serve kernel router) client refused hello
      (line_end ∷ []) two_reads no_reads 2 (omega arith) refl
      (record { out = []; reads = line_end ∷ [] }, refl, (no_reads, refl, refl)) hello_is_bad
