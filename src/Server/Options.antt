-- ===== src/Server/Options.antt =====
-- The options of src/server/main.cpp.
use high_performance_http_se.Common.{
  ℕ, ◌^◌, ◌<◌, ◌≡◌, ap, ◌∙◌, List, [], ◌∷◌, ◌++◌, Option, none, some, Bytes, codes, bytes_eq, ◌==◌,
  if◌then◌else◌, arith,
}
use high_performance_http_se.Common.Options
use high_performance_http_se.Http.Number.{decimal, atoi, to_uint16, to_size}
use high_performance_http_se.Http.Number.Decimal.{
  atoi-decimal, to_uint16-pos, to_uint16-lt, to_size-lt,
}

pub record ServerOptions : Type 0 where
  pub port : ℕ
  pub threads : ℕ

-- `hardware` is what hardware_concurrency answers.
unfoldable pub default_options : ℕ → ServerOptions
default_options hardware = record { port = 9001; threads = if hardware == 0 then 4 else hardware }

unfoldable pub parse_port : Bytes → ℕ
parse_port s = to_uint16 (atoi s)

unfoldable pub set_option : Bytes → Bytes → ServerOptions → Option ServerOptions
set_option name value o =
    if bytes_eq name (codes "--port")
    then some (record o { port = parse_port value })
    else if bytes_eq name (codes "--threads")
    then some (record o { threads = to_size (atoi value) })
    else none

unfoldable pub read_options : List Bytes → ServerOptions → ServerOptions
read_options = Options.read_options set_option

-- The options fit the machine types that they are held in, whatever the arguments are.
pub record Fits (o : ServerOptions) : Type 0 where
  pub port_fits : o.port < 2 ^ 16
  pub threads_fit : o.threads < 2 ^ 64

set_option-Fits :
    (name value : Bytes) (o o' : ServerOptions)
    → Fits o
    → set_option name value o ≡ some o'
    → Fits o'
unfolding set_option parse_port
set_option-Fits name value o o' f e =
    ground (arith, to_uint16-lt (atoi value), to_size-lt (atoi value))

-- Whatever the arguments and a hardware concurrency of 64 bits are, the port has 16 bits and the number
-- of threads has 64.
read_options-Fits :
    (args : List Bytes) (hardware : ℕ)
    → hardware < 2 ^ 64
    → Fits (read_options args (default_options hardware))
unfolding read_options default_options
read_options-Fits args hardware h =
    Options.read_options-keeps set_option Fits set_option-Fits args (default_options hardware)
      (ground arith)

port_option :
    (n : ℕ) (o : ServerOptions)
    → n < 2 ^ 16
    → set_option (codes "--port") (decimal n) o ≡ some (record o { port = n })
unfolding set_option parse_port bytes_eq
port_option n o h =
    ap (λ k. some (record o { port = k }))
      (ap to_uint16 (atoi-decimal n (omega arith)) ∙ to_uint16-pos n h)

-- Behind any pairs of options and values, `--port` with the digits of a number below 2^16 sets the port to
-- that number, and leaves what the pairs have set besides.
pub read_options-port :
    (pairs : List (Bytes × Bytes)) (n : ℕ) (o o' : ServerOptions)
    → Options.Sets set_option pairs o o'
    → n < 2 ^ 16
    → read_options (Options.arguments set_option pairs ++ (codes "--port" ∷ decimal n ∷ [])) o
      ≡ record o' { port = n }
unfolding read_options
read_options-port pairs n o o' sets h =
    Options.read_options-last set_option pairs (codes "--port") (decimal n) o o'
      (record o' { port = n }) sets (port_option n o' h)
