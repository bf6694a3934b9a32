-- ===== src/Lb/Options/Settings.antt =====
-- What the options of the load balancer set.
use high_performance_http_se.Common.{
  ℕ, ◌^◌, ◌<◌, ◌≡◌, refl, ap, ◌∙◌, List, [], ◌∷◌, ◌++◌, some, Bytes, codes, bytes_eq, arith,
}
use high_performance_http_se.Common.Options
use high_performance_http_se.Http.Number.{atoi}
use high_performance_http_se.Http.Number.Decimal.{to_uint16-lt, to_size-lt}
use high_performance_http_se.Lb.UpstreamPool.{new_pool}
use high_performance_http_se.Lb.Options.{
  BalancerOptions, Target, parse_upstreams, default_options, set_option, read_options, pool_of,
}
use high_performance_http_se.Lb.Options.Targets.{
  targets_text, AllPlain, PortsFit, parse_upstreams-targets_text, parse_upstreams-PortsFit,
}

-- The options fit the machine types that they are held in.
pub record Fits (o : BalancerOptions) : Type 0 where
  pub port_fits : o.port < 2 ^ 16
  pub threads_fit : o.threads < 2 ^ 64

set_option-Fits :
    (name value : Bytes) (o o' : BalancerOptions)
    → Fits o
    → set_option name value o ≡ some o'
    → Fits o'
unfolding set_option
set_option-Fits name value o o' f e =
    ground (arith, to_uint16-lt (atoi value), to_size-lt (atoi value))

-- Whatever the arguments and a hardware concurrency of 64 bits are, the port of the balancer and the ports
-- of its upstreams have 16 bits, and the number of threads has 64.
read_options-Fits-PortsFit :
    (args : List Bytes) (hardware : ℕ)
    → hardware < 2 ^ 64
    → let o = read_options args (default_options hardware) in
      Fits o × PortsFit (parse_upstreams o.upstreams_csv)
unfolding read_options default_options
read_options-Fits-PortsFit args hardware h = (
  Options.read_options-keeps set_option Fits set_option-Fits args (default_options hardware)
      (ground arith),
  parse_upstreams-PortsFit _,
)

upstreams_option :
    (csv : Bytes) (o : BalancerOptions)
    → set_option (codes "--upstreams") csv o ≡ some (record o { upstreams_csv = csv })
unfolding set_option bytes_eq
upstreams_option csv o = refl

-- Behind any pairs of options and values, `--upstreams` with the text of plain targets starts the balancer
-- with a pool of just these targets, all healthy, and with its index at 0.
pub read_options-upstreams :
    (pairs : List (Bytes × Bytes)) (targets : List Target) (o o' : BalancerOptions)
    → Options.Sets set_option pairs o o'
    → AllPlain targets
    → pool_of (
        read_options
          (Options.arguments set_option pairs ++ (codes "--upstreams" ∷ targets_text targets ∷ []))
          o)
      ≡ new_pool targets
unfolding read_options pool_of
read_options-upstreams pairs targets o o' sets plain =
    let csv = targets_text targets in
    ap pool_of (
      Options.read_options-last set_option pairs (codes "--upstreams") csv o o'
        (record o' { upstreams_csv = csv }) sets (upstreams_option csv o'))
    ∙ ap new_pool (parse_upstreams-targets_text targets plain)
