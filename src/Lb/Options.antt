-- ===== src/Lb/Options.antt =====
-- The options of src/loadbalancer/main.cpp, and its list of upstreams.
pub mod Targets
pub mod Settings
use mathlib.Core.Option
use high_performance_http_se.Common.{
  ℕ, ◌+◌, Bool, true, false, List, [], ◌∷◌, Option, none, some, Bytes, codes, bytes_eq, ◌==◌,
  if◌then◌else◌, take, drop,
}
use high_performance_http_se.Common.Options
use high_performance_http_se.Http.Text.{find_byte}
use high_performance_http_se.Http.Number.{ℤ, pos, atoi, to_uint16, to_size}
use high_performance_http_se.Lb.UpstreamPool.{UpstreamPool, new_pool}

abbrev pub push_front : ℕ → List Bytes → List Bytes
push_front c [] = (c ∷ []) ∷ []
push_front c (entry ∷ entries) = (c ∷ entry) ∷ entries

-- What `std::getline(ss, entry, ',')` reads one after the other: a comma ends an entry, and nothing
-- follows a comma at the end.
unfoldable pub entries : Bytes → List Bytes
entries [] = []
entries (c ∷ csv) = let later = entries csv in if c == b',' then [] ∷ later else push_front c later

abbrev pub Target : Type 0
Target = Bytes × ℕ

unfoldable pub parse_entry : Bytes → Option Target
parse_entry entry = elim (find_byte b':' entry) [
  | none ↦ none
  | some colon ↦ some (take colon entry, to_uint16 (atoi (drop (colon + 1) entry)))
]

abbrev pub keep_some : Option Target → List Target → List Target
keep_some none out = out
keep_some (some t) out = t ∷ out

unfoldable pub parse_entries : List Bytes → List Target
parse_entries [] = []
parse_entries (entry ∷ later) = keep_some (parse_entry entry) (parse_entries later)

unfoldable pub parse_upstreams : Bytes → List Target
parse_upstreams csv = parse_entries (entries csv)

pub record BalancerOptions : Type 0 where
  pub port : ℕ
  pub threads : ℕ
  pub health_interval_ms : ℤ
  pub upstreams_csv : Bytes

-- `hardware` is what hardware_concurrency answers.
unfoldable pub default_options : ℕ → BalancerOptions
default_options hardware = record {
  port = 8080;
  threads = if hardware == 0 then 4 else hardware;
  health_interval_ms = pos 2000;
  upstreams_csv = codes "127.0.0.1:9001,127.0.0.1:9002,127.0.0.1:9003";
}

unfoldable pub set_option : Bytes → Bytes → BalancerOptions → Option BalancerOptions
set_option name value o =
    if bytes_eq name (codes "--port")
    then some (record o { port = to_uint16 (atoi value) })
    else if bytes_eq name (codes "--threads")
    then some (record o { threads = to_size (atoi value) })
    else if bytes_eq name (codes "--health-interval-ms")
    then some (record o { health_interval_ms = atoi value })
    else if bytes_eq name (codes "--upstreams")
    then some (record o { upstreams_csv = value })
    else none

unfoldable pub read_options : List Bytes → BalancerOptions → BalancerOptions
read_options = Options.read_options set_option

-- The pool that main starts with.
unfoldable pub pool_of : BalancerOptions → UpstreamPool
pool_of o = new_pool (parse_upstreams o.upstreams_csv)
