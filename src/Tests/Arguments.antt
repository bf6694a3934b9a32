-- ===== src/Tests/Arguments.antt =====
-- The theorems on the options at arguments that meet their hypotheses.
use high_performance_http_se.Common.{◌≡◌, refl, List, [], ◌∷◌, codes, arith}
use high_performance_http_se.Http.Text.{find_byte}
use high_performance_http_se.Lb.Options.{Target, parse_upstreams}
use high_performance_http_se.Lb.Options.Targets.{
  targets_text, AllPlain, parse_upstreams-targets_text,
}

abbrev two_targets : List Target
two_targets = (codes "10.0.0.1", 9001) ∷ (codes "10.0.0.2", 80) ∷ []

two_targets-AllPlain : AllPlain two_targets
unfolding find_byte
two_targets-AllPlain = (
  record { no_comma = refl; no_colon = refl; port_fits = omega arith },
  (record { no_comma = refl; no_colon = refl; port_fits = omega arith }, tt),
)

parse_upstreams-targets_text_example : parse_upstreams (targets_text two_targets) ≡ two_targets
parse_upstreams-targets_text_example = parse_upstreams-targets_text two_targets two_targets-AllPlain
