-- ===== src/Http/Text.antt =====
-- The text helpers of src/net/http_parser.cpp, and what they use of std::string and <cctype> in the
-- "C" locale. `none` is npos.
pub mod Lines
pub mod Trim
pub mod Find
use mathlib.Core.Option
use high_performance_http_se.Common.{
  ℕ, suc, ◌+◌, ◌-◌, Bool, true, false, not, ◌&&◌, ◌||◌, List, [], ◌∷◌, map, Option, none, some,
  Bytes, ◌==◌, leb, if◌then◌else◌, take, drop, is_empty, bytes_eq,
}

abbrev pub cr : ℕ
cr = 13

abbrev pub lf : ℕ
lf = 10

abbrev pub crlf : Bytes
crlf = cr ∷ lf ∷ []

unfoldable pub is_space : ℕ → Bool
is_space c = c == 32 || (leb 9 c && leb c 13)

unfoldable pub lower_byte : ℕ → ℕ
lower_byte c = if leb b'A' c && leb c b'Z' then c + 32 else c

unfoldable pub to_lower : Bytes → Bytes
unfolding lower_byte
to_lower s = map lower_byte s

-- The first loop moves `start` over the spaces in front.
unfoldable pub skip_spaces : Bytes → Bytes
unfolding is_space
skip_spaces [] = []
skip_spaces (c ∷ s) = if is_space c then skip_spaces s else c ∷ s

-- The second moves `end` back over the spaces behind: a byte stays if it is no space, or if one
-- behind it stays.
unfoldable pub drop_trailing : Bytes → Bytes
unfolding is_space
drop_trailing [] = []
drop_trailing (c ∷ s) =
    let kept = drop_trailing s in if is_empty kept && is_space c then [] else c ∷ kept

unfoldable pub trim : Bytes → Bytes
unfolding skip_spaces drop_trailing
trim s = drop_trailing (skip_spaces s)

-- `s.find(c)`
unfoldable pub find_byte : ℕ → Bytes → Option ℕ
find_byte c [] = none
find_byte c (x ∷ s) = if x == c then some 0 else Option.map suc (find_byte c s)

-- `s.find(c, pos)`
unfoldable pub find_byte_from : ℕ → Bytes → ℕ → Option ℕ
unfolding find_byte
find_byte_from c s pos = Option.map (λ i. pos + i) (find_byte c (drop pos s))

abbrev pub starts_with : Bytes → Bytes → Bool
starts_with [] s = true
starts_with (c ∷ t) [] = false
starts_with (c ∷ t) (x ∷ s) = x == c && starts_with t s

-- `s.find(t)`
unfoldable pub find_text : Bytes → Bytes → Option ℕ
find_text t [] = if is_empty t then some 0 else none
find_text t (x ∷ s) = if starts_with t (x ∷ s) then some 0 else Option.map suc (find_text t s)

-- `s.find("\r\n", pos)`
unfoldable pub find_crlf_from : Bytes → ℕ → Option ℕ
unfolding find_text
find_crlf_from s pos = Option.map (λ i. pos + i) (find_text crlf (drop pos s))

-- `s.substr(pos, n)`, for a `pos` within `s`
abbrev pub substr : Bytes → ℕ → ℕ → Bytes
substr s pos n = take n (drop pos s)

-- The line and the new `pos`.
unfoldable pub extract_line : Bytes → ℕ → Option (Bytes × ℕ)
unfolding find_crlf_from
extract_line buffer pos = elim (find_crlf_from buffer pos) [
  | none ↦ none
  | some k ↦ some (substr buffer pos (k - pos), k + 2)
]
