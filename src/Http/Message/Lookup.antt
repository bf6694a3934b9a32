-- ===== src/Http/Message/Lookup.antt =====
-- Header names are compared without regard to case, and the first header of a name wins.
use high_performance_http_se.Common.{◌≡◌, refl, [], ◌∷◌, ◌++◌, none, some, Bytes, bytes_eq, arith}
use high_performance_http_se.Http.Text.{to_lower}
use high_performance_http_se.Http.Message.{same_name, find_header, HeaderList}

-- A comparison of two names by `std::equal` is one of their lower-case texts.
pub same_name-eq-bytes_eq :
    (k name : Bytes) → same_name k name ≡ bytes_eq (to_lower k) (to_lower name)
unfolding same_name to_lower bytes_eq
same_name-eq-bytes_eq [] [] = refl
same_name-eq-bytes_eq [] (b ∷ n) = ground arith
same_name-eq-bytes_eq (a ∷ k) [] = ground arith
same_name-eq-bytes_eq (a ∷ k) (b ∷ n) = ground (arith, same_name-eq-bytes_eq k n)

pub find_header-append :
    (hs more : HeaderList) (name : Bytes)
    → find_header (hs ++ more) name
      ≡ (elim (find_header hs name) [ none ↦ find_header more name | some v ↦ some v ])
unfolding find_header
find_header-append [] more name = refl
find_header-append ((k, v) ∷ hs) more name = ground (arith, find_header-append hs more name)
