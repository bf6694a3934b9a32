-- ===== src/Http/Text/Find.antt =====
-- What find finds, and texts that hold no CRLF.

use high_performance_http_se.Common.{
  ℕ, zero, suc, ◌+◌, ◌≡◌, ◌≢◌, refl, ap, [], ◌∷◌, ◌++◌, none, some, Bytes, length, take, drop,
  arith, drop-length_append,
}
use high_performance_http_se.Http.Text.{cr, lf, find_text, find_byte, find_byte_from}
use high_performance_http_se.Http.Text.Lines.{HasNoCrlf}

-- The byte `c` is not in the text.
abbrev pub Lacks : ℕ → Bytes → Type 0
Lacks c s = find_byte c s ≡ none

pub Lacks-append : (c : ℕ) (a b : Bytes) → Lacks c (a ++ b) → Lacks c a × Lacks c b
unfolding find_byte
Lacks-append c [] b h = (refl, h)
Lacks-append c (x ∷ a) b h = ground (arith, Lacks-append c a b)

pub find_byte-append :
    (c : ℕ) (a b : Bytes) → Lacks c a → find_byte c (a ++ c ∷ b) ≡ some (length a)
unfolding find_byte
find_byte-append c [] b h = ground arith
find_byte-append c (x ∷ a) b h = ground (arith, find_byte-append c a b)

-- The text is cut in three at the byte that was found.
pub record Cut (c : ℕ) (s : Bytes) (k : ℕ) : Type 0 where
  pub whole : s ≡ take k s ++ c ∷ drop (suc k) s
  pub size : length (take k s) ≡ k
  pub before : Lacks c (take k s)

pub find_byte-Cut : (c : ℕ) (s : Bytes) (k : ℕ) → find_byte c s ≡ some k → Cut c s k
unfolding find_byte
find_byte-Cut c [] k h = ground arith
find_byte-Cut c (x ∷ s) zero h = ground arith
find_byte-Cut c (x ∷ s) (suc k) h =
    let rest = find_byte-Cut c s k (ground arith) in
    record {
      whole = ap (◌∷◌ x) rest.whole;
      size = ap suc rest.size;
      before = ground (arith, rest.before);
    }

-- The search for the second byte starts behind the first.
pub find_byte_from-append :
    (c : ℕ) (a b : Bytes) (pos k : ℕ)
    → pos ≡ length a
    → find_byte c b ≡ some k
    → find_byte_from c (a ++ b) pos ≡ some (pos + k)
unfolding find_byte_from
find_byte_from-append c a b pos k e h = rw (e, drop-length_append a b, h)

pub HasNoCrlf-tail : (x : ℕ) (s : Bytes) → HasNoCrlf (x ∷ s) → HasNoCrlf s
unfolding find_text
HasNoCrlf-tail x [] h = refl
HasNoCrlf-tail x (y ∷ s) h = ground arith

pub HasNoCrlf-append : (a b : Bytes) → HasNoCrlf (a ++ b) → HasNoCrlf a × HasNoCrlf b
unfolding find_text
HasNoCrlf-append [] b h = (refl, h)
HasNoCrlf-append (x ∷ []) b h = (ground arith, HasNoCrlf-tail x b h)
HasNoCrlf-append (x ∷ y ∷ a) b h = ground (arith, HasNoCrlf-append (y ∷ a) b)

-- Two clean texts are clean together if the second does not begin with a line feed.
pub HasNoCrlf-join :
    (a : Bytes) (c : ℕ) (b : Bytes)
    → c ≢ lf
    → HasNoCrlf a
    → HasNoCrlf (c ∷ b)
    → HasNoCrlf (a ++ c ∷ b)
unfolding find_text
HasNoCrlf-join [] c b n h k = k
HasNoCrlf-join (x ∷ []) c b n h k = ground arith
HasNoCrlf-join (x ∷ y ∷ a) c b n h k = ground (arith, HasNoCrlf-join (y ∷ a) c b n)

pub HasNoCrlf-cons : (c : ℕ) (b : Bytes) → c ≢ cr → HasNoCrlf b → HasNoCrlf (c ∷ b)
unfolding find_text
HasNoCrlf-cons c [] n h = ground arith
HasNoCrlf-cons c (x ∷ b) n h = ground arith
