-- ===== src/Http/Text/Lines.antt =====
-- What extract_line finds: the shortest line in front of a CRLF.

use high_performance_http_se.Common.{
  ℕ, zero, suc, ◌+◌, ◌-◌, ◌<◌, ◌≡◌, refl, sym, ap, ◌∙◌, inl, inr, false, ◌&&◌, [], ◌∷◌, ◌++◌, none,
  some, Bytes, ◌==◌, length, length-append, take, drop, drop-append, arith, Option-cases,
  take-length_append, append_assoc,
}
use high_performance_http_se.Http.Text.{cr, lf, crlf, find_text, find_crlf_from, extract_line}

abbrev pub HasNoCrlf : Bytes → Type 0
HasNoCrlf s = find_text crlf s ≡ none

pub HasNoCrlf-empty : HasNoCrlf []
unfolding find_text
HasNoCrlf-empty = refl

find_text-append :
    (l rest : Bytes) → HasNoCrlf l → find_text crlf (l ++ cr ∷ lf ∷ rest) ≡ some (length l)
unfolding find_text
find_text-append [] rest h = refl
find_text-append (x ∷ []) rest h = ground arith
find_text-append (x ∷ y ∷ l) rest h = ground (arith, find_text-append (y ∷ l) rest)

record Splits (s : Bytes) (k : ℕ) : Type 0 where
  whole : s ≡ take k s ++ cr ∷ lf ∷ drop (suc (suc k)) s
  size : length (take k s) ≡ k
  clean : HasNoCrlf (take k s)

Splits-cons :
    (x y : ℕ) (s : Bytes) (k : ℕ)
    → (x == cr && y == lf) ≡ false
    → Splits (y ∷ s) k
    → Splits (x ∷ y ∷ s) (suc k)
unfolding find_text
Splits-cons x y s zero differ rest = record {
  whole = ap (◌∷◌ x) rest.whole;
  size = omega arith;
  clean = ground arith;
}
Splits-cons x y s (suc k) differ rest = record {
  whole = ap (◌∷◌ x) rest.whole;
  size = ap suc rest.size;
  clean = ground (arith, rest.clean);
}

find_text-Splits : (s : Bytes) (k : ℕ) → find_text crlf s ≡ some k → Splits s k
unfolding find_text
find_text-Splits [] k h = ground arith
find_text-Splits (x ∷ []) k h = ground arith
find_text-Splits (x ∷ y ∷ s) zero h = ground arith
find_text-Splits (x ∷ y ∷ s) (suc k) h =
    Splits-cons x y s k (ground arith) (find_text-Splits (y ∷ s) k (ground arith))

find_crlf_from-zero : (s : Bytes) → find_crlf_from s 0 ≡ find_text crlf s
unfolding find_crlf_from
find_crlf_from-zero s = elim (Option-cases (find_text crlf s)) [
  | inl e ↦ rw e
  | inr (k, e) ↦ rw e (ap some (omega arith))
]

-- A line is taken off the front of the buffer, whatever follows it.
pub extract_line-append :
    (l rest : Bytes) → HasNoCrlf l → extract_line (l ++ cr ∷ lf ∷ rest) 0 ≡ some (l, length l + 2)
unfolding extract_line
extract_line-append l rest h =
    rw (find_crlf_from-zero, find_text-append l rest h, extract_line)
      (let e : length l - 0 ≡ length l = omega arith in rw (e, take-length_append l))

extract_line-found :
    (s : Bytes) {k : ℕ}
    → find_text crlf s ≡ some k
    → extract_line s 0 ≡ some (take k s, suc (suc k))
unfolding extract_line
extract_line-found s {k} e =
    rw (find_crlf_from-zero, e, extract_line)
      (let d : k - 0 ≡ k = omega arith in let f : k + 2 ≡ suc (suc k) = omega arith in rw (d, f))

extract_line-none : (s : Bytes) → find_text crlf s ≡ none → extract_line s 0 ≡ none
unfolding extract_line
extract_line-none s e = rw (find_crlf_from-zero, e, extract_line)

-- What extract_line has found: the buffer is the line, a CRLF and the rest behind the new position.
pub record IsLine (s line : Bytes) (pos : ℕ) : Type 0 where
  pub whole : s ≡ line ++ cr ∷ lf ∷ drop pos s
  pub past : pos ≡ length line + 2
  pub clean : HasNoCrlf line

pub extract_line-IsLine :
    (s : Bytes) {line : Bytes} {pos : ℕ} → extract_line s 0 ≡ some (line, pos) → IsLine s line pos
extract_line-IsLine s {line} {pos} h = elim (Option-cases (find_text crlf s)) [
  | inl e ↦ cc (extract_line-none s e)
  | inr (k, e) ↦
      let split = find_text-Splits s k e in
      let same_line : take k s ≡ line = cc (extract_line-found s e) in
      let same_pos : suc (suc k) ≡ pos = cc (extract_line-found s e) in
      record {
        whole = rw (← same_line, ← same_pos) split.whole;
        past = rw (← same_line, ← same_pos) (omega (arith, split.size));
        clean = rw (← same_line) split.clean;
      }
]

IsLine-fits :
    {s line : Bytes} {pos : ℕ}
    → IsLine s line pos
    → length line + 2 + length (drop pos s) ≡ length s
IsLine-fits {s} {line} {pos} p =
    omega (arith, ap length p.whole, length-append line (cr ∷ lf ∷ drop pos s))

-- More bytes behind the buffer do not change the line that is found.
pub extract_line-more :
    (s t : Bytes) {line : Bytes} {pos : ℕ}
    → extract_line s 0 ≡ some (line, pos)
    → (extract_line (s ++ t) 0 ≡ some (line, pos)) × (drop pos (s ++ t) ≡ drop pos s ++ t)
extract_line-more s t {line} {pos} h =
    let p = extract_line-IsLine s h in
    (
      ap (λ x. extract_line (x ++ t) 0) p.whole
          ∙ ap (λ x. extract_line x 0) (append_assoc line (cr ∷ lf ∷ drop pos s) t)
          ∙ extract_line-append line (drop pos s ++ t) p.clean
          ∙ ap (λ n. some (line, n)) (sym p.past),
      drop-append pos s t (omega (arith, p.past, IsLine-fits p)),
    )

pub extract_line-shrinks :
    (s : Bytes) {line : Bytes} {pos : ℕ}
    → extract_line s 0 ≡ some (line, pos)
    → length (drop pos s) < length s
extract_line-shrinks s h = omega (arith, IsLine-fits (extract_line-IsLine s h))
