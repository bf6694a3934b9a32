-- ===== src/Http/Number/Decimal.antt =====
-- Reading back a printed number.
use high_performance_http_se.Common.{
  ℕ, zero, suc, ◌+◌, ◌*◌, ◌/◌, ◌%◌, ◌^◌, ◌≤◌, ◌<◌, ◌≡◌, refl, sym, ap, ◌∙◌, inl, inr, true, false,
  [], ◌∷◌, some, Bytes, ltb, arith, Bool-cases, ltb-of-le,
}
use high_performance_http_se.Http.Text.{is_space, find_byte, trim}
use high_performance_http_se.Http.Text.Lines.{HasNoCrlf, HasNoCrlf-empty}
use high_performance_http_se.Http.Text.Find.{Lacks, HasNoCrlf-cons}
use high_performance_http_se.Http.Text.Trim.{Spaceless, trim-eq_self}
use high_performance_http_se.Http.Number.{
  ℤ, negsuc, atoi, to_uint16, to_size, pos, is_digit, read_digits, long_max, strtol, decimal_onto,
  decimal, to_int, to_long,
}

digit_bounds : (n : ℕ) → is_digit (48 + n % 10) ≡ true
digit_bounds n = let low : n % 10 < 10 = omega arith in ground arith

read_digits-cons :
    (acc n : ℕ) (rest : Bytes)
    → read_digits acc ((48 + n % 10) ∷ rest) ≡ read_digits (acc * 10 + n % 10) rest
unfolding read_digits
read_digits-cons acc n rest = rw (digit_bounds n) (ap (λ k. read_digits k rest) (omega arith))

read_digits-decimal_onto :
    (fuel n : ℕ) (rest : Bytes)
    → n < fuel
    → read_digits 0 (decimal_onto fuel n rest) ≡ read_digits n rest
unfolding decimal_onto
read_digits-decimal_onto zero n rest h = absurd (omega arith)
read_digits-decimal_onto (suc fuel) n rest h = elim (Bool-cases (ltb n 10)) [
  | inl low ↦ rw low (read_digits-cons 0 n rest ∙ ap (λ k. read_digits k rest) (ground arith))
  | inr high ↦ rw high (
      read_digits-decimal_onto fuel (n / 10) ((48 + n % 10) ∷ rest) (ground arith)
      ∙ read_digits-cons (n / 10) n rest
      ∙ ap (λ k. read_digits k rest) (omega arith))
]

-- The first byte of a printed number is a digit.
pub record Leads (s : Bytes) : Type 0 where
  pub first : ℕ
  pub others : Bytes
  pub splits : s ≡ first ∷ others
  pub digit : is_digit first ≡ true

decimal_onto-Leads : (fuel n : ℕ) (rest : Bytes) → n < fuel → Leads (decimal_onto fuel n rest)
unfolding decimal_onto
decimal_onto-Leads zero n rest h = absurd (omega arith)
decimal_onto-Leads (suc fuel) n rest h = elim (Bool-cases (ltb n 10)) [
  | inl low ↦
      rw low (record { first = 48 + n % 10; others = rest; splits = refl; digit = digit_bounds n })
  | inr high ↦ rw high (decimal_onto-Leads fuel (n / 10) ((48 + n % 10) ∷ rest) (ground arith))
]

pub decimal-Leads : (n : ℕ) → Leads (decimal n)
unfolding decimal
decimal-Leads n = decimal_onto-Leads (n + 1) n [] (omega arith)

read_digits-decimal : (n : ℕ) → read_digits 0 (decimal n) ≡ n
unfolding decimal
read_digits-decimal n =
    read_digits-decimal_onto (n + 1) n [] (omega arith) ∙ unfold read_digits in refl

strtol-digits :
    (c : ℕ) (s : Bytes)
    → is_digit c ≡ true
    → strtol (c ∷ s) ≡ some (to_long false (read_digits 0 (c ∷ s)))
unfolding strtol is_space
strtol-digits c s h = ground arith

pub strtol-decimal : (n : ℕ) → n ≤ long_max → strtol (decimal n) ≡ some (pos n)
strtol-decimal n h =
    let d = decimal-Leads n in
    ap strtol d.splits
    ∙ strtol-digits d.first d.others d.digit
    ∙ ap (λ k. some (to_long false k)) (ap (read_digits 0) (sym d.splits) ∙ read_digits-decimal n)
    ∙ ap (λ k. some (pos k)) (rw (ltb-of-le long_max n h))

pub to_int-pos : (n : ℕ) → n < 2 ^ 31 → to_int (pos n) ≡ pos n
unfolding to_int
to_int-pos n h = ground arith

-- The text has no byte but digits.
abbrev pub AllDigits : Bytes → Type 0
AllDigits [] = Unit {0}
AllDigits (c ∷ s) = (is_digit c ≡ true) × AllDigits s

decimal_onto-AllDigits :
    (fuel n : ℕ) (rest : Bytes) → AllDigits rest → AllDigits (decimal_onto fuel n rest)
unfolding decimal_onto
decimal_onto-AllDigits zero n rest h = h
decimal_onto-AllDigits (suc fuel) n rest h = elim (Bool-cases (ltb n 10)) [
  | inl low ↦ rw low (digit_bounds n, h)
  | inr high ↦
      rw high (decimal_onto-AllDigits fuel (n / 10) ((48 + n % 10) ∷ rest) (digit_bounds n, h))
]

pub decimal-AllDigits : (n : ℕ) → AllDigits (decimal n)
unfolding decimal
decimal-AllDigits n = decimal_onto-AllDigits (n + 1) n [] tt

pub AllDigits-Lacks : (s : Bytes) → AllDigits s → Lacks b' ' s
unfolding find_byte
AllDigits-Lacks [] h = refl
AllDigits-Lacks (c ∷ s) h = ground (arith, AllDigits-Lacks s h.1)

pub AllDigits-HasNoCrlf : (s : Bytes) → AllDigits s → HasNoCrlf s
AllDigits-HasNoCrlf [] h = HasNoCrlf-empty
AllDigits-HasNoCrlf (c ∷ s) h = HasNoCrlf-cons c s (ground arith) (AllDigits-HasNoCrlf s h.1)

pub AllDigits-trim : (s : Bytes) → AllDigits s → trim s ≡ s
AllDigits-trim s h = trim-eq_self s (spaceless s h)
  where
    spaceless : (s : Bytes) → AllDigits s → Spaceless s
    spaceless [] h = tt
    spaceless (c ∷ s) h = (unfold is_space in ground arith, spaceless s h.1)

pub atoi-decimal : (n : ℕ) → n < 2 ^ 31 → atoi (decimal n) ≡ pos n
unfolding atoi
atoi-decimal n h = rw (strtol-decimal n (omega arith)) (to_int-pos n h)

pub to_uint16-pos : (n : ℕ) → n < 2 ^ 16 → to_uint16 (pos n) ≡ n
unfolding to_uint16
to_uint16-pos n h = omega arith

pub to_uint16-lt : (n : ℤ) → to_uint16 n < 2 ^ 16
unfolding to_uint16
to_uint16-lt (pos n) = omega arith
to_uint16-lt (negsuc n) = omega arith

pub to_size-lt : (n : ℤ) → to_size n < 2 ^ 64
unfolding to_size
to_size-lt (pos n) = omega arith
to_size-lt (negsuc n) = omega arith
