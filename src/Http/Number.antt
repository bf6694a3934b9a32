-- ===== src/Http/Number.antt =====
-- std::strtol, std::to_string and the integer casts, as the parsers and the options use them.
pub mod Decimal
use high_performance_http_se.Common.{
  ℕ, zero, suc, ◌+◌, ◌-◌, ◌*◌, ◌/◌, ◌%◌, ◌^◌, Bool, true, false, ◌&&◌, ◌||◌, List, [], ◌∷◌, ◌++◌,
  Option, none, some, Bytes, ◌==◌, leb, ltb, if◌then◌else◌,
}
use high_performance_http_se.Http.Text.{skip_spaces}

-- `negsuc n` is -(n + 1).
pub data ℤ : Type 0 where
  pos : ℕ → ℤ
  negsuc : ℕ → ℤ

abbrev pub negate : ℕ → ℤ
negate zero = pos 0
negate (suc n) = negsuc n

abbrev pub is_digit : ℕ → Bool
is_digit c = leb b'0' c && leb c b'9'

unfoldable pub read_digits : ℕ → Bytes → ℕ
read_digits acc [] = acc
read_digits acc (c ∷ s) = if is_digit c then read_digits (acc * 10 + (c - 48)) s else acc

-- `none` where there is no digit, and `end` stays at the start.
unfoldable pub read_number : Bytes → Option ℕ
unfolding read_digits
read_number [] = none
read_number (c ∷ s) = if is_digit c then some (read_digits 0 (c ∷ s)) else none

abbrev pub long_max : ℕ
long_max = 2 ^ 63 - 1

-- Out of range, strtol answers LONG_MAX or LONG_MIN.
abbrev pub to_long : Bool → ℕ → ℤ
to_long false n = pos (if ltb long_max n then long_max else n)
to_long true n = negate (if ltb (2 ^ 63) n then 2 ^ 63 else n)

abbrev pub signed : Bool → Option ℕ → Option ℤ
signed minus none = none
signed minus (some n) = some (to_long minus n)

unfoldable pub read_signed : Bytes → Option ℤ
unfolding read_number
read_signed [] = none
read_signed (c ∷ s) =
    if c == b'-'
    then signed true (read_number s)
    else if c == b'+'
    then signed false (read_number s)
    else signed false (read_number (c ∷ s))

-- Base 10, on a long of 64 bits.
unfoldable pub strtol : Bytes → Option ℤ
unfolding read_signed skip_spaces
strtol s = read_signed (skip_spaces s)

-- The 32-bit pattern `r`, read as an int.
abbrev pub int_of_bits : ℕ → ℤ
int_of_bits r = if ltb r (2 ^ 31) then pos r else negsuc (2 ^ 32 - r - 1)

-- `static_cast<int>`
unfoldable pub to_int : ℤ → ℤ
to_int (pos n) = int_of_bits (n % 2 ^ 32)
to_int (negsuc n) = int_of_bits (2 ^ 32 - 1 - n % 2 ^ 32)

-- The digits of `n` in front of `rest`. The fuel counts digits, and `n + 1` is enough.
unfoldable pub decimal_onto : ℕ → ℕ → Bytes → Bytes
decimal_onto zero n rest = rest
decimal_onto (suc fuel) n rest =
    let higher = decimal_onto fuel (n / 10) ((48 + n % 10) ∷ rest) in
    if ltb n 10 then (48 + n % 10) ∷ rest else higher

unfoldable pub decimal : ℕ → Bytes
unfolding decimal_onto
decimal n = decimal_onto (n + 1) n []

-- `std::to_string(int)`
unfoldable pub int_text : ℤ → Bytes
unfolding decimal
int_text (pos n) = decimal n
int_text (negsuc n) = b'-' ∷ decimal (n + 1)

-- `std::atoi`: 0 where there is no number.
abbrev pub int_or_zero : Option ℤ → ℤ
int_or_zero none = pos 0
int_or_zero (some n) = to_int n

unfoldable pub atoi : Bytes → ℤ
unfolding strtol to_int
atoi s = int_or_zero (strtol s)

-- `static_cast<uint16_t>`
unfoldable pub to_uint16 : ℤ → ℕ
to_uint16 (pos n) = n % 2 ^ 16
to_uint16 (negsuc n) = 2 ^ 16 - 1 - n % 2 ^ 16

-- `static_cast<size_t>`, of an int
unfoldable pub to_size : ℤ → ℕ
to_size (pos n) = n % 2 ^ 64
to_size (negsuc n) = 2 ^ 64 - 1 - n % 2 ^ 64
