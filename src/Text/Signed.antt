-- ===== src/Text/Signed.antt =====
-- strconv on signed integers: `Atoi`, and int64 products that wrap around.
use go_systems_lab.Prelude.{
  ℕ, zero, suc, ◌-◌, ◌*◌, ◌%◌, ◌^◌, ◌≤◌, ◌<◌, ◌≡◌, ◌≢◌, refl, ◌∙◌, ◌==◌, ltb, leb, true, false, [],
  ◌∷◌, if◌then◌else◌, Option, none, some, arith,
}
use go_systems_lab.Prelude.Int.{ℤ, pos, negsuc, to_u64, of_u64}
use go_systems_lab.Bytes.{Bytes, All}
use go_systems_lab.Text.Number.{
  Parsed, value, syntax, range, parse_uint, parse_uint-format_uint, format_uint,
  format_uint-IsDigit, IsDigit, max_uint64,
}

-- -n
unfoldable pub negated : ℕ → ℤ
negated zero = pos 0
negated (suc n) = negsuc n

-- The test of the range in `ParseInt(s, 10, 0)`, for a text without and with a minus sign.
unfoldable pub as_positive : Parsed ℕ → Option ℤ
as_positive (value n) = if ltb n (2 ^ 63) then some (pos n) else none
as_positive syntax = none
as_positive (range _) = none

unfoldable pub as_negative : Parsed ℕ → Option ℤ
unfolding negated
as_negative (value n) = if leb n (2 ^ 63) then some (negated n) else none
as_negative syntax = none
as_negative (range _) = none

-- `strconv.Atoi(s)`, `none` for an error.
unfoldable pub atoi : Bytes → Option ℤ
unfolding as_positive as_negative
atoi [] = none
atoi (c ∷ s) =
    if c == b'+'
    then as_positive (parse_uint 10 s)
    else if c == b'-'
    then as_negative (parse_uint 10 s)
    else as_positive (parse_uint 10 (c ∷ s))

-- `val, _ := strconv.Atoi(s)`: 0 for a syntax error, the nearest value for one out of range.
unfoldable pub positive_or_nearest : Parsed ℕ → ℤ
positive_or_nearest (value n) = if ltb n (2 ^ 63) then pos n else pos (2 ^ 63 - 1)
positive_or_nearest syntax = pos 0
positive_or_nearest (range _) = pos (2 ^ 63 - 1)

unfoldable pub negative_or_nearest : Parsed ℕ → ℤ
unfolding negated
negative_or_nearest (value n) = if leb n (2 ^ 63) then negated n else negsuc (2 ^ 63 - 1)
negative_or_nearest syntax = pos 0
negative_or_nearest (range _) = negsuc (2 ^ 63 - 1)

unfoldable pub atoi_or_nearest : Bytes → ℤ
unfolding positive_or_nearest negative_or_nearest
atoi_or_nearest [] = pos 0
atoi_or_nearest (c ∷ s) =
    if c == b'+'
    then positive_or_nearest (parse_uint 10 s)
    else if c == b'-'
    then negative_or_nearest (parse_uint 10 s)
    else positive_or_nearest (parse_uint 10 (c ∷ s))

-- A product of an int by a constant.
unfoldable pub times : ℤ → ℕ → ℤ
times z factor = of_u64 (to_u64 z * factor % 2 ^ 64)

atoi-digits : (s : Bytes) → All IsDigit s → s ≢ [] → atoi s ≡ as_positive (parse_uint 10 s)
unfolding atoi
atoi-digits [] h k = absurd (k refl)
atoi-digits (c ∷ s) (h, hs) k = ground arith

pub format_uint-ne-nil : (n : ℕ) → n ≤ max_uint64 → format_uint 10 n ≢ []
format_uint-ne-nil n fits e =
    let read : parse_uint 10 (format_uint 10 n) ≡ value n =
      parse_uint-format_uint 10 0 n (omega arith) (omega arith) fits in
    let none_read : parse_uint 10 [] ≡ value n = rw e at read in unfold parse_uint in cc

-- A number in the range of int64 that is printed is read back.
pub atoi-format_uint : (n : ℕ) → n < 2 ^ 63 → atoi (format_uint 10 n) ≡ some (pos n)
unfolding as_positive
atoi-format_uint n h =
    let read : parse_uint 10 (format_uint 10 n) ≡ value n =
      parse_uint-format_uint 10 0 n (omega arith) (omega arith) (omega arith) in
    let small : ltb n (2 ^ 63) ≡ true = ground arith in
    atoi-digits (format_uint 10 n) (format_uint-IsDigit 10 0 n (omega arith) (omega arith))
      (format_uint-ne-nil n (omega arith))
    ∙ rw (read, as_positive) (rw small)

positive_agrees : (p : Parsed ℕ) (z : ℤ) → as_positive p ≡ some z → positive_or_nearest p ≡ z
unfolding as_positive positive_or_nearest
positive_agrees (value n) z h = ground arith
positive_agrees syntax z h = cc
positive_agrees (range _) z h = cc

negative_agrees : (p : Parsed ℕ) (z : ℤ) → as_negative p ≡ some z → negative_or_nearest p ≡ z
unfolding as_negative negative_or_nearest
negative_agrees (value n) z h = ground arith
negative_agrees syntax z h = cc
negative_agrees (range _) z h = cc

-- Without an error the value is that of `Atoi`.
pub atoi_or_nearest-atoi : (s : Bytes) (z : ℤ) → atoi s ≡ some z → atoi_or_nearest s ≡ z
unfolding atoi atoi_or_nearest
atoi_or_nearest-atoi [] z h = cc
atoi_or_nearest-atoi (c ∷ s) z h = ground (
  arith,
  positive_agrees (parse_uint 10 s) z,
  negative_agrees (parse_uint 10 s) z,
  positive_agrees (parse_uint 10 (c ∷ s)) z,
)

-- A product that fits is the product.
pub times-pos :
    (n factor : ℕ) → n * factor < 2 ^ 63 → n < 2 ^ 63 → times (pos n) factor ≡ pos (n * factor)
unfolding times to_u64 of_u64
times-pos n factor h k =
    let whole : n % 2 ^ 64 ≡ n = omega arith in
    let product : n * factor % 2 ^ 64 ≡ n * factor = omega arith in
    let small : ltb (n * factor) (2 ^ 63) ≡ true = ground arith in rw (whole, product, small)

-- A product between 2 ^ 63 and 2 ^ 64 is negative.
pub times_wraps :
    (n factor : ℕ)
    → 2 ^ 63 ≤ n * factor
    → n * factor < 2 ^ 64
    → n < 2 ^ 63
    → times (pos n) factor ≡ negsuc (2 ^ 64 - 1 - n * factor)
unfolding times to_u64 of_u64
times_wraps n factor low high k =
    let whole : n % 2 ^ 64 ≡ n = omega arith in
    let product : n * factor % 2 ^ 64 ≡ n * factor = omega arith in
    let large : ltb (n * factor) (2 ^ 63) ≡ false = ground arith in rw (whole, product, large)
