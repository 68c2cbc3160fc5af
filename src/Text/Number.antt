-- ===== src/Text/Number.antt =====
-- strconv: `ParseUint` at 64 bits, `Atoi`, `Itoa`, and the verbs %d, %x and %b on unsigned numbers.
use go_systems_lab.Prelude.{
  ℕ, zero, suc, ◌+◌, ◌-◌, ◌*◌, ◌/◌, ◌%◌, ◌^◌, ◌≤◌, ◌<◌, ◌≡◌, refl, ap, ◌∙◌, Bool-cases, inl, inr,
  false, ◌&&◌, [], ◌∷◌, ◌++◌, ltb, leb, if◌then◌else◌, Option, none, some, arith, replicate, ◌≢◌,
}
use go_systems_lab.Prelude.Int.{ℤ, pos, negsuc}
use mathlib.Core.List.{append_assoc, append-nil}
use native.Mathlib.Nat.{div-add-mod', mod-lt, div-lt_self}
use go_systems_lab.Bytes.{Bytes, All, All-append}

-- `strconv.ErrSyntax` and `strconv.ErrRange`. A caller that drops the error goes on with the value
-- that stands beside it: 0 for a syntax error, the nearest value for one out of range.
pub data Parsed (A : Type 0) : Type 0 where
  value : A → Parsed A
  syntax : Parsed A
  range : A → Parsed A

abbrev pub max_uint64 : ℕ
max_uint64 = 2 ^ 64 - 1

-- The value of a digit in a base up to 36.
unfoldable pub digit_value : ℕ → Option ℕ
digit_value c =
    if leb b'0' c && leb c b'9'
    then some (c - b'0')
    else if leb b'a' c && leb c b'z'
    then some (c - b'a' + 10)
    else if leb b'A' c && leb c b'Z'
    then some (c - b'A' + 10)
    else none

-- The loop of `ParseUint`: `n` is the number read so far.
unfoldable pub parse_digits : ℕ → ℕ → Bytes → Parsed ℕ
parse_digits base n [] = value n
parse_digits base n (c ∷ s) = elim (digit_value c) [
  | none ↦ syntax
  | some d ↦
      let more = parse_digits base (n * base + d) s in
      if leb base d
      then syntax
      else if ltb max_uint64 (n * base + d)
      then range max_uint64
      else more
]

-- `strconv.ParseUint(s, base, 64)` at a base from 2 to 36.
unfoldable pub parse_uint : ℕ → Bytes → Parsed ℕ
parse_uint base [] = syntax
parse_uint base (c ∷ s) = parse_digits base 0 (c ∷ s)

-- `val, _ := strconv.ParseUint(…)`.
unfoldable pub value_or_zero : Parsed ℕ → ℕ
value_or_zero (value n) = n
value_or_zero syntax = 0
value_or_zero (range n) = n

unfoldable pub digit_char : ℕ → ℕ
digit_char d = if ltb d 10 then b'0' + d else b'a' + (d - 10)

-- The digits of a number; `fuel` is at least the number.
unfoldable pub digits_loop : ℕ → ℕ → ℕ → Bytes
digits_loop base zero n = digit_char n ∷ []
digits_loop base (suc fuel) n =
    let more = digits_loop base fuel (n / base) ++ (digit_char (n % base) ∷ []) in
    if ltb n base then digit_char n ∷ [] else more

-- `strconv.FormatUint(n, base)`, the verbs %d, %x and %b.
unfoldable pub format_uint : ℕ → ℕ → Bytes
unfolding digits_loop
format_uint base n = digits_loop base n n

digit_value-digit_char : (d : ℕ) → d < 36 → digit_value (digit_char d) ≡ some d
unfolding digit_value digit_char
digit_value-digit_char d h = ground arith

parse_digit :
    (base n d : ℕ) (s : Bytes)
    → d < base
    → base ≤ 36
    → n * base + d ≤ max_uint64
    → parse_digits base n (digit_char d ∷ s) ≡ parse_digits base (n * base + d) s
unfolding parse_digits
parse_digit base n d s h k fits =
    let small : leb base d ≡ false = ground arith in
    let room : ltb max_uint64 (n * base + d) ≡ false = ground arith in
    rw (digit_value-digit_char d (omega arith), parse_digits) (rw (small, room))

parse_digits-digits_loop :
    (base fuel n : ℕ) (s : Bytes)
    → 2 ≤ base
    → base ≤ 36
    → n ≤ fuel
    → n ≤ max_uint64
    → parse_digits base 0 (digits_loop base fuel n ++ s) ≡ parse_digits base n s
unfolding digits_loop
parse_digits-digits_loop base zero n s lo hi h fits =
    parse_digit base 0 n s (omega arith) hi (omega arith)
    ∙ ap (λ t. parse_digits base t s) (omega arith)
parse_digits-digits_loop base (suc fuel) n s lo hi h fits = elim (Bool-cases (ltb n base)) [
  | inl small ↦ rw small (
      parse_digit base 0 n s (ground arith) hi (omega arith)
      ∙ ap (λ t. parse_digits base t s) (omega arith))
  | inr large ↦
      let whole : n / base * base + n % base ≡ n = div-add-mod' n base in
      let digit : n % base < base = mod-lt n (omega arith) in
      let big : base ≤ n = ground arith in
      let less : n / base < n = div-lt_self (omega arith) (omega arith) in
      rw (large, append_assoc)
        (parse_digits-digits_loop base fuel (n / base) (digit_char (n % base) ∷ s) lo hi
            (omega arith) (omega arith)
          ∙ parse_digit base (n / base) (n % base) s digit hi (omega arith)
          ∙ ap (λ t. parse_digits base t s) whole)
]

digits_loop-cons : (base fuel n : ℕ) → (c : ℕ) × (s : Bytes) × (digits_loop base fuel n ≡ c ∷ s)
unfolding digits_loop
digits_loop-cons base zero n = (digit_char n, [], refl)
digits_loop-cons base (suc fuel) n = elim (Bool-cases (ltb n base)) [
  | inl small ↦ (digit_char n, [], rw small)
  | inr large ↦
      let (c, s, e) = digits_loop-cons base fuel (n / base) in
      (c, s ++ (digit_char (n % base) ∷ []), rw (large, e))
]

parse_zero :
    (base : ℕ) (s : Bytes)
    → 2 ≤ base
    → base ≤ 36
    → parse_digits base 0 (b'0' ∷ s) ≡ parse_digits base 0 s
unfolding digit_char
parse_zero base s lo hi =
    parse_digit base 0 0 s (omega arith) hi (omega arith)
    ∙ ap (λ t. parse_digits base t s) (omega arith)

parse_digits-zeros :
    (base k : ℕ) (s : Bytes)
    → 2 ≤ base
    → base ≤ 36
    → parse_digits base 0 (replicate k b'0' ++ s) ≡ parse_digits base 0 s
parse_digits-zeros base zero s lo hi = refl
parse_digits-zeros base (suc k) s lo hi =
    parse_zero base (replicate k b'0' ++ s) lo hi ∙ parse_digits-zeros base k s lo hi

parse_uint-eq-parse_digits :
    (base c : ℕ) (s t : Bytes) → t ≡ c ∷ s → parse_uint base t ≡ parse_digits base 0 t
unfolding parse_uint
parse_uint-eq-parse_digits base c s [] e = cc
parse_uint-eq-parse_digits base c s (x ∷ t) e = refl

zeros-cons :
    (k : ℕ) (t : Bytes) {c : ℕ} {s : Bytes}
    → t ≡ c ∷ s
    → (d : ℕ) × (r : Bytes) × (replicate k b'0' ++ t ≡ d ∷ r)
zeros-cons zero t {c} {s} e = (c, s, e)
zeros-cons (suc k) t e = (b'0', replicate k b'0' ++ t, refl)

-- A uint64 that is printed in a base from 2 to 36, with any number of zeros in front, is read back.
pub parse_uint-format_uint :
    (base k n : ℕ)
    → 2 ≤ base
    → base ≤ 36
    → n ≤ max_uint64
    → parse_uint base (replicate k b'0' ++ format_uint base n) ≡ value n
unfolding format_uint
parse_uint-format_uint base k n lo hi fits =
    let (c, s, e) = digits_loop-cons base n n in
    let (d, r, z) = zeros-cons k (digits_loop base n n) e in
    let run = parse_digits-digits_loop base n n [] lo hi (omega arith) fits in
    parse_uint-eq-parse_digits base d r _ z
    ∙ parse_digits-zeros base k (digits_loop base n n) lo hi
    ∙ (rw append-nil at run)
    ∙ unfold parse_digits in refl

-- What a digit of a base up to 36 looks like.
abbrev pub IsDigit : ℕ → Type 0
IsDigit c = (48 ≤ c) × (c ≤ 122) × (c ≢ 58)

digit_char-IsDigit : (d : ℕ) → d < 36 → IsDigit (digit_char d)
unfolding digit_char
digit_char-IsDigit d h = ground arith

digits_loop-IsDigit :
    (base fuel n : ℕ) → 2 ≤ base → base ≤ 36 → n ≤ fuel → All IsDigit (digits_loop base fuel n)
unfolding digits_loop
digits_loop-IsDigit base zero n lo hi h = (digit_char-IsDigit n (omega arith), tt)
digits_loop-IsDigit base (suc fuel) n lo hi h = elim (Bool-cases (ltb n base)) [
  | inl small ↦ rw small (digit_char-IsDigit n (ground arith), tt)
  | inr large ↦
      let big : base ≤ n = ground arith in
      let less : n / base < n = div-lt_self (omega arith) (omega arith) in
      rw large (
        All-append IsDigit (digits_loop base fuel (n / base)) _
          (digits_loop-IsDigit base fuel (n / base) lo hi (omega arith))
          (digit_char-IsDigit (n % base) (omega (arith, mod-lt n {m = base} (omega arith))), tt))
]

replicate-IsDigit : (k : ℕ) → All IsDigit (replicate k b'0')
replicate-IsDigit zero = tt
replicate-IsDigit (suc k) = (ground arith, replicate-IsDigit k)

-- So printed numbers hold digits only, also with zeros in front.
pub format_uint-IsDigit :
    (base k n : ℕ) → 2 ≤ base → base ≤ 36 → All IsDigit (replicate k b'0' ++ format_uint base n)
unfolding format_uint
format_uint-IsDigit base k n lo hi =
    All-append IsDigit (replicate k b'0') _ (replicate-IsDigit k)
      (digits_loop-IsDigit base n n lo hi (omega arith))

abbrev pub IsDecimal : ℕ → Type 0
IsDecimal c = (48 ≤ c) × (c ≤ 57)

digit_char-IsDecimal : (d : ℕ) → d < 10 → IsDecimal (digit_char d)
unfolding digit_char
digit_char-IsDecimal d h = ground arith

digits_loop-IsDecimal : (fuel n : ℕ) → n ≤ fuel → All IsDecimal (digits_loop 10 fuel n)
unfolding digits_loop
digits_loop-IsDecimal zero n h = (digit_char-IsDecimal n (omega arith), tt)
digits_loop-IsDecimal (suc fuel) n h = elim (Bool-cases (ltb n 10)) [
  | inl small ↦ rw small (digit_char-IsDecimal n (ground arith), tt)
  | inr large ↦
      let big : 10 ≤ n = ground arith in
      rw large (
        All-append IsDecimal (digits_loop 10 fuel (n / 10)) _
          (digits_loop-IsDecimal fuel (n / 10) (omega arith))
          (digit_char-IsDecimal (n % 10) (omega arith), tt))
]

-- A printed number starts with a decimal digit, and holds only such digits.
pub format_uint-IsDecimal :
    (n : ℕ) → (c : ℕ) × (s : Bytes) × (format_uint 10 n ≡ c ∷ s) × All IsDecimal (c ∷ s)
unfolding format_uint
format_uint-IsDecimal n =
    let (c, s, e) = digits_loop-cons 10 n n in
    let decimal : All IsDecimal (digits_loop 10 n n) = digits_loop-IsDecimal n n (omega arith) in
    (c, s, e, rw e at decimal)

-- `strconv.Itoa(z)`, the verb %d on a signed number.
unfoldable pub format_int : ℤ → Bytes
format_int (pos n) = format_uint 10 n
format_int (negsuc n) = b'-' ∷ format_uint 10 (n + 1)
