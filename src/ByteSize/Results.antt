-- ===== src/ByteSize/Results.antt =====
-- What `parseBytes` makes of sizes.
use go_systems_lab.Prelude.{
  ℕ, ◌*◌, ◌-◌, ◌^◌, ◌≤◌, ◌<◌, ◌≡◌, ◌≢◌, refl, sym, ◌∙◌, Bool, true, false, [], ◌∷◌, ◌++◌, some,
  arith,
}
use go_systems_lab.Bytes.{Bytes}
use go_systems_lab.Text.Number.{format_uint}
use go_systems_lab.ByteSize.{isolation_factor, workflow_factor, parse_bytes, parse_job_bytes}
use go_systems_lab.ByteSize.Laws.{
  parse_with-append, parse_with-format_uint, parse_with_wraps, parse_with_raw,
}

-- The units of labs/05-resource-isolation, and the letter of each, large or small.
pub data Size : Type 0 where
  kilo mega giga : Size

abbrev pub bytes_of : Size → ℕ
bytes_of kilo = 2 ^ 10
bytes_of mega = 2 ^ 20
bytes_of giga = 2 ^ 30

abbrev pub letter : Size → Bool → ℕ
letter kilo true = b'K'
letter kilo false = b'k'
letter mega true = b'M'
letter mega false = b'm'
letter giga true = b'G'
letter giga false = b'g'

factor_known :
    (size : Size) (large : Bool) → isolation_factor (letter size large) ≡ some (bytes_of size)
unfolding isolation_factor
factor_known kilo true = refl
factor_known kilo false = refl
factor_known mega true = refl
factor_known mega false = refl
factor_known giga true = refl
factor_known giga false = refl

bytes_of_pos : (size : Size) → 0 < bytes_of size
bytes_of_pos kilo = omega arith
bytes_of_pos size = omega arith

-- A number of kilobytes, megabytes or gigabytes, with a large or a small letter, is returned in bytes,
-- as long as the product is below 2 ^ 63.
pub parse_bytes_size :
    (size : Size) (large : Bool) (n : ℕ)
    → n * bytes_of size < 2 ^ 63
    → parse_bytes (format_uint 10 n ++ (letter size large ∷ []))
      ≡ format_uint 10 (n * bytes_of size)
unfolding parse_bytes
parse_bytes_size size large n fits =
    parse_with-format_uint isolation_factor n (letter size large) (bytes_of size)
      (factor_known size large) fits (bytes_of_pos size)

-- The product is not tested: where it lies from 2 ^ 63 up to 2 ^ 64, a negative number is returned.
pub parse_bytes_overflow :
    (size : Size) (large : Bool) (n : ℕ)
    → 2 ^ 63 ≤ n * bytes_of size
    → n * bytes_of size < 2 ^ 64
    → n < 2 ^ 63
    → parse_bytes (format_uint 10 n ++ (letter size large ∷ []))
      ≡ b'-' ∷ format_uint 10 (2 ^ 64 - n * bytes_of size)
unfolding parse_bytes
parse_bytes_overflow size large n low high small =
    parse_with_wraps isolation_factor n (letter size large) (bytes_of size)
      (factor_known size large) low high small

-- The two programs agree on every text that does not end in a G or a g.
pub parse_job_bytes-eq :
    (s : Bytes) (u : ℕ)
    → (u ≢ b'G')
    → (u ≢ b'g')
    → parse_job_bytes (s ++ (u ∷ [])) ≡ parse_bytes (s ++ (u ∷ []))
unfolding parse_job_bytes parse_bytes
parse_job_bytes-eq s u not_large not_small =
    let same : workflow_factor u ≡ isolation_factor u =
      unfold workflow_factor isolation_factor in ground arith in
    parse_with-append workflow_factor s u ∙ rw same (sym (parse_with-append isolation_factor s u))

-- A text that ends in G or g is left as it is by labs/06-workflow.
pub parse_job_bytes_giga :
    (s : Bytes) (large : Bool)
    → parse_job_bytes (s ++ (letter giga large ∷ [])) ≡ s ++ (letter giga large ∷ [])
unfolding parse_job_bytes
parse_job_bytes_giga s true = parse_with_raw workflow_factor s b'G' (unfold workflow_factor in refl)
parse_job_bytes_giga s false =
    parse_with_raw workflow_factor s b'g' (unfold workflow_factor in refl)
