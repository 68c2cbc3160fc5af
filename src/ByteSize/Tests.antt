-- ===== src/ByteSize/Tests.antt =====
-- The sizes of the programs' own tests, and the theorems at some of them.
use go_systems_lab.Prelude.{◌*◌, ◌-◌, ◌^◌, ◌≡◌, refl, true, [], ◌∷◌, ◌++◌, arith}
use go_systems_lab.Bytes.{codes}
use go_systems_lab.Text.Number.{
  format_uint, format_int, digit_char, parse_uint, parse_digits, digit_value,
}
use go_systems_lab.Text.Signed.{atoi, times}
use go_systems_lab.Prelude.Int.{to_u64, of_u64}
use go_systems_lab.ByteSize.{parse_bytes, parse_job_bytes, scaled}
use go_systems_lab.ByteSize.Results.{giga, bytes_of, letter, parse_bytes_overflow}

fifty : parse_bytes (codes "50M") ≡ codes "52428800"
unfolding parse_bytes atoi parse_uint parse_digits digit_value times to_u64 of_u64 scaled
    format_uint format_int digit_char
fifty = refl

giga_of_jobs : parse_job_bytes (codes "1G") ≡ codes "1G"
unfolding parse_job_bytes atoi parse_uint parse_digits digit_value times to_u64 of_u64 scaled
    format_uint format_int digit_char
giga_of_jobs = refl

below_zero : parse_bytes (codes "-1k") ≡ codes "-1024"
unfolding parse_bytes atoi parse_uint parse_digits digit_value times to_u64 of_u64 scaled
    format_uint format_int digit_char
below_zero = refl

parse_bytes_overflow_example :
    parse_bytes (format_uint 10 8589934592 ++ (letter giga true ∷ []))
    ≡ b'-' ∷ format_uint 10 (2 ^ 64 - 8589934592 * bytes_of giga)
parse_bytes_overflow_example =
    parse_bytes_overflow giga true 8589934592 (omega arith) (omega arith) (omega arith)
