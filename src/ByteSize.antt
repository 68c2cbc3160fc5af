-- ===== src/ByteSize.antt =====
-- `parseBytes` of labs/05-resource-isolation/main.go and of labs/06-workflow/main.go, which differ in the
-- units that they know: sizes such as 50M as numbers of bytes.
mod Laws
pub mod Results
mod Tests
use go_systems_lab.Prelude.{
  ℕ, ◌-◌, ◌*◌, ◌==◌, ◌||◌, [], ◌∷◌, if◌then◌else◌, Option, none, some, length, take, drop,
}
use go_systems_lab.Prelude.Int.{ℤ}
use go_systems_lab.Bytes.{Bytes, codes}
use go_systems_lab.Text.Number.{format_int}
use go_systems_lab.Text.Signed.{atoi, times}

-- The `switch` on the unit: the factor, `none` in the default case.
unfoldable pub isolation_factor : ℕ → Option ℕ
isolation_factor u =
    if u == b'M' || u == b'm'
    then some (1024 * 1024)
    else if u == b'G' || u == b'g'
    then some (1024 * 1024 * 1024)
    else if u == b'K' || u == b'k'
    then some 1024
    else none

unfoldable pub workflow_factor : ℕ → Option ℕ
workflow_factor u =
    if u == b'M' || u == b'm'
    then some (1024 * 1024)
    else if u == b'K' || u == b'k'
    then some 1024
    else none

-- What is returned for a text whose number is `val` and whose unit has a factor.
unfoldable pub scaled : Bytes → Option ℤ → Option ℕ → Bytes
scaled s none factor = s
scaled s (some val) none = s
scaled s (some val) (some factor) = format_int (times val factor)

-- The factor of a unit that is a text of one byte.
unfoldable pub unit_factor : (ℕ → Option ℕ) → Bytes → Option ℕ
unit_factor factor (u ∷ []) = factor u
unit_factor factor _ = none

unfoldable pub parse_with : (ℕ → Option ℕ) → Bytes → Bytes
unfolding scaled unit_factor
parse_with factor [] = codes "max"
parse_with factor (b ∷ s) =
    let end = length (b ∷ s) - 1 in
    scaled (b ∷ s) (atoi (take end (b ∷ s))) (unit_factor factor (drop end (b ∷ s)))

unfoldable pub parse_bytes : Bytes → Bytes
unfolding parse_with isolation_factor
parse_bytes = parse_with isolation_factor

unfoldable pub parse_job_bytes : Bytes → Bytes
unfolding parse_with workflow_factor
parse_job_bytes = parse_with workflow_factor
