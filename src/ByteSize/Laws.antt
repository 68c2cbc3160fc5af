-- ===== src/ByteSize/Laws.antt =====
-- `parseBytes` for any set of units.
use go_systems_lab.Prelude.{
  ℕ, ◌+◌, ◌-◌, ◌*◌, ◌^◌, ◌≤◌, ◌<◌, ◌≡◌, refl, ◌∙◌, [], ◌∷◌, ◌++◌, Option, none, some, length,
  length-append, take-append, drop-append, arith,
}
use go_systems_lab.Bytes.{Bytes}
use go_systems_lab.Text.Number.{format_uint, format_int}
use go_systems_lab.Text.Signed.{atoi, atoi-format_uint, times-pos, times_wraps}
use go_systems_lab.ByteSize.{scaled, unit_factor, parse_with}

pub parse_with-append :
    (factor : ℕ → Option ℕ) (number : Bytes) (u : ℕ)
    → parse_with factor (number ++ (u ∷ [])) ≡ scaled (number ++ (u ∷ [])) (atoi number) (factor u)
unfolding parse_with unit_factor
parse_with-append factor [] u = refl
parse_with-append factor (b ∷ number) u =
    let end : length ((b ∷ number) ++ (u ∷ [])) - 1 ≡ length (b ∷ number) =
      omega (arith, length-append number (u ∷ [])) in
    rw (end, take-append (b ∷ number) (u ∷ []), drop-append (b ∷ number) (u ∷ []))

module _ (factor : ℕ → Option ℕ) (n u f : ℕ) (known : factor u ≡ some f) where
  pub parse_with-format_uint :
      n * f < 2 ^ 63
      → 0 < f
      → parse_with factor (format_uint 10 n ++ (u ∷ [])) ≡ format_uint 10 (n * f)
  unfolding scaled format_int
  parse_with-format_uint fits positive =
      let small : n < 2 ^ 63 = grind arith in
      parse_with-append factor (format_uint 10 n) u
      ∙ rw (atoi-format_uint n small, known, scaled, times-pos n f fits small)

  pub parse_with_wraps :
      2 ^ 63 ≤ n * f
      → n * f < 2 ^ 64
      → n < 2 ^ 63
      → parse_with factor (format_uint 10 n ++ (u ∷ [])) ≡ b'-' ∷ format_uint 10 (2 ^ 64 - n * f)
  unfolding scaled format_int
  parse_with_wraps low high small =
      let size : 2 ^ 64 - 1 - n * f + 1 ≡ 2 ^ 64 - n * f = omega arith in
      parse_with-append factor (format_uint 10 n) u
      ∙ rw (atoi-format_uint n small, known, scaled, times_wraps n f low high small, size)

-- Any text whose last byte is no unit is returned as it is.
pub parse_with_raw :
    (factor : ℕ → Option ℕ) (s : Bytes) (u : ℕ)
    → factor u ≡ none
    → parse_with factor (s ++ (u ∷ [])) ≡ s ++ (u ∷ [])
parse_with_raw factor s u unknown = parse_with-append factor s u ∙ rw unknown (raw (atoi s))
  where
    raw : (val : Option _) → scaled (s ++ (u ∷ [])) val none ≡ s ++ (u ∷ [])
    raw none = unfold scaled in refl
    raw (some val) = unfold scaled in refl
