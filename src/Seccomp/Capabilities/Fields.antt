-- ===== src/Seccomp/Capabilities/Fields.antt =====
-- What a successful `parseCapabilities` says of any status text, and why it fails.
use go_systems_lab.Prelude.{
  ℕ, ◌≡◌, ◌⊎◌, inl, inr, refl, List, [], ◌∷◌, Option, none, some, if◌then◌else◌, ok, >>=-eq-ok,
  arith,
}
use go_systems_lab.Bytes.{Bytes, equal}
use go_systems_lab.Bytes.Dict.{lookup, insert, lookup-insert}
use go_systems_lab.Text.Split.{split}
use go_systems_lab.Text.Number.{value, syntax, range}
use go_systems_lab.Seccomp.Capabilities.{
  CapabilitySet, Line, other, field, capability_line, parse_lines, parse_capabilities, unless_empty,
}

-- The value of the last capability line of a name, `earlier` if there is none.
pub last_value : Bytes → Option ℕ → List Bytes → Option ℕ
last_value key earlier [] = earlier
last_value key earlier (line ∷ lines) = elim (capability_line line) [
  | other ↦ last_value key earlier lines
  | field k (value v) ↦ last_value key (if equal k key then some v else earlier) lines
  | field k syntax ↦ last_value key earlier lines
  | field k (range v) ↦ last_value key earlier lines
]

Line-cases :
    (l : Line)
    → (l ≡ other)
      ⊎ (((k : Bytes) × (v : ℕ) × (l ≡ field k (value v)))
          ⊎ (((k : Bytes) × (l ≡ field k syntax))
              ⊎ ((k : Bytes) × (v : ℕ) × (l ≡ field k (range v)))))
Line-cases other = inl refl
Line-cases (field k (value v)) = inr (inl (k, v, refl))
Line-cases (field k syntax) = inr (inr (inl (k, refl)))
Line-cases (field k (range v)) = inr (inr (inr (k, v, refl)))

lookup-parse_lines :
    (key : Bytes) (lines : List Bytes) (caps : CapabilitySet) {result : CapabilitySet}
    → parse_lines caps lines ≡ ok result
    → lookup key result ≡ last_value key (lookup key caps) lines
unfolding parse_lines last_value
lookup-parse_lines key [] caps e = ground arith
lookup-parse_lines key (line ∷ lines) caps e = elim (Line-cases (capability_line line)) [
  | inl q ↦ rw (q, last_value) (lookup-parse_lines key lines caps (rw (q, parse_lines) at e))
  | inr (inl (k, v, q)) ↦
      rw (q, last_value)
        (rw (← lookup-insert k key v caps)
          (lookup-parse_lines key lines (insert k v caps) (rw (q, parse_lines) at e)))
  | inr (inr (inl (k, q))) ↦ cc (rw (q, parse_lines) at e)
  | inr (inr (inr (k, v, q))) ↦ cc (rw (q, parse_lines) at e)
]

unless_empty-inversion :
    (caps : CapabilitySet) {result : CapabilitySet} → unless_empty caps ≡ ok result → caps ≡ result
unless_empty-inversion [] e = cc
unless_empty-inversion (c ∷ caps) e = cc

-- Where `parseCapabilities` succeeds on a status text, the map holds for every name the value of the
-- last capability line of that name, and nothing for a name that has none.
pub lookup-parse_capabilities :
    (key status : Bytes) {caps : CapabilitySet}
    → parse_capabilities status ≡ ok caps
    → lookup key caps ≡ last_value key none (split b'\n' status)
unfolding parse_capabilities
lookup-parse_capabilities key status e =
    let (found, p, q) = >>=-eq-ok (parse_lines [] (split b'\n' status)) unless_empty e in
    rw (← unless_empty-inversion found q)
      (unfold lookup in lookup-parse_lines key (split b'\n' status) [] p)
