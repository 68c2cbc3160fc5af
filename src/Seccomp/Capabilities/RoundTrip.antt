-- ===== src/Seccomp/Capabilities/RoundTrip.antt =====
-- The kernel's rendering of the capability sets, read by `parseCapabilities`.
use go_systems_lab.Prelude.{ℕ, ◌≡◌, ◌≢◌, ◌≤◌, refl, ap, ◌∙◌, true, List, [], ◌∷◌, ◌++◌, ok, arith}
use go_systems_lab.Bytes.{Bytes, All, All-append, All-map, codes, has_prefix, has_prefix-append}
use go_systems_lab.Bytes.Dict.{insert, insert-ne-nil}
use go_systems_lab.Text.Split.{split, cut, cut-append, split-append}
use go_systems_lab.Text.Space.{trim_space, IsPlain, trim_space_tab}
use go_systems_lab.Text.Number.{
  value, parse_uint, format_uint, max_uint64, parse_uint-format_uint, format_uint-IsDigit,
}
use go_systems_lab.Seccomp.Capabilities.{
  CapabilitySet, capability_line, field, parse_lines, parse_capabilities, zero_pad, unless_empty,
}

-- A field name: "Cap" and then bytes that end neither the name nor the line.
pub record IsCapKey (key : Bytes) : Type 0 where
  pub rest : Bytes
  pub cap : key ≡ codes "Cap" ++ rest
  pub no_colon : All (λ b. b ≢ b':') key
  pub no_newline : All (λ b. b ≢ b'\n') key

abbrev pub IsField : Bytes × ℕ → Type 0
IsField (key, v) = IsCapKey key × (v ≤ max_uint64)

-- "%s:\t%016x\n", as the kernel writes a capability set.
abbrev pub render_value : ℕ → Bytes
render_value v = b'\t' ∷ zero_pad 16 (format_uint 16 v)

pub render : List (Bytes × ℕ) → Bytes
render [] = []
render ((key, v) ∷ fields) = (key ++ (b':' ∷ render_value v)) ++ (b'\n' ∷ render fields)

-- The fields in order, a later value over an earlier one of the same name.
unfoldable pub collect : CapabilitySet → List (Bytes × ℕ) → CapabilitySet
collect caps [] = caps
collect caps ((key, v) ∷ fields) = collect (insert key v caps) fields

value_line : (v : ℕ) → All IsPlain (zero_pad 16 (format_uint 16 v))
unfolding zero_pad
value_line v =
    All-map _ _ (λ c h. omega arith) _ (format_uint-IsDigit 16 _ v (omega arith) (omega arith))

render_value_newline : (v : ℕ) → All (λ b. b ≢ b'\n') (render_value v)
unfolding zero_pad
render_value_newline v = (
  ground arith,
  All-map _ _ (λ c h. omega arith) _ (format_uint-IsDigit 16 _ v (omega arith) (omega arith)),
)

read_value : (v : ℕ) → v ≤ max_uint64 → parse_uint 16 (trim_space (render_value v)) ≡ value v
unfolding zero_pad
read_value v h =
    ap (parse_uint 16) (trim_space_tab _ (value_line v))
    ∙ parse_uint-format_uint 16 _ v (omega arith) (omega arith) h

read_line :
    (key : Bytes) (v : ℕ)
    → IsField (key, v)
    → capability_line (key ++ (b':' ∷ render_value v)) ≡ field key (value v)
unfolding capability_line
read_line key v (k, h) =
    let cap : has_prefix key (codes "Cap") ≡ true =
      rw k.cap (has_prefix-append (codes "Cap") k.rest) in
    rw (cut-append b':' key (render_value v) k.no_colon, capability_line)
      (rw cap (ap (field key) (read_value v h)))

parse_lines_end : (caps : CapabilitySet) → parse_lines caps (split b'\n' []) ≡ ok caps
unfolding parse_lines split capability_line cut
parse_lines_end caps = refl

parse_lines-render :
    (fields : List (Bytes × ℕ)) (caps : CapabilitySet)
    → All IsField fields
    → parse_lines caps (split b'\n' (render fields)) ≡ ok (collect caps fields)
unfolding render collect parse_lines insert
parse_lines-render [] caps h = parse_lines_end caps
parse_lines-render ((key, v) ∷ fields) caps (h, hs) =
    let line : All (λ b. b ≢ b'\n') (key ++ (b':' ∷ render_value v)) =
      All-append _ key _ h.0.no_newline (ground arith, render_value_newline v) in
    rw (split-append b'\n' (key ++ (b':' ∷ render_value v)) (render fields) line, parse_lines)
      (rw (read_line key v h) (parse_lines-render fields (insert key v caps) hs))

collect-ne-nil :
    (fields : List (Bytes × ℕ)) (caps : CapabilitySet) → caps ≢ [] → collect caps fields ≢ []
unfolding collect
collect-ne-nil [] caps h = h
collect-ne-nil ((key, v) ∷ fields) caps h =
    collect-ne-nil fields (insert key v caps) (insert-ne-nil key v caps)

unless_empty-eq-ok : (caps : CapabilitySet) → caps ≢ [] → unless_empty caps ≡ ok caps
unless_empty-eq-ok [] h = absurd (h refl)
unless_empty-eq-ok (c ∷ caps) h = refl

-- A status text that holds one line "<key>:<tab><16 hexadecimal digits>" for each of some fields, at
-- least one, with names that begin with "Cap" and 64-bit values, is read as the map of just these
-- fields, a later one over an earlier one of the same name.
pub parse_capabilities-render :
    (key : Bytes) (v : ℕ) (fields : List (Bytes × ℕ))
    → IsField (key, v)
    → All IsField fields
    → parse_capabilities (render ((key, v) ∷ fields)) ≡ ok (collect [] ((key, v) ∷ fields))
unfolding parse_capabilities
parse_capabilities-render key v fields h hs =
    rw (parse_lines-render ((key, v) ∷ fields) [] (h, hs)) (
      unless_empty-eq-ok (collect [] ((key, v) ∷ fields))
        (unfold collect in collect-ne-nil fields (insert key v []) (insert-ne-nil key v [])))
