-- ===== src/Seccomp/Capabilities.antt =====
-- `parseCapabilities` and `printCapabilities`: the capability sets of /proc/<pid>/status.
pub mod RoundTrip
pub mod Fields
use go_systems_lab.Prelude.{
  ℕ, ◌-◌, ◌≡◌, List, [], ◌∷◌, ◌++◌, Option, none, some, if◌then◌else◌, Result, ok, err, ◌>>=◌,
  replicate, length,
}
use go_systems_lab.Bytes.{Bytes, codes, has_prefix}
use go_systems_lab.Bytes.Dict.{lookup, insert}
use go_systems_lab.Text.Split.{split, cut}
use go_systems_lab.Text.Space.{trim_space}
use go_systems_lab.Text.Number.{Parsed, value, syntax, range, parse_uint, format_uint}

abbrev pub CapabilitySet : Type 0
CapabilitySet = List (Bytes × ℕ)

pub data Error : Type 0 where
  -- "parse %s: %w"
  parse : Bytes → Parsed ℕ → Error
  no_fields : Error

-- What one line adds.
pub data Line : Type 0 where
  other : Line
  field : Bytes → Parsed ℕ → Line

-- The line as `key: value`, if it is a capability field.
unfoldable pub capability_line : Bytes → Line
capability_line line = elim (cut b':' line) [
  | none ↦ other
  | some (key, text) ↦
      if has_prefix key (codes "Cap") then field key (parse_uint 16 (trim_space text)) else other
]

unfoldable pub parse_lines : CapabilitySet → List Bytes → Result Error CapabilitySet
parse_lines caps [] = ok caps
parse_lines caps (line ∷ lines) = elim (capability_line line) [
  | other ↦ parse_lines caps lines
  | field key (value v) ↦ parse_lines (insert key v caps) lines
  | field key syntax ↦ err (parse key syntax)
  | field key (range v) ↦ err (parse key (range v))
]

abbrev pub unless_empty : CapabilitySet → Result Error CapabilitySet
unless_empty [] = err no_fields
unless_empty (c ∷ caps) = ok (c ∷ caps)

unfoldable pub parse_capabilities : Bytes → Result Error CapabilitySet
parse_capabilities status = parse_lines [] (split b'\n' status) >>= unless_empty

abbrev pub printed_keys : List Bytes
printed_keys =
    codes "CapInh" ∷ codes "CapPrm" ∷ codes "CapEff" ∷ codes "CapBnd" ∷ codes "CapAmb" ∷ []

-- %0wx and %0wb: zeros on the left up to `w` digits.
unfoldable pub zero_pad : ℕ → Bytes → Bytes
zero_pad w digits = replicate (w - length digits) b'0' ++ digits

-- "%s: 0x%016x (%064b)\n"
unfoldable pub print_line : Bytes → ℕ → Bytes
print_line key v =
    key
    ++ (codes ": 0x"
        ++ (zero_pad 16 (format_uint 16 v)
            ++ (codes " (" ++ (zero_pad 64 (format_uint 2 v) ++ codes ")\n"))))

unfoldable pub print_keys : CapabilitySet → List Bytes → List Bytes
print_keys caps [] = []
print_keys caps (key ∷ keys) = elim (lookup key caps) [
  | none ↦ print_keys caps keys
  | some v ↦ print_line key v ∷ print_keys caps keys
]

-- The lines that `printCapabilities` prints.
unfoldable pub print_capabilities : CapabilitySet → List Bytes
print_capabilities caps = print_keys caps printed_keys
