-- ===== src/Seccomp/Reported.antt =====
-- The command `caps` on the capability sets of a process.
use go_systems_lab.Prelude.{ℕ, ◌≡◌, ◌≤◌, refl, ap, ◌∙◌, List, [], ◌∷◌, ok, err, arith}
use go_systems_lab.Bytes.{Bytes, codes, equal}
use go_systems_lab.Bytes.Dict.{lookup, insert}
use go_systems_lab.Text.Number.{max_uint64}
use go_systems_lab.Seccomp.Capabilities.{
  CapabilitySet, parse_capabilities, print_capabilities, print_keys, print_line,
}
use go_systems_lab.Seccomp.Capabilities.RoundTrip.{
  IsCapKey, render, collect, parse_capabilities-render,
}
use go_systems_lab.Seccomp.Sandbox.{
  exited, sys_exit_group, PrctlFaults, raw_syscall, exit_process, read_capabilities, run_main,
  main_process,
}
use go_systems_lab.Seccomp.Containment.{fresh}

-- The sets in the order in which the kernel names them: inheritable, permitted, effective, bounding, ambient.
abbrev pub fields_of : ℕ → ℕ → ℕ → ℕ → ℕ → List (Bytes × ℕ)
fields_of inh prm eff bnd amb =
    (codes "CapInh", inh)
    ∷ (codes "CapPrm", prm)
    ∷ (codes "CapEff", eff)
    ∷ (codes "CapBnd", bnd)
    ∷ (codes "CapAmb", amb)
    ∷ []

inh-IsCapKey : IsCapKey (codes "CapInh")
inh-IsCapKey = record {
  rest = codes "Inh";
  cap = refl;
  no_colon = omega arith;
  no_newline = omega arith;
}

prm-IsCapKey : IsCapKey (codes "CapPrm")
prm-IsCapKey = record {
  rest = codes "Prm";
  cap = refl;
  no_colon = omega arith;
  no_newline = omega arith;
}

eff-IsCapKey : IsCapKey (codes "CapEff")
eff-IsCapKey = record {
  rest = codes "Eff";
  cap = refl;
  no_colon = omega arith;
  no_newline = omega arith;
}

bnd-IsCapKey : IsCapKey (codes "CapBnd")
bnd-IsCapKey = record {
  rest = codes "Bnd";
  cap = refl;
  no_colon = omega arith;
  no_newline = omega arith;
}

amb-IsCapKey : IsCapKey (codes "CapAmb")
amb-IsCapKey = record {
  rest = codes "Amb";
  cap = refl;
  no_colon = omega arith;
  no_newline = omega arith;
}

printed_fields :
    (inh prm eff bnd amb : ℕ)
    → print_capabilities (collect [] (fields_of inh prm eff bnd amb))
      ≡ print_line (codes "CapInh") inh
        ∷ print_line (codes "CapPrm") prm
        ∷ print_line (codes "CapEff") eff
        ∷ print_line (codes "CapBnd") bnd
        ∷ print_line (codes "CapAmb") amb
        ∷ []
unfolding print_capabilities print_keys collect insert lookup equal
printed_fields inh prm eff bnd amb = refl

caps_shown :
    (faults : PrctlFaults) (status : Bytes) (args : List Bytes) (caps : CapabilitySet)
    → parse_capabilities status ≡ ok caps
    → main_process faults (ok status) (codes "caps" ∷ args) fresh ≡ (
      record fresh { performed = sys_exit_group ∷ []; output = print_capabilities caps },
      err (exited 0),
    )
unfolding main_process run_main read_capabilities exit_process raw_syscall equal
caps_shown faults status [] caps e = rw e refl
caps_shown faults status (arg ∷ args) caps e = rw e refl

-- On a status text with the five capability sets as the kernel renders them, each any 64-bit value, `caps` prints one
-- line for each set, in the order inheritable, permitted, effective, bounding, ambient, with its value in
-- hexadecimal and in binary, and exits with status 0.
pub main_process_caps :
    (faults : PrctlFaults) (args : List Bytes) (inh prm eff bnd amb : ℕ)
    → inh ≤ max_uint64
    → prm ≤ max_uint64
    → eff ≤ max_uint64
    → bnd ≤ max_uint64
    → amb ≤ max_uint64
    → main_process faults (ok (render (fields_of inh prm eff bnd amb))) (codes "caps" ∷ args) fresh
      ≡ (
        record fresh {
          performed = sys_exit_group ∷ [];
          output =
              print_line (codes "CapInh") inh
              ∷ print_line (codes "CapPrm") prm
              ∷ print_line (codes "CapEff") eff
              ∷ print_line (codes "CapBnd") bnd
              ∷ print_line (codes "CapAmb") amb
              ∷ [];
        },
        err (exited 0),
      )
main_process_caps faults args inh prm eff bnd amb i p e b a =
    let fields : List (Bytes × ℕ) = fields_of inh prm eff bnd amb in
    let read : parse_capabilities (render fields) ≡ ok (collect [] fields) =
      parse_capabilities-render (codes "CapInh") inh _ (inh-IsCapKey, i)
        ((prm-IsCapKey, p), ((eff-IsCapKey, e), ((bnd-IsCapKey, b), ((amb-IsCapKey, a), tt)))) in
    caps_shown faults (render fields) args (collect [] fields) read
    ∙ ap
        (λ lines.
          (record fresh { performed = sys_exit_group ∷ []; output = lines }, err (exited 0)))
        (printed_fields inh prm eff bnd amb)
