-- ===== src/Seccomp/Runs.antt =====
-- The sandbox and `caps` on concrete inputs.
use go_systems_lab.Prelude.{◌≡◌, ◌-◌, ◌^◌, ok, err, [], ◌∷◌, arith}
use go_systems_lab.Prelude.Prog.{◌>>◌}
use go_systems_lab.Bytes.{codes}
use go_systems_lab.Seccomp.Capabilities.{print_line}
use go_systems_lab.Seccomp.Capabilities.RoundTrip.{render}
use go_systems_lab.Seccomp.Reported.{fields_of, main_process_caps}
use go_systems_lab.Seccomp.Sandbox.{
  killed, exited, sys_prctl, sys_exit_group, install_strict_seccomp, main_process,
}
use go_systems_lab.Seccomp.Containment.{
  no_faults, fresh, confined, make_calls, before_forbidden, end_by, install_strict_seccomp-confines,
}

-- write, getpid, exit_group.
install_strict_seccomp-confines_example :
    (install_strict_seccomp no_faults >> make_calls (1 ∷ 39 ∷ 231 ∷ [])) fresh
    ≡ (confined (sys_prctl ∷ sys_prctl ∷ 1 ∷ []) [], err killed)
unfolding before_forbidden end_by
install_strict_seccomp-confines_example = install_strict_seccomp-confines (1 ∷ 39 ∷ 231 ∷ [])

main_process_caps_example :
    main_process no_faults (ok (render (fields_of 0 0 1 (2 ^ 41 - 1) 0))) (codes "caps" ∷ []) fresh
    ≡ (
      record fresh {
        performed = sys_exit_group ∷ [];
        output =
            print_line (codes "CapInh") 0
            ∷ print_line (codes "CapPrm") 0
            ∷ print_line (codes "CapEff") 1
            ∷ print_line (codes "CapBnd") (2 ^ 41 - 1)
            ∷ print_line (codes "CapAmb") 0
            ∷ [];
      },
      err (exited 0),
    )
main_process_caps_example =
    main_process_caps no_faults [] 0 0 1 (2 ^ 41 - 1) 0 (omega arith) (omega arith) (omega arith)
      (omega arith) (omega arith)
