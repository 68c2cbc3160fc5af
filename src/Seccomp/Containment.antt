-- ===== src/Seccomp/Containment.antt =====
-- The sandbox, with the kernel's machine behind it: what code can do once the filter is installed.
use go_systems_lab.Prelude.{
  ℕ, ◌≡◌, refl, ap, ◌∙◌, Bool, true, false, Bool-cases, inl, inr, ◌==◌, List, [], ◌∷◌, ◌++◌,
  if◌then◌else◌, none, some, Result, ok, err, arith,
}
use mathlib.Core.List.{append_assoc, append-nil}
use go_systems_lab.Prelude.Prog.{Prog, ◌>>◌, done}
use go_systems_lab.Bytes.{Bytes, codes, equal}
use go_systems_lab.Seccomp.Filter.{
  build_seccomp_program, allowed_syscalls, audit_arch_x8664, seccomp_ret_allow,
  seccomp_ret_kill_process,
}
use go_systems_lab.Seccomp.Verdict.{elem, decide_call-build_seccomp_program}
use go_systems_lab.Seccomp.Sandbox.{
  Thread, Ended, exited, killed, sys_write, sys_getpid, sys_prctl, sys_exit_group, verdict,
  is_allowed, raw_syscall, PrctlFaults, install_strict_seccomp, write_stdout, exit_process,
  run_mode, run_sandbox, main_process, run_main,
}

-- Neither call of prctl fails.
abbrev pub no_faults : PrctlFaults
no_faults = record { privileges = none; seccomp = none }

-- A thread that has no filter yet.
abbrev pub fresh : Thread
fresh = record { filter = none; no_new_privs = false; performed = []; output = [] }

-- A thread with the filter of the sandbox.
abbrev pub confined : List ℕ → List Bytes → Thread
confined performed output = record {
  filter = some (build_seccomp_program allowed_syscalls);
  no_new_privs = true;
  performed = performed;
  output = output;
}

-- Code that makes these calls, whatever it does between them.
unfoldable pub make_calls : List ℕ → Prog Thread Ended (Unit {0})
make_calls [] = done tt
make_calls (nr ∷ nrs) = raw_syscall nr >> make_calls nrs

-- The calls before the first that is not on the list, and whether there is one.
unfoldable pub before_forbidden : List ℕ → List ℕ
before_forbidden [] = []
before_forbidden (nr ∷ nrs) =
    let rest = before_forbidden nrs in if elem nr allowed_syscalls then nr ∷ rest else []

unfoldable pub end_by : List ℕ → Result Ended (Unit {0})
end_by [] = ok tt
end_by (nr ∷ nrs) = let rest = end_by nrs in if elem nr allowed_syscalls then rest else err killed

allowed_iff :
    (nr : ℕ)
    → is_allowed (some (build_seccomp_program allowed_syscalls)) nr ≡ elem nr allowed_syscalls
allowed_iff nr =
    ap verdict (
      decide_call-build_seccomp_program allowed_syscalls
        (record { nr = nr; arch = audit_arch_x8664 }) (omega arith) (omega arith))
    ∙ on_list (elem nr allowed_syscalls)
  where
    on_list :
        (b : Bool)
        → ((if b then seccomp_ret_allow else seccomp_ret_kill_process) == seccomp_ret_allow) ≡ b
    on_list true = refl
    on_list false = refl

confined_call :
    (nr : ℕ) (performed : List ℕ) (output : List Bytes)
    → raw_syscall nr (confined performed output) ≡ (
        if elem nr allowed_syscalls
        then (confined (performed ++ (nr ∷ [])) output, ok tt)
        else (confined performed output, err killed))
unfolding raw_syscall
confined_call nr performed output = rw (allowed_iff nr) refl

make_calls-confined :
    (nrs performed : List ℕ) (output : List Bytes)
    → make_calls nrs (confined performed output)
      ≡ (confined (performed ++ before_forbidden nrs) output, end_by nrs)
unfolding make_calls before_forbidden end_by
make_calls-confined [] performed output = rw append-nil refl
make_calls-confined (nr ∷ nrs) performed output = elim (Bool-cases (elem nr allowed_syscalls)) [
  | inl allowed ↦
      rw (confined_call nr performed output, allowed)
        (make_calls-confined nrs (performed ++ (nr ∷ [])) output
          ∙ ap (λ l. (confined l output, end_by nrs))
              (append_assoc performed (nr ∷ []) (before_forbidden nrs)))
  | inr forbidden ↦ rw (confined_call nr performed output, forbidden, append-nil) refl
]

installed :
    install_strict_seccomp no_faults fresh ≡ (confined (sys_prctl ∷ sys_prctl ∷ []) [], ok none)
unfolding install_strict_seccomp raw_syscall
installed = refl

-- Where both calls of prctl succeed, `installStrictSeccomp` confines all code behind it: of any sequence of
-- system calls of x86-64 it makes those before the first that is not on the list, in order, and that one
-- kills the process instead of being made; without such a call all are made.
pub install_strict_seccomp-confines :
    (nrs : List ℕ)
    → (install_strict_seccomp no_faults >> make_calls nrs) fresh
      ≡ (confined (sys_prctl ∷ sys_prctl ∷ before_forbidden nrs) [], end_by nrs)
install_strict_seccomp-confines nrs =
    rw installed (make_calls-confined nrs (sys_prctl ∷ sys_prctl ∷ []) [])

write_confined :
    (msg : Bytes) (performed : List ℕ) (output : List Bytes)
    → write_stdout msg (confined performed output)
      ≡ (confined (performed ++ (sys_write ∷ [])) (output ++ (msg ∷ [])), ok tt)
unfolding write_stdout
write_confined msg performed output = rw (confined_call sys_write performed output) refl

exit_confined :
    {A : Type 0} (exit_status : ℕ) (performed : List ℕ) (output : List Bytes)
    → exit_process {A = A} exit_status (confined performed output)
      ≡ (confined (performed ++ (sys_exit_group ∷ [])) output, err (exited exit_status))
unfolding exit_process
exit_confined exit_status performed output = rw (confined_call sys_exit_group performed output) refl

getpid_confined :
    (performed : List ℕ) (output : List Bytes)
    → raw_syscall sys_getpid (confined performed output) ≡ (confined performed output, err killed)
getpid_confined performed output = confined_call sys_getpid performed output

-- What the modes of `sandbox` write and how they end.
abbrev pub mode_output : Bytes → Bytes
mode_output mode =
    if equal mode (codes "allowed")
    then codes "sandbox active: write(2) is allowed\n"
    else if equal mode (codes "breach")
    then codes "sandbox active: calling forbidden getpid(2)\n"
    else codes "unknown sandbox mode\n"

abbrev pub mode_end : Bytes → Ended
mode_end mode =
    if equal mode (codes "allowed")
    then exited 0
    else if equal mode (codes "breach")
    then killed
    else exited 1

-- In every mode the sandbox writes exactly one text; `allowed` exits with status 0, `breach` is killed at its call of
-- getpid, before its second text, and any other mode exits with status 1.
pub main_process_sandbox :
    (status : Result ℕ Bytes) (mode : Bytes) (args : List Bytes)
    → let ran = main_process no_faults status (codes "sandbox" ∷ mode ∷ args) fresh in
      (ran.0.output ≡ mode_output mode ∷ []) × (ran.1 ≡ err (mode_end mode))
unfolding main_process run_main run_sandbox run_mode equal
main_process_sandbox status mode args = elim (Bool-cases (equal mode (codes "allowed"))) [
  | inl allowed ↦
      rw (installed, allowed, write_confined, exit_confined {A = Unit {0}} 0) (refl, refl)
  | inr other ↦ elim (Bool-cases (equal mode (codes "breach"))) [
    | inl breach ↦ rw (installed, other, breach, write_confined, getpid_confined) (refl, refl)
    | inr unknown ↦
        rw (installed, other, unknown, write_confined, exit_confined {A = Unit {0}} 1) (refl, refl)
  ]
]
