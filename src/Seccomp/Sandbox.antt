-- ===== src/Seccomp/Sandbox.antt =====
-- `installStrictSeccomp`, `runSandbox` and `main`, as programs on one thread, whose system calls the kernel
-- decides by the installed filter. Calls that Go's runtime makes on its own are left out.
use go_systems_lab.Prelude.{
  ℕ, ◌==◌, Bool, true, false, List, [], ◌∷◌, ◌++◌, if◌then◌else◌, Option, none, some, Result, ok,
  err, panic,
}
use go_systems_lab.Prelude.Prog.{Prog, ◌>>=◌, ◌>>◌, done, fail}
use go_systems_lab.Bytes.{Bytes, codes, equal}
use go_systems_lab.Seccomp.Filter.{
  SockFprog, build_seccomp_program, allowed_syscalls, audit_arch_x8664, seccomp_ret_allow,
}
use go_systems_lab.Seccomp.Machine.{decide_call}
use go_systems_lab.Seccomp.Capabilities.{
  Error, CapabilitySet, parse_capabilities, print_capabilities,
}

-- The thread: its filter, the flag of PR_SET_NO_NEW_PRIVS, the numbers of the calls that it made, and what it
-- wrote to its standard output.
pub record Thread : Type 0 where
  pub filter : Option SockFprog
  pub no_new_privs : Bool
  pub performed : List ℕ
  pub output : List Bytes

-- The end of the process: an exit status, or SIGSYS by the filter.
pub data Ended : Type 0 where
  exited : ℕ → Ended
  killed : Ended

abbrev pub sys_write : ℕ
sys_write = 1

abbrev pub sys_getpid : ℕ
sys_getpid = 39

abbrev pub sys_prctl : ℕ
sys_prctl = 157

abbrev pub sys_exit_group : ℕ
sys_exit_group = 231

-- What the kernel does with the verdict of a filter.
abbrev pub verdict : Option ℕ → Bool
verdict none = false
verdict (some action) = action == seccomp_ret_allow

abbrev pub is_allowed : Option SockFprog → ℕ → Bool
is_allowed none nr = true
is_allowed (some prog) nr = verdict (decide_call prog (record { nr = nr; arch = audit_arch_x8664 }))

-- `syscall.RawSyscall` with a number.
unfoldable pub raw_syscall : ℕ → Prog Thread Ended (Unit {0})
raw_syscall nr t =
    if is_allowed t.filter nr
    then (record t { performed = t.performed ++ (nr ∷ []) }, ok tt)
    else (t, err killed)

-- The errnos of the two calls of prctl, if they fail.
pub record PrctlFaults : Type 0 where
  pub privileges : Option ℕ
  pub seccomp : Option ℕ

abbrev pub privileges_set : Option ℕ → Prog Thread Ended (Option ℕ)
privileges_set none t = (record t { no_new_privs = true }, ok none)
privileges_set (some errno) t = (t, ok (some errno))

abbrev pub filter_set : Option ℕ → SockFprog → Prog Thread Ended (Option ℕ)
filter_set none prog t = (record t { filter = some prog }, ok none)
filter_set (some errno) prog t = (t, ok (some errno))

-- The second call of `installStrictSeccomp`, behind the first.
abbrev pub set_filter : Option ℕ → Option ℕ → Prog Thread Ended (Option ℕ)
set_filter (some errno) fault = done (some errno)
set_filter none fault = do
  raw_syscall sys_prctl
  filter_set fault (build_seccomp_program allowed_syscalls)

-- The errno that `installStrictSeccomp` returns, if it fails.
unfoldable pub install_strict_seccomp : PrctlFaults → Prog Thread Ended (Option ℕ)
install_strict_seccomp faults = do
  raw_syscall sys_prctl
  first ← privileges_set faults.privileges
  set_filter first faults.seccomp

unfoldable pub write_stdout : Bytes → Prog Thread Ended (Unit {0})
write_stdout msg = do
  raw_syscall sys_write
  λ t. (record t { output = t.output ++ (msg ∷ []) }, ok tt)

-- `os.Exit`, and the return of `main` with status 0.
unfoldable pub exit_process : {A : Type 0} → ℕ → Prog Thread Ended A
exit_process status = raw_syscall sys_exit_group >> fail (exited status)

unfoldable pub run_mode : Bytes → Prog Thread Ended (Unit {0})
unfolding write_stdout exit_process
run_mode mode =
    if equal mode (codes "allowed")
    then write_stdout (codes "sandbox active: write(2) is allowed\n")
    else if equal mode (codes "breach")
    then (do
      write_stdout (codes "sandbox active: calling forbidden getpid(2)\n")
      raw_syscall sys_getpid
      write_stdout (codes "unreachable: forbidden syscall returned\n"))
    else (do write_stdout (codes "unknown sandbox mode\n"); exit_process 1)

-- `runSandbox` behind `installStrictSeccomp`.
abbrev pub sandboxed : Bytes → Option ℕ → Prog Thread Ended (Unit {0})
sandboxed mode (some errno) = exit_process 1
sandboxed mode none = run_mode mode

unfoldable pub run_sandbox : PrctlFaults → Bytes → Prog Thread Ended (Unit {0})
unfolding install_strict_seccomp run_mode
run_sandbox faults mode = do installed ← install_strict_seccomp faults; sandboxed mode installed

-- `readCapabilities` of a file that is read, or not.
pub data ReadError : Type 0 where
  unreadable : ℕ → ReadError
  unparsed : Error → ReadError

abbrev pub parsed : Result Error CapabilitySet → Result ReadError CapabilitySet
parsed (ok caps) = ok caps
parsed (err e) = err (unparsed e)
parsed panic = panic

unfoldable pub read_capabilities : Result ℕ Bytes → Result ReadError CapabilitySet
read_capabilities (ok status) = parsed (parse_capabilities status)
read_capabilities (err errno) = err (unreadable errno)
read_capabilities panic = panic

-- The lines of `printCapabilities` on the output, or status 1.
abbrev pub show_capabilities : Result ReadError CapabilitySet → Prog Thread Ended (Unit {0})
show_capabilities (ok caps) t = (record t { output = t.output ++ print_capabilities caps }, ok tt)
show_capabilities (err e) t = exit_process 1 t
show_capabilities panic t = (t, panic)

-- The command line behind the name of the program.
unfoldable pub run_main : PrctlFaults → Result ℕ Bytes → List Bytes → Prog Thread Ended (Unit {0})
unfolding run_sandbox read_capabilities
run_main faults status [] = exit_process 1
run_main faults status (name ∷ []) =
    if equal name (codes "caps")
    then show_capabilities (read_capabilities status)
    else exit_process 1
run_main faults status (name ∷ mode ∷ args) =
    if equal name (codes "caps")
    then show_capabilities (read_capabilities status)
    else if equal name (codes "sandbox")
    then run_sandbox faults mode
    else exit_process 1

-- The process ends with status 0 where `main` returns.
unfoldable pub main_process :
    PrctlFaults → Result ℕ Bytes → List Bytes → Prog Thread Ended (Unit {0})
unfolding run_main exit_process
main_process faults status args = do run_main faults status args; exit_process 0
