-- ===== src/Seccomp/Filter.antt =====
-- `buildSeccompProgram`, `stmt` and `jump`. A uintptr is 64 bits wide.
use Prim.Native.Nat.{bit_or}
use go_systems_lab.Prelude.{ℕ, ◌%◌, ◌^◌, List, [], ◌∷◌, ◌++◌, length}

abbrev pub seccomp_ret_kill_process : ℕ
seccomp_ret_kill_process = 0x80000000

abbrev pub seccomp_ret_allow : ℕ
seccomp_ret_allow = 0x7fff0000

abbrev pub audit_arch_x8664 : ℕ
audit_arch_x8664 = 0xc000003e

abbrev bpf_ld : ℕ
bpf_ld = 0x00

abbrev bpf_w : ℕ
bpf_w = 0x00

abbrev bpf_abs : ℕ
bpf_abs = 0x20

abbrev bpf_jmp : ℕ
bpf_jmp = 0x05

abbrev bpf_jeq : ℕ
bpf_jeq = 0x10

abbrev bpf_k : ℕ
bpf_k = 0x00

abbrev bpf_ret : ℕ
bpf_ret = 0x06

abbrev seccomp_data_nr_offset : ℕ
seccomp_data_nr_offset = 0

abbrev seccomp_data_arch_offset : ℕ
seccomp_data_arch_offset = 4

-- `syscall.SockFilter`.
pub record SockFilter : Type 0 where
  pub code : ℕ
  pub jt : ℕ
  pub jf : ℕ
  pub k : ℕ

-- `syscall.SockFprog`, the slice behind its pointer to the first instruction written out.
pub record SockFprog : Type 0 where
  pub len : ℕ
  pub filter : List SockFilter

unfoldable pub stmt : ℕ → ℕ → SockFilter
stmt code k = record { code = code; jt = 0; jf = 0; k = k }

unfoldable pub jump : ℕ → ℕ → ℕ → ℕ → SockFilter
jump code k jt jf = record { code = code; jt = jt; jf = jf; k = k }

-- The system calls that the sandbox allows on x86-64: read, write, close, exit, exit_group and
-- rt_sigreturn.
abbrev pub allowed_syscalls : List ℕ
allowed_syscalls = 0 ∷ 1 ∷ 3 ∷ 60 ∷ 231 ∷ 15 ∷ []

-- The loop over the allowed numbers, as what it appends.
unfoldable pub allow_each : List ℕ → List SockFilter
unfolding stmt jump
allow_each [] = []
allow_each (nr ∷ allowed) =
    jump (bit_or (bit_or bpf_jmp bpf_jeq) bpf_k) (nr % 2 ^ 32) 0 1
    ∷ stmt (bit_or bpf_ret bpf_k) seccomp_ret_allow
    ∷ allow_each allowed

unfoldable pub build_filters : List ℕ → List SockFilter
unfolding stmt jump
build_filters allowed =
    stmt (bit_or (bit_or bpf_ld bpf_w) bpf_abs) seccomp_data_arch_offset
    ∷ jump (bit_or (bit_or bpf_jmp bpf_jeq) bpf_k) audit_arch_x8664 1 0
    ∷ stmt (bit_or bpf_ret bpf_k) seccomp_ret_kill_process
    ∷ stmt (bit_or (bit_or bpf_ld bpf_w) bpf_abs) seccomp_data_nr_offset
    ∷ (allow_each allowed ++ (stmt (bit_or bpf_ret bpf_k) seccomp_ret_kill_process ∷ []))

unfoldable pub build_seccomp_program : List ℕ → SockFprog
unfolding build_filters
build_seccomp_program allowed =
    let filters = build_filters allowed in
    record { len = length filters % 2 ^ 16; filter = filters }
