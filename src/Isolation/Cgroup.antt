-- ===== src/Isolation/Cgroup.antt =====
-- `applyCgroups`.
use go_systems_lab.Prelude.{ℕ, [], ◌∷◌, ◌++◌, List, Option, none, some, if◌then◌else◌, ok, err}
use go_systems_lab.Prelude.Prog.{Prog, ◌>>◌, done}
use go_systems_lab.Bytes.{Bytes, codes, equal}
use go_systems_lab.Text.FilePath.{join}
use go_systems_lab.Text.Number.{format_uint, format_int}
use go_systems_lab.Text.Signed.{atoi_or_nearest, times}
use go_systems_lab.ByteSize.{parse_bytes}

-- What is done to the file system, in order.
pub data Call : Type 0 where
  make_dir : Bytes → Call
  write_file : Bytes → Bytes → Call

-- The answer to a call: an errno, or none.
abbrev pub Answer : Type 0
Answer = Call → Option ℕ

-- The errors, each with the errno that it wraps.
pub data CgroupError : Type 0 where
  mkdir_failed add_pid_failed set_memory_failed set_cpu_failed : ℕ → CgroupError

-- `filepath.Join(cgroupRoot, "systems-lab")`
unfoldable pub cg_path : Bytes
cg_path = join (codes "/sys/fs/cgroup" ∷ codes "systems-lab" ∷ [])

unfoldable pub in_group : Bytes → Bytes
in_group file = join (cg_path ∷ file ∷ [])

-- One call, and the error that a failure becomes.
unfoldable pub outcome :
    Option ℕ → (ℕ → CgroupError) → Call → Prog (List Call) CgroupError (Unit {0})
outcome none failure c calls = (calls ++ (c ∷ []), ok tt)
outcome (some errno) failure c calls = (calls ++ (c ∷ []), err (failure errno))

unfoldable pub call : Answer → (ℕ → CgroupError) → Call → Prog (List Call) CgroupError (Unit {0})
unfolding outcome
call answer failure c = outcome (answer c) failure c

-- `fmt.Sprintf("%d 100000", pct*1000)`
unfoldable pub cpu_max : Bytes → Bytes
cpu_max cpu_limit = format_int (times (atoi_or_nearest cpu_limit) 1000) ++ codes " 100000"

unfoldable pub set_memory : Answer → Bytes → Prog (List Call) CgroupError (Unit {0})
set_memory answer mem_limit =
    if equal mem_limit []
    then done tt
    else call answer set_memory_failed
        (write_file (in_group (codes "memory.max")) (parse_bytes mem_limit))

unfoldable pub set_cpu : Answer → Bytes → Prog (List Call) CgroupError (Unit {0})
set_cpu answer cpu_limit =
    if equal cpu_limit []
    then done tt
    else call answer set_cpu_failed (write_file (in_group (codes "cpu.max")) (cpu_max cpu_limit))

unfoldable pub apply_cgroups : Answer → ℕ → Bytes → Bytes → Prog (List Call) CgroupError (Unit {0})
unfolding set_memory set_cpu
apply_cgroups answer pid mem_limit cpu_limit = do
  call answer mkdir_failed (make_dir cg_path)
  call answer add_pid_failed (write_file (in_group (codes "cgroup.procs")) (format_uint 10 pid))
  set_memory answer mem_limit
  set_cpu answer cpu_limit
