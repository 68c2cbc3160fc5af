-- ===== src/Isolation/Tests.antt =====
-- A container with both limits, and the theorems on it.
use go_systems_lab.Prelude.{◌*◌, ◌^◌, ◌≡◌, refl, true, [], ◌∷◌, ◌++◌, none, some, ok, err, arith}
use go_systems_lab.Bytes.{codes, equal}
use go_systems_lab.Text.FilePath.{join}
use go_systems_lab.Text.Split.{split}
use go_systems_lab.Text.Number.{format_uint}
use go_systems_lab.Isolation.Cgroup.{
  Answer, make_dir, write_file, cg_path, in_group, apply_cgroups, add_pid_failed, call,
}
use go_systems_lab.Isolation.Limits.{perform, plan, apply_cgroups-perform, apply_cgroups_limits}
use go_systems_lab.Isolation.Main.{
  Found, child_did, main_process, started_args, main_process-nested,
}
use go_systems_lab.Isolation.Process.{set_hostname, mount_proc, executed}

group_path : in_group (codes "cpu.max") ≡ codes "/sys/fs/cgroup/systems-lab/cpu.max"
unfolding in_group cg_path join split equal
group_path = refl

-- Writing is refused.
abbrev read_only : Answer
read_only (make_dir _) = none
read_only (write_file _ _) = some 13

not_root : (apply_cgroups read_only 7 (codes "50M") [] []).1 ≡ err (add_pid_failed 13)
unfolding apply_cgroups call
not_root = refl

apply_cgroups-perform_example :
    apply_cgroups read_only 7 (codes "50M") [] [] ≡ perform read_only (plan 7 (codes "50M") [])
apply_cgroups-perform_example = apply_cgroups-perform read_only 7 (codes "50M") []

apply_cgroups_limits_example :
    apply_cgroups (λ _. none) 7 (format_uint 10 50 ++ codes "M") (format_uint 10 20) [] ≡ (
      make_dir cg_path
          ∷ write_file (in_group (codes "cgroup.procs")) (format_uint 10 7)
          ∷ write_file (in_group (codes "memory.max")) (format_uint 10 (50 * 2 ^ 20))
          ∷ write_file (in_group (codes "cpu.max")) (format_uint 10 (20 * 1000) ++ codes " 100000")
          ∷ [],
      ok tt,
    )
apply_cgroups_limits_example = apply_cgroups_limits 7 50 20 (omega arith) (omega arith)

-- The child is process 7, nothing fails but the command.
abbrev found : Found
found = record { start = some 7; answer = λ _. none; command_fails = true }

main_process-nested_example :
    (started_args (main_process found (codes "50M") [] (codes "run" ∷ codes "ls" ∷ [])).0
      ≡ some (codes "child" ∷ codes "ls" ∷ []))
    × (main_process found [] [] (codes "child" ∷ codes "ls" ∷ [])
        ≡ (child_did (set_hostname ∷ mount_proc ∷ executed (codes "ls") [] ∷ []), 1))
    × ((main_process found (codes "50M") [] (codes "run" ∷ codes "ls" ∷ [])).1 ≡ 0)
main_process-nested_example = main_process-nested found found (codes "50M") [] [] [] (codes "ls") []
