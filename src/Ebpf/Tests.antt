-- ===== src/Ebpf/Tests.antt =====
-- The loopback interface, and the theorem on it.
use go_systems_lab.Prelude.{◌≡◌, refl, [], ◌∷◌, ◌++◌, ◌||◌, if◌then◌else◌, none, some, err, arith}
use go_systems_lab.Bytes.{codes, equal}
use go_systems_lab.Text.Split.{split}
use go_systems_lab.Text.Space.{trim_space, space_width}
use go_systems_lab.Text.FilePath.{join}
use go_systems_lab.Ebpf.Interfaces.{
  Files, contains_separator, content_or_unknown, read_oper_state, unknown, run_commands,
  has_separators, not_one_name,
}
use go_systems_lab.Ebpf.OperState.{read_oper_state_file}

-- The state of lo, and a file above the interfaces.
abbrev files : Files
files path =
    if equal path (codes "/sys/class/net/lo/operstate")
    then some (codes "unknown\n")
    else if equal path (codes "/sys/class/operstate")
    then some (codes "outside\n")
    else none

-- Two dots pass the test of the name.
outside : read_oper_state files (codes "..") ≡ codes "outside"
unfolding read_oper_state join split equal trim_space space_width
outside = refl

separated : run_commands (codes "a/b" ∷ []) ≡ err (has_separators (codes "a/b"))
unfolding run_commands equal
separated = refl

no_name : run_commands [] ≡ err not_one_name
unfolding run_commands
no_name = refl

read_oper_state_file_example : read_oper_state files (codes "lo") ≡ (
    if equal (codes "lo") [] || contains_separator (codes "lo")
    then unknown
    else content_or_unknown (files (codes "/sys/class/net/" ++ (codes "lo" ++ codes "/operstate"))))
read_oper_state_file_example = read_oper_state_file files (codes "lo") (λ e. cc) (λ e. ground arith)
