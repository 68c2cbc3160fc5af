-- ===== src/Ebpf/Probes.antt =====
-- The probes, the listing of the interfaces, and `main`. The file system, the search path and the interfaces of
-- the system are parameters; a width of `fmt.Printf` counts bytes, which are its characters in ASCII.
use go_systems_lab.Prelude.{
  ℕ, ◌-◌, List, [], ◌∷◌, ◌++◌, map, Bool, true, false, ◌==◌, ◌&&◌, ◌||◌, ltb, if◌then◌else◌, Option,
  none, some, Result, ok, err, panic, length, replicate,
}
use go_systems_lab.Bytes.{Bytes, codes, equal, has_prefix}
use go_systems_lab.Text.FilePath.{join}
use go_systems_lab.Text.Space.{trim_space}
use go_systems_lab.Text.Number.{format_uint}
use go_systems_lab.Ebpf.Interfaces.{
  InterfaceError, not_listed, not_one_name, Interface, InterfaceStatus, status_from_interface,
  get_interface_status, run_commands,
}

-- `os.FileInfo`, as far as it is used.
pub record FileInfo : Type 0 where
  pub is_dir : Bool
  pub size : ℕ

-- `os.Stat`, `os.ReadFile`, `exec.LookPath`, `net.Interfaces` and `net.InterfaceByName`.
pub record System : Type 0 where
  pub stat : Bytes → Option FileInfo
  pub read_file : Bytes → Option Bytes
  pub look_path : Bytes → Option Bytes
  pub interfaces : Option (List Interface)
  pub by_name : Bytes → Option Interface

-- `probeResult`
pub record ProbeResult : Type 0 where
  pub name : Bytes
  pub status : Bytes
  pub detail : Bytes

abbrev pub exists : System → Bytes → Bool
exists system path = elim (system.stat path) [ none ↦ false | some info ↦ true ]

-- `filepath.IsAbs`
abbrev pub is_abs : Bytes → Bool
is_abs path = has_prefix path (codes "/")

abbrev pub from_package_dir : Bytes → Bytes
from_package_dir path = join (codes ".." ∷ codes ".." ∷ path ∷ [])

unfoldable pub resolve_probe_path : System → Bytes → Option Bytes
resolve_probe_path system path =
    if exists system path
    then some path
    else if is_abs path
    then none
    else if exists system (from_package_dir path)
    then some (from_package_dir path)
    else none

abbrev pub trimmed : Option Bytes → Option Bytes
trimmed none = none
trimmed (some content) = some (trim_space content)

abbrev pub small_content : Option FileInfo → Option Bytes → Option Bytes
small_content none content = none
small_content (some info) content =
    if info.is_dir || ltb 4096 info.size then some [] else trimmed content

-- `none` for an error.
unfoldable pub read_small_file : System → Bytes → Option Bytes
read_small_file system path = small_content (system.stat path) (system.read_file path)

abbrev pub detail_of : Bytes → Option Bytes → Bytes
detail_of resolved none = resolved
detail_of resolved (some []) = resolved
detail_of resolved (some (b ∷ value)) = resolved ++ (codes "=" ++ (b ∷ value))

unfoldable pub check_path : System → Bytes → Bytes → ProbeResult
unfolding read_small_file resolve_probe_path
check_path system name path = elim (resolve_probe_path system path) [
  | none ↦ record { name = name; status = codes "missing"; detail = path }
  | some resolved ↦ record {
    name = name;
    status = codes "ok";
    detail = detail_of resolved (read_small_file system resolved);
  }
]

unfoldable pub check_command : System → Bytes → Bytes → ProbeResult
check_command system name command = elim (system.look_path command) [
  | none ↦ record { name = name; status = codes "missing"; detail = command }
  | some path ↦ record { name = name; status = codes "ok"; detail = path }
]

unfoldable pub collect_probe_results : System → List ProbeResult
unfolding check_path check_command
collect_probe_results system =
    check_path system (codes "bpffs mount path") (codes "/sys/fs/bpf")
    ∷ check_path system (codes "BPF syscall sysctl")
        (codes "/proc/sys/kernel/unprivileged_bpf_disabled")
    ∷ check_path system (codes "BPF JIT sysctl") (codes "/proc/sys/net/core/bpf_jit_enable")
    ∷ check_command system (codes "clang compiler") (codes "clang")
    ∷ check_command system (codes "bpftool") (codes "bpftool")
    ∷ check_command system (codes "iproute2 ip") (codes "ip")
    ∷ check_path system (codes "XDP source") (codes "labs/11-ebpf-xdp/bpf/xdp_pass.c")
    ∷ []

-- `%-ws`
unfoldable pub padded : ℕ → Bytes → Bytes
padded w s = s ++ replicate (w - length s) b' '

unfoldable pub probe_line : ProbeResult → Bytes
unfolding padded
probe_line r = padded 32 r.name ++ (codes " " ++ (padded 8 r.status ++ (codes " " ++ r.detail)))

-- `<` on strings.
unfoldable pub less : Bytes → Bytes → Bool
less _ [] = false
less [] (y ∷ ys) = true
less (x ∷ xs) (y ∷ ys) = ltb x y || (x == y && less xs ys)

unfoldable pub less_name : InterfaceStatus → InterfaceStatus → Bool
less_name a b = less a.name b.name

-- `sort.Slice`, on statuses.
abbrev pub Sort : Type 0
Sort = (InterfaceStatus → InterfaceStatus → Bool) → List InterfaceStatus → List InterfaceStatus

unfoldable pub collect_interface_statuses :
    Sort → System → Result InterfaceError (List InterfaceStatus)
unfolding less_name
collect_interface_statuses sort system = elim system.interfaces [
  | none ↦ err not_listed
  | some interfaces ↦ ok (sort less_name (map (status_from_interface system.read_file) interfaces))
]

abbrev pub hardware_or_dash : Bytes → Bytes
hardware_or_dash [] = codes "-"
hardware_or_dash (b ∷ hardware) = b ∷ hardware

-- `printInterfaceStatus`
unfoldable pub status_line : InterfaceStatus → Bytes
unfolding padded
status_line s =
    padded 16 s.name
    ++ (codes " index="
        ++ (padded 4 (format_uint 10 s.index)
            ++ (codes " state="
                ++ (padded 10 s.oper_state
                    ++ (codes " flags="
                        ++ (padded 18 s.flags
                            ++ (codes " mac=" ++ hardware_or_dash s.hardware)))))))

-- The lines that a command prints on standard output.
abbrev pub Command : Type 0
Command = Result InterfaceError (List Bytes)

unfoldable pub run_probe : System → Command
unfolding collect_probe_results probe_line
run_probe system = ok (map probe_line (collect_probe_results system))

unfoldable pub run_interfaces : Sort → System → Command
unfolding collect_interface_statuses status_line
run_interfaces sort system = elim (collect_interface_statuses sort system) [
  | ok statuses ↦ ok (map status_line statuses)
  | err e ↦ err e
  | panic ↦ panic
]

unfoldable pub run_status : System → List Bytes → Command
unfolding status_line
run_status system (name ∷ []) = elim (get_interface_status system.read_file system.by_name name) [
  | ok status ↦ ok (status_line status ∷ [])
  | err e ↦ err e
  | panic ↦ panic
]
run_status system _ = err not_one_name

-- The exit status behind the lines; the texts of errors and of the usage are left out.
abbrev pub exit_of : Command → List Bytes × ℕ
exit_of (ok lines) = (lines, 0)
exit_of (err e) = ([], 1)
exit_of panic = ([], 2)

unfoldable pub main_process : Sort → System → List Bytes → List Bytes × ℕ
unfolding run_probe run_interfaces run_status
main_process sort system [] = ([], 1)
main_process sort system (name ∷ args) =
    if equal name (codes "probe")
    then exit_of (run_probe system)
    else if equal name (codes "interfaces")
    then exit_of (run_interfaces sort system)
    else if equal name (codes "status")
    then exit_of (run_status system args)
    else if equal name (codes "commands")
    then exit_of (run_commands args)
    else ([], 1)
