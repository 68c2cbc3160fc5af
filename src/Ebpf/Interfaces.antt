-- ===== src/Ebpf/Interfaces.antt =====
-- `validateInterfaceName`, `readOperState`, the status of an interface, and the commands for one.
use go_systems_lab.Prelude.{
  ℕ, List, [], ◌∷◌, ◌++◌, Bool, false, ◌==◌, ◌||◌, if◌then◌else◌, Option, none, some, Result, ok,
  err, panic, ◌>>=◌, ◌>>◌,
}
use go_systems_lab.Bytes.{Bytes, codes, equal}
use go_systems_lab.Text.FilePath.{join}
use go_systems_lab.Text.Space.{trim_space}

pub data InterfaceError : Type 0 where
  empty_name not_one_name not_found not_listed : InterfaceError
  has_separators : Bytes → InterfaceError

-- `os.ReadFile`, without the text of its error.
abbrev pub Files : Type 0
Files = Bytes → Option Bytes

-- `strings.ContainsAny(name, "/\\")`
unfoldable pub contains_separator : Bytes → Bool
contains_separator [] = false
contains_separator (b ∷ name) = b == b'/' || b == b'\\' || contains_separator name

unfoldable pub validate_interface_name : Bytes → Result InterfaceError (Unit {0})
unfolding contains_separator
validate_interface_name name =
    if equal name []
    then err empty_name
    else if contains_separator name
    then err (has_separators name)
    else ok tt

abbrev pub sys_class_net : Bytes
sys_class_net = codes "/sys/class/net"

abbrev pub unknown : Bytes
unknown = codes "unknown"

unfoldable pub content_or_unknown : Option Bytes → Bytes
content_or_unknown none = unknown
content_or_unknown (some content) = trim_space content

abbrev if_valid : Result InterfaceError (Unit {0}) → Bytes → Bytes
if_valid (ok _) text = text
if_valid (err _) text = unknown
if_valid panic text = unknown

unfoldable pub read_oper_state : Files → Bytes → Bytes
unfolding validate_interface_name content_or_unknown
read_oper_state read name =
    if_valid (validate_interface_name name)
      (content_or_unknown (read (join (sys_class_net ∷ name ∷ codes "operstate" ∷ []))))

-- `net.Interface`, as far as it is used; `flags` and `hardware` are the texts of its fields.
pub record Interface : Type 0 where
  pub name : Bytes
  pub index : ℕ
  pub hardware : Bytes
  pub flags : Bytes

-- `interfaceStatus`
pub record InterfaceStatus : Type 0 where
  pub name : Bytes
  pub index : ℕ
  pub hardware : Bytes
  pub flags : Bytes
  pub oper_state : Bytes

unfoldable pub status_from_interface : Files → Interface → InterfaceStatus
unfolding read_oper_state
status_from_interface read i = record {
  name = i.name;
  index = i.index;
  hardware = i.hardware;
  flags = i.flags;
  oper_state = read_oper_state read i.name;
}

abbrev found : Files → Option Interface → Result InterfaceError InterfaceStatus
found read none = err not_found
found read (some i) = ok (status_from_interface read i)

-- `by_name` is `net.InterfaceByName`.
unfoldable pub get_interface_status :
    Files → (Bytes → Option Interface) → Bytes → Result InterfaceError InterfaceStatus
unfolding status_from_interface validate_interface_name
get_interface_status read by_name name = do validate_interface_name name; found read (by_name name)

unfoldable pub build_workflow_commands : Bytes → List Bytes
build_workflow_commands iface =
    codes "mkdir -p labs/11-ebpf-xdp/build"
    ∷ codes
        "clang -O2 -target bpf -c labs/11-ebpf-xdp/bpf/xdp_pass.c -o labs/11-ebpf-xdp/build/xdp_pass.o"
    ∷ codes "llvm-objdump -h labs/11-ebpf-xdp/build/xdp_pass.o"
    ∷ codes
        "sudo bpftool prog load labs/11-ebpf-xdp/build/xdp_pass.o /sys/fs/bpf/xdp_pass_lab type xdp"
    ∷ (codes "sudo bpftool net attach xdpgeneric pinned /sys/fs/bpf/xdp_pass_lab dev "
        ++ (iface ++ codes " overwrite"))
    ∷ (codes "sudo bpftool net show dev " ++ iface)
    ∷ (codes "sudo bpftool net detach xdpgeneric dev " ++ iface)
    ∷ []

unfoldable pub run_commands : List Bytes → Result InterfaceError (List Bytes)
unfolding validate_interface_name build_workflow_commands
run_commands (iface ∷ []) =
    validate_interface_name iface >>= (λ _. ok (build_workflow_commands iface))
run_commands _ = err not_one_name
