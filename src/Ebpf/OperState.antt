-- ===== src/Ebpf/OperState.antt =====
-- Which file the state of an interface is read from.
use go_systems_lab.Prelude.{
  ◌≡◌, ◌≢◌, refl, [], ◌∷◌, ◌++◌, true, false, ◌||◌, Bool-cases, inl, inr, if◌then◌else◌, arith,
}
use go_systems_lab.Bytes.{Bytes, All, codes, equal, equal_iff}
use go_systems_lab.Text.FilePath.{IsName, join, rooted_path, join_slash, join-rooted_path}
use go_systems_lab.Ebpf.Interfaces.{
  Files, contains_separator, validate_interface_name, sys_class_net, unknown, content_or_unknown,
  read_oper_state,
}

no_slashes : (name : Bytes) → contains_separator name ≡ false → All (λ b. b ≢ b'/') name
unfolding contains_separator
no_slashes [] h = tt
no_slashes (b ∷ name) h = (ground arith, no_slashes name (ground arith))

oper_state_path :
    (name : Bytes)
    → IsName name
    → join (sys_class_net ∷ name ∷ codes "operstate" ∷ [])
      ≡ codes "/sys/class/net/" ++ (name ++ codes "/operstate")
oper_state_path name h =
    unfold rooted_path join_slash in
    join-rooted_path true (codes "sys") (codes "class" ∷ codes "net" ∷ [])
      (name ∷ codes "operstate" ∷ [])
      (record { no_slash = omega arith; no_end = λ e. cc; no_dot = λ e. cc; no_dot_dot = λ e. cc })
      (
        record { no_slash = omega arith; no_end = λ e. cc; no_dot = λ e. cc; no_dot_dot = λ e. cc },
        (
          record {
            no_slash = omega arith;
            no_end = λ e. cc;
            no_dot = λ e. cc;
            no_dot_dot = λ e. cc;
          },
          tt,
        ),
      )
      (
        h,
        (
          record {
            no_slash = omega arith;
            no_end = λ e. cc;
            no_dot = λ e. cc;
            no_dot_dot = λ e. cc;
          },
          tt,
        ),
      )

-- For every file system and every name but a dot and two dots: the state is unknown, whatever the files hold, for
-- an empty name and one with a slash or a backslash; for any other it is the trimmed content of
-- /sys/class/net/<name>/operstate, unknown if this file cannot be read.
pub read_oper_state_file :
    (read : Files) (name : Bytes)
    → name ≢ codes "."
    → name ≢ codes ".."
    → read_oper_state read name ≡ (
        if equal name [] || contains_separator name
        then unknown
        else content_or_unknown (read (codes "/sys/class/net/" ++ (name ++ codes "/operstate"))))
unfolding read_oper_state validate_interface_name
read_oper_state_file read name one two = elim (Bool-cases (equal name [])) [
  | inl nothing ↦ rw nothing refl
  | inr some_given ↦ elim (Bool-cases (contains_separator name)) [
    | inl separated ↦ rw (some_given, separated) refl
    | inr whole ↦
        let proper : IsName name = record {
          no_slash = no_slashes name whole;
          no_end = λ e. ground (arith, equal_iff name []);
          no_dot = one;
          no_dot_dot = two;
        } in
        rw (some_given, whole, oper_state_path name proper) refl
  ]
]
