-- ===== src/Seccomp/Machine.antt =====
-- The part of the kernel's classic BPF machine that a seccomp filter meets, as an independent
-- description of what a program decides: words of `struct seccomp_data` are loaded, compared with a
-- constant, and an action is returned. A program that leaves this part decides nothing.
use go_systems_lab.Prelude.{
  ℕ, zero, suc, List, [], ◌∷◌, ◌==◌, if◌then◌else◌, Option, none, some, take, drop,
}
use go_systems_lab.Seccomp.Filter.{SockFilter, SockFprog}

-- The system call that a thread makes.
pub record SeccompData : Type 0 where
  pub nr : ℕ
  pub arch : ℕ

-- The 32-bit word at an offset.
abbrev load_word : SeccompData → ℕ → Option ℕ
load_word call k = if k == 0 then some call.nr else if k == 4 then some call.arch else none

-- Jumps go forward, so a program of n instructions takes n steps at most.
unfoldable pub execute : ℕ → SeccompData → List SockFilter → ℕ → Option ℕ
execute zero call instructions acc = none
execute (suc steps) call [] acc = none
execute (suc steps) call (i ∷ rest) acc =
    let load : Option ℕ = elim (load_word call i.k) [
      | none ↦ none
      | some w ↦ execute steps call rest w
    ] in
    let branch : Option ℕ =
      execute steps call (drop (if acc == i.k then i.jt else i.jf) rest) acc in
    if i.code == 0x20
    then load
    else if i.code == 0x15
    then branch
    else if i.code == 0x06
    then some i.k
    else none

-- The kernel reads as many instructions as the length field says.
unfoldable pub decide_call : SockFprog → SeccompData → Option ℕ
decide_call prog call = execute prog.len call (take prog.len prog.filter) 0
