-- ===== src/IoUring/Main.antt =====
-- `main`: the commands by their names, and the exit status.
use go_systems_lab.Prelude.{ℕ, List, [], ◌∷◌, if◌then◌else◌, Result, ok, err, panic}
use go_systems_lab.Bytes.{Bytes, codes, equal}
use go_systems_lab.IoUring.Types.{IoUringParams}
use go_systems_lab.IoUring.Memory.{Memory}
use go_systems_lab.IoUring.Submit.{Enter}
use go_systems_lab.IoUring.Mapping.{Mmap, Event}
use go_systems_lab.IoUring.Commands.{CommandError, probe, run_nop, run_write, run_read}

-- What a run finds: the outcome of opening the file of the command, the kernel, the memory, the address of the
-- vector of a request, and what a read leaves in the buffer.
pub record Surroundings : Type 0 where
  pub file : Result CommandError ℕ
  pub setup : ℕ
  pub mmap : Mmap
  pub params : IoUringParams
  pub enter : Enter
  pub iov : ℕ
  pub memory : Memory
  pub buffer : Bytes

-- What it does with descriptors and mappings, and the exit status.
abbrev pub exit_of : {A : Type 0} → List Event × Result CommandError A → List Event × ℕ
exit_of (events, ok a) = (events, 0)
exit_of (events, err e) = (events, 1)
exit_of (events, panic) = (events, 2)

-- The arguments behind the name of the program.
unfoldable pub main_process : Surroundings → List Bytes → List Event × ℕ
main_process s [] = ([], 1)
main_process s (name ∷ args) =
    if equal name (codes "probe")
    then exit_of (probe s.setup s.params)
    else if equal name (codes "nop")
    then exit_of (run_nop s.setup s.mmap s.params s.enter s.memory)
    else if equal name (codes "write")
    then exit_of (run_write args s.file s.setup s.mmap s.params s.enter s.iov s.memory)
    else if equal name (codes "read")
    then exit_of (run_read s.buffer s.file s.setup s.mmap s.params s.enter s.iov s.memory)
    else ([], 1)
