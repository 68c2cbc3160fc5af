-- ===== src/Inotify/Setup.antt =====
-- `main` around the loop: its argument, the watch, and the exit status. The working directory and the errnos of
-- failing calls are parameters.
use Prim.Native.Nat.{bit_or}
use go_systems_lab.Prelude.{
  ℕ, List, [], ◌∷◌, if◌then◌else◌, Option, none, some, Result, ok, err, panic,
}
use go_systems_lab.Bytes.{Bytes, codes, has_prefix}
use go_systems_lab.Text.FilePath.{clean, join}
use go_systems_lab.Inotify.Mask.{
  in_access, in_modify, in_attrib, in_close_write, in_close_nowrite, in_open, in_moved_from,
  in_moved_to, in_create, in_delete,
}
use go_systems_lab.Inotify.Watch.{Read, End, read_failed, stuck, watch_loop}

-- `filepath.Abs` over `os.Getwd`, `none` for its error.
unfoldable pub abs : Option Bytes → Bytes → Option Bytes
abs wd path =
    if has_prefix path (codes "/")
    then some (clean path)
    else elim wd [ none ↦ none | some dir ↦ some (join (dir ∷ path ∷ [])) ]

-- `syscall.IN_CLOSE`
abbrev pub in_close : ℕ
in_close = bit_or in_close_write in_close_nowrite

abbrev pub watch_mask : ℕ
watch_mask =
    bit_or
      (bit_or
        (bit_or
          (bit_or
            (bit_or (bit_or (bit_or (bit_or in_create in_delete) in_modify) in_moved_from)
              in_moved_to)
            in_attrib)
          in_access)
        in_open)
      in_close

pub data SetupCall : Type 0 where
  init_inotify close_inotify : SetupCall
  add_watch : Bytes → ℕ → SetupCall

-- The calls, the lines of the events, and the exit status.
abbrev pub Ran : Type 0
Ran = List SetupCall × List Bytes × ℕ

-- A failed read ends the loop by `break`, and the process with status 0.
abbrev pub loop_status : Result End (Unit {0}) → ℕ
loop_status (ok _) = 0
loop_status (err (read_failed errno)) = 0
loop_status (err (stuck s)) = 2
loop_status panic = 2

-- Behind `syscall.InotifyInit`. A watch that cannot be added ends the process by `os.Exit`, which makes no deferred
-- call; a panic makes it.
abbrev pub watched : Bytes → Option ℕ → List Read → Ran
watched target (some errno) reads = (init_inotify ∷ add_watch target watch_mask ∷ [], [], 1)
watched target none reads =
    let (lines, end) = watch_loop target reads in
    (init_inotify ∷ add_watch target watch_mask ∷ close_inotify ∷ [], lines, loop_status end)

abbrev pub monitored : Option Bytes → Option ℕ → Option ℕ → List Read → Ran
monitored none init watch reads = ([], [], 1)
monitored (some target) (some errno) watch reads = (init_inotify ∷ [], [], 1)
monitored (some target) none watch reads = watched target watch reads

-- The arguments behind the name of the program.
unfoldable pub main_process :
    Option Bytes → Option ℕ → Option ℕ → List Read → List Bytes → List SetupCall × List Bytes × ℕ
unfolding abs
main_process wd init watch reads [] = ([], [], 1)
main_process wd init watch reads (path ∷ args) = monitored (abs wd path) init watch reads
