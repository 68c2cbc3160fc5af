-- ===== src/Isolation/Main.antt =====
-- `main` behind the flags, for the parent and for the child that it starts.
use go_systems_lab.Prelude.{
  ℕ, ◌≡◌, refl, List, [], ◌∷◌, Bool, true, false, Option, none, some, if◌then◌else◌, Result, ok,
  err, panic,
}
use go_systems_lab.Bytes.{Bytes, codes, equal}
use go_systems_lab.Isolation.Cgroup.{Answer}
use go_systems_lab.Isolation.Process.{
  Command, run_command, child_command, usage_error, unknown_command, dispatch, ChildCall,
  set_hostname, mount_proc, unmount_proc, executed, child, ParentCall, started, run,
}

-- What a process does.
pub data Did : Type 0 where
  parent_did : List ParentCall → Did
  child_did : List ChildCall → Did
  nothing_done : Did

abbrev pub exit_status : Result ℕ (Unit {0}) → ℕ
exit_status (ok _) = 0
exit_status (err status) = status
exit_status panic = 2

-- What a process finds: the child that `cmd.Start` gave, the answers of the file system, and whether the command
-- of the child fails.
pub record Found : Type 0 where
  pub start : Option ℕ
  pub answer : Answer
  pub command_fails : Bool

unfoldable pub run_dispatched : Found → Bytes → Bytes → Command → Did × ℕ
run_dispatched f mem_limit cpu_limit (run_command args) =
    let (calls, end) = run f.start f.answer args mem_limit cpu_limit in
    (parent_did calls, exit_status end)
run_dispatched f mem_limit cpu_limit (child_command args) =
    let (calls, end) = child f.command_fails args in (child_did calls, exit_status end)
run_dispatched f mem_limit cpu_limit usage_error = (nothing_done, 1)
run_dispatched f mem_limit cpu_limit (unknown_command name) = (nothing_done, 1)

-- The limits are the values of the flags, and the arguments those behind them.
unfoldable pub main_process : Found → Bytes → Bytes → List Bytes → Did × ℕ
unfolding run_dispatched
main_process f mem_limit cpu_limit args = run_dispatched f mem_limit cpu_limit (dispatch args)

-- The arguments of the process that a parent starts first.
unfoldable pub started_args : Did → Option (List Bytes)
started_args (parent_did (started args ∷ calls)) = some args
started_args _ = none

-- `run` with a command starts this program again so that the new process, whatever its own flags are, sets its host
-- name, mounts /proc and executes just this command with these arguments, and unmounts /proc where the command
-- does not fail; the exit status of the child says whether it failed, that of the parent is 0 in either case,
-- and 1 where the child cannot be started.
pub main_process-nested :
    (f inner : Found) (mem cpu mem' cpu' name : Bytes) (args : List Bytes)
    → (started_args (main_process f mem cpu (codes "run" ∷ name ∷ args)).0
        ≡ some (codes "child" ∷ name ∷ args))
      × (main_process inner mem' cpu' (codes "child" ∷ name ∷ args) ≡ (
        child_did (
            set_hostname
            ∷ mount_proc
            ∷ executed name args
            ∷ (if inner.command_fails then [] else unmount_proc ∷ [])),
        (if inner.command_fails then 1 else 0),
      ))
      × ((main_process f mem cpu (codes "run" ∷ name ∷ args)).1
          ≡ elim f.start [ none ↦ 1 | some pid ↦ 0 ])
unfolding main_process dispatch run child equal started_args
main_process-nested f inner mem cpu mem' cpu' name args =
    (parent_starts f.start f.answer, child_runs inner.command_fails, parent_status f.start f.answer)
  where
    parent_starts :
        (start : Option ℕ) (answer : Answer)
        → started_args (parent_did (run start answer (name ∷ args) mem cpu).0)
          ≡ some (codes "child" ∷ name ∷ args)
    parent_starts none answer = refl
    parent_starts (some pid) answer = refl

    child_runs :
        (failed : Bool)
        → ◌≡◌ {A = Did × ℕ}
            (child_did (child failed (name ∷ args)).0, exit_status (child failed (name ∷ args)).1)
            (
              child_did (
                  set_hostname
                  ∷ mount_proc
                  ∷ executed name args
                  ∷ (if failed then [] else unmount_proc ∷ [])),
              (if failed then 1 else 0),
            )
    child_runs true = refl
    child_runs false = refl

    parent_status :
        (start : Option ℕ) (answer : Answer)
        → exit_status (run start answer (name ∷ args) mem cpu).1
          ≡ elim start [ none ↦ 1 | some pid ↦ 0 ]
    parent_status none answer = refl
    parent_status (some pid) answer = refl
