-- ===== src/Isolation/Process.antt =====
-- `main`, `run` and `child`: the parent starts this program again in new namespaces, and limits it; the
-- child prepares the namespaces and runs the command.
use go_systems_lab.Prelude.{
  ℕ, ◌&&◌, [], ◌∷◌, ◌++◌, List, Bool, true, false, Option, none, some, if◌then◌else◌, Result, ok,
  err, panic,
}
use go_systems_lab.Bytes.{Bytes, codes, equal}
use go_systems_lab.Isolation.Cgroup.{Call, Answer, apply_cgroups}

-- The command line behind the flags.
pub data Command : Type 0 where
  run_command child_command : List Bytes → Command
  usage_error : Command
  unknown_command : Bytes → Command

unfoldable pub dispatch : List Bytes → Command
dispatch [] = usage_error
dispatch (name ∷ args) =
    if equal name (codes "run")
    then run_command args
    else if equal name (codes "child")
    then child_command args
    else unknown_command name

-- What the child does: `Sethostname`, `Mount` of /proc, the command, `Unmount` of /proc.
pub data ChildCall : Type 0 where
  set_hostname mount_proc unmount_proc : ChildCall
  executed : Bytes → List Bytes → ChildCall

-- The error is the exit status. The failures of `Sethostname` and `Mount` are only printed; `failed` is
-- whether the command could not be run, or itself failed.
unfoldable pub child : Bool → List Bytes → List ChildCall × Result ℕ (Unit {0})
child failed [] = (set_hostname ∷ mount_proc ∷ [], panic)
child failed (name ∷ args) =
    if failed
    then (set_hostname ∷ mount_proc ∷ executed name args ∷ [], err 1)
    else (set_hostname ∷ mount_proc ∷ executed name args ∷ unmount_proc ∷ [], ok tt)

-- What the parent does: it starts itself with some arguments, makes the calls of `applyCgroups`, and waits.
pub data ParentCall : Type 0 where
  started : List Bytes → ParentCall
  limited : List Call → ParentCall
  waited : ParentCall

-- The calls of the limits, if one is given. Their error is printed and the parent goes on.
unfoldable pub limit_calls : Answer → ℕ → Bytes → Bytes → List ParentCall
limit_calls answer pid mem_limit cpu_limit =
    if equal mem_limit [] && equal cpu_limit []
    then []
    else limited (apply_cgroups answer pid mem_limit cpu_limit []).0 ∷ []

-- `start` is the process that `cmd.Start` gave, `none` for its failure.
unfoldable pub run :
    Option ℕ → Answer → List Bytes → Bytes → Bytes → List ParentCall × Result ℕ (Unit {0})
unfolding limit_calls
run none answer args mem_limit cpu_limit = (started (codes "child" ∷ args) ∷ [], err 1)
run (some pid) answer args mem_limit cpu_limit = (
  started (codes "child" ∷ args) ∷ (limit_calls answer pid mem_limit cpu_limit ++ (waited ∷ [])),
  ok tt,
)

-- Whether /proc is mounted after some calls of the child.
unfoldable pub is_mounted : Bool → List ChildCall → Bool
is_mounted before [] = before
is_mounted before (mount_proc ∷ calls) = is_mounted true calls
is_mounted before (unmount_proc ∷ calls) = is_mounted false calls
is_mounted before (set_hostname ∷ calls) = is_mounted before calls
is_mounted before (executed _ _ ∷ calls) = is_mounted before calls

abbrev pub ended_well : {A : Type 0} → Result ℕ A → Bool
ended_well (ok _) = true
ended_well (err _) = false
ended_well panic = false
