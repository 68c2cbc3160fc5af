-- ===== src/Workflow/Setup.antt =====
-- `main` and `watchJobs` around the loop: the directories, the watch, and the closing of its descriptor.
use go_systems_lab.Prelude.{ℕ, List, [], ◌∷◌, Option, none, some}
use go_systems_lab.Bytes.{Bytes, codes}
use go_systems_lab.Workflow.Jobs.{
  jobs_dir, JobRead, WatchEnd, watching, shut_down, read_failed, stuck, panicked, watch_jobs,
}

abbrev pub cgroup_root : Bytes
cgroup_root = codes "/sys/fs/cgroup/workflow-lab"

pub data SetupCall : Type 0 where
  make_dir : Bytes → SetupCall
  init_inotify add_watch : SetupCall
  -- The deferred close, and that of the goroutine which waits for the context.
  close_deferred close_cancelled : SetupCall

-- How `watchJobs` returns.
pub data WatchOutcome : Type 0 where
  returned crashed : WatchOutcome
  watch_error : ℕ → WatchOutcome

-- A loop whose reads are used up is taken to end there.
abbrev pub outcome_of : WatchEnd → WatchOutcome
outcome_of watching = returned
outcome_of shut_down = returned
outcome_of (read_failed errno) = watch_error errno
outcome_of (stuck s) = crashed
outcome_of panicked = crashed

-- The goroutine closes the descriptor where the context is done, and the deferred call closes it in any case.
abbrev pub closes : WatchEnd → List SetupCall
closes shut_down = close_cancelled ∷ close_deferred ∷ []
closes _ = close_deferred ∷ []

-- Over the errnos of `InotifyInit` and `InotifyAddWatch`: the calls, the jobs and the outcome.
unfoldable pub watch_directory :
    Option ℕ → Option ℕ → List JobRead → List SetupCall × List Bytes × WatchOutcome
watch_directory (some errno) watch reads = (init_inotify ∷ [], [], watch_error errno)
watch_directory none (some errno) reads =
    (init_inotify ∷ add_watch ∷ close_deferred ∷ [], [], watch_error errno)
watch_directory none none reads =
    let (jobs, end) = watch_jobs reads in
    (init_inotify ∷ add_watch ∷ closes end, jobs, outcome_of end)

abbrev pub exit_status : WatchOutcome → ℕ
exit_status returned = 0
exit_status (watch_error errno) = 1
exit_status crashed = 2

-- Errors of making the directories are dropped.
unfoldable pub main_process : Option ℕ → Option ℕ → List JobRead → List SetupCall × List Bytes × ℕ
unfolding watch_directory
main_process init watch reads =
    let (calls, jobs, end) = watch_directory init watch reads in
    (make_dir jobs_dir ∷ make_dir cgroup_root ∷ calls, jobs, exit_status end)
