-- ===== src/Workflow/Run.antt =====
-- `runJob`: the life of one job, from its control group to its end.
use go_systems_lab.Prelude.{Bool, true, false, ℕ, List, [], ◌∷◌, ◌++◌, Option, none, some}
use go_systems_lab.Bytes.{Bytes, codes}
use go_systems_lab.Text.FilePath.{join}
use go_systems_lab.Text.Number.{format_uint}
use go_systems_lab.ByteSize.{parse_job_bytes}

-- What the job does to the file system and to its process, in order.
pub data JobCall : Type 0 where
  make_dir remove_dir : Bytes → JobCall
  write_file : Bytes → Bytes → JobCall
  started : List Bytes → JobCall
  read_stats : ℕ → JobCall
  terminate_group : ℕ → JobCall

-- What a `select` of `runJob` receives: the end of its context, by the deadline or because the watcher is
-- stopped, the end of the process with its error, or a tick.
pub data Wake : Type 0 where
  deadline cancelled tick : Wake
  finished : Option ℕ → Wake

-- `filepath.Join(cgroupRoot, jobID)`
unfoldable pub job_dir : ℕ → Bytes
job_dir job_id = join (codes "/sys/fs/cgroup/workflow-lab" ∷ format_uint 10 job_id ∷ [])

unfoldable pub in_job : ℕ → Bytes → Bytes
in_job job_id file = join (job_dir job_id ∷ file ∷ [])

-- The loop on what the `select`s receive, and whether it returned.
unfoldable pub job_wakes : ℕ → List Wake → List JobCall × Bool
job_wakes pid [] = ([], false)
job_wakes pid (deadline ∷ wakes) = (terminate_group pid ∷ [], true)
job_wakes pid (cancelled ∷ wakes) = ([], true)
job_wakes pid (finished exit ∷ wakes) = ([], true)
job_wakes pid (tick ∷ wakes) =
    let (calls, returned) = job_wakes pid wakes in (read_stats pid ∷ calls, returned)

-- The deferred removal is made when the function returns.
unfoldable pub deferred : ℕ → List JobCall × Bool → List JobCall × Bool
deferred job_id (calls, false) = (calls, false)
deferred job_id (calls, true) = (calls ++ (remove_dir (job_dir job_id) ∷ []), true)

-- The job behind `cmd.Start`, whose process is `none` for its failure.
unfoldable pub started_job : ℕ → Option ℕ → List Wake → List JobCall × Bool
started_job job_id none wakes = ([], true)
started_job job_id (some pid) wakes =
    let (calls, returned) = job_wakes pid wakes in
    (write_file (in_job job_id (codes "cgroup.procs")) (format_uint 10 pid) ∷ calls, returned)

unfoldable pub prepared : ℕ → Bytes → List JobCall
prepared job_id path =
    make_dir (job_dir job_id)
    ∷ write_file (in_job job_id (codes "memory.max")) (parse_job_bytes (codes "50M"))
    ∷ started (codes "/bin/sh" ∷ path ∷ [])
    ∷ []

unfoldable pub run_job : ℕ → Bytes → Option ℕ → List Wake → List JobCall × Bool
run_job job_id path start wakes =
    let (calls, returned) = started_job job_id start wakes in
    deferred job_id (prepared job_id path ++ calls, returned)
