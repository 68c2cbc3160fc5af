-- ===== src/Workflow/Jobs.antt =====
-- `watchJobs`: which jobs are started, over what the reads of the inotify descriptor find.
use go_systems_lab.Prelude.{
  ℕ, zero, suc, ◌+◌, ◌-◌, List, [], ◌∷◌, ◌++◌, Bool, ltb, if◌then◌else◌, Result, ok, err, panic,
  ◌>>=◌,
}
use go_systems_lab.Bytes.{Bytes, codes, slice, has_prefix}
use go_systems_lab.Text.Split.{trim_right}
use go_systems_lab.Text.FilePath.{join}
use go_systems_lab.Inotify.Layout.{sizeof_inotify_event, event_at}
use go_systems_lab.Inotify.Events.{Stuck, out_of_rounds}

abbrev pub jobs_dir : Bytes
jobs_dir = codes "labs/06-workflow/jobs"

-- The jobs that a name starts: none for a hidden file.
unfoldable pub triggered : Bytes → List Bytes
triggered name = if has_prefix name (codes ".") then [] else join (jobs_dir ∷ name ∷ []) ∷ []

-- The name behind an event, in the array `buf`.
unfoldable pub job_name : ℕ → ℕ → Bytes → Result Stuck Bytes
job_name offset len buf = do
  bytes ← slice (offset + sizeof_inotify_event) (offset + sizeof_inotify_event + len) buf
  ok (trim_right 0 bytes)

-- `if event.Len > 0`
unfoldable pub jobs_of : ℕ → ℕ → Bytes → Result Stuck (List Bytes)
unfolding job_name triggered
jobs_of offset len buf =
    if ltb 0 len then (job_name offset len buf >>= λ name. ok (triggered name)) else ok []

-- The jobs of the event at an offset and the offset behind it.
unfoldable pub job_round : Bytes → ℕ → Result Stuck (List Bytes × ℕ)
unfolding event_at jobs_of
job_round buf offset = do
  event ← event_at offset buf
  jobs ← jobs_of offset event.len buf
  ok (jobs, offset + (sizeof_inotify_event + event.len))

-- `for offset < n`, with a bound on the rounds.
unfoldable pub job_loop : ℕ → Bytes → ℕ → ℕ → List Bytes → Result Stuck (List Bytes)
job_loop zero buf n offset jobs = err out_of_rounds
job_loop (suc rounds) buf n offset jobs =
    let more : Result Stuck (List Bytes) =
      job_round buf offset >>= (λ (new, next). job_loop rounds buf n next (jobs ++ new)) in
    if ltb offset n
    then (if ltb (n - offset) sizeof_inotify_event then ok jobs else more)
    else ok jobs

unfoldable pub jobs_in : Bytes → ℕ → Result Stuck (List Bytes)
unfolding job_loop
jobs_in buf n = job_loop (suc n) buf n 0 []

-- One `syscall.Read`: an errno and whether the context is cancelled by then, or the array and how many of
-- its bytes were filled.
pub data JobRead : Type 0 where
  failed : ℕ → Bool → JobRead
  got : Bytes → ℕ → JobRead

-- How the loop ended; `watching` where the reads given are used up.
pub data WatchEnd : Type 0 where
  watching shut_down : WatchEnd
  read_failed : ℕ → WatchEnd
  stuck : Stuck → WatchEnd
  panicked : WatchEnd

abbrev pub followed : Result Stuck (List Bytes) → List Bytes × WatchEnd → List Bytes × WatchEnd
followed (ok jobs) (later, end) = (jobs ++ later, end)
followed (err e) rest = ([], stuck e)
followed panic rest = ([], panicked)

-- The paths of the jobs that are started, in order.
unfoldable pub watch_jobs : List JobRead → List Bytes × WatchEnd
watch_jobs [] = ([], watching)
watch_jobs (failed errno cancelled ∷ reads) =
    ([], if cancelled then shut_down else read_failed errno)
watch_jobs (got buf n ∷ reads) = followed (jobs_in buf n) (watch_jobs reads)
