-- ===== src/Workflow/Ends.antt =====
-- How a job ends: its directory is removed, its process is signalled at the deadline only.
use go_systems_lab.Prelude.{
  ℕ, ◌≡◌, refl, ap, sym, ◌∙◌, not, Bool, true, false, List, [], ◌∷◌, ◌++◌, if◌then◌else◌, Option,
  none, some,
}
use mathlib.Core.List.{append-nil}
use go_systems_lab.Bytes.{Bytes, equal, equal_iff}
use go_systems_lab.Workflow.Run.{
  JobCall, make_dir, remove_dir, write_file, started, read_stats, terminate_group, Wake, deadline,
  cancelled, finished, tick, job_dir, job_wakes, deferred, started_job, prepared, run_job,
}

-- Whether a directory is there after some calls.
unfoldable pub has_dir : Bytes → Bool → List JobCall → Bool
has_dir dir before [] = before
has_dir dir before (make_dir d ∷ calls) = has_dir dir (if equal d dir then true else before) calls
has_dir dir before (remove_dir d ∷ calls) =
    has_dir dir (if equal d dir then false else before) calls
has_dir dir before (write_file _ _ ∷ calls) = has_dir dir before calls
has_dir dir before (started _ ∷ calls) = has_dir dir before calls
has_dir dir before (read_stats _ ∷ calls) = has_dir dir before calls
has_dir dir before (terminate_group _ ∷ calls) = has_dir dir before calls

-- The process groups that are sent SIGTERM.
unfoldable pub signalled : List JobCall → List ℕ
signalled [] = []
signalled (terminate_group pid ∷ calls) = pid ∷ signalled calls
signalled (make_dir _ ∷ calls) = signalled calls
signalled (remove_dir _ ∷ calls) = signalled calls
signalled (write_file _ _ ∷ calls) = signalled calls
signalled (started _ ∷ calls) = signalled calls
signalled (read_stats _ ∷ calls) = signalled calls

-- How a job with a process ends: at its first event other than a tick.
unfoldable pub first_end : List Wake → Option Wake
first_end [] = none
first_end (tick ∷ wakes) = first_end wakes
first_end (deadline ∷ wakes) = some deadline
first_end (cancelled ∷ wakes) = some cancelled
first_end (finished exit ∷ wakes) = some (finished exit)

-- A job whose process is not started has ended.
unfoldable pub has_ended : Option ℕ → List Wake → Bool
unfolding first_end
has_ended none wakes = true
has_ended (some pid) wakes = elim (first_end wakes) [ none ↦ false | some _ ↦ true ]

-- The process that is sent SIGTERM.
unfoldable pub overdue : Option ℕ → List Wake → List ℕ
unfolding first_end
overdue none wakes = []
overdue (some pid) wakes = elim (first_end wakes) [
  | none ↦ []
  | some end ↦ elim end [ deadline ↦ pid ∷ [] | cancelled ↦ [] | tick ↦ [] | finished _ ↦ [] ]
]

job_wakes-returned :
    (pid : ℕ) (wakes : List Wake) → (job_wakes pid wakes).1 ≡ has_ended (some pid) wakes
unfolding job_wakes has_ended
job_wakes-returned pid [] = refl
job_wakes-returned pid (tick ∷ wakes) = job_wakes-returned pid wakes
job_wakes-returned pid (deadline ∷ wakes) = refl
job_wakes-returned pid (cancelled ∷ wakes) = refl
job_wakes-returned pid (finished _ ∷ wakes) = refl

job_wakes-signalled :
    (pid : ℕ) (wakes : List Wake) (dir : Bytes)
    → signalled ((job_wakes pid wakes).0 ++ (remove_dir dir ∷ [])) ≡ overdue (some pid) wakes
unfolding job_wakes overdue signalled
job_wakes-signalled pid [] dir = refl
job_wakes-signalled pid (tick ∷ wakes) dir = job_wakes-signalled pid wakes dir
job_wakes-signalled pid (deadline ∷ wakes) dir = refl
job_wakes-signalled pid (cancelled ∷ wakes) dir = refl
job_wakes-signalled pid (finished _ ∷ wakes) dir = refl

job_wakes-running :
    (pid : ℕ) (wakes : List Wake)
    → (job_wakes pid wakes).1 ≡ false
    → signalled (job_wakes pid wakes).0 ≡ overdue (some pid) wakes
unfolding job_wakes overdue signalled
job_wakes-running pid [] h = refl
job_wakes-running pid (tick ∷ wakes) h = job_wakes-running pid wakes h
job_wakes-running pid (deadline ∷ wakes) h = cc
job_wakes-running pid (cancelled ∷ wakes) h = cc
job_wakes-running pid (finished _ ∷ wakes) h = cc

job_wakes-has_dir :
    (pid : ℕ) (wakes : List Wake) (dir : Bytes) (after : List JobCall) (before : Bool)
    → has_dir dir before ((job_wakes pid wakes).0 ++ after) ≡ has_dir dir before after
unfolding job_wakes has_dir
job_wakes-has_dir pid [] dir after before = refl
job_wakes-has_dir pid (tick ∷ wakes) dir after before = job_wakes-has_dir pid wakes dir after before
job_wakes-has_dir pid (deadline ∷ wakes) dir after before = refl
job_wakes-has_dir pid (cancelled ∷ wakes) dir after before = refl
job_wakes-has_dir pid (finished _ ∷ wakes) dir after before = refl

same : (dir : Bytes) → equal dir dir ≡ true
same dir = (equal_iff dir dir).1 refl

cleared : (dir : Bytes) (before : Bool) → has_dir dir before (remove_dir dir ∷ []) ≡ false
unfolding has_dir
cleared dir before = rw (same dir) refl

started_job-returned :
    (job_id : ℕ) (start : Option ℕ) (wakes : List Wake)
    → (started_job job_id start wakes).1 ≡ has_ended start wakes
unfolding started_job has_ended
started_job-returned job_id none wakes = refl
started_job-returned job_id (some pid) wakes = job_wakes-returned pid wakes

started_job-has_dir :
    (job_id : ℕ) (start : Option ℕ) (wakes : List Wake) (dir : Bytes) (after : List JobCall)
    (before : Bool)
    → has_dir dir before ((started_job job_id start wakes).0 ++ after) ≡ has_dir dir before after
unfolding started_job has_dir
started_job-has_dir job_id none wakes dir after before = refl
started_job-has_dir job_id (some pid) wakes dir after before =
    job_wakes-has_dir pid wakes dir after before

started_job-signalled :
    (job_id : ℕ) (start : Option ℕ) (wakes : List Wake)
    → (returned : Bool) → (started_job job_id start wakes).1 ≡ returned
    → signalled (deferred job_id ((started_job job_id start wakes).0, returned)).0
      ≡ overdue start wakes
unfolding started_job overdue signalled deferred
started_job-signalled job_id none wakes true h = refl
started_job-signalled job_id none wakes false h = refl
started_job-signalled job_id (some pid) wakes true h =
    job_wakes-signalled pid wakes (job_dir job_id)
started_job-signalled job_id (some pid) wakes false h = job_wakes-running pid wakes h

deferred-has_dir :
    (job_id : ℕ) (path : Bytes) (calls : List JobCall) (returned : Bool)
    → ((after : List JobCall) (before : Bool)
        → has_dir (job_dir job_id) before (calls ++ after) ≡ has_dir (job_dir job_id) before after)
    → has_dir (job_dir job_id) false (deferred job_id (prepared job_id path ++ calls, returned)).0
      ≡ not returned
unfolding deferred prepared has_dir
deferred-has_dir job_id path calls true h =
    rw (same (job_dir job_id))
      (h (remove_dir (job_dir job_id) ∷ []) true ∙ cleared (job_dir job_id) true)
deferred-has_dir job_id path calls false h =
    rw (same (job_dir job_id))
      (ap (has_dir (job_dir job_id) true) (sym (append-nil calls)) ∙ h [] true)

deferred-signalled :
    (job_id : ℕ) (path : Bytes) (calls : List JobCall) (returned : Bool)
    → signalled (deferred job_id (prepared job_id path ++ calls, returned)).0
      ≡ signalled (deferred job_id (calls, returned)).0
unfolding deferred prepared signalled
deferred-signalled job_id path calls true = refl
deferred-signalled job_id path calls false = refl

deferred-returned :
    (job_id : ℕ) (calls : List JobCall) (returned : Bool)
    → (deferred job_id (calls, returned)).1 ≡ returned
unfolding deferred
deferred-returned job_id calls true = refl
deferred-returned job_id calls false = refl

-- For every outcome of `cmd.Start` and every sequence of events: the job returns just if its process is
-- not started or an event other than a tick arrives; its directory is there after its calls, each taken to
-- succeed, just if the job has not returned; and a process is sent SIGTERM just if it is started and its first event other than a
-- tick is the deadline.
pub run_job-ends :
    (job_id : ℕ) (path : Bytes) (start : Option ℕ) (wakes : List Wake)
    → ((run_job job_id path start wakes).1 ≡ has_ended start wakes)
      × (has_dir (job_dir job_id) false (run_job job_id path start wakes).0
          ≡ not (has_ended start wakes))
      × (signalled (run_job job_id path start wakes).0 ≡ overdue start wakes)
unfolding run_job
run_job-ends job_id path start wakes =
    let calls : List JobCall = (started_job job_id start wakes).0 in
    let returned : Bool = (started_job job_id start wakes).1 in
    let ended : returned ≡ has_ended start wakes = started_job-returned job_id start wakes in
    (
      deferred-returned job_id (prepared job_id path ++ calls) returned ∙ ended,
      deferred-has_dir job_id path calls returned
            (started_job-has_dir job_id start wakes (job_dir job_id))
          ∙ ap not ended,
      deferred-signalled job_id path calls returned
          ∙ started_job-signalled job_id start wakes returned refl,
    )
