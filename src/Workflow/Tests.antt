-- ===== src/Workflow/Tests.antt =====
-- A job from its file to its end, and the theorems on it.
use go_systems_lab.Prelude.{
  ℕ, zero, suc, ◌/◌, ◌≡◌, refl, true, false, not, inr, [], ◌∷◌, ◌++◌, map, replicate, some, ok,
  length, arith,
}
use go_systems_lab.Bytes.{codes, equal, slice, has_prefix}
use go_systems_lab.Bytes.Endian.{le_bytes, le_value, load_le}
use go_systems_lab.Prelude.Int.{of_u64, to_u64}
use go_systems_lab.Text.Split.{cut, split, trim_right}
use go_systems_lab.Text.FilePath.{IsName, join}
use go_systems_lab.Text.Number.{
  format_uint, format_int, digit_char, parse_uint, parse_digits, digit_value,
}
use go_systems_lab.Text.Signed.{atoi, times}
use go_systems_lab.ByteSize.{parse_job_bytes}
use go_systems_lab.Text.Scan.{IsLine}
use go_systems_lab.Text.Words.{Words, IsWords, spaced}
use go_systems_lab.Inotify.Layout.{Notice, encode_notice, encode_notices}
use go_systems_lab.Workflow.Jobs.{
  watching, watch_jobs, jobs_in, job_round, triggered, shut_down, failed,
}
use go_systems_lab.Workflow.Triggers.{Found, read_of, started_in, watch_jobs-started_in}
use go_systems_lab.Workflow.Stats.{parse_job_stats, parse_job_stats-spaced}
use go_systems_lab.Workflow.Run.{
  make_dir, remove_dir, write_file, started, read_stats, terminate_group, deadline, tick, run_job,
  job_dir, in_job, job_wakes, deferred, prepared, started_job,
}
use go_systems_lab.Workflow.Ends.{has_dir, has_ended, signalled, overdue, run_job-ends}

-- `a` is moved in, and the hidden `.b` is created.
abbrev moved_in : Notice
moved_in = record { wd = 1; mask = 128; cookie = 7; name = codes "a"; pad = 3 }

abbrev hidden : Notice
hidden = record { wd = 1; mask = 256; cookie = 0; name = codes ".b"; pad = 2 }

abbrev found : Found
found = record { notices = moved_in ∷ hidden ∷ []; stale = replicate 120 7 }

stopped :
    watch_jobs (read_of found ∷ failed 4 true ∷ [])
    ≡ (codes "labs/06-workflow/jobs/a" ∷ [], shut_down)
unfolding watch_jobs jobs_in job_round triggered slice cut has_prefix load_le le_value le_bytes
    encode_notice encode_notices join split equal trim_right
stopped = refl

a-IsName : IsName (codes "a")
a-IsName = record {
  no_slash = omega arith;
  no_end = λ e. cc;
  no_dot = λ e. ground arith;
  no_dot_dot = λ e. cc;
}

b-IsName : IsName (codes ".b")
b-IsName = record {
  no_slash = omega arith;
  no_end = λ e. cc;
  no_dot = λ e. cc;
  no_dot_dot = λ e. ground arith;
}

full : length (encode_notices (moved_in ∷ hidden ∷ []) ++ replicate 120 7) ≡ 160
unfolding encode_notices encode_notice le_bytes
full = refl

watch_jobs-started_in_example :
    watch_jobs (map read_of (found ∷ [])) ≡ (started_in (found ∷ []), watching)
watch_jobs-started_in_example = watch_jobs-started_in (found ∷ []) (
  (
    (
      (omega arith, inr (a-IsName, (omega arith, tt), omega arith)),
      ((omega arith, inr (b-IsName, (omega arith, (omega arith, tt)), omega arith)), tt),
    ),
    full,
  ),
  tt,
)

overdue_run : run_job 5 (codes "a") (some 9) (tick ∷ deadline ∷ tick ∷ []) ≡ (
  make_dir (codes "/sys/fs/cgroup/workflow-lab/5")
      ∷ write_file (codes "/sys/fs/cgroup/workflow-lab/5/memory.max") (codes "52428800")
      ∷ started (codes "/bin/sh" ∷ codes "a" ∷ [])
      ∷ write_file (codes "/sys/fs/cgroup/workflow-lab/5/cgroup.procs") (codes "9")
      ∷ read_stats 9
      ∷ terminate_group 9
      ∷ remove_dir (codes "/sys/fs/cgroup/workflow-lab/5")
      ∷ [],
  true,
)
unfolding run_job job_dir in_job job_wakes deferred prepared started_job join split equal
    format_uint digit_char parse_uint parse_digits digit_value format_int parse_job_bytes atoi times
    of_u64 to_u64
overdue_run = refl

run_job-ends_example :
    ((run_job 5 (codes "a") (some 9) (tick ∷ deadline ∷ [])).1
      ≡ has_ended (some 9) (tick ∷ deadline ∷ []))
    × (has_dir (job_dir 5) false (run_job 5 (codes "a") (some 9) (tick ∷ deadline ∷ [])).0
        ≡ not (has_ended (some 9) (tick ∷ deadline ∷ [])))
    × (signalled (run_job 5 (codes "a") (some 9) (tick ∷ deadline ∷ [])).0
        ≡ overdue (some 9) (tick ∷ deadline ∷ []))
run_job-ends_example = run_job-ends 5 (codes "a") (some 9) (tick ∷ deadline ∷ [])

-- `/proc/9/stat` with 22 fields of `0` and 2560 pages.
abbrev stat_words : Words
stat_words = replicate 22 (0, codes "0") ++ ((0, format_uint 10 2560) ∷ [])

zero_words : (n : ℕ) (words : Words) → IsWords words → IsWords (replicate n (0, codes "0") ++ words)
zero_words zero words h = h
zero_words (suc n) words h = ((omega arith, λ e. cc), zero_words n words h)

stat_words-IsWords : IsWords stat_words
unfolding format_uint digit_char
stat_words-IsWords = zero_words 22 ((0, format_uint 10 2560) ∷ []) ((omega arith, λ e. cc), tt)

stat-IsLine : IsLine (codes "9" ++ spaced stat_words)
unfolding spaced format_uint digit_char
stat-IsLine = omega arith

parse_job_stats-spaced_example :
    parse_job_stats ((codes "9" ++ spaced stat_words) ++ (b'\n' ∷ []))
    ≡ ok (codes "RSS: " ++ (format_uint 10 (2560 / 256) ++ codes " MB"))
parse_job_stats-spaced_example =
    parse_job_stats-spaced (codes "9") stat_words [] 0 2560 (omega arith, λ e. cc)
      stat_words-IsWords stat-IsLine refl (omega arith)
