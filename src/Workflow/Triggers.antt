-- ===== src/Workflow/Triggers.antt =====
-- Each file that appears is started once, hidden ones never.
use go_systems_lab.Prelude.{
  ℕ, zero, suc, ◌+◌, ◌-◌, ◌^◌, ◌≤◌, ◌<◌, ◌≡◌, ◌≢◌, refl, sym, ap, ◌∙◌, List, [], ◌∷◌, ◌++◌, ltb,
  if◌then◌else◌, inl, inr, ◌⊎◌, Bool-cases, ◌==◌, true, false, ok, length, length-append, replicate,
  arith, map,
}
use mathlib.Core.List.{append_assoc, append-nil}
use go_systems_lab.Bytes.{Bytes, All, All-map, codes, slice-eq-ok, has_prefix}
use go_systems_lab.Text.Split.{trim_right-append}
use go_systems_lab.Text.FilePath.{IsName, rooted_path, join, join_slash, join-rooted_path}
use go_systems_lab.Inotify.Layout.{Notice, len_of, encode_notice, encode_notices, IsNotice}
use go_systems_lab.Inotify.Events.{Stuck}
use go_systems_lab.Inotify.RoundTrip.{length-encode_notice, event_at-encode_notice, name_bytes}
use go_systems_lab.Workflow.Jobs.{
  jobs_dir, triggered, job_name, job_round, job_loop, jobs_in, JobRead, got, watching, watch_jobs,
}

-- The file that a notice is about starts a job, unless it is hidden or the notice is about the directory.
unfoldable pub job_of : Notice → List Bytes
unfolding triggered
job_of e = if ltb 0 (len_of e) then triggered e.name else []

unfoldable pub jobs_for : List Notice → List Bytes
jobs_for [] = []
jobs_for (e ∷ es) = job_of e ++ jobs_for es

zeros : (n : ℕ) → All {A = ℕ} (λ b. b ≡ 0) (replicate n 0)
zeros zero = tt
zeros (suc n) = (refl, zeros n)

job_name-encode_notice :
    (before rest : Bytes) (e : Notice)
    → All (λ b. b ≢ 0) e.name
    → job_name (length before) (len_of e) (before ++ (encode_notice e ++ rest)) ≡ ok e.name
unfolding job_name
job_name-encode_notice before rest e plain =
    let whole : Bytes = before ++ (encode_notice e ++ rest) in
    let fits : length before + 16 + len_of e ≤ length whole = omega (
      arith,
      length-append before (encode_notice e ++ rest),
      length-append (encode_notice e) rest,
      length-encode_notice e,
    ) in
    let between : length before + 16 + len_of e - (length before + 16) ≡ len_of e = omega arith in
    rw (
      slice-eq-ok {E = Stuck} (length before + 16) (length before + 16 + len_of e) whole
          (omega arith) fits,
      between,
      name_bytes before rest e,
      trim_right-append 0 e.name (replicate e.pad 0) plain (zeros e.pad),
    )

job_round-encode_notice :
    (before rest : Bytes) (e : Notice)
    → IsNotice e
    → len_of e < 2 ^ 32
    → job_round (before ++ (encode_notice e ++ rest)) (length before)
      ≡ ok (job_of e, length before + length (encode_notice e))
unfolding job_round job_of
job_round-encode_notice before rest e (mask, plain, padded) small =
    rw (event_at-encode_notice {E = Stuck} before rest e mask small, length-encode_notice e)
      (elim (Bool-cases (ltb 0 (len_of e))) [
        | inl named ↦ rw (named, job_name-encode_notice before rest e plain)
        | inr unnamed ↦ rw unnamed refl
      ])

job_loop-encode_notices :
    (es : List Notice) (rounds : ℕ) (before rest buf : Bytes) (n offset : ℕ) (jobs : List Bytes)
    → All IsNotice es
    → buf ≡ before ++ (encode_notices es ++ rest)
    → length buf < 2 ^ 32
    → offset ≡ length before
    → n ≡ length before + length (encode_notices es)
    → length (encode_notices es) < rounds
    → job_loop rounds buf n offset jobs ≡ ok (jobs ++ jobs_for es)
unfolding job_loop encode_notices jobs_for
job_loop-encode_notices es zero before rest buf n offset jobs h e small o m r = absurd (omega arith)
job_loop-encode_notices [] (suc rounds) before rest buf n offset jobs h e small o m r =
    let end : ltb offset n ≡ false = ground arith in rw (end, append-nil)
job_loop-encode_notices (first ∷ es) (suc rounds) before rest buf n offset jobs (h, hs) e small o m
      r =
    let one : Bytes = encode_notice first in
    let later : Bytes = encode_notices es in
    let shape : buf ≡ before ++ (one ++ (later ++ rest)) =
      e ∙ ap (λ l. before ++ l) (append_assoc one later rest) in
    let next_shape : buf ≡ (before ++ one) ++ (later ++ rest) =
      shape ∙ sym (append_assoc before one (later ++ rest)) in
    let total : length buf ≡ length before + length one + length later + length rest = omega (
      arith,
      ap length shape,
      length-append before (one ++ (later ++ rest)),
      length-append one (later ++ rest),
      length-append later rest,
    ) in
    let size : n ≡ length before + length one + length later =
      omega (arith, m, length-append one later) in
    let header : length one ≡ 16 + len_of first = length-encode_notice first in
    let more : ltb offset n ≡ true = ground arith in
    let room : ltb (n - offset) 16 ≡ false = ground arith in
    let round : job_round buf offset ≡ ok (job_of first, length before + length one) =
      rw (shape, o) (job_round-encode_notice before (later ++ rest) first h (omega arith)) in
    rw (more, room, round)
      (job_loop-encode_notices es rounds (before ++ one) rest buf n (length before + length one)
          (jobs ++ job_of first) hs next_shape small (sym (length-append before one))
          (omega (arith, length-append before one)) (omega (arith, length-append one later))
        ∙ ap ok (append_assoc jobs (job_of first) (jobs_for es)))

-- What a read finds: some notices, and what is left of an earlier read in the array of 160 bytes.
pub record Found : Type 0 where
  pub notices : List Notice
  pub stale : Bytes

abbrev pub IsEntry : Notice → Type 0
IsEntry e =
    (e.mask < 2 ^ 32)
    × (((e.name ≡ []) × (e.pad ≡ 0)) ⊎ (IsName e.name × All (λ b. b ≢ 0) e.name × (0 < e.pad)))

abbrev pub IsFound : Found → Type 0
IsFound f = All IsEntry f.notices × (length (encode_notices f.notices ++ f.stale) ≡ 160)

abbrev pub read_of : Found → JobRead
read_of f = got (encode_notices f.notices ++ f.stale) (length (encode_notices f.notices))

-- The job of a name: none for the directory itself or a hidden file, else its path.
unfoldable pub started : Bytes → List Bytes
started [] = []
started (b ∷ name) = if b == b'.' then [] else (codes "labs/06-workflow/jobs/" ++ (b ∷ name)) ∷ []

unfoldable pub started_by : List Notice → List Bytes
started_by [] = []
started_by (e ∷ es) = started e.name ++ started_by es

unfoldable pub started_in : List Found → List Bytes
started_in [] = []
started_in (f ∷ founds) = started_by f.notices ++ started_in founds

job_path :
    (name : Bytes)
    → IsName name
    → join (jobs_dir ∷ name ∷ []) ≡ codes "labs/06-workflow/jobs/" ++ name
job_path name h =
    unfold rooted_path join_slash in
    join-rooted_path false (codes "labs") (codes "06-workflow" ∷ codes "jobs" ∷ []) (name ∷ [])
      (record { no_slash = omega arith; no_end = λ e. cc; no_dot = λ e. cc; no_dot_dot = λ e. cc })
      (
        record { no_slash = omega arith; no_end = λ e. cc; no_dot = λ e. cc; no_dot_dot = λ e. cc },
        (
          record {
            no_slash = omega arith;
            no_end = λ e. cc;
            no_dot = λ e. cc;
            no_dot_dot = λ e. cc;
          },
          tt,
        ),
      )
      (h, tt)

triggered-started :
    (name : Bytes) (pad : ℕ)
    → (((name ≡ []) × (pad ≡ 0)) ⊎ (IsName name × All (λ b. b ≢ 0) name × (0 < pad)))
    → (if ltb 0 (length name + pad) then triggered name else []) ≡ started name
unfolding triggered started has_prefix
triggered-started [] pad (inl (_, none_behind)) = rw none_behind refl
triggered-started [] pad (inr (h, _, _)) = absurd (h.no_end refl)
triggered-started (b ∷ name) pad (inl (e, _)) = cc
triggered-started (b ∷ name) pad (inr (h, _, more)) =
    let named : ltb 0 (length (b ∷ name) + pad) ≡ true = ground arith in
    rw named (elim (Bool-cases (b == b'.')) [
      | inl hidden ↦ rw hidden refl
      | inr shown ↦ rw (shown, job_path (b ∷ name) h) refl
    ])

IsEntry-IsNotice : (e : Notice) → IsEntry e → IsNotice e
IsEntry-IsNotice e (mask, inl (name, pad)) = (mask, rw name tt, inl (name, pad))
IsEntry-IsNotice e (mask, inr (_, plain, pad)) = (mask, plain, inr pad)

jobs_for-started_by : (es : List Notice) → All IsEntry es → jobs_for es ≡ started_by es
unfolding jobs_for started_by job_of
jobs_for-started_by [] h = refl
jobs_for-started_by (e ∷ es) (h, hs) =
    rw (triggered-started e.name e.pad h.1, jobs_for-started_by es hs)

-- For reads that hold what the kernel lays out in the array of 160 bytes, the orchestrator starts, in
-- order, one job for each file that appeared and is not hidden, with the path of this file below the
-- directory of jobs, and nothing else; it then waits for the next read.
pub watch_jobs-started_in :
    (founds : List Found)
    → All IsFound founds
    → watch_jobs (map read_of founds) ≡ (started_in founds, watching)
unfolding watch_jobs started_in
watch_jobs-started_in [] h = refl
watch_jobs-started_in (f ∷ founds) ((entries, full), hs) =
    let buf : Bytes = encode_notices f.notices ++ f.stale in
    let n : ℕ = length (encode_notices f.notices) in
    let jobs : jobs_in buf n ≡ ok (started_by f.notices) =
      unfold jobs_in in
      (job_loop-encode_notices f.notices (suc n) [] f.stale buf n 0 []
          (All-map IsEntry IsNotice IsEntry-IsNotice f.notices entries) refl (omega arith) refl
          (omega arith) (omega arith)
        ∙ ap ok (jobs_for-started_by f.notices entries)) in
    rw (jobs, watch_jobs-started_in founds hs)
