-- ===== src/Isolation/Limits.antt =====
-- What `applyCgroups` writes, and where it stops.
use go_systems_lab.Prelude.{
  ℕ, ◌*◌, ◌^◌, ◌<◌, ◌≡◌, ◌≢◌, refl, sym, ap, ◌∙◌, true, false, [], ◌∷◌, ◌++◌, List, Option, none,
  some, Option-cases, Bool-cases, inl, inr, if◌then◌else◌, Result, ok, err, panic, arith,
}
use mathlib.Core.List.{append_assoc, append-nil}
use go_systems_lab.Prelude.Int.{pos}
use go_systems_lab.Prelude.Prog.{Prog, ◌>>◌, and_then, done}
use go_systems_lab.Bytes.{Bytes, codes, equal, equal_iff}
use go_systems_lab.Text.Number.{format_uint, format_int}
use go_systems_lab.Text.Signed.{
  atoi_or_nearest, atoi_or_nearest-atoi, atoi-format_uint, format_uint-ne-nil, times-pos,
}
use go_systems_lab.ByteSize.{parse_bytes}
use go_systems_lab.ByteSize.Results.{mega, parse_bytes_size}
use go_systems_lab.Isolation.Cgroup.{
  Call, make_dir, write_file, Answer, CgroupError, mkdir_failed, add_pid_failed, set_memory_failed,
  set_cpu_failed, cg_path, in_group, call, cpu_max, set_memory, set_cpu, apply_cgroups,
}

-- The calls that are wanted, each with the error that its failure is.
abbrev pub Plan : Type 0
Plan = List (Call × (ℕ → CgroupError))

abbrev pub if_given : Bytes → Call × (ℕ → CgroupError) → Plan
if_given limit step = if equal limit [] then [] else step ∷ []

abbrev pub plan : ℕ → Bytes → Bytes → Plan
plan pid mem_limit cpu_limit =
    (make_dir cg_path, mkdir_failed)
    ∷ (write_file (in_group (codes "cgroup.procs")) (format_uint 10 pid), add_pid_failed)
    ∷ (if_given mem_limit
          (write_file (in_group (codes "memory.max")) (parse_bytes mem_limit), set_memory_failed)
        ++ if_given cpu_limit
            (write_file (in_group (codes "cpu.max")) (cpu_max cpu_limit), set_cpu_failed))

abbrev pub Done : Type 0
Done = List Call × Result CgroupError (Unit {0})

-- The calls of a plan are made in order up to the first that fails.
abbrev went_on : Option ℕ → Call → (ℕ → CgroupError) → Done → Done
went_on none c failure (calls, result) = (c ∷ calls, result)
went_on (some errno) c failure rest = (c ∷ [], err (failure errno))

unfoldable pub perform : Answer → Plan → List Call × Result CgroupError (Unit {0})
perform answer [] = ([], ok tt)
perform answer ((c, failure) ∷ steps) = went_on (answer c) c failure (perform answer steps)

-- What was done by two parts of which the second follows only where the first ended well.
abbrev joined : Done → Done → Done
joined (calls, ok _) (more, result) = (calls ++ more, result)
joined (calls, err e) _ = (calls, err e)
joined (calls, panic) _ = (calls, panic)

perform-append :
    (answer : Answer) (first second : Plan)
    → perform answer (first ++ second) ≡ joined (perform answer first) (perform answer second)
unfolding perform
perform-append answer [] second = refl
perform-append answer ((c, failure) ∷ first) second =
    rw (perform-append answer first second)
      (joined-went_on (answer c) c failure (perform answer first) (perform answer second))
  where
    joined-went_on :
        (a : Option ℕ) (c : Call) (failure : ℕ → CgroupError) (x y : Done)
        → went_on a c failure (joined x y) ≡ joined (went_on a c failure x) y
    joined-went_on none c failure (calls, ok _) y = refl
    joined-went_on none c failure (calls, err e) y = refl
    joined-went_on none c failure (calls, panic) y = refl
    joined-went_on (some errno) c failure x y = refl

-- A program that performs a plan, behind what was done before.
abbrev Follows : Answer → Prog (List Call) CgroupError (Unit {0}) → Plan → Type 0
Follows answer m p =
    (calls : List Call) → m calls ≡ (calls ++ (perform answer p).0, (perform answer p).1)

call-Follows :
    (answer : Answer) (failure : ℕ → CgroupError) (c : Call)
    → Follows answer (call answer failure c) ((c, failure) ∷ [])
unfolding call perform
call-Follows answer failure c calls = elim (Option-cases (answer c)) [
  | inl fine ↦ rw fine refl
  | inr (errno, failed) ↦ rw failed refl
]

>>-Follows :
    (answer : Answer) (m k : Prog (List Call) CgroupError (Unit {0})) (p q : Plan)
    → Follows answer m p
    → Follows answer k q
    → Follows answer (m >> k) (p ++ q)
>>-Follows answer m k p q h j calls =
    rw (h calls, perform-append answer p q) (both (perform answer p))
  where
    both :
        (x : Done)
        → and_then (calls ++ x.0, x.1) (λ _. k)
          ≡ (calls ++ (joined x (perform answer q)).0, (joined x (perform answer q)).1)
    both (done_first, ok _) =
        j (calls ++ done_first)
        ∙ ap (λ l. (l, (perform answer q).1)) (append_assoc calls done_first (perform answer q).0)
    both (done_first, err e) = refl
    both (done_first, panic) = refl

if_given-Follows :
    (answer : Answer) (limit : Bytes) (failure : ℕ → CgroupError) (c : Call)
    → Follows answer
        (if equal limit [] then done tt else call answer failure c)
        (if_given limit (c, failure))
if_given-Follows answer limit failure c calls = elim (Bool-cases (equal limit [])) [
  | inl none_given ↦ rw none_given (unfold perform in ap (λ l. (l, ok tt)) (sym (append-nil calls)))
  | inr given ↦ rw given (call-Follows answer failure c calls)
]

-- `applyCgroups` makes the directory, moves the process, and writes the memory and the CPU limit where one
-- is given, in this order, each with the content that the plan says; it stops at the first call that
-- fails, with the error of that call, and succeeds where none fails.
pub apply_cgroups-perform :
    (answer : Answer) (pid : ℕ) (mem_limit cpu_limit : Bytes)
    → apply_cgroups answer pid mem_limit cpu_limit []
      ≡ perform answer (plan pid mem_limit cpu_limit)
unfolding apply_cgroups
apply_cgroups-perform answer pid mem_limit cpu_limit =
    let procs = write_file (in_group (codes "cgroup.procs")) (format_uint 10 pid) in
    let memory = write_file (in_group (codes "memory.max")) (parse_bytes mem_limit) in
    let cpu = write_file (in_group (codes "cpu.max")) (cpu_max cpu_limit) in
    >>-Follows answer (call answer mkdir_failed (make_dir cg_path))
      (call answer add_pid_failed procs
        >> (set_memory answer mem_limit >> set_cpu answer cpu_limit))
      ((make_dir cg_path, mkdir_failed) ∷ [])
      ((procs, add_pid_failed)
        ∷ (if_given mem_limit (memory, set_memory_failed)
            ++ if_given cpu_limit (cpu, set_cpu_failed)))
      (call-Follows answer mkdir_failed (make_dir cg_path))
      (>>-Follows answer (call answer add_pid_failed procs)
        (set_memory answer mem_limit >> set_cpu answer cpu_limit) ((procs, add_pid_failed) ∷ [])
        (if_given mem_limit (memory, set_memory_failed) ++ if_given cpu_limit (cpu, set_cpu_failed))
        (call-Follows answer add_pid_failed procs)
        (>>-Follows answer (set_memory answer mem_limit) (set_cpu answer cpu_limit)
          (if_given mem_limit (memory, set_memory_failed))
          (if_given cpu_limit (cpu, set_cpu_failed))
          (if_given-Follows answer mem_limit set_memory_failed memory)
          (if_given-Follows answer cpu_limit set_cpu_failed cpu)))
      []

cpu_max-format_uint :
    (p : ℕ)
    → p * 1000 < 2 ^ 63
    → cpu_max (format_uint 10 p) ≡ format_uint 10 (p * 1000) ++ codes " 100000"
unfolding cpu_max format_int
cpu_max-format_uint p fits =
    let percent : atoi_or_nearest (format_uint 10 p) ≡ pos p =
      atoi_or_nearest-atoi (format_uint 10 p) (pos p) (atoi-format_uint p (omega arith)) in
    rw (percent, times-pos p 1000 fits (omega arith), format_int)

given : (limit : Bytes) → limit ≢ [] → equal limit [] ≡ false
given limit h = ground (arith, equal_iff limit [])

append-ne-nil : (s : Bytes) (b : ℕ) → s ++ (b ∷ []) ≢ []
append-ne-nil [] b e = cc
append-ne-nil (c ∷ s) b e = cc

-- With a limit of n megabytes and one of p percent, each in range, and calls that all succeed, the
-- process is moved, memory.max is set to n * 2 ^ 20 and cpu.max to p * 1000 of every 100000 microseconds,
-- and nothing else is done.
pub apply_cgroups_limits :
    (pid n p : ℕ)
    → n * 2 ^ 20 < 2 ^ 63
    → p * 1000 < 2 ^ 63
    → apply_cgroups (λ _. none) pid (format_uint 10 n ++ codes "M") (format_uint 10 p) [] ≡ (
      make_dir cg_path
          ∷ write_file (in_group (codes "cgroup.procs")) (format_uint 10 pid)
          ∷ write_file (in_group (codes "memory.max")) (format_uint 10 (n * 2 ^ 20))
          ∷ write_file (in_group (codes "cpu.max")) (format_uint 10 (p * 1000) ++ codes " 100000")
          ∷ [],
      ok tt,
    )
unfolding perform
apply_cgroups_limits pid n p fits fits' =
    let memory_given : equal (format_uint 10 n ++ codes "M") [] ≡ false =
      given (format_uint 10 n ++ codes "M") (append-ne-nil (format_uint 10 n) b'M') in
    let cpu_given : equal (format_uint 10 p) [] ≡ false =
      given (format_uint 10 p) (format_uint-ne-nil p (omega arith)) in
    apply_cgroups-perform (λ _. none) pid (format_uint 10 n ++ codes "M") (format_uint 10 p)
    ∙ rw (memory_given, cpu_given, parse_bytes_size mega true n fits, cpu_max-format_uint p fits')
