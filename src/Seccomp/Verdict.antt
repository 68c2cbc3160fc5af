-- ===== src/Seccomp/Verdict.antt =====
-- What the filter decides.
use go_systems_lab.Prelude.{
  ℕ, zero, suc, ◌+◌, ◌*◌, ◌%◌, ◌^◌, ◌≡◌, ◌≤◌, ◌<◌, refl, ap, Bool, Bool-cases, inl, inr, false,
  ◌&&◌, ◌||◌, List, [], ◌∷◌, ◌++◌, ◌==◌, if◌then◌else◌, some, arith, length, length-append, take,
}
use go_systems_lab.Bytes.{All}
use go_systems_lab.Seccomp.Filter.{
  SockFilter, allow_each, build_filters, build_seccomp_program, audit_arch_x8664, seccomp_ret_allow,
  seccomp_ret_kill_process,
}
use go_systems_lab.Seccomp.Machine.{SeccompData, execute, decide_call}

abbrev pub elem : ℕ → List ℕ → Bool
elem nr [] = false
elem nr (x ∷ xs) = nr == x || elem nr xs

abbrev kill_last : List SockFilter
kill_last = record { code = 0x06; jt = 0; jf = 0; k = seccomp_ret_kill_process } ∷ []

-- The tests of the system call numbers, run with the number in the accumulator.
execute-allow_each :
    (allowed : List ℕ) (steps : ℕ) (call : SeccompData)
    → All (λ nr. nr < 2 ^ 32) allowed
    → length allowed * 2 + 1 ≤ steps
    → execute steps call (allow_each allowed ++ kill_last) call.nr
      ≡ some (if elem call.nr allowed then seccomp_ret_allow else seccomp_ret_kill_process)
unfolding execute allow_each
execute-allow_each [] zero call h s = absurd (omega arith)
execute-allow_each [] (suc steps) call h s = refl
execute-allow_each (nr ∷ allowed) zero call h s = absurd (omega arith)
execute-allow_each (nr ∷ allowed) (suc zero) call h s = absurd (omega arith)
execute-allow_each (nr ∷ allowed) (suc (suc steps)) call (h, hs) s =
    let word : nr % 2 ^ 32 ≡ nr = omega arith in
    elim (Bool-cases (call.nr == nr)) [
      | inl hit ↦ rw (word, hit)
      | inr miss ↦ rw (word, miss) (execute-allow_each allowed (suc steps) call hs (omega arith))
    ]

length-allow_each : (allowed : List ℕ) → length (allow_each allowed) ≡ length allowed * 2
unfolding allow_each
length-allow_each [] = refl
length-allow_each (nr ∷ allowed) = omega (arith, length-allow_each allowed)

length-build_filters : (allowed : List ℕ) → length (build_filters allowed) ≡ length allowed * 2 + 5
unfolding build_filters
length-build_filters allowed =
    omega (arith, length-allow_each allowed, length-append (allow_each allowed) kill_last)

execute-build_filters :
    (allowed : List ℕ) (steps : ℕ) (call : SeccompData)
    → All (λ nr. nr < 2 ^ 32) allowed
    → length allowed * 2 + 1 ≤ steps
    → execute (suc (suc (suc (suc steps)))) call (build_filters allowed) 0
      ≡ some (
          if call.arch == audit_arch_x8664 && elem call.nr allowed
          then seccomp_ret_allow
          else seccomp_ret_kill_process)
unfolding execute build_filters
execute-build_filters allowed steps call h s = elim (Bool-cases (call.arch == audit_arch_x8664)) [
  | inl native ↦ rw native (execute-allow_each allowed (suc steps) call h (omega arith))
  | inr foreign ↦ rw foreign
]

take_all : {A : Type 0} (xs : List A) → take (length xs) xs ≡ xs
take_all [] = refl
take_all (x ∷ xs) = ap (◌∷◌ x) (take_all xs)

-- For a list of system call numbers below 2 ^ 32 that leaves the program below 2 ^ 16 instructions,
-- the installed program decides every call: a call is allowed just if it comes from the x86-64
-- architecture and its number is on the list, and any other call kills the process.
pub decide_call-build_seccomp_program :
    (allowed : List ℕ) (call : SeccompData)
    → All (λ nr. nr < 2 ^ 32) allowed
    → length allowed * 2 + 5 < 2 ^ 16
    → decide_call (build_seccomp_program allowed) call
      ≡ some (
          if call.arch == audit_arch_x8664 && elem call.nr allowed
          then seccomp_ret_allow
          else seccomp_ret_kill_process)
unfolding decide_call build_seccomp_program
decide_call-build_seccomp_program allowed call h fits =
    let n : length (build_filters allowed) % 2 ^ 16 ≡ length (build_filters allowed) =
      omega (arith, length-build_filters allowed) in
    let m : length (build_filters allowed) ≡ suc (suc (suc (suc (length allowed * 2 + 1)))) =
      omega (arith, length-build_filters allowed) in
    rw (n, take_all (build_filters allowed), m)
      (execute-build_filters allowed (length allowed * 2 + 1) call h (omega arith))
