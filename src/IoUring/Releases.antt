-- ===== src/IoUring/Releases.antt =====
-- The whole program's descriptors and mappings.
use go_systems_lab.Prelude.{
  ℕ, ◌≡◌, refl, List, [], ◌∷◌, Bool-cases, inl, inr, ◌==◌, not, some, Result, ok, err, panic,
}
use go_systems_lab.Bytes.{Bytes, codes, equal}
use go_systems_lab.IoUring.Types.{IoUringParams}
use go_systems_lab.IoUring.Mapping.{Event}
use go_systems_lab.IoUring.Resources.{replay, happens, nothing}
use go_systems_lab.IoUring.Commands.{CommandError, probe, run_nop, run_write, run_read}
use go_systems_lab.IoUring.Outcomes.{with_ring-releases}
use go_systems_lab.IoUring.Main.{Surroundings, exit_of, main_process}

exit_of-events : {A : Type 0} (r : List Event × Result CommandError A) → (exit_of r).0 ≡ r.0
exit_of-events (events, ok a) = refl
exit_of-events (events, err e) = refl
exit_of-events (events, panic) = refl

-- What a command does can be done, and leaves nothing open or mapped.
abbrev IsReleased : List Event → Type 0
IsReleased events = replay events nothing ≡ some nothing

probe-IsReleased : (setup : ℕ) (params : IoUringParams) → IsReleased (probe setup params).0
unfolding probe replay happens
probe-IsReleased setup params = elim (Bool-cases (not (setup == 0))) [
  | inl failed ↦ rw failed refl
  | inr there ↦ rw there refl
]

run_write-IsReleased :
    (s : Surroundings) (args : List Bytes) (file : Result CommandError ℕ)
    → IsReleased (run_write args file s.setup s.mmap s.params s.enter s.iov s.memory).0
unfolding run_write
run_write-IsReleased s args (ok fd) = with_ring-releases s.setup s.mmap s.params _
run_write-IsReleased s args (err e) = unfold replay in refl
run_write-IsReleased s args panic = unfold replay in refl

run_read-IsReleased :
    (s : Surroundings) (file : Result CommandError ℕ)
    → IsReleased (run_read s.buffer file s.setup s.mmap s.params s.enter s.iov s.memory).0
unfolding run_read
run_read-IsReleased s (ok fd) = with_ring-releases s.setup s.mmap s.params _
run_read-IsReleased s (err e) = unfold replay in refl
run_read-IsReleased s panic = unfold replay in refl

-- For every command line, whatever the kernel answers to io_uring_setup, to each mmap and to the request, and
-- however the command ends (an error and a panic too): all that the process does with the descriptor of the ring
-- and its mappings is possible (nothing is released that is not held, nothing is mapped twice), and in the
-- end nothing is open or mapped.
pub main_process-releases :
    (s : Surroundings) (args : List Bytes) → replay (main_process s args).0 nothing ≡ some nothing
unfolding main_process
main_process-releases s [] = unfold replay in refl
main_process-releases s (name ∷ args) = elim (Bool-cases (equal name (codes "probe"))) [
  | inl probing ↦
      rw (probing, exit_of-events (probe s.setup s.params)) (probe-IsReleased s.setup s.params)
  | inr h ↦ elim (Bool-cases (equal name (codes "nop"))) [
    | inl nop ↦
        rw (h, nop, exit_of-events (run_nop s.setup s.mmap s.params s.enter s.memory))
          (unfold run_nop in with_ring-releases s.setup s.mmap s.params _)
    | inr k ↦ elim (Bool-cases (equal name (codes "write"))) [
      | inl writing ↦
          rw
            (
              h,
              k,
              writing,
              exit_of-events (run_write args s.file s.setup s.mmap s.params s.enter s.iov s.memory),
            )
            (run_write-IsReleased s args s.file)
      | inr l ↦ elim (Bool-cases (equal name (codes "read"))) [
        | inl reading ↦
            rw
              (
                h,
                k,
                l,
                reading,
                exit_of-events
                    (run_read s.buffer s.file s.setup s.mmap s.params s.enter s.iov s.memory),
              )
              (run_read-IsReleased s s.file)
        | inr m ↦ rw (h, k, l, m) (unfold replay in refl)
      ]
    ]
  ]
]
