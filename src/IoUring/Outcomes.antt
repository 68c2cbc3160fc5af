-- ===== src/IoUring/Outcomes.antt =====
-- What the commands promise: resources are released, and a success is a complete one.
use go_systems_lab.Prelude.{
  ℕ, ◌≡◌, refl, sym, ap, ◌∙◌, ◌==◌, not, Bool-cases, inl, inr, List, some, Result, ok, err, panic,
  ◌>>=◌, length, arith,
}
use go_systems_lab.Prelude.Int.{ℤ, pos, negsuc}
use go_systems_lab.Bytes.{Bytes}
use go_systems_lab.IoUring.Types.{Error, IoUringParams, IoUringCqe}
use go_systems_lab.IoUring.Memory.{Memory}
use go_systems_lab.IoUring.Submit.{Enter, submit_nop, write_at}
use go_systems_lab.IoUring.Mapping.{Event, Mapped, MapError, Mmap, map_ring}
use go_systems_lab.IoUring.Resources.{replay, nothing, Balanced, map_ring-Balanced}
use go_systems_lab.IoUring.Commands.{
  Work, as_ring, CommandError, use_ring, with_ring, requested, check_nop, nop_user_data, run_nop,
  check_written, message_of, run_write, nop_work, write_work, check_res, other_completion,
}

use_ring-releases :
    {A : Type 0} (params : IoUringParams) (work : Work A)
    (made : List Event × Result MapError Mapped)
    → Balanced made
    → replay (use_ring params work made).0 nothing ≡ some nothing
unfolding use_ring
use_ring-releases params work (events, ok ring) h = h
use_ring-releases params work (events, err e) h = h
use_ring-releases params work (events, panic) h = absurd h

-- Whatever `io_uring_setup` and each `mmap` answer and however the work with the ring ends (an error and
-- a panic too), all that a command does with descriptors and mappings is possible (nothing is released
-- that is not held, nothing is mapped twice), and in the end nothing is open or mapped.
pub with_ring-releases :
    {A : Type 0} (setup : ℕ) (mmap : Mmap) (params : IoUringParams) (work : Work A)
    → replay (with_ring setup mmap params work).0 nothing ≡ some nothing
unfolding with_ring
with_ring-releases setup mmap params work =
    use_ring-releases params work (map_ring setup mmap params) (map_ring-Balanced setup mmap params)

use_ring-eq-ok :
    {A : Type 0} (params : IoUringParams) (work : Work A)
    (made : List Event × Result MapError Mapped) {a : A}
    → (use_ring params work made).1 ≡ ok a
    → (ring : Mapped) × (made.1 ≡ ok ring) × (work (as_ring params ring) ≡ ok a)
unfolding use_ring
use_ring-eq-ok params work (events, ok ring) h = (ring, refl, h)
use_ring-eq-ok params work (events, err e) h = cc
use_ring-eq-ok params work (events, panic) h = cc

requested-eq-ok :
    {A B : Type 0} (out : Memory × Result Error A) (check : A → Result CommandError B) {b : B}
    → (requested out >>= check) ≡ ok b
    → (a : A) × (out.1 ≡ ok a) × (check a ≡ ok b)
unfolding requested
requested-eq-ok (_, ok a) check h = (a, refl, h)
requested-eq-ok (_, err e) check h = cc
requested-eq-ok (_, panic) check h = cc

check_res_accepts :
    (got cqe : IoUringCqe) (res : ℤ)
    → check_res got res ≡ ok cqe
    → (got ≡ cqe) × ((n : ℕ) × (res ≡ pos n))
unfolding check_res
check_res_accepts got cqe (pos n) h = (cc, (n, refl))
check_res_accepts got cqe (negsuc n) h = cc

check_nop_accepts :
    (got cqe : IoUringCqe)
    → check_nop got ≡ ok cqe
    → (got ≡ cqe) × (cqe.user_data ≡ nop_user_data) × ((n : ℕ) × (cqe.res ≡ pos n))
unfolding check_nop
check_nop_accepts got cqe h = elim (Bool-cases (not (got.user_data == nop_user_data))) [
  | inl other ↦ let refused : err (other_completion got.user_data) ≡ ok cqe = rw other at h in cc
  | inr right ↦
      let passed : check_res got got.res ≡ ok cqe = rw right at h in
      let (same, (n, res)) = check_res_accepts got cqe got.res passed in
      let data_is : got.user_data ≡ nop_user_data = ground arith in
      (
        same,
        ap (λ (c : IoUringCqe). c.user_data) (sym same) ∙ data_is,
        (n, ap (λ (c : IoUringCqe). c.res) (sym same) ∙ res),
      )
]

-- `nop` succeeds only with a ring that was mapped and a completion of its own request on it: the
-- completion that `submitNOP` returned carries the user data that was sent and no error.
pub run_nop-eq-ok :
    (setup : ℕ) (mmap : Mmap) (params : IoUringParams) (enter : Enter) (memory : Memory)
    (cqe : IoUringCqe)
    → (run_nop setup mmap params enter memory).1 ≡ ok cqe
    → (ring : Mapped) × ((map_ring setup mmap params).1 ≡ ok ring)
      × ((submit_nop enter (as_ring params ring) nop_user_data memory).1 ≡ ok cqe)
      × (cqe.user_data ≡ nop_user_data)
      × ((n : ℕ) × (cqe.res ≡ pos n))
unfolding run_nop with_ring
run_nop-eq-ok setup mmap params enter memory cqe h =
    let (ring, mapped, done) =
      use_ring-eq-ok params (nop_work enter memory) (map_ring setup mmap params) h in
    let (got, sent, checked) =
      requested-eq-ok (submit_nop enter (as_ring params ring) nop_user_data memory) check_nop
        done in
    let (same, data_is, res_is) = check_nop_accepts got cqe checked in
    (ring, mapped, sent ∙ ap ok same, data_is, res_is)

-- `write` succeeds only with the whole message: the number that it reports is the length of the line,
-- and is what the completion of its request said.
pub run_write-eq-ok :
    (args : List Bytes) (fd setup : ℕ) (mmap : Mmap) (params : IoUringParams) (enter : Enter)
    (iov : ℕ) (memory : Memory) (n : ℕ)
    → (run_write args (ok fd) setup mmap params enter iov memory).1 ≡ ok n
    → (ring : Mapped) × ((map_ring setup mmap params).1 ≡ ok ring)
      × ((write_at enter (as_ring params ring) fd iov (message_of args) 0 memory).1 ≡ ok n)
      × (n ≡ length (message_of args))
unfolding run_write with_ring check_written
run_write-eq-ok args fd setup mmap params enter iov memory n h =
    let (ring, mapped, done) =
      use_ring-eq-ok params (write_work args fd enter iov memory) (map_ring setup mmap params) h in
    let (got, sent, checked) =
      requested-eq-ok (write_at enter (as_ring params ring) fd iov (message_of args) 0 memory)
        (check_written (length (message_of args))) done in
    let same : (got ≡ n) × (n ≡ length (message_of args)) = ground arith in
    (ring, mapped, sent ∙ ap ok same.0, same.1)
