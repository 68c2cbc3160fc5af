-- ===== src/IoUring/Answered.antt =====
-- The program and the kernel together: a request that the kernel answers.
use go_systems_lab.Prelude.{
  ℕ, ◌+◌, ◌*◌, ◌%◌, ◌^◌, ◌≡◌, ◌≢◌, ◌≤◌, ◌<◌, refl, sym, ap, ◌∙◌, ◌⊎◌, inl, inr, [], ◌∷◌, ◌==◌,
  if◌then◌else◌, Result, ok, err, panic, ◌>>=◌, Bool-cases, List, length, take, drop, arith,
}
use go_systems_lab.Prelude.Int.{ℤ, pos, negsuc}
use go_systems_lab.Bits.{pow2_pos}
use go_systems_lab.Bytes.{Bytes}
use go_systems_lab.IoUring.Types.{
  errno, IoUringSqe, IoUringCqe, IoUringParams, RingMapping, encode_sqe, io_uring_op_writev,
}
use go_systems_lab.IoUring.Memory.{Memory}
use go_systems_lab.IoUring.Mapping.{Event, MapError, Mapped, Mmap, map_ring}
use go_systems_lab.IoUring.Commands.{
  Work, CommandError, short_write, request_error, check_written, message_of, requested, as_ring,
  with_ring, use_ring, write_work, run_write,
}
use go_systems_lab.IoUring.Submit.{
  Enter, errno_of, result_of, transfer_sqe, write_at, submit_and_wait, enter_and_wait,
  wait_completion,
}
use go_systems_lab.IoUring.Queue.{
  word, IsSubmissionRing, sq_head, sq_tail, in_flight, pushed, submit_and_wait_room, pushed_holds,
}
use go_systems_lab.IoUring.Queue.Apart.{pushed_apart}
use go_systems_lab.IoUring.Completion.{
  IsCompletionRing, cq_head, cq_tail, cqe_in, wait_completion_takes,
}

-- The counters of the completion queue lie apart from what a request writes: in another region, or, with one
-- mapping for both rings, between the tail of the submission ring and its index array.
pub record IsApart (r : RingMapping) : Type 0 where
  pub not_sqes : r.cq_ring ≢ r.sqes
  pub head_apart :
      (r.cq_ring ≢ r.sq_ring)
      ⊎ ((r.params.sq_off.tail + 4 ≤ r.params.cq_off.head)
          × (r.params.cq_off.head + 4 ≤ r.params.sq_off.array))
  pub tail_apart :
      (r.cq_ring ≢ r.sq_ring)
      ⊎ ((r.params.sq_off.tail + 4 ≤ r.params.cq_off.tail)
          × (r.params.cq_off.tail + 4 ≤ r.params.sq_off.array))

-- The SQE that a ring of 2 ^ k entries names next, as the kernel finds it.
abbrev pub next_sqe : ℕ → RingMapping → Memory → Bytes
next_sqe k r given = take 64 (
    drop (word (r.params.sq_off.array + sq_head r given % 2 ^ k * 4) (given r.sq_ring) * 64)
      (given r.sqes))

-- One request and no other is pending, the completion queue is empty, and the counters of the kernel stand as in
-- `memory`.
pub record IsPending (k : ℕ) (r : RingMapping) (memory : Memory) (sqe : IoUringSqe) (given : Memory)
    : Type 0 where
  pub head_kept : sq_head r given ≡ sq_head r memory
  pub one_more : sq_tail r given ≡ (sq_head r given + 1) % 2 ^ 32
  pub request : next_sqe k r given ≡ encode_sqe sqe
  pub tail_kept : cq_tail r given ≡ cq_tail r memory
  pub empty : cq_head r given ≡ cq_tail r given

-- What the kernel leaves behind a request: one entry more in a completion queue of 2 ^ c entries, with the user
-- data of the request and its result.
pub record IsCompleted (c : ℕ) (r : RingMapping) (given : Memory) (sqe : IoUringSqe) (res : ℤ)
    (left : Memory) : Type 0 where
  pub ring : IsCompletionRing c r left
  pub head_kept : cq_head r left ≡ cq_head r given
  pub one_more : cq_tail r left ≡ (cq_tail r given + 1) % 2 ^ 32
  pub entry_user_data :
      (cqe_in (r.params.cq_off.cqes + cq_tail r given % 2 ^ c * 16) (left r.cq_ring)).user_data
      ≡ sqe.user_data
  pub entry_res :
      (cqe_in (r.params.cq_off.cqes + cq_tail r given % 2 ^ c * 16) (left r.cq_ring)).res ≡ res

-- io_uring_enter(2) with one request to submit and one completion to wait for.
abbrev pub IsAnswering : ℕ → ℕ → RingMapping → Memory → Enter → IoUringSqe → ℤ → Type 0
IsAnswering k c r memory enter sqe res =
    (given : Memory)
    → IsPending k r memory sqe given
    → IsCompleted c r given sqe res (enter given).0 × ((enter given).1 ≡ 1) × ((enter given).2 ≡ 0)

-- Before a request: nothing is pending and nothing is left to take.
abbrev pub IsIdle : ℕ → RingMapping → Memory → Type 0
IsIdle k r memory =
    IsSubmissionRing k r memory
    × IsApart r
    × (sq_head r memory ≡ sq_tail r memory)
    × (cq_head r memory ≡ cq_tail r memory)

enter_and_wait_taken :
    (enter : Enter) (r : RingMapping) (given : Memory)
    → (enter given).1 ≡ 1
    → (enter given).2 ≡ 0
    → enter_and_wait enter r given ≡ wait_completion r (enter given).0
unfolding enter_and_wait
enter_and_wait_taken enter r given taken failure = rw (taken, failure) refl

module _ (k c : ℕ) (r : RingMapping) (memory : Memory) (h : IsIdle k r memory)
    (sqe : IoUringSqe) where
  given-IsPending : IsPending k r memory sqe (pushed k r memory h.0 sqe)
  given-IsPending =
      let (slot, named, tail, head) = pushed_holds k r memory h.0 sqe in
      let at_tail : sq_head r (pushed k r memory h.0 sqe) ≡ sq_tail r memory = head ∙ h.2 in
      let cq-head =
        pushed_apart k r memory h.0 sqe r.cq_ring r.params.cq_off.head h.1.not_sqes
          h.1.head_apart in
      let cq-tail =
        pushed_apart k r memory h.0 sqe r.cq_ring r.params.cq_off.tail h.1.not_sqes
          h.1.tail_apart in
      record {
        head_kept = head;
        one_more = tail ∙ ap (λ n. (n + 1) % 2 ^ 32) (sym at_tail);
        request = rw (at_tail, named) slot;
        tail_kept = cq-tail;
        empty = cq-head ∙ h.3 ∙ sym cq-tail;
      }

  -- What the program finds and leaves behind its request.
  submit_and_wait_answered :
      (enter : Enter) (res : ℤ)
      → IsAnswering k c r memory enter sqe res
      → (left : Memory) × (cqe : IoUringCqe) × (submit_and_wait enter r sqe memory ≡ (left, ok cqe))
        × (cqe.user_data ≡ sqe.user_data)
        × (cqe.res ≡ res)
        × (cq_head r left ≡ cq_tail r left)
  submit_and_wait_answered enter res answers =
      let given : Memory = pushed k r memory h.0 sqe in
      let left : Memory = (enter given).0 in
      let (done, taken, failure) = answers given given-IsPending in
      let empty : in_flight r memory < 2 ^ k = omega (arith, h.2, pow2_pos k) in
      let pending = given-IsPending in
      let new : cq_head r left ≢ cq_tail r left =
        λ e. omega (arith, done.head_kept, done.one_more, pending.empty) in
      let (after, takes, head, tail, cqes) = wait_completion_takes c r left done.ring new in
      let at : cq_head r left ≡ cq_tail r given = done.head_kept ∙ pending.empty in
      (
        after,
        _,
        submit_and_wait_room k r memory h.0 enter sqe empty
            ∙ enter_and_wait_taken enter r given taken failure
            ∙ takes,
        rw at done.entry_user_data,
        rw at done.entry_res,
        head ∙ ap (λ n. (n + 1) % 2 ^ 32) at ∙ sym done.one_more ∙ sym tail,
      )

-- What a result of the kernel is for `write`: the number of bytes, if it is all of them, or an error.
abbrev pub write_outcome : ℕ → ℤ → Result CommandError ℕ
write_outcome want (pos n) = if n == want then ok n else err (short_write n want)
write_outcome want (negsuc n) = err (request_error (errno (errno_of n)))

check_written-eq : (want n : ℕ) → check_written want n ≡ write_outcome want (pos n)
unfolding check_written
check_written-eq want n = elim (Bool-cases (n == want)) [
  | inl all ↦ rw all refl
  | inr short ↦ rw short refl
]

message_cons : (args : List Bytes) → (b : ℕ) × (rest : Bytes) × (message_of args ≡ b ∷ rest)
unfolding message_of
message_cons [] = (_, _, refl)
message_cons ([] ∷ args) = (_, _, refl)
message_cons ((b ∷ arg) ∷ args) = (_, _, refl)

use_ring_mapped :
    {A : Type 0} (params : IoUringParams) (work : Work A)
    (made : List Event × Result MapError Mapped) (ring : Mapped)
    → made.1 ≡ ok ring
    → (use_ring params work made).1 ≡ work (as_ring params ring)
unfolding use_ring
use_ring_mapped params work (events, ok other) ring e =
    let same : other ≡ ring = cc in ap (λ s. work (as_ring params s)) same
use_ring_mapped params work (events, err f) ring e = absurd cc
use_ring_mapped params work (events, panic) ring e = absurd cc

-- `result_of`, `requested` and the check of the length, over the outcome of a request.
finished_write :
    (want : ℕ) (left : Memory) (cqe : IoUringCqe) (res : ℤ)
    → cqe.res ≡ res
    → (requested (result_of cqe left) >>= check_written want) ≡ write_outcome want res
unfolding requested
finished_write want left cqe (pos n) e = rw e (check_written-eq want n)
finished_write want left cqe (negsuc n) e = rw e refl

-- The program and the kernel together: on a ring that was mapped, with nothing pending on it, and with a kernel
-- that answers the request of `write` (WRITEV of one vector at offset 0 of the file) by a completion with a
-- result: the command ends well just if the result is the length of the line, and reports it; a smaller number
-- is a short write, and a negative one the error of that number.
pub run_write-answered :
    (args : List Bytes) (fd setup iov : ℕ) (mmap : Mmap) (params : IoUringParams) (enter : Enter)
    (memory : Memory) (ring : Mapped) (k c : ℕ) (res : ℤ)
    → (map_ring setup mmap params).1 ≡ ok ring
    → IsIdle k (as_ring params ring) memory
    → IsAnswering k c
        (as_ring params ring)
        memory
        enter
        (transfer_sqe io_uring_op_writev 0x7772697465 fd iov 0)
        res
    → (run_write args (ok fd) setup mmap params enter iov memory).1
      ≡ write_outcome (length (message_of args)) res
unfolding run_write with_ring
run_write-answered args fd setup iov mmap params enter memory ring k c res mapped idle answers =
    let r : RingMapping = as_ring params ring in
    let sqe : IoUringSqe = transfer_sqe io_uring_op_writev 0x7772697465 fd iov 0 in
    let (left, cqe, sent, user_data, result, _) =
      submit_and_wait_answered k c r memory idle sqe enter res answers in
    let (b, rest, message) = message_cons args in
    let written : write_at enter r fd iov (message_of args) 0 memory ≡ result_of cqe left =
      unfold write_at in rw (message, sent) refl in
    use_ring_mapped params (write_work args fd enter iov memory) (map_ring setup mmap params) ring
      mapped
    ∙ ap (λ out. requested out >>= check_written (length (message_of args))) written
    ∙ finished_write (length (message_of args)) left cqe res result
