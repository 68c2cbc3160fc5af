-- ===== src/IoUring/Tests.antt =====
-- A ring of two entries in memory, and the theorems on it.
use go_systems_lab.Prelude.{
  ℕ, ◌+◌, ◌*◌, ◌%◌, ◌^◌, ◌≡◌, ◌<◌, refl, [], ◌∷◌, ◌++◌, if◌then◌else◌, ◌==◌, none, some, ok, err,
  take, drop, replicate, arith,
}
use go_systems_lab.Prelude.Int.{pos, of_u32}
use go_systems_lab.Bytes.{codes}
use go_systems_lab.Bytes.Endian.{le_bytes, le_value, load_le, store_le}
use go_systems_lab.Bytes.Blit.{blit}
use go_systems_lab.IoUring.Main.{main_process}
use go_systems_lab.IoUring.Releases.{main_process-releases}
use go_systems_lab.IoUring.Types.{
  IoUringParams, RingMapping, IoUringSqe, IoUringCqe, encode_sqe, queue_empty,
}
use go_systems_lab.IoUring.Memory.{
  Memory, with_region, load_uint32, store_uint32, store_sqe, load_cqe,
}
use go_systems_lab.IoUring.Submit.{
  Enter, submit_and_wait, enter_and_wait, wait_completion, push_sqe, submit_nop, write_at,
}
use go_systems_lab.IoUring.Queue.{
  IsSubmissionRing, word, sq_head, sq_tail, in_flight, submit_and_wait_pushes,
}
use go_systems_lab.IoUring.Completion.{IsCompletionRing, wait_completion_empty}
use go_systems_lab.IoUring.Mapping.{
  Mmap, sq_region, map_ring, map_all, map_rings, answered, finish_mapping,
}
use go_systems_lab.IoUring.Resources.{replay, nothing}
use go_systems_lab.IoUring.Commands.{with_ring, run_nop, run_write, short_write}

abbrev pub params : IoUringParams
params = record {
  sq_entries = 2;
  cq_entries = 2;
  features = 0;
  sq_off = record {
    head = 0;
    tail = 4;
    ring_mask = 8;
    ring_entries = 12;
    flags = 16;
    dropped = 20;
    array = 24;
  };
  cq_off = record {
    head = 0;
    tail = 4;
    ring_mask = 8;
    ring_entries = 12;
    overflow = 16;
    cqes = 32;
    flags = 20;
  };
}

abbrev pub ring : RingMapping
ring = record { params = params; sq_ring = 0; cq_ring = 1; sqes = 2 }

-- The submission ring with a head and a tail, the completion ring with a tail, and the SQEs.
abbrev pub memory : ℕ → ℕ → ℕ → Memory
memory head tail completed region =
    if region == 0
    then le_bytes 4 head ++ (le_bytes 4 tail ++ (le_bytes 4 1 ++ (le_bytes 4 2 ++ replicate 16 0)))
    else if region == 1
    then le_bytes 4 0
      ++ (le_bytes 4 completed ++ (le_bytes 4 1 ++ (le_bytes 4 2 ++ replicate 48 7)))
    else replicate 128 0

-- A kernel that takes one request and changes nothing.
abbrev idle : Enter
idle m = (m, 1, 0)

abbrev nop : IoUringSqe
nop = record { opcode = 0; fd = 0; off = 0; addr = 0; len = 0; user_data = 5 }

pub submission_ring :
    (head tail completed : ℕ) → IsSubmissionRing 1 ring (memory head tail completed)
unfolding le_bytes le_value
submission_ring head tail completed = record {
  head_tail = omega arith;
  tail_mask = omega arith;
  mask_entries = omega arith;
  entries_array = omega arith;
  array_fits = omega arith;
  ring_small = omega arith;
  sqes_fit = omega arith;
  mask_is = refl;
  entries_are = refl;
  apart = omega arith;
}

completion_ring : (head tail completed : ℕ) → IsCompletionRing 1 ring (memory head tail completed)
unfolding le_bytes le_value
completion_ring head tail completed = record {
  head_tail = omega arith;
  tail_mask = omega arith;
  mask_cqes = omega arith;
  cqes_fit = omega arith;
  mask_is = refl;
}

room : in_flight ring (memory 7 8 0) < 2 ^ 1
unfolding le_bytes le_value
room = omega arith

submit_and_wait_pushes_example :
    (given : Memory) × (submit_and_wait idle ring nop (memory 7 8 0)
      ≡ enter_and_wait idle ring given)
    × (take 64 (drop (sq_tail ring (memory 7 8 0) % 2 ^ 1 * 64) (given 2)) ≡ encode_sqe nop)
    × (word (24 + sq_tail ring (memory 7 8 0) % 2 ^ 1 * 4) (given 0)
        ≡ sq_tail ring (memory 7 8 0) % 2 ^ 1)
    × (sq_tail ring given ≡ (sq_tail ring (memory 7 8 0) + 1) % 2 ^ 32)
    × (sq_head ring given ≡ sq_head ring (memory 7 8 0))
submit_and_wait_pushes_example =
    submit_and_wait_pushes 1 ring (memory 7 8 0) (submission_ring 7 8 0) idle nop room

wait_completion_empty_example :
    wait_completion ring (memory 0 0 0) ≡ (memory 0 0 0, err queue_empty)
unfolding le_bytes
wait_completion_empty_example =
    wait_completion_empty 1 ring (memory 0 0 0) (completion_ring 0 0 0) refl

-- A kernel that maps the submission ring and nothing else.
abbrev stingy : Mmap
stingy sq_region _ = none
stingy _ _ = some 12

abbrev pub generous : Mmap
generous _ _ = none

-- A kernel that completes any request with a result and some user data.
abbrev pub completes : ℕ → ℕ → Enter
completes user_data res _ = (
  λ region.
      if region == 1
      then le_bytes 4 0
        ++ (le_bytes 4 1
            ++ (le_bytes 4 1
                ++ (le_bytes 4 2
                    ++ (replicate 16 0
                        ++ (le_bytes 8 user_data ++ (le_bytes 4 res ++ le_bytes 20 0))))))
      else memory 1 1 1 region,
  1,
  0,
)

abbrev nop_done : IoUringCqe
nop_done = record { user_data = 0xabcddcba; res = pos 0; flags = 0 }

nop_runs : (run_nop 0 generous params (completes 0xabcddcba 0) (memory 0 0 0)).1 ≡ ok nop_done
unfolding run_nop with_ring map_ring map_all map_rings answered finish_mapping submit_nop
    submit_and_wait push_sqe enter_and_wait wait_completion load_uint32 store_uint32 store_sqe
    load_cqe load_le store_le blit le_bytes le_value encode_sqe with_region of_u32
nop_runs = refl

-- `write hi` with a kernel that writes all three bytes, and with one that writes two.
write_runs :
    (run_write
      (codes "hi" ∷ [])
      (ok 5)
      0
      generous
      params
      (completes 0x7772697465 3)
      4096
      (memory 0 0 0)).1
    ≡ ok 3
unfolding run_write with_ring map_ring map_all map_rings answered finish_mapping write_at
    submit_and_wait push_sqe enter_and_wait wait_completion load_uint32 store_uint32 store_sqe
    load_cqe load_le store_le blit le_bytes le_value encode_sqe with_region of_u32
write_runs = refl

write_short :
    (run_write
      (codes "hi" ∷ [])
      (ok 5)
      0
      generous
      params
      (completes 0x7772697465 2)
      4096
      (memory 0 0 0)).1
    ≡ err (short_write 2 3)
unfolding run_write with_ring map_ring map_all map_rings answered finish_mapping write_at
    submit_and_wait push_sqe enter_and_wait wait_completion load_uint32 store_uint32 store_sqe
    load_cqe load_le store_le blit le_bytes le_value encode_sqe with_region of_u32
write_short = refl

main_process-releases_example :
    replay
      (main_process
        (record {
          file = ok 5;
          setup = 0;
          mmap = stingy;
          params = params;
          enter = idle;
          iov = 4096;
          memory = memory 0 0 0;
          buffer = [];
        })
        (codes "write" ∷ codes "hi" ∷ [])).0
      nothing
    ≡ some nothing
main_process-releases_example = main_process-releases _ (codes "write" ∷ codes "hi" ∷ [])
