-- ===== src/IoUring/Commands.antt =====
-- The commands `probe`, `nop`, `write` and `read`: a ring is mapped, used once and closed.
-- Directories and files are parameters, and so is what a request leaves in the buffer of `read`.
use Prim.Native.Nat.{bit_and}
use go_systems_lab.Prelude.{
  ℕ, ◌+◌, Bool, not, ◌==◌, List, [], ◌∷◌, ◌++◌, Option, none, some, if◌then◌else◌, Result, ok, err,
  panic, ◌>>=◌, length,
}
use go_systems_lab.Prelude.Int.{ℤ, pos, negsuc}
use go_systems_lab.Bytes.{Bytes, codes, slice}
use go_systems_lab.IoUring.Types.{
  Error, IoUringParams, IoUringCqe, RingMapping, io_uring_feat_single_mmap,
}
use go_systems_lab.IoUring.Memory.{Memory}
use go_systems_lab.IoUring.Submit.{Enter, submit_nop, write_at, read_at}
use go_systems_lab.IoUring.Mapping.{
  Region, sq_region, cq_region, sqes_region, Event, opened, closed, Mapped, Mmap, MapError,
  shared_ring, sq_ring_failed, cq_ring_failed, sqes_failed, setup_failed, map_ring, close_ring,
}

-- What `describeSetupError` adds to an error.
pub data Hint : Type 0 where
  -- "io_uring is blocked by kernel policy, seccomp, or container restrictions"
  -- "kernel does not implement io_uring"
  blocked not_implemented unknown : Hint

pub data CommandError : Type 0 where
  setup_error : Hint → MapError → CommandError
  request_error : Error → CommandError
  file_error : ℕ → CommandError
  -- "completion user_data=%#x, want %#x", "completion result=%d", "short write: wrote %d bytes, want %d"
  other_completion : ℕ → CommandError
  result_below_zero : ℕ → CommandError
  short_write : ℕ → ℕ → CommandError

abbrev pub eperm : ℕ
eperm = 1

abbrev pub enosys : ℕ
enosys = 38

-- The errno that an error wraps.
unfoldable pub cause : MapError → ℕ
cause (shared_ring e) = e
cause (sq_ring_failed e) = e
cause (cq_ring_failed e) = e
cause (sqes_failed e) = e
cause (setup_failed e) = e

unfoldable pub describe_setup_error : MapError → CommandError
unfolding cause
describe_setup_error e =
    setup_error
      (if cause e == eperm then blocked else if cause e == enosys then not_implemented else unknown)
      e

-- The regions as numbers; a nil slice is a region of its own.
abbrev pub region_id : Option Region → ℕ
region_id (some sq_region) = 0
region_id (some cq_region) = 1
region_id (some sqes_region) = 2
region_id none = 3

abbrev pub as_ring : IoUringParams → Mapped → RingMapping
as_ring params s = record {
  params = params;
  sq_ring = region_id s.sq_ring;
  cq_ring = region_id s.cq_ring;
  sqes = region_id s.sqes;
}

-- Some work with a ring and the memory, for its outcome.
abbrev pub Work : Type 0 → Type 0
Work A = RingMapping → Result CommandError A

-- `defer ring.close()`: the ring is closed however the work ends.
unfoldable pub use_ring :
    {A : Type 0}
    → IoUringParams
    → Work A
    → List Event × Result MapError Mapped
    → List Event × Result CommandError A
use_ring params work (events, ok ring) = (events ++ close_ring ring, work (as_ring params ring))
use_ring params work (events, err e) = (events, err (describe_setup_error e))
use_ring params work (events, panic) = (events, panic)

-- `mapRing`, the work and the deferred close.
unfoldable pub with_ring :
    {A : Type 0} → ℕ → Mmap → IoUringParams → Work A → List Event × Result CommandError A
unfolding use_ring
with_ring setup mmap params work = use_ring params work (map_ring setup mmap params)

-- The outcome of a request, with its error as one of the command.
unfoldable pub requested : {A : Type 0} → Memory × Result Error A → Result CommandError A
requested (_, ok a) = ok a
requested (_, err e) = err (request_error e)
requested (_, panic) = panic

unfoldable pub probe : ℕ → IoUringParams → List Event × Result CommandError Bool
probe setup params =
    if not (setup == 0)
    then ([], err (describe_setup_error (setup_failed setup)))
    else (opened ∷ closed ∷ [], ok (not (bit_and params.features io_uring_feat_single_mmap == 0)))

abbrev pub nop_user_data : ℕ
nop_user_data = 0xabcddcba

-- `cqe.Res < 0`
unfoldable pub check_res : IoUringCqe → ℤ → Result CommandError IoUringCqe
check_res cqe (pos _) = ok cqe
check_res cqe (negsuc n) = err (result_below_zero (n + 1))

unfoldable pub check_nop : IoUringCqe → Result CommandError IoUringCqe
unfolding check_res
check_nop cqe =
    if not (cqe.user_data == nop_user_data)
    then err (other_completion cqe.user_data)
    else check_res cqe cqe.res

abbrev pub nop_work : Enter → Memory → Work IoUringCqe
nop_work enter memory ring = requested (submit_nop enter ring nop_user_data memory) >>= check_nop

unfoldable pub run_nop :
    ℕ → Mmap → IoUringParams → Enter → Memory → List Event × Result CommandError IoUringCqe
unfolding check_nop requested
run_nop setup mmap params enter memory = with_ring setup mmap params (nop_work enter memory)

-- The line that `write` sends.
unfoldable pub message_of : List Bytes → Bytes
message_of [] = codes "hello from io_uring\n"
message_of (arg ∷ _) = arg ++ codes "\n"

unfoldable pub check_written : ℕ → ℕ → Result CommandError ℕ
check_written want written =
    if not (written == want) then err (short_write written want) else ok written

abbrev pub write_work : List Bytes → ℕ → Enter → ℕ → Memory → Work ℕ
write_work args fd enter iov memory ring =
    requested (write_at enter ring fd iov (message_of args) 0 memory)
    >>= check_written (length (message_of args))

-- The second argument is the outcome of `MkdirAll` and `OpenFile`: a descriptor, or an error.
unfoldable pub run_write :
    List Bytes
    → Result CommandError ℕ
    → ℕ
    → Mmap
    → IoUringParams
    → Enter
    → ℕ
    → Memory
    → List Event × Result CommandError ℕ
unfolding message_of check_written requested
run_write args (ok fd) setup mmap params enter iov memory =
    with_ring setup mmap params (write_work args fd enter iov memory)
run_write args (err e) setup mmap params enter iov memory = ([], err e)
run_write args panic setup mmap params enter iov memory = ([], panic)

-- `buffer` is what the kernel leaves in the 4096 bytes of `buf`; the result is `buf[:n]`.
unfoldable pub run_read :
    Bytes
    → Result CommandError ℕ
    → ℕ
    → Mmap
    → IoUringParams
    → Enter
    → ℕ
    → Memory
    → List Event × Result CommandError Bytes
unfolding requested
run_read buffer (ok fd) setup mmap params enter iov memory =
    with_ring setup mmap params
      λ ring. requested (read_at enter ring fd iov buffer 0 memory) >>= λ n. slice 0 n buffer
run_read buffer (err e) setup mmap params enter iov memory = ([], err e)
run_read buffer panic setup mmap params enter iov memory = ([], panic)
