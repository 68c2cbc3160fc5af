-- ===== src/IoUring/Submit.antt =====
-- `submitAndWait`, `waitCompletion` and the three requests. `io_uring_enter` is a parameter: from the
-- memory to the memory that the kernel leaves, the number of requests taken and the error number.
use Prim.Native.Nat.{bit_and}
use go_systems_lab.Prelude.{
  ℕ, ◌+◌, ◌-◌, ◌*◌, ◌%◌, ◌^◌, not, ◌==◌, leb, if◌then◌else◌, ok, panic, [], ◌∷◌,
}
use go_systems_lab.Prelude.Int.{pos, negsuc}
use go_systems_lab.Prelude.Prog.{Prog, ◌>>=◌, ◌>>◌, done, fail, query, update}
use go_systems_lab.Bytes.{Bytes}
use go_systems_lab.IoUring.Types.{
  Error, queue_full, queue_empty, submitted, errno, IoUringSqe, IoUringCqe, RingMapping,
  io_uring_op_nop, io_uring_op_readv, io_uring_op_writev,
}
use go_systems_lab.IoUring.Memory.{Memory, load_uint32, store_uint32, store_sqe, load_cqe}

-- The kernel's side of the system call.
abbrev pub Enter : Type 0
Enter = Memory → Memory × ℕ × ℕ

unfoldable pub wait_completion : RingMapping → Prog Memory Error IoUringCqe
wait_completion r = do
  cq_head ← query (load_uint32 r.cq_ring r.params.cq_off.head)
  cq_tail ← query (load_uint32 r.cq_ring r.params.cq_off.tail)
  if cq_head == cq_tail then fail queue_empty else do
    cq_mask ← query (load_uint32 r.cq_ring r.params.cq_off.ring_mask)
    cqe ← query (load_cqe r.cq_ring r.params.cq_off.cqes (bit_and cq_head cq_mask))
    update (store_uint32 r.cq_ring r.params.cq_off.head ((cq_head + 1) % 2 ^ 32))
    done cqe

-- The system call and what follows it.
unfoldable pub enter_and_wait : Enter → RingMapping → Prog Memory Error IoUringCqe
enter_and_wait enter r memory =
    let (left, taken, failure) = enter memory in
    if not (failure == 0)
    then fail (errno failure) left
    else if not (taken == 1)
    then fail (submitted taken) left
    else wait_completion r left

-- The stores of one request.
unfoldable pub push_sqe : RingMapping → ℕ → ℕ → IoUringSqe → Prog Memory Error (Unit {0})
push_sqe r sq_tail slot sqe = do
  update (store_sqe r.sqes slot sqe)
  update (store_uint32 r.sq_ring ((r.params.sq_off.array + slot * 4) % 2 ^ 32) slot)
  update (store_uint32 r.sq_ring r.params.sq_off.tail ((sq_tail + 1) % 2 ^ 32))

unfoldable pub submit_and_wait : Enter → RingMapping → IoUringSqe → Prog Memory Error IoUringCqe
submit_and_wait enter r sqe = do
  sq_head ← query (load_uint32 r.sq_ring r.params.sq_off.head)
  sq_tail ← query (load_uint32 r.sq_ring r.params.sq_off.tail)
  sq_mask ← query (load_uint32 r.sq_ring r.params.sq_off.ring_mask)
  sq_entries ← query (load_uint32 r.sq_ring r.params.sq_off.ring_entries)
  if leb sq_entries ((sq_tail + 2 ^ 32 - sq_head) % 2 ^ 32)
      then fail queue_full
      else do push_sqe r sq_tail (bit_and sq_tail sq_mask) sqe; enter_and_wait enter r

unfoldable pub submit_nop : Enter → RingMapping → ℕ → Prog Memory Error IoUringCqe
submit_nop enter r user_data =
    submit_and_wait enter r (record {
      opcode = io_uring_op_nop;
      fd = 0;
      off = 0;
      addr = 0;
      len = 0;
      user_data = user_data;
    })

-- `syscall.Errno(-cqe.Res)` of a result below 0, `-(n + 1)`: at -2^31 the int32 stays as it is, and is
-- then extended with its sign.
unfoldable pub errno_of : ℕ → ℕ
errno_of n = if n == 2 ^ 31 - 1 then 2 ^ 64 - 2 ^ 31 else n + 1

abbrev pub result_of : IoUringCqe → Prog Memory Error ℕ
result_of cqe = elim cqe.res [ pos n ↦ done n | negsuc n ↦ fail (errno (errno_of n)) ]

abbrev pub transfer_sqe : ℕ → ℕ → ℕ → ℕ → ℕ → IoUringSqe
transfer_sqe opcode user_data fd iov offset = record {
  opcode = opcode;
  fd = fd % 2 ^ 32;
  off = offset;
  addr = iov;
  len = 1;
  user_data = user_data;
}

-- `&data[0]`, which panics on an empty slice.
abbrev pub first_byte : Bytes → Prog Memory Error (Unit {0})
first_byte [] memory = (memory, panic)
first_byte (b ∷ _) memory = (memory, ok tt)

-- `iov` is the address of the iovec with the start and the length of `bytes`.
unfoldable pub write_at : Enter → RingMapping → ℕ → ℕ → Bytes → ℕ → Prog Memory Error ℕ
write_at enter r fd iov bytes offset = do
  first_byte bytes
  cqe ← submit_and_wait enter r (transfer_sqe io_uring_op_writev 0x7772697465 fd iov offset)
  result_of cqe

unfoldable pub read_at : Enter → RingMapping → ℕ → ℕ → Bytes → ℕ → Prog Memory Error ℕ
read_at enter r fd iov buffer offset = do
  first_byte buffer
  cqe ← submit_and_wait enter r (transfer_sqe io_uring_op_readv 0x72656164 fd iov offset)
  result_of cqe
