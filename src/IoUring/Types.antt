-- ===== src/IoUring/Types.antt =====
-- The records of the io_uring interface and the constants.
use go_systems_lab.Prelude.{ℕ, ◌++◌}
use go_systems_lab.Prelude.Int.{ℤ}
use go_systems_lab.Bytes.{Bytes}
use go_systems_lab.Bytes.Endian.{le_bytes}

abbrev pub io_uring_op_nop : ℕ
io_uring_op_nop = 0

abbrev pub io_uring_op_readv : ℕ
io_uring_op_readv = 1

abbrev pub io_uring_op_writev : ℕ
io_uring_op_writev = 2

abbrev pub io_uring_feat_single_mmap : ℕ
io_uring_feat_single_mmap = 1

abbrev pub sqe_size : ℕ
sqe_size = 64

abbrev pub cqe_size : ℕ
cqe_size = 16

pub record IoSqringOffsets : Type 0 where
  pub head : ℕ
  pub tail : ℕ
  pub ring_mask : ℕ
  pub ring_entries : ℕ
  pub flags : ℕ
  pub dropped : ℕ
  pub array : ℕ

pub record IoCqringOffsets : Type 0 where
  pub head : ℕ
  pub tail : ℕ
  pub ring_mask : ℕ
  pub ring_entries : ℕ
  pub overflow : ℕ
  pub cqes : ℕ
  pub flags : ℕ

-- The fields of `ioUringParams` that the program reads.
pub record IoUringParams : Type 0 where
  pub sq_entries : ℕ
  pub cq_entries : ℕ
  pub features : ℕ
  pub sq_off : IoSqringOffsets
  pub cq_off : IoCqringOffsets

-- The fields of `ioUringSQE` that the program sets; `fd` is the bit pattern of the int32. All
-- others are zero.
pub record IoUringSqe : Type 0 where
  pub opcode : ℕ
  pub fd : ℕ
  pub off : ℕ
  pub addr : ℕ
  pub len : ℕ
  pub user_data : ℕ

pub record IoUringCqe : Type 0 where
  pub user_data : ℕ
  pub res : ℤ
  pub flags : ℕ

-- The 64 bytes of an SQE in memory: opcode, flags, ioprio, fd, off, addr, len, rw_flags, user_data,
-- and 24 bytes of buf_index, personality, splice_fd_in, addr3 and padding.
unfoldable pub encode_sqe : IoUringSqe → Bytes
encode_sqe sqe =
    le_bytes 1 sqe.opcode
    ++ (le_bytes 1 0
        ++ (le_bytes 2 0
            ++ (le_bytes 4 sqe.fd
                ++ (le_bytes 8 sqe.off
                    ++ (le_bytes 8 sqe.addr
                        ++ (le_bytes 4 sqe.len
                            ++ (le_bytes 4 0 ++ (le_bytes 8 sqe.user_data ++ le_bytes 24 0))))))))

-- A mapped ring: the regions that its three slices stand for. With one mapping for both rings
-- `sq_ring` and `cq_ring` are the same region.
pub record RingMapping : Type 0 where
  pub params : IoUringParams
  pub sq_ring : ℕ
  pub cq_ring : ℕ
  pub sqes : ℕ

pub data Error : Type 0 where
  -- "submission queue is full", "completion queue is empty"
  queue_full queue_empty : Error
  -- "submitted=%d, want 1"
  submitted : ℕ → Error
  errno : ℕ → Error
