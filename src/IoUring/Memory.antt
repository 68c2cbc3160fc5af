-- ===== src/IoUring/Memory.antt =====
-- The memory that the rings lie in: a list of bytes for each mapped region. `loadUint32`,
-- `storeUint32`, `sqeAt` and `cqeAt` go through unsafe pointers; an access that does not lie in its
-- region is a fault here.
use go_systems_lab.Prelude.{ℕ, ◌+◌, ◌*◌, ◌==◌, leb, if◌then◌else◌, Result, ok, panic, ◌>>=◌, length}
use go_systems_lab.Prelude.Int.{of_u32}
use go_systems_lab.Bytes.{Bytes}
use go_systems_lab.Bytes.Blit.{blit}
use go_systems_lab.Bytes.Endian.{load_le, store_le}
use go_systems_lab.IoUring.Types.{Error, IoUringSqe, IoUringCqe, encode_sqe, sqe_size, cqe_size}

abbrev pub Memory : Type 0
Memory = ℕ → Bytes

-- The memory with other bytes in one region.
unfoldable pub with_region : Memory → ℕ → Bytes → Memory
with_region memory region bytes r = if r == region then bytes else memory r

unfoldable pub load_uint32 : ℕ → ℕ → Memory → Result Error ℕ
load_uint32 region offset memory = load_le 4 offset (memory region)

unfoldable pub store_uint32 : ℕ → ℕ → ℕ → Memory → Result Error Memory
store_uint32 region offset value memory =
    store_le 4 offset value (memory region) >>= λ bytes. ok (with_region memory region bytes)

-- `*sqeAt(sqes, index) = sqe`
unfoldable pub store_sqe : ℕ → ℕ → IoUringSqe → Memory → Result Error Memory
store_sqe region index sqe memory =
    if leb (index * sqe_size + sqe_size) (length (memory region))
    then ok (with_region memory region (blit (index * sqe_size) (encode_sqe sqe) (memory region)))
    else panic

-- `*cqeAt(cqRing, base, index)`
unfoldable pub load_cqe : ℕ → ℕ → ℕ → Memory → Result Error IoUringCqe
load_cqe region base index memory =
    load_le 8 (base + index * cqe_size) (memory region) >>= λ user_data.
    load_le 4 (base + index * cqe_size + 8) (memory region) >>= λ res.
    load_le 4 (base + index * cqe_size + 12) (memory region) >>= λ flags.
    ok (record { user_data = user_data; res = of_u32 res; flags = flags })
