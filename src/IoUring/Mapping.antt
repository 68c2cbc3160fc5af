-- ===== src/IoUring/Mapping.antt =====
-- `mapRing`, `mmap` and `close`: what is mapped and open, as a list of what was done. The answers of
-- the kernel are parameters.
use Prim.Native.Nat.{bit_and}
use go_systems_lab.Prelude.{
  ℕ, ◌+◌, ◌*◌, Bool, true, false, not, ◌==◌, ltb, List, [], ◌∷◌, ◌++◌, Option, none, some,
  if◌then◌else◌, Result, ok, err, panic,
}
use go_systems_lab.Prelude.Prog.{Prog, ◌>>◌}
use go_systems_lab.IoUring.Types.{IoUringParams, io_uring_feat_single_mmap, sqe_size, cqe_size}

-- The regions that a process maps, by the offset that it passes to mmap.
pub data Region : Type 0 where
  sq_region cq_region sqes_region : Region

pub data Event : Type 0 where
  opened closed : Event
  mapped : Region → ℕ → Event
  unmapped : Region → Event

pub data MapError : Type 0 where
  -- "mmap shared SQ/CQ ring", "mmap SQ ring", "mmap CQ ring", "mmap SQEs", each with the errno
  shared_ring sq_ring_failed cq_ring_failed sqes_failed setup_failed : ℕ → MapError

-- The slices of a `ringMapping`, `none` for nil, and what was done so far.
pub record Mapped : Type 0 where
  pub sq_ring : Option Region
  pub cq_ring : Option Region
  pub sqes : Option Region
  pub trace : List Event

-- `syscall.Mmap`, the kernel's answer for a region of a size: `none`, or an errno.
abbrev pub Mmap : Type 0
Mmap = Region → ℕ → Option ℕ

abbrev note : Event → Mapped → Mapped
note event s = record s { trace = s.trace ++ (event ∷ []) }

-- One call of mmap for its answer, the slice that it sets and the error that it becomes. A failed call
-- sets nil.
unfoldable pub answered :
    Option ℕ
    → Region
    → ℕ
    → (Option Region → Mapped → Mapped)
    → (ℕ → MapError)
    → Prog Mapped MapError (Unit {0})
answered none region size set failure s = (set (some region) (note (mapped region size) s), ok tt)
answered (some e) region size set failure s = (set none s, err (failure e))

abbrev request :
    Mmap
    → Region
    → ℕ
    → (Option Region → Mapped → Mapped)
    → (ℕ → MapError)
    → Prog Mapped MapError (Unit {0})
request mmap region size set failure = answered (mmap region size) region size set failure

abbrev set_sq : Option Region → Mapped → Mapped
set_sq slice s = record s { sq_ring = slice }

abbrev set_cq : Option Region → Mapped → Mapped
set_cq slice s = record s { cq_ring = slice }

abbrev set_sqes : Option Region → Mapped → Mapped
set_sqes slice s = record s { sqes = slice }

-- `r.cqRing = r.sqRing`
abbrev share_cq : Prog Mapped MapError (Unit {0})
share_cq s = (record s { cq_ring = s.sq_ring }, ok tt)

unfoldable pub max_int : ℕ → ℕ → ℕ
max_int a b = if ltb b a then a else b

abbrev pub sq_size : IoUringParams → ℕ
sq_size params = params.sq_off.array + params.sq_entries * 4

abbrev pub cq_size : IoUringParams → ℕ
cq_size params = params.cq_off.cqes + params.cq_entries * cqe_size

unfoldable pub map_rings : Mmap → IoUringParams → Prog Mapped MapError (Unit {0})
map_rings mmap params =
    if not (bit_and params.features io_uring_feat_single_mmap == 0)
    then (do
      request mmap sq_region (max_int (sq_size params) (cq_size params)) set_sq shared_ring
      share_cq)
    else (do
      request mmap sq_region (sq_size params) set_sq sq_ring_failed
      request mmap cq_region (cq_size params) set_cq cq_ring_failed)

-- The method `mmap`.
unfoldable pub map_all : Mmap → IoUringParams → Prog Mapped MapError (Unit {0})
map_all mmap params = do
  map_rings mmap params
  request mmap sqes_region (params.sq_entries * sqe_size) set_sqes sqes_failed

abbrev unmap : Option Region → List Event
unmap none = []
unmap (some region) = unmapped region ∷ []

-- `&r.cqRing[0] != &r.sqRing[0]`
abbrev same_start : Option Region → Option Region → Bool
same_start (some sq_region) (some sq_region) = true
same_start (some cq_region) (some cq_region) = true
same_start _ _ = false

unfoldable pub close_ring : Mapped → List Event
close_ring s =
    unmap s.sqes
    ++ ((if same_start s.cq_ring s.sq_ring then [] else unmap s.cq_ring)
        ++ (unmap s.sq_ring ++ (closed ∷ [])))

-- What `mapRing` does with the outcome of `mmap`: on an error the half-made ring is closed.
unfoldable pub finish_mapping :
    Mapped × Result MapError (Unit {0}) → List Event × Result MapError Mapped
finish_mapping (ring, ok _) = (ring.trace, ok ring)
finish_mapping (ring, err e) = (ring.trace ++ close_ring ring, err e)
finish_mapping (ring, panic) = (ring.trace, panic)

-- `mapRing`: all that was done, and the ring. `setup` is the errno of io_uring_setup, 0 for none.
unfoldable pub map_ring : ℕ → Mmap → IoUringParams → List Event × Result MapError Mapped
map_ring setup mmap params =
    if not (setup == 0)
    then ([], err (setup_failed setup))
    else finish_mapping (
        map_all mmap params
          (record { sq_ring = none; cq_ring = none; sqes = none; trace = opened ∷ [] }))
