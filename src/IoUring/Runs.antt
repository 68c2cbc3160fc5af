-- ===== src/IoUring/Runs.antt =====
-- A command with a kernel that answers it.
use go_systems_lab.Prelude.{sym, ◌∙◌, inl, ◌≡◌, refl, [], ◌∷◌, some, ok, length, arith}
use go_systems_lab.Prelude.Int.{pos, of_u32}
use go_systems_lab.Bytes.{codes}
use go_systems_lab.Bytes.Endian.{le_bytes, le_value}
use go_systems_lab.IoUring.Types.{IoUringSqe, io_uring_op_writev}
use go_systems_lab.IoUring.Submit.{transfer_sqe}
use go_systems_lab.IoUring.Completion.{cq_head, cq_tail}
use go_systems_lab.IoUring.Mapping.{
  opened, mapped, sq_region, cq_region, sqes_region, map_ring, Mapped, map_all, map_rings, answered,
  finish_mapping,
}
use go_systems_lab.IoUring.Commands.{as_ring, run_write, message_of}
use go_systems_lab.IoUring.Answered.{IsIdle, IsAnswering, write_outcome, run_write-answered}
use go_systems_lab.IoUring.Tests.{params, ring, memory, generous, completes, submission_ring}

abbrev held : Mapped
held = record {
  sq_ring = some sq_region;
  cq_ring = some cq_region;
  sqes = some sqes_region;
  trace = opened ∷ mapped sq_region 32 ∷ mapped cq_region 64 ∷ mapped sqes_region 128 ∷ [];
}

held-mapped : (map_ring 0 generous params).1 ≡ ok held
unfolding map_ring map_all map_rings answered finish_mapping
held-mapped = refl

nothing_pending : IsIdle 1 (as_ring params held) (memory 0 0 0)
unfolding le_bytes le_value
nothing_pending = (
  submission_ring 0 0 0,
  record { not_sqes = omega arith; head_apart = inl (omega arith); tail_apart = inl (omega arith) },
  refl,
  refl,
)

abbrev write_sqe : IoUringSqe
write_sqe = transfer_sqe io_uring_op_writev 0x7772697465 5 4096 0

writes_two :
    IsAnswering 1 1
      (as_ring params held)
      (memory 0 0 0)
      (completes 0x7772697465 2)
      write_sqe
      (pos 2)
unfolding le_bytes le_value of_u32
writes_two given pending =
    let tail : cq_tail ring given ≡ 0 = pending.tail_kept in
    let head : cq_head ring given ≡ 0 = pending.empty ∙ tail in
    (
      record {
        ring = record {
          head_tail = omega arith;
          tail_mask = omega arith;
          mask_cqes = omega arith;
          cqes_fit = omega arith;
          mask_is = refl;
        };
        head_kept = sym head;
        one_more = rw tail refl;
        entry_user_data = rw tail refl;
        entry_res = rw tail refl;
      },
      refl,
      refl,
    )

run_write-answered_example :
    (run_write
      (codes "hi" ∷ [])
      (ok 5)
      0
      generous
      params
      (completes 0x7772697465 2)
      4096
      (memory 0 0 0)).1
    ≡ write_outcome (length (message_of (codes "hi" ∷ []))) (pos 2)
run_write-answered_example =
    run_write-answered (codes "hi" ∷ []) 5 0 4096 generous params (completes 0x7772697465 2)
      (memory 0 0 0) held 1 1 (pos 2) held-mapped nothing_pending writes_two
