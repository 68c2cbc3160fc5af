-- ===== src/IoUring/Queue/Apart.antt =====
-- What a request leaves as it was.
use go_systems_lab.Prelude.{
  ℕ, ◌+◌, ◌%◌, ◌^◌, ◌≡◌, ◌≢◌, ◌≤◌, ap, ◌∙◌, Bool-cases, ◌⊎◌, inl, inr, ◌==◌, take, arith,
}
use go_systems_lab.Bytes.Blit.{take-drop-blit_before, drop-blit_after}
use go_systems_lab.Bytes.Endian.{le_value, length-le_bytes}
use go_systems_lab.IoUring.Types.{IoUringSqe, RingMapping}
use go_systems_lab.IoUring.Memory.{Memory}
use go_systems_lab.IoUring.Queue.{
  word, IsSubmissionRing, sq_tail, with_region_other, pushed, pushed-ring, advanced, indexed,
  filled,
}

module _ (k : ℕ) (r : RingMapping) (memory : Memory) (h : IsSubmissionRing k r memory) where
  advanced_apart :
      (offset : ℕ)
      → r.params.sq_off.tail + 4 ≤ offset
      → offset + 4 ≤ r.params.sq_off.array
      → word offset (advanced k r memory h) ≡ word offset (memory r.sq_ring)
  unfolding advanced indexed
  advanced_apart offset behind before = ap le_value (
      ap (take 4) (
        drop-blit_after offset r.params.sq_off.tail _ _
          (omega (arith, length-le_bytes 4 ((sq_tail r memory + 1) % 2 ^ 32))))
      ∙ take-drop-blit_before offset 4 _ _ _ (omega arith))

  -- In another region than the SQEs and the ring, nothing changes.
  outside_apart :
      (sqe : IoUringSqe) (region offset : ℕ)
      → region ≢ r.sqes
      → region ≢ r.sq_ring
      → word offset (pushed k r memory h sqe region) ≡ word offset (memory region)
  unfolding pushed
  outside_apart sqe region offset other outside = ap (word offset) (
      with_region_other _ r.sq_ring region (advanced k r memory h) outside
      ∙ with_region_other _ r.sq_ring region (indexed k r memory h) outside
      ∙ with_region_other memory r.sqes region (filled k r memory h sqe) other)

  -- A word outside of the SQEs that lies in another region than the submission ring, or between the tail and the
  -- index array of the ring, stays as it was.
  pub pushed_apart :
      (sqe : IoUringSqe) (region offset : ℕ)
      → region ≢ r.sqes
      → ((region ≢ r.sq_ring)
          ⊎ ((r.params.sq_off.tail + 4 ≤ offset) × (offset + 4 ≤ r.params.sq_off.array)))
      → word offset (pushed k r memory h sqe region) ≡ word offset (memory region)
  pushed_apart sqe region offset other (inl outside) = outside_apart sqe region offset other outside
  pushed_apart sqe region offset other (inr (behind, before)) =
      elim (Bool-cases (region == r.sq_ring)) [
        | inr differs ↦ outside_apart sqe region offset other (λ e. ground arith)
        | inl same ↦
            let here : region ≡ r.sq_ring = ground arith in
            rw here (
              ap (word offset) (pushed-ring k r memory h sqe) ∙ advanced_apart offset behind before)
      ]
