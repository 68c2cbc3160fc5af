-- ===== src/IoUring/Completion.antt =====
-- The completion side: `waitCompletion` takes the entry at the head, or reports an empty queue.
use native.Mathlib.Nat.{mod-lt}
use go_systems_lab.Prelude.{
  ℕ, ◌+◌, ◌-◌, ◌*◌, ◌%◌, ◌^◌, ◌≡◌, ◌≢◌, ◌≤◌, ◌<◌, sym, ap, ◌∙◌, true, false, ◌==◌, ok, err, length,
  take, drop, arith,
}
use go_systems_lab.Prelude.Int.{of_u32}
use go_systems_lab.Bits.{bit_and_ones, pow2_pos}
use go_systems_lab.Bytes.{Bytes}
use go_systems_lab.Bytes.Blit.{blit, take-drop-blit_self, drop-blit_after}
use go_systems_lab.Bytes.Endian.{
  le_value, le_bytes, length-le_bytes, le_value-le_bytes, load_le-eq-ok, store_le-eq-ok,
}
use go_systems_lab.IoUring.Types.{Error, queue_empty, IoUringCqe, RingMapping}
use go_systems_lab.IoUring.Memory.{Memory, with_region, load_uint32, store_uint32, load_cqe}
use go_systems_lab.IoUring.Submit.{wait_completion}
use go_systems_lab.IoUring.Queue.{word, with_region_self}

-- The completion ring of 2 ^ k entries: four words in order and the CQEs behind them.
pub record IsCompletionRing (k : ℕ) (r : RingMapping) (memory : Memory) : Type 0 where
  pub head_tail : r.params.cq_off.head + 4 ≤ r.params.cq_off.tail
  pub tail_mask : r.params.cq_off.tail + 4 ≤ r.params.cq_off.ring_mask
  pub mask_cqes : r.params.cq_off.ring_mask + 4 ≤ r.params.cq_off.cqes
  pub cqes_fit : r.params.cq_off.cqes + 2 ^ k * 16 ≤ length (memory r.cq_ring)
  pub mask_is : word r.params.cq_off.ring_mask (memory r.cq_ring) ≡ 2 ^ k - 1

abbrev pub cq_head : RingMapping → Memory → ℕ
cq_head r memory = word r.params.cq_off.head (memory r.cq_ring)

abbrev pub cq_tail : RingMapping → Memory → ℕ
cq_tail r memory = word r.params.cq_off.tail (memory r.cq_ring)

-- The CQE at an offset.
abbrev pub cqe_in : ℕ → Bytes → IoUringCqe
cqe_in offset bytes = record {
  user_data = le_value (take 8 (drop offset bytes));
  res = of_u32 (word (offset + 8) bytes);
  flags = word (offset + 12) bytes;
}

module _ (k : ℕ) (r : RingMapping) (memory : Memory) (h : IsCompletionRing k r memory) where
  ring_loads :
      (offset : ℕ)
      → offset + 4 ≤ r.params.cq_off.cqes
      → load_uint32 r.cq_ring offset memory ≡ ok (word offset (memory r.cq_ring))
  unfolding load_uint32
  ring_loads offset b =
      load_le-eq-ok {E = Error} 4 offset (memory r.cq_ring) (omega (arith, h.cqes_fit))

  loads_cqe :
      (slot : ℕ)
      → slot < 2 ^ k
      → load_cqe r.cq_ring r.params.cq_off.cqes slot memory
        ≡ ok (cqe_in (r.params.cq_off.cqes + slot * 16) (memory r.cq_ring))
  unfolding load_cqe
  loads_cqe slot low = rw (
    load_le-eq-ok {E = Error} 8 (r.params.cq_off.cqes + slot * 16) (memory r.cq_ring)
        (omega (arith, h.cqes_fit)),
    load_le-eq-ok {E = Error} 4 (r.params.cq_off.cqes + slot * 16 + 8) (memory r.cq_ring)
        (omega (arith, h.cqes_fit)),
    load_le-eq-ok {E = Error} 4 (r.params.cq_off.cqes + slot * 16 + 12) (memory r.cq_ring)
        (omega (arith, h.cqes_fit)),
  )

  taken : Memory
  taken =
      with_region memory r.cq_ring (
        blit r.params.cq_off.head (le_bytes 4 ((cq_head r memory + 1) % 2 ^ 32)) (memory r.cq_ring))

  stores_head :
      store_uint32 r.cq_ring r.params.cq_off.head ((cq_head r memory + 1) % 2 ^ 32) memory
      ≡ ok taken
  unfolding store_uint32 taken
  stores_head = rw (
      store_le-eq-ok {E = Error} 4 r.params.cq_off.head ((cq_head r memory + 1) % 2 ^ 32)
        (memory r.cq_ring) (omega (arith, h.head_tail, h.tail_mask, h.mask_cqes, h.cqes_fit)))

  -- An empty queue is reported and nothing is written.
  pub wait_completion_empty :
      cq_head r memory ≡ cq_tail r memory → wait_completion r memory ≡ (memory, err queue_empty)
  unfolding wait_completion
  wait_completion_empty e =
      let test : (cq_head r memory == cq_tail r memory) ≡ true = ground arith in
      rw (
        ring_loads r.params.cq_off.head (omega (arith, h.head_tail, h.tail_mask, h.mask_cqes)),
        ring_loads r.params.cq_off.tail (omega (arith, h.tail_mask, h.mask_cqes)),
        test,
      )

  wait_completion-eq :
      cq_head r memory ≢ cq_tail r memory
      → wait_completion r memory ≡ (
        taken,
        ok (cqe_in (r.params.cq_off.cqes + cq_head r memory % 2 ^ k * 16) (memory r.cq_ring)),
      )
  unfolding wait_completion
  wait_completion-eq ne =
      let test : (cq_head r memory == cq_tail r memory) ≡ false = ground arith in
      let low : cq_head r memory % 2 ^ k < 2 ^ k = mod-lt (cq_head r memory) (pow2_pos k) in
      rw (
        ring_loads r.params.cq_off.head (omega (arith, h.head_tail, h.tail_mask, h.mask_cqes)),
        ring_loads r.params.cq_off.tail (omega (arith, h.tail_mask, h.mask_cqes)),
        test,
        ring_loads r.params.cq_off.ring_mask (omega (arith, h.mask_cqes)),
        h.mask_is,
        bit_and_ones k (cq_head r memory),
        loads_cqe (cq_head r memory % 2 ^ k) low,
        stores_head,
      )

  taken-ring :
      taken r.cq_ring
      ≡ blit r.params.cq_off.head (le_bytes 4 ((cq_head r memory + 1) % 2 ^ 32)) (memory r.cq_ring)
  unfolding taken
  taken-ring = with_region_self memory r.cq_ring _

  taken_behind :
      (offset : ℕ)
      → r.params.cq_off.tail ≤ offset
      → drop offset (taken r.cq_ring) ≡ drop offset (memory r.cq_ring)
  taken_behind offset b = rw taken-ring (
      drop-blit_after offset r.params.cq_off.head _ _
        (omega (arith, length-le_bytes 4 ((cq_head r memory + 1) % 2 ^ 32), h.head_tail)))

  taken_head : cq_head r taken ≡ (cq_head r memory + 1) % 2 ^ 32
  taken_head =
      rw taken-ring (
        ap le_value (
          take-drop-blit_self r.params.cq_off.head 4 _ _ (sym (length-le_bytes 4 _)) (
            omega (
              arith,
              length-le_bytes 4 ((cq_head r memory + 1) % 2 ^ 32),
              h.head_tail,
              h.tail_mask,
              h.mask_cqes,
              h.cqes_fit,
            ))))
      ∙ le_value-le_bytes 4 _ (omega arith)

  -- Where the queue is not empty, `waitCompletion` returns the entry that the head (modulo the number of
  -- entries) points to and moves the head one further (modulo 2 ^ 32); the tail and all entries
  -- stay as they were.
  pub wait_completion_takes :
      cq_head r memory ≢ cq_tail r memory
      → (left : Memory) × (wait_completion r memory ≡ (
        left,
        ok (cqe_in (r.params.cq_off.cqes + cq_head r memory % 2 ^ k * 16) (memory r.cq_ring)),
      ))
        × (cq_head r left ≡ (cq_head r memory + 1) % 2 ^ 32)
        × (cq_tail r left ≡ cq_tail r memory)
        × (drop r.params.cq_off.cqes (left r.cq_ring)
            ≡ drop r.params.cq_off.cqes (memory r.cq_ring))
  wait_completion_takes ne = (
    taken,
    wait_completion-eq ne,
    taken_head,
    ap le_value (ap (take 4) (taken_behind r.params.cq_off.tail (omega arith))),
    taken_behind r.params.cq_off.cqes (omega (arith, h.tail_mask, h.mask_cqes)),
  )
