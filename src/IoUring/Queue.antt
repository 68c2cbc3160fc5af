-- ===== src/IoUring/Queue.antt =====
-- The submission side: a request goes into the slot that the tail points to, or is refused.
pub mod Apart
use native.Mathlib.Nat.{mod-lt}
use go_systems_lab.Prelude.{
  ℕ, ◌+◌, ◌-◌, ◌*◌, ◌%◌, ◌^◌, ◌≡◌, ◌≢◌, ◌≤◌, ◌<◌, refl, sym, ap, ◌∙◌, true, false, leb,
  if◌then◌else◌, Bool-cases, ◌⊎◌, inl, inr, ◌==◌, ok, err, length, take, drop, arith,
}
use go_systems_lab.Prelude.Prog.{and_then}
use go_systems_lab.Bits.{bit_and_ones, pow2_pos}
use go_systems_lab.Bytes.{Bytes}
use go_systems_lab.Bytes.Blit.{
  blit, length-blit, take-drop-blit_self, take-drop-blit_before, drop-blit_after,
}
use go_systems_lab.Bytes.Endian.{
  le_value, le_bytes, length-le_bytes, le_value-le_bytes, load_le-eq-ok, store_le-eq-ok,
}
use go_systems_lab.IoUring.Types.{Error, queue_full, IoUringSqe, RingMapping, encode_sqe}
use go_systems_lab.IoUring.Memory.{Memory, with_region, load_uint32, store_uint32, store_sqe}
use go_systems_lab.IoUring.Submit.{Enter, push_sqe, enter_and_wait, submit_and_wait}

-- The uint32 at an offset of a region.
abbrev pub word : ℕ → Bytes → ℕ
word offset bytes = le_value (take 4 (drop offset bytes))

-- The submission ring of 2 ^ k entries as the kernel lays it out: four words in order, the index
-- array behind them, all within the mapping, which is smaller than 4 GiB, and the SQEs in a region of
-- their own.
pub record IsSubmissionRing (k : ℕ) (r : RingMapping) (memory : Memory) : Type 0 where
  pub head_tail : r.params.sq_off.head + 4 ≤ r.params.sq_off.tail
  pub tail_mask : r.params.sq_off.tail + 4 ≤ r.params.sq_off.ring_mask
  pub mask_entries : r.params.sq_off.ring_mask + 4 ≤ r.params.sq_off.ring_entries
  pub entries_array : r.params.sq_off.ring_entries + 4 ≤ r.params.sq_off.array
  pub array_fits : r.params.sq_off.array + 2 ^ k * 4 ≤ length (memory r.sq_ring)
  pub ring_small : length (memory r.sq_ring) < 2 ^ 32
  pub sqes_fit : 2 ^ k * 64 ≤ length (memory r.sqes)
  pub mask_is : word r.params.sq_off.ring_mask (memory r.sq_ring) ≡ 2 ^ k - 1
  pub entries_are : word r.params.sq_off.ring_entries (memory r.sq_ring) ≡ 2 ^ k
  pub apart : r.sqes ≢ r.sq_ring

-- The two counters of the submission ring, and how many requests are in it.
abbrev pub sq_head : RingMapping → Memory → ℕ
sq_head r memory = word r.params.sq_off.head (memory r.sq_ring)

abbrev pub sq_tail : RingMapping → Memory → ℕ
sq_tail r memory = word r.params.sq_off.tail (memory r.sq_ring)

abbrev pub in_flight : RingMapping → Memory → ℕ
in_flight r memory = (sq_tail r memory + 2 ^ 32 - sq_head r memory) % 2 ^ 32

pub with_region_self : (m : Memory) (r : ℕ) (b : Bytes) → with_region m r b r ≡ b
unfolding with_region
with_region_self m r b = ground arith

pub with_region_other : (m : Memory) (r s : ℕ) (b : Bytes) → s ≢ r → with_region m r b s ≡ m s
unfolding with_region
with_region_other m r s b h = ground arith

pub length-encode_sqe : (sqe : IoUringSqe) → length (encode_sqe sqe) ≡ 64
unfolding encode_sqe le_bytes
length-encode_sqe sqe = refl

module _ (k : ℕ) (r : RingMapping) (memory : Memory) (h : IsSubmissionRing k r memory) where
  pub ring_loads :
      (offset : ℕ)
      → offset + 4 ≤ r.params.sq_off.array
      → load_uint32 r.sq_ring offset memory ≡ ok (word offset (memory r.sq_ring))
  unfolding load_uint32
  ring_loads offset b =
      load_le-eq-ok {E = Error} 4 offset (memory r.sq_ring) (omega (arith, h.array_fits))

  -- The four loads of `submitAndWait` and its test.
  submit_and_wait-test :
      (enter : Enter) (sqe : IoUringSqe)
      → submit_and_wait enter r sqe memory ≡ (
          if leb (2 ^ k) (in_flight r memory)
          then (memory, err queue_full)
          else and_then
              (push_sqe r (sq_tail r memory) (sq_tail r memory % 2 ^ k) sqe memory)
              (λ _. enter_and_wait enter r))
  unfolding submit_and_wait
  submit_and_wait-test enter sqe =
      rw
        (
          ring_loads r.params.sq_off.head
              (omega (arith, h.head_tail, h.tail_mask, h.mask_entries, h.entries_array)),
          ring_loads r.params.sq_off.tail
              (omega (arith, h.tail_mask, h.mask_entries, h.entries_array)),
          ring_loads r.params.sq_off.ring_mask (omega (arith, h.mask_entries, h.entries_array)),
          ring_loads r.params.sq_off.ring_entries (omega (arith, h.entries_array)),
          h.mask_is,
          h.entries_are,
          bit_and_ones k (sq_tail r memory),
        )
        (elim (Bool-cases (leb (2 ^ k) (in_flight r memory))) [
          | inl full ↦ rw full
          | inr room ↦ rw room
        ])

  -- The bytes of the ring after the store into the index array, and after that of the tail.
  indexed : Bytes
  indexed =
      blit (r.params.sq_off.array + sq_tail r memory % 2 ^ k * 4)
        (le_bytes 4 (sq_tail r memory % 2 ^ k)) (memory r.sq_ring)

  advanced : Bytes
  advanced = blit r.params.sq_off.tail (le_bytes 4 ((sq_tail r memory + 1) % 2 ^ 32)) indexed

  filled : IoUringSqe → Bytes
  filled sqe = blit (sq_tail r memory % 2 ^ k * 64) (encode_sqe sqe) (memory r.sqes)

  pub pushed : IoUringSqe → Memory
  pushed sqe =
      with_region (with_region (with_region memory r.sqes (filled sqe)) r.sq_ring indexed) r.sq_ring
        advanced

  slot-lt : sq_tail r memory % 2 ^ k < 2 ^ k
  slot-lt = mod-lt (sq_tail r memory) (pow2_pos k)

  push_sqe-eq-pushed :
      (sqe : IoUringSqe)
      → push_sqe r (sq_tail r memory) (sq_tail r memory % 2 ^ k) sqe memory ≡ (pushed sqe, ok tt)
  unfolding push_sqe store_sqe store_uint32 pushed filled indexed advanced
  push_sqe-eq-pushed sqe =
      let slot : ℕ = sq_tail r memory % 2 ^ k in
      let low : slot < 2 ^ k = slot-lt in
      let room = h.array_fits in
      let fit : leb (slot * 64 + 64) (length (memory r.sqes)) ≡ true = ground (arith, h.sqes_fit) in
      let ring : with_region memory r.sqes (filled sqe) r.sq_ring ≡ memory r.sq_ring =
        with_region_other memory r.sqes r.sq_ring (filled sqe) (λ e. h.apart (sym e)) in
      let wrap : (r.params.sq_off.array + slot * 4) % 2 ^ 32 ≡ r.params.sq_off.array + slot * 4 =
        omega (arith, h.ring_small) in
      rw (
        fit,
        ring,
        wrap,
        store_le-eq-ok {E = Error} 4 (r.params.sq_off.array + slot * 4) slot (memory r.sq_ring)
            (omega arith),
        with_region_self (with_region memory r.sqes (filled sqe)) r.sq_ring indexed,
        store_le-eq-ok {E = Error} 4 r.params.sq_off.tail ((sq_tail r memory + 1) % 2 ^ 32) indexed
            (omega (arith, length-blit {0}, h.tail_mask, h.mask_entries, h.entries_array)),
      )

  pub submit_and_wait_room :
      (enter : Enter) (sqe : IoUringSqe)
      → in_flight r memory < 2 ^ k
      → submit_and_wait enter r sqe memory ≡ enter_and_wait enter r (pushed sqe)
  submit_and_wait_room enter sqe room =
      let test : leb (2 ^ k) (in_flight r memory) ≡ false = ground arith in
      submit_and_wait-test enter sqe ∙ rw (test, push_sqe-eq-pushed sqe)

  pushed-ring : (sqe : IoUringSqe) → pushed sqe r.sq_ring ≡ advanced
  unfolding pushed
  pushed-ring sqe = with_region_self _ r.sq_ring advanced

  pushed-sqes : (sqe : IoUringSqe) → pushed sqe r.sqes ≡ filled sqe
  unfolding pushed
  pushed-sqes sqe =
      with_region_other _ r.sq_ring r.sqes advanced h.apart
      ∙ with_region_other _ r.sq_ring r.sqes indexed h.apart
      ∙ with_region_self memory r.sqes (filled sqe)

  advanced_tail : word r.params.sq_off.tail advanced ≡ (sq_tail r memory + 1) % 2 ^ 32
  unfolding advanced indexed
  advanced_tail =
      ap le_value (
        take-drop-blit_self r.params.sq_off.tail 4 _ _ (sym (length-le_bytes 4 _)) (
          omega (
            arith,
            length-le_bytes 4 ((sq_tail r memory + 1) % 2 ^ 32),
            length-blit {0},
            h.tail_mask,
            h.mask_entries,
            h.entries_array,
            h.array_fits,
          )))
      ∙ le_value-le_bytes 4 _ (omega arith)

  advanced_head : word r.params.sq_off.head advanced ≡ sq_head r memory
  unfolding advanced indexed
  advanced_head = ap le_value (
      take-drop-blit_before r.params.sq_off.head 4 r.params.sq_off.tail _ _ h.head_tail
      ∙ take-drop-blit_before r.params.sq_off.head 4 _ _ _
          (omega (arith, h.head_tail, h.tail_mask, h.mask_entries, h.entries_array)))

  advanced_array :
      word (r.params.sq_off.array + sq_tail r memory % 2 ^ k * 4) advanced
      ≡ sq_tail r memory % 2 ^ k
  unfolding advanced indexed
  advanced_array =
      let low : sq_tail r memory % 2 ^ k < 2 ^ k = slot-lt in
      let at = r.params.sq_off.array + sq_tail r memory % 2 ^ k * 4 in
      ap le_value (
        ap (take 4) (
          drop-blit_after at r.params.sq_off.tail _ _ (
            omega (
              arith,
              length-le_bytes 4 ((sq_tail r memory + 1) % 2 ^ 32),
              h.tail_mask,
              h.mask_entries,
              h.entries_array,
            )))
        ∙ take-drop-blit_self at 4 _ _ (sym (length-le_bytes 4 _))
            (omega (arith, length-le_bytes 4 (sq_tail r memory % 2 ^ k), h.array_fits)))
      ∙ le_value-le_bytes 4 _ (omega (arith, h.array_fits, h.ring_small))

  filled_slot :
      (sqe : IoUringSqe)
      → take 64 (drop (sq_tail r memory % 2 ^ k * 64) (filled sqe)) ≡ encode_sqe sqe
  unfolding filled
  filled_slot sqe =
      let low : sq_tail r memory % 2 ^ k < 2 ^ k = slot-lt in
      take-drop-blit_self _ 64 (encode_sqe sqe) _ (sym (length-encode_sqe sqe))
        (omega (arith, length-encode_sqe sqe, h.sqes_fit))

  -- What a request has changed of the submission side.
  pub pushed_holds :
      (sqe : IoUringSqe)
      → (take 64 (drop (sq_tail r memory % 2 ^ k * 64) (pushed sqe r.sqes)) ≡ encode_sqe sqe)
        × (word (r.params.sq_off.array + sq_tail r memory % 2 ^ k * 4) (pushed sqe r.sq_ring)
            ≡ sq_tail r memory % 2 ^ k)
        × (sq_tail r (pushed sqe) ≡ (sq_tail r memory + 1) % 2 ^ 32)
        × (sq_head r (pushed sqe) ≡ sq_head r memory)
  pushed_holds sqe = (
    rw (pushed-sqes sqe) (filled_slot sqe),
    rw (pushed-ring sqe) advanced_array,
    rw (pushed-ring sqe) advanced_tail,
    rw (pushed-ring sqe) advanced_head,
  )

  -- With room in the ring, the kernel is entered on a memory in which the slot of the tail (modulo the
  -- number of entries) holds the request, the index array names that slot, the tail is one further
  -- (modulo 2 ^ 32) and the head is as it was; what the kernel leaves decides the rest.
  pub submit_and_wait_pushes :
      (enter : Enter) (sqe : IoUringSqe)
      → in_flight r memory < 2 ^ k
      → (given : Memory) × (submit_and_wait enter r sqe memory ≡ enter_and_wait enter r given)
        × (take 64 (drop (sq_tail r memory % 2 ^ k * 64) (given r.sqes)) ≡ encode_sqe sqe)
        × (word (r.params.sq_off.array + sq_tail r memory % 2 ^ k * 4) (given r.sq_ring)
            ≡ sq_tail r memory % 2 ^ k)
        × (sq_tail r given ≡ (sq_tail r memory + 1) % 2 ^ 32)
        × (sq_head r given ≡ sq_head r memory)
  submit_and_wait_pushes enter sqe room =
      let (slot, named, tail, head) = pushed_holds sqe in
      (pushed sqe, submit_and_wait_room enter sqe room, slot, named, tail, head)
