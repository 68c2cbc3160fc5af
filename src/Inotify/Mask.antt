-- ===== src/Inotify/Mask.antt =====
-- `formatMask` and the bits of a mask.
use Prim.Native.Nat.{bit_and}
use go_systems_lab.Prelude.{
  ℕ, ◌+◌, ◌*◌, ◌%◌, ◌/◌, ◌^◌, ◌≡◌, refl, ◌∙◌, ◌⊎◌, inl, inr, Bool, true, false, not, ◌==◌,
  if◌then◌else◌, arith,
}
use go_systems_lab.Bits.{bit_and_bit, pow2_pos}
use go_systems_lab.Bytes.{Bytes, codes}

abbrev pub in_access : ℕ
in_access = 0x1

abbrev pub in_modify : ℕ
in_modify = 0x2

abbrev pub in_attrib : ℕ
in_attrib = 0x4

abbrev pub in_close_write : ℕ
in_close_write = 0x8

abbrev pub in_close_nowrite : ℕ
in_close_nowrite = 0x10

abbrev pub in_open : ℕ
in_open = 0x20

abbrev pub in_moved_from : ℕ
in_moved_from = 0x40

abbrev pub in_moved_to : ℕ
in_moved_to = 0x80

abbrev pub in_create : ℕ
in_create = 0x100

abbrev pub in_delete : ℕ
in_delete = 0x200

abbrev pub in_isdir : ℕ
in_isdir = 0x40000000

-- `mask&bit != 0`
unfoldable pub has_bit : ℕ → ℕ → Bool
has_bit mask bit = not (bit_and mask bit == 0)

unfoldable pub format_mask : ℕ → Bytes
format_mask mask =
    if has_bit mask in_access
    then codes "ACCESS/READ"
    else if has_bit mask in_open
    then codes "OPEN"
    else if has_bit mask in_close_write
    then codes "CLOSE_WRITE"
    else if has_bit mask in_close_nowrite
    then codes "CLOSE_READ"
    else if has_bit mask in_modify
    then codes "MODIFY"
    else if has_bit mask in_create
    then codes "CREATE"
    else if has_bit mask in_delete
    then codes "DELETE"
    else if has_bit mask in_moved_from
    then codes "MOVE_OUT"
    else if has_bit mask in_moved_to
    then codes "MOVE_IN"
    else if has_bit mask in_attrib
    then codes "ATTRIB"
    else codes "EVENT"

-- What can happen to a watched path, as inotify(7) lists it.
pub data Kind : Type 0 where
  accessed modified attrib close_write close_nowrite open_file moved_from moved_to created deleted :
      Kind

-- The number of its bit.
abbrev pub bit_of : Kind → ℕ
bit_of accessed = 0
bit_of modified = 1
bit_of attrib = 2
bit_of close_write = 3
bit_of close_nowrite = 4
bit_of open_file = 5
bit_of moved_from = 6
bit_of moved_to = 7
bit_of created = 8
bit_of deleted = 9

abbrev pub label : Kind → Bytes
label accessed = codes "ACCESS/READ"
label modified = codes "MODIFY"
label attrib = codes "ATTRIB"
label close_write = codes "CLOSE_WRITE"
label close_nowrite = codes "CLOSE_READ"
label open_file = codes "OPEN"
label moved_from = codes "MOVE_OUT"
label moved_to = codes "MOVE_IN"
label created = codes "CREATE"
label deleted = codes "DELETE"

-- The mask of a notice: one event, and flags (such as IN_ISDIR) from bit 13 on.
abbrev pub mask_of : Kind → ℕ → ℕ
mask_of kind flags = 2 ^ bit_of kind + 2 ^ 13 * flags

has_bit-eq : (k mask : ℕ) → has_bit mask (2 ^ k) ≡ (mask / 2 ^ k % 2 == 1)
unfolding has_bit
has_bit-eq k mask =
    let digit : ℕ = mask / 2 ^ k % 2 in
    let value : bit_and mask (2 ^ k) ≡ digit * 2 ^ k = bit_and_bit k mask in
    let two : (digit ≡ 0) ⊎ (digit ≡ 1) = omega arith in
    elim two [
      | inl e ↦ let clear : (0 * 2 ^ k == 0) ≡ true = ground arith in rw (value, e, clear) refl
      | inr e ↦
          let one : (1 * 2 ^ k == 0) ≡ false = ground (arith, pow2_pos k) in rw (value, e, one) refl
    ]

-- The bits of a mask of one event.
has_bit-mask_of :
    (k : ℕ) (kind : Kind) (flags : ℕ)
    → ((mask_of kind flags / 2 ^ k % 2 == 1) ≡ (k == bit_of kind))
    → has_bit (mask_of kind flags) (2 ^ k) ≡ (k == bit_of kind)
has_bit-mask_of k kind flags h = has_bit-eq k (mask_of kind flags) ∙ h

-- A mask with the bit of one event, and any flags from bit 13 on, is printed under the name of this
-- event.
pub format_mask-mask_of : (kind : Kind) (flags : ℕ) → format_mask (mask_of kind flags) ≡ label kind
unfolding format_mask
format_mask-mask_of accessed flags = rw (has_bit-mask_of 0 accessed flags (ground arith)) refl
format_mask-mask_of kind flags = ground (
  arith,
  has_bit-mask_of 0 kind flags (ground arith),
  has_bit-mask_of 1 kind flags (ground arith),
  has_bit-mask_of 2 kind flags (ground arith),
  has_bit-mask_of 3 kind flags (ground arith),
  has_bit-mask_of 4 kind flags (ground arith),
  has_bit-mask_of 5 kind flags (ground arith),
  has_bit-mask_of 6 kind flags (ground arith),
  has_bit-mask_of 7 kind flags (ground arith),
  has_bit-mask_of 8 kind flags (ground arith),
  has_bit-mask_of 9 kind flags (ground arith),
)
