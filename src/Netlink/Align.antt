-- ===== src/Netlink/Align.antt =====
-- `nlAlign`.
use go_systems_lab.Prelude.{ℕ, ◌+◌, ◌-◌, ◌*◌, ◌/◌, ◌%◌, ◌^◌, ◌≡◌, ◌≤◌, ◌<◌, arith}
use go_systems_lab.Bits.{bit_and_clear_two}
use go_systems_lab.Netlink.Attributes.{nl_align}

pub nl_align-eq : (n : ℕ) → n < 2 ^ 63 → nl_align n ≡ (n + 3) / 4 * 4
unfolding nl_align
nl_align-eq n h = omega (arith, bit_and_clear_two (n + 4 - 1) (omega arith))

-- For a length that an int holds, `nlAlign` is the least multiple of 4 that is no smaller.
pub nl_align_least :
    (n m : ℕ)
    → n < 2 ^ 63
    → n ≤ m
    → m % 4 ≡ 0
    → (nl_align n % 4 ≡ 0) × (n ≤ nl_align n) × (nl_align n ≤ m)
nl_align_least n m h le mult = omega (arith, nl_align-eq n h)
