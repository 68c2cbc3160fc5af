-- ===== src/SharedMemory/Header.antt =====
-- The header test of the mapping, and that no operation behind it is out of range.
use go_systems_lab.Prelude.{◌≡◌, ◌≤◌, ◌⊎◌, true, false, arith, ok, length, take, drop}
use go_systems_lab.Bytes.{Bytes, equal_iff, slice}
use go_systems_lab.Bytes.Endian.{load_le, le_value}
use go_systems_lab.SharedMemory.Layout.{magic_value, has_valid_header, mapping_size}

-- A mapping that `writeMessage` and `readMessage` accept.
pub record HasHeader (m : Bytes) : Type 0 where
  pub long : mapping_size ≤ length m
  pub magic : take 8 m ≡ magic_value
  pub version : le_value (take 4 (drop 8 m)) ≡ 1

pub has_valid_header-HasHeader : (m : Bytes) → has_valid_header m ≡ ok true → HasHeader m
unfolding has_valid_header slice load_le
has_valid_header-HasHeader m h = ground (arith, equal_iff (take 8 m) magic_value)

pub HasHeader-has_valid_header : {m : Bytes} → HasHeader m → has_valid_header m ≡ ok true
unfolding has_valid_header slice load_le
HasHeader-has_valid_header {m} h = ground (arith, equal_iff (take 8 m) magic_value)

-- The header test is made on every slice without a panic.
pub has_valid_header-cases :
    (m : Bytes) → (has_valid_header m ≡ ok false) ⊎ (has_valid_header m ≡ ok true)
unfolding has_valid_header slice load_le
has_valid_header-cases m = ground arith
