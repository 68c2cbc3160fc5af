-- ===== src/SharedMemory/Layout.antt =====
-- The layout of the mapping and what reads it: `hasValidHeader` and `readMessage` of
-- labs/10-shared-memory-mmap/main.go.
use go_systems_lab.Prelude.{
  ℕ, ◌+◌, ◌-◌, Bool, false, not, map, ◌==◌, ltb, if◌then◌else◌, Result, ok, err, ◌>>=◌, ◌>>◌,
  length,
}
use go_systems_lab.Prelude.Int.{ℤ, of_u64}
use go_systems_lab.Bytes.{Bytes, codes, equal, slice, slice_from}
use go_systems_lab.Bytes.Blit.{blit}
use go_systems_lab.Bytes.Endian.{load_le}

abbrev pub mapping_size : ℕ
mapping_size = 4096

abbrev pub magic_value : Bytes
magic_value = codes "MMAPIPC1"

abbrev pub layout_version : ℕ
layout_version = 1

abbrev pub magic_offset : ℕ
magic_offset = 0

abbrev pub version_offset : ℕ
version_offset = 8

abbrev pub seq_offset : ℕ
seq_offset = 16

abbrev pub time_offset : ℕ
time_offset = 24

abbrev pub len_offset : ℕ
len_offset = 32

abbrev pub payload_offset : ℕ
payload_offset = 64

pub record SharedMessage : Type 0 where
  pub sequence : ℕ
  pub timestamp : ℤ
  pub payload : Bytes

pub data Error : Type 0 where
  invalid_mapping : Error
  -- "payload is %d bytes; max is %d"
  payload_too_large : ℕ → ℕ → Error
  -- "payload length %d exceeds mapping payload area"
  length_too_large : ℕ → Error

abbrev pub max_payload_size : ℕ
max_payload_size = mapping_size - payload_offset

-- `clear(mapping)`.
unfoldable pub clear : Bytes → Bytes
clear = map (λ _. 0)

-- `copy(mapping[off:off+n], src)`, and `copy(mapping[off:], src)`.
unfoldable pub copy_to : ℕ → Bytes → Bytes → Result Error Bytes
copy_to off src mapping = slice_from off mapping >> ok (blit off src mapping)

unfoldable pub has_valid_header : Bytes → Result Error Bool
has_valid_header mapping = if ltb (length mapping) mapping_size then ok false else do
  magic ← slice magic_offset (magic_offset + length magic_value) mapping
  if not (equal magic magic_value)
      then ok false
      else do version ← load_le 4 version_offset mapping; ok (version == layout_version)

-- `readMessage` behind its header test.
unfoldable pub read_fields : Bytes → Result Error SharedMessage
read_fields mapping = do
  len ← load_le 4 len_offset mapping
  if ltb max_payload_size len then err (length_too_large len) else do
    nanos ← load_le 8 time_offset mapping
    sequence ← load_le 8 seq_offset mapping
    payload ← slice payload_offset (payload_offset + len) mapping
    ok (record { sequence = sequence; timestamp = of_u64 nanos; payload = payload })

unfoldable pub read_message : Bytes → Result Error SharedMessage
unfolding read_fields
read_message mapping = do
  valid ← has_valid_header mapping
  if not valid then err invalid_mapping else read_fields mapping
