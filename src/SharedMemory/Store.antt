-- ===== src/SharedMemory/Store.antt =====
-- What writes into the mapping: `initMapping` and `writeMessage` of
-- labs/10-shared-memory-mmap/main.go, one step for each store into the shared bytes.
use go_systems_lab.Prelude.{◌+◌, ◌%◌, ◌^◌, not, ltb, if◌then◌else◌, ok, length, drop}
use go_systems_lab.Prelude.Int.{ℤ, to_u64}
use go_systems_lab.Prelude.Prog.{Prog, ◌>>=◌, ◌>>◌, done, fail, query, update}
use go_systems_lab.Bytes.{Bytes}
use go_systems_lab.Bytes.Endian.{load_le, store_le}
use go_systems_lab.SharedMemory.Layout.{
  Error, SharedMessage, invalid_mapping, payload_too_large, magic_offset, magic_value,
  version_offset, layout_version, seq_offset, time_offset, len_offset, payload_offset,
  max_payload_size, clear, copy_to, has_valid_header,
}

unfoldable pub init_mapping : Prog Bytes Error (Unit {0})
init_mapping = do
  update (λ m. ok (clear m))
  update (copy_to magic_offset magic_value)
  update (store_le 4 version_offset layout_version)

-- `writeMessage` behind its two tests.
unfoldable pub write_fields : Bytes → ℤ → Prog Bytes Error SharedMessage
write_fields payload now = do
  old ← query (load_le 8 seq_offset)
  let seq = (old + 1) % 2 ^ 64
  update (store_le 8 seq_offset seq)
  update (store_le 8 time_offset (to_u64 now))
  update (store_le 4 len_offset (length payload % 2 ^ 32))
  update (λ m. copy_to payload_offset (clear (drop payload_offset m)) m)
  update (copy_to payload_offset payload)
  done (record { sequence = seq; timestamp = now; payload = payload })

unfoldable pub write_message : Bytes → ℤ → Prog Bytes Error SharedMessage
write_message payload now = do
  valid ← query has_valid_header
  if not valid
      then fail invalid_mapping
      else if ltb max_payload_size (length payload)
      then fail (payload_too_large (length payload) max_payload_size)
      else write_fields payload now
