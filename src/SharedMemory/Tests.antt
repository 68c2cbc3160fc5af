-- ===== src/SharedMemory/Tests.antt =====
-- Runs of labs/10-shared-memory-mmap/main.go at concrete mappings, and the theorems at them.
use go_systems_lab.Prelude.{
  ℕ, zero, ◌+◌, ◌≡◌, ◌≤◌, refl, arith, [], ◌∷◌, ◌≢◌, ◌⊎◌, ◌<◌, ◌%◌, ◌^◌, panic, ok, length,
  replicate, length-replicate, true, false,
}
use go_systems_lab.Prelude.Int.{pos, to_u64, of_u64}
use go_systems_lab.Prelude.Prog.{◌>>◌}
use go_systems_lab.Bytes.{Bytes, codes, slice, slice_from, equal}
use go_systems_lab.Bytes.Blit.{blit}
use go_systems_lab.Bytes.Endian.{load_le, store_le, le_value, le_bytes}
use go_systems_lab.SharedMemory.Layout.{
  SharedMessage, payload_too_large, clear, copy_to, mapping_size, invalid_mapping, has_valid_header,
  read_message,
}
use go_systems_lab.SharedMemory.Store.{init_mapping, write_fields, write_message}
use go_systems_lab.SharedMemory.RoundTrip.{next_sequence}
use go_systems_lab.SharedMemory.Contract.{
  read_message-init_mapping, read_message-write_message, write_message_failed, messages-ne-panic,
}
use go_systems_lab.SharedMemory.Session.{write_all, read_message-write_all}
use go_systems_lab.SharedMemory.Watch.{run_watch, numbered, changes, run_watch-changes}

abbrev zeros : Bytes
zeros = replicate 4096 0

zeros_long : mapping_size ≤ length zeros
zeros_long = omega (arith, length-replicate 4096 zero)

-- A fresh mapping.
fresh : Bytes
fresh = (init_mapping zeros).0

fresh_valid : has_valid_header fresh ≡ ok true
unfolding fresh
fresh_valid = (read_message-init_mapping zeros zeros_long).2

fresh_reads : read_message fresh ≡ ok (record { sequence = 0; timestamp = pos 0; payload = [] })
unfolding fresh
fresh_reads = (read_message-init_mapping zeros zeros_long).3

read_message-write_message_example :
    ((write_message (codes "hello") (pos 5) fresh).1
      ≡ ok (record { sequence = next_sequence fresh; timestamp = pos 5; payload = codes "hello" }))
    × (read_message (write_message (codes "hello") (pos 5) fresh).0
        ≡ ok
            (record { sequence = next_sequence fresh; timestamp = pos 5; payload = codes "hello" }))
    × (has_valid_header (write_message (codes "hello") (pos 5) fresh).0 ≡ ok true)
read_message-write_message_example =
    read_message-write_message (codes "hello") (pos 5) fresh fresh_valid (omega arith) (omega arith)

-- The bytes of a first message, and what a reader makes of them.
first_message :
    read_message (write_message (codes "hello") (pos 5) fresh).0
    ≡ ok (record { sequence = 1; timestamp = pos 5; payload = codes "hello" })
unfolding fresh init_mapping write_message write_fields has_valid_header read_message copy_to
    slice_from slice clear equal load_le store_le blit le_value le_bytes to_u64 of_u64
first_message = refl

no_header : has_valid_header zeros ≡ ok false
unfolding has_valid_header slice equal load_le le_value
no_header = refl

write_message_failed_example :
    ((write_message (codes "hello") (pos 5) zeros).0 ≡ zeros)
    × (((has_valid_header zeros ≡ ok false) × (invalid_mapping ≡ invalid_mapping))
        ⊎ ((has_valid_header zeros ≡ ok true)
            × (4032 < length (codes "hello"))
            × (invalid_mapping ≡ payload_too_large (length (codes "hello")) 4032)))
write_message_failed_example =
    write_message_failed (codes "hello") (pos 5) zeros (unfold write_message in rw no_header)

messages-ne-panic_example :
    (read_message (1 ∷ 2 ∷ []) ≢ panic)
    × ((write_message (codes "x") (pos 5) (1 ∷ 2 ∷ [])).1 ≢ panic)
messages-ne-panic_example = messages-ne-panic (codes "x") (pos 5) (1 ∷ 2 ∷ [])

read_message-write_all_example :
    read_message
      ((init_mapping
          >> (write_all ((codes "a", pos 1) ∷ (codes "b", pos 2) ∷ [])
              >> write_message (codes "c") (pos 3)))
        zeros).0
    ≡ ok (record { sequence = (2 + 1) % 2 ^ 64; timestamp = pos 3; payload = codes "c" })
read_message-write_all_example =
    read_message-write_all ((codes "a", pos 1) ∷ (codes "b", pos 2) ∷ []) (codes "c") (pos 3) zeros
      zeros_long (omega arith) (omega arith) (omega arith)

abbrev message : ℕ → SharedMessage
message n = record { sequence = n; timestamp = pos 0; payload = [] }

run_watch-changes_example :
    run_watch (fresh ∷ fresh ∷ []) ≡ (changes 0 (numbered (message 0 ∷ message 0 ∷ [])), ok tt)
run_watch-changes_example =
    run_watch-changes (fresh ∷ fresh ∷ []) (message 0 ∷ message 0 ∷ [])
      (fresh_reads, (fresh_reads, tt))
