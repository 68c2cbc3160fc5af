-- ===== src/SharedMemory/Runs.antt =====
-- Commands on a file that is not there, and the theorems on them.
use go_systems_lab.Prelude.{◌≤◌, ◌≡◌, refl, inl, inr, none, some, [], ◌∷◌, ok, err, length, arith}
use go_systems_lab.Prelude.Int.{pos}
use go_systems_lab.Bytes.{Bytes, codes, has_prefix}
use go_systems_lab.Text.Split.{split, contains}
use go_systems_lab.SharedMemory.Layout.{SharedMessage, max_payload_size}
use go_systems_lab.SharedMemory.Files.{
  World, failed, too_small, content_of, truncated, opened, open_shared_mapping, map_opened,
  truncate_file, check_size, map_file, with_mapping,
}
use go_systems_lab.SharedMemory.Commands.{
  message_of, join_spaced, run_write, run_read, find_current_process_mappings, lines_with,
  Surroundings, main_process,
}
use go_systems_lab.SharedMemory.Delivery.{no_faults, number_after, run_read-run_write}
use go_systems_lab.SharedMemory.Balance.{SameHeld, main_process-SameHeld}

abbrev missing : World
missing = record { file = none; descriptors = 3; mappings = 0 }

-- `read` does not make the file.
read_missing : run_read no_faults missing ≡ (missing, err (failed 2))
unfolding run_read with_mapping open_shared_mapping opened
read_missing = refl

-- A file that is too short is closed again.
read_short :
    run_read no_faults (record missing { file = some (codes "MMAP") })
    ≡ (record missing { file = some (codes "MMAP") }, err (too_small 4))
unfolding run_read with_mapping open_shared_mapping opened map_opened truncate_file check_size
    map_file
read_short = refl

joined : message_of (codes "a" ∷ codes "b" ∷ []) ≡ codes "a b"
unfolding message_of join_spaced
joined = refl

abbrev maps_text : Bytes
maps_text = codes "7f00-7f01 rw-s 00000000 08:01 9 /lab/shared-memory.bin\n7f02-7f03 r--p"

maps_entry :
    find_current_process_mappings (inr (codes "/lab/shared-memory.bin")) (inr maps_text)
    ≡ ok (codes "7f00-7f01 rw-s 00000000 08:01 9 /lab/shared-memory.bin" ∷ [])
unfolding find_current_process_mappings lines_with split contains has_prefix
maps_entry = refl

-- The third call fails.
abbrev faulty : Surroundings
faulty = record {
  faults = record no_faults { truncate = some 28 };
  now = pos 9;
  ticks = [];
  address = 4096;
  path = inr (codes "/lab/shared-memory.bin");
  maps = inl 2;
}

main_process-SameHeld_example :
    SameHeld missing (main_process faulty (codes "write" ∷ codes "hi" ∷ []) missing).0
main_process-SameHeld_example =
    main_process-SameHeld faulty (codes "write" ∷ codes "hi" ∷ []) missing refl

greeting_fits : length (message_of []) ≤ max_payload_size
unfolding message_of
greeting_fits = omega arith

run_read-run_write_example :
    let sent : SharedMessage = record {
      sequence = number_after (truncated (content_of missing));
      timestamp = pos 9;
      payload = message_of [];
    } in
    let after : World = (run_write no_faults [] (pos 9) missing).0 in
    ((run_write no_faults [] (pos 9) missing).1 ≡ ok sent)
    × ((run_read no_faults (record after { descriptors = 5; mappings = 0 })).1 ≡ ok sent)
run_read-run_write_example = run_read-run_write [] (pos 9) missing 5 0 greeting_fits (omega arith)
