-- ===== src/SharedMemory/Torn.antt =====
-- A poll of `runWatch` that falls between two stores of `writeMessage`: the two processes share the
-- bytes and nothing else, so the watcher may find the mapping after the first store.
use go_systems_lab.Bytes.{Bytes}
use go_systems_lab.Bytes.Blit.{blit}
use go_systems_lab.Bytes.Endian.{le_bytes}
use go_systems_lab.SharedMemory.RoundTrip.{next_sequence}

-- The mapping after the store of the new sequence number, before the others.
pub torn : Bytes → Bytes
torn m = blit 16 (le_bytes 8 (next_sequence m)) m
