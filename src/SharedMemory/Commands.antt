-- ===== src/SharedMemory/Commands.antt =====
-- `main` and the commands of labs/10-shared-memory-mmap/main.go, each as one process that nothing else writes
-- beside. A watch whose ticks run out is taken to end there. The failures of the system, the time, the
-- address of the mapping and /proc/self/maps are parameters.
use go_systems_lab.Prelude.{
  ℕ, ◌+◌, ◌%◌, ◌^◌, ◌⊎◌, inl, inr, ◌==◌, true, false, not, if◌then◌else◌, List, [], ◌∷◌, ◌++◌,
  Result, ok, err, panic, length,
}
use go_systems_lab.Prelude.Int.{ℤ}
use go_systems_lab.Prelude.Prog.{Prog, ◌>>=◌, ◌>>◌, done, query}
use go_systems_lab.Bytes.{Bytes, codes, equal}
use go_systems_lab.Text.Split.{split, contains}
use go_systems_lab.SharedMemory.Layout.{Error, SharedMessage, has_valid_header, read_message}
use go_systems_lab.SharedMemory.Store.{init_mapping, write_message}
use go_systems_lab.SharedMemory.Watch.{run_watch}
use go_systems_lab.SharedMemory.Files.{
  World, Faults, CommandError, failed, mapping_of, lifted, in_mapping, sync_mapping,
  open_shared_mapping, close_mapping, with_mapping,
}

-- `hasValidHeader` and `initMapping` in front of a write.
unfoldable pub ensure_header : Prog Bytes Error (Unit {0})
ensure_header = do valid ← query has_valid_header; if not valid then init_mapping else done tt

unfoldable pub run_init : Faults → Prog World CommandError (Unit {0})
run_init faults =
    with_mapping faults true (do in_mapping init_mapping; λ w. sync_mapping faults (mapping_of w) w)

-- `strings.Join(args, " ")`
unfoldable pub join_spaced : List Bytes → Bytes
join_spaced [] = []
join_spaced (arg ∷ []) = arg
join_spaced (arg ∷ arg' ∷ args) = arg ++ (codes " " ++ join_spaced (arg' ∷ args))

unfoldable pub message_of : List Bytes → Bytes
unfolding join_spaced
message_of [] = codes "hello through mmap"
message_of (arg ∷ args) = join_spaced (arg ∷ args)

-- The message that is reported as written.
unfoldable pub run_write : Faults → List Bytes → ℤ → Prog World CommandError SharedMessage
unfolding ensure_header message_of
run_write faults args now = with_mapping faults true (do
  in_mapping ensure_header
  written ← in_mapping (write_message (message_of args) now)
  λ w. sync_mapping faults (mapping_of w) w
  done written)

-- The message that is printed.
unfoldable pub run_read : Faults → Prog World CommandError SharedMessage
run_read faults = with_mapping faults false (in_mapping (query read_message))

-- The messages that are printed, over the contents that the ticks find in the mapping, and the end.
abbrev pub watched_end :
    Faults
    → List SharedMessage × Result Error (Unit {0})
    → World × Result CommandError (Unit {0})
    → World × List SharedMessage × Result CommandError (Unit {0})
watched_end faults (shown, end) (w, ok _) = ((close_mapping faults w).0, shown, lifted end)
watched_end faults _ (w, err e) = (w, [], err e)
watched_end faults _ (w, panic) = (w, [], panic)

unfoldable pub run_watch_command :
    Faults → List Bytes → World → World × List SharedMessage × Result CommandError (Unit {0})
run_watch_command faults ticks w =
    watched_end faults (run_watch ticks) (open_shared_mapping faults false w)

unfoldable pub lines_with : Bytes → List Bytes → List Bytes
lines_with path [] = []
lines_with path (line ∷ lines) =
    let rest = lines_with path lines in if contains line path then line ∷ rest else rest

-- `findCurrentProcessMappings` over `filepath.Abs` and the content of /proc/self/maps, or their errno.
unfoldable pub find_current_process_mappings :
    ℕ ⊎ Bytes → ℕ ⊎ Bytes → Result CommandError (List Bytes)
unfolding lines_with
find_current_process_mappings (inl errno) _ = err (failed errno)
find_current_process_mappings (inr path) (inl errno) = err (failed errno)
find_current_process_mappings (inr path) (inr content) = ok (lines_with path (split b'\n' content))

-- `mappingAddressRange`, with the address of the first byte as a parameter.
unfoldable pub mapping_address_range : ℕ → Bytes → ℕ × ℕ
mapping_address_range address mapping =
    if length mapping == 0 then (0, 0) else (address, (address + length mapping) % 2 ^ 64)

-- The range and the entries that are printed.
unfoldable pub run_inspect :
    Faults → ℕ → ℕ ⊎ Bytes → ℕ ⊎ Bytes → Prog World CommandError ((ℕ × ℕ) × List Bytes)
unfolding ensure_header mapping_address_range find_current_process_mappings
run_inspect faults address path maps = with_mapping faults true (do
  in_mapping ensure_header
  range ← query (λ w. ok (mapping_address_range address (mapping_of w)))
  entries ← query (λ _. find_current_process_mappings path maps)
  done (range, entries))

-- The command line behind the name of the program.
pub data Command : Type 0 where
  init_command inspect_command read_command watch_command usage_error : Command
  write_command : List Bytes → Command

unfoldable pub command_of : List Bytes → Command
command_of [] = usage_error
command_of (name ∷ args) =
    if equal name (codes "init")
    then init_command
    else if equal name (codes "inspect")
    then inspect_command
    else if equal name (codes "write")
    then write_command args
    else if equal name (codes "read")
    then read_command
    else if equal name (codes "watch")
    then watch_command
    else usage_error

-- The exit status: 1 for an error, 2 for a panic.
abbrev pub status_of : {A : Type 0} → World × Result CommandError A → World × ℕ
status_of (w, ok _) = (w, 0)
status_of (w, err _) = (w, 1)
status_of (w, panic) = (w, 2)

-- What a run finds: the failures, the time, the contents at the ticks, the address and the texts of inspect.
pub record Surroundings : Type 0 where
  pub faults : Faults
  pub now : ℤ
  pub ticks : List Bytes
  pub address : ℕ
  pub path : ℕ ⊎ Bytes
  pub maps : ℕ ⊎ Bytes

unfoldable pub run_command : Surroundings → Command → World → World × ℕ
unfolding run_init run_inspect run_write run_read run_watch_command
run_command s usage_error w = (w, 1)
run_command s init_command w = status_of (run_init s.faults w)
run_command s inspect_command w = status_of (run_inspect s.faults s.address s.path s.maps w)
run_command s (write_command args) w = status_of (run_write s.faults args s.now w)
run_command s read_command w = status_of (run_read s.faults w)
run_command s watch_command w =
    let (w', shown, end) = run_watch_command s.faults s.ticks w in status_of (w', end)

unfoldable pub main_process : Surroundings → List Bytes → World → World × ℕ
unfolding run_command command_of
main_process s args = run_command s (command_of args)
