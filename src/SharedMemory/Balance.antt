-- ===== src/SharedMemory/Balance.antt =====
-- What the commands hold open: nothing that they did not hold before.
use go_systems_lab.Prelude.{
  ℕ, ◌+◌, ◌≡◌, refl, ◌∙◌, Bool, true, false, inl, inr, ◌⊎◌, Option, none, some, List, Result, ok,
  err, panic, arith,
}
use go_systems_lab.Prelude.Int.{ℤ}
use go_systems_lab.Prelude.Prog.{Prog, and_then, ◌>>=◌, query}
use go_systems_lab.Bytes.{Bytes}
use go_systems_lab.SharedMemory.Layout.{Error, SharedMessage, read_message}
use go_systems_lab.SharedMemory.Store.{init_mapping, write_message}
use go_systems_lab.SharedMemory.Watch.{run_watch}
use go_systems_lab.SharedMemory.Files.{
  World, Faults, CommandError, attempt, failed, opened, or_close_result, truncate_file, check_size,
  map_file, map_opened, open_shared_mapping, close_mapping, sync_mapping, mapping_of, in_mapping,
  finished, with_mapping,
}
use go_systems_lab.SharedMemory.Commands.{
  status_of, watched_end, ensure_header, message_of, run_init, run_write, run_read, run_inspect,
  run_watch_command, find_current_process_mappings, Command, init_command, inspect_command,
  read_command, watch_command, write_command, usage_error, command_of, run_command, main_process,
  Surroundings,
}

-- Two states of a process that hold the same.
abbrev pub SameHeld : World → World → Type 0
SameHeld w w' = (w'.descriptors ≡ w.descriptors) × (w'.mappings ≡ w.mappings)

-- A program that closes what it opens.
abbrev Keeps : {A : Type 0} → Prog World CommandError A → Type 0
Keeps m = (w : World) → SameHeld w (m w).0

-- What a process holds behind the opening of a mapping.
abbrev Opens : World → World × Result CommandError (Unit {0}) → Type 0
Opens w (w', ok _) = (w'.descriptors ≡ w.descriptors + 1) × (w'.mappings ≡ w.mappings + 1)
Opens w (w', err _) = SameHeld w w'
Opens w (w', panic) = ⊥

-- What a process holds behind `os.OpenFile`.
abbrev Opened : World → World × Result CommandError (Unit {0}) → Type 0
Opened w (w', ok _) = (w'.descriptors ≡ w.descriptors + 1) × (w'.mappings ≡ w.mappings)
Opened w (w', err _) = SameHeld w w'
Opened w (w', panic) = ⊥

attempt-cases :
    (fault : Option ℕ) (w : World)
    → (attempt fault w ≡ (w, ok tt)) ⊎ ((errno : ℕ) × (attempt fault w ≡ (w, err (failed errno))))
attempt-cases none w = inl refl
attempt-cases (some errno) w = inr (errno, refl)

map_opened-Opens :
    (faults : Faults) (create : Bool) (v w : World)
    → w.descriptors ≡ v.descriptors + 1
    → w.mappings ≡ v.mappings
    → Opens v (or_close_result (map_opened faults create w))
unfolding map_opened truncate_file check_size map_file
map_opened-Opens faults true v w d m = ground arith
map_opened-Opens faults false v w d m = ground arith

opened-Opens : (create : Bool) (file : Option Bytes) (w : World) → Opened w (opened create file w)
unfolding opened
opened-Opens create (some bytes) w = (refl, refl)
opened-Opens true none w = (refl, refl)
opened-Opens false none w = (refl, refl)

behind_open :
    (faults : Faults) (create : Bool) (w : World) (r : World × Result CommandError (Unit {0}))
    → Opened w r
    → Opens w (and_then r (λ _ v. or_close_result (map_opened faults create v)))
behind_open faults create w (v, ok _) (d, m) = map_opened-Opens faults create w v d m
behind_open faults create w (v, err e) h = h
behind_open faults create w (v, panic) h = absurd h

open-Opens :
    (faults : Faults) (create : Bool) (w : World) → Opens w (open_shared_mapping faults create w)
unfolding open_shared_mapping
open-Opens faults create w = elim (attempt-cases faults.mkdir w) [
  | inr (_, refused) ↦ rw refused (refl, refl)
  | inl made ↦ elim (attempt-cases faults.open_file w) [
    | inr (_, refused) ↦ rw (made, refused) (refl, refl)
    | inl allowed ↦
        rw (made, allowed)
          (behind_open faults create w (opened create w.file w) (opened-Opens create w.file w))
  ]
]

-- With a mapping that is unmapped, a body that keeps what is held gives a command that does.
with_mapping-Keeps :
    {A : Type 0} (faults : Faults) (create : Bool) (body : Prog World CommandError A)
    → faults.munmap ≡ none
    → Keeps body
    → Keeps (with_mapping faults create body)
unfolding with_mapping close_mapping
with_mapping-Keeps faults create body unmaps h w =
    ended (open_shared_mapping faults create w) (open-Opens faults create w)
  where
    ended :
        (r : World × Result CommandError (Unit {0}))
        → Opens w r
        → SameHeld w (and_then r (λ _ v. finished faults (body v))).0
    ended (v, ok _) (d, m) = rw unmaps (ground (arith, h v))
    ended (v, err e) same = same
    ended (v, panic) never = absurd never

bind-Keeps :
    {A B : Type 0} (m : Prog World CommandError A) (k : A → Prog World CommandError B)
    → Keeps m
    → ((a : A) → Keeps (k a))
    → Keeps (m >>= k)
bind-Keeps {A} m k h j w = after (m w) (h w)
  where
    after : (r : World × Result CommandError A) → SameHeld w r.0 → SameHeld w (and_then r k).0
    after (v, ok a) (d, e) = ((j a v).0 ∙ d, (j a v).1 ∙ e)
    after (v, err e) same = same
    after (v, panic) same = same

in_mapping-Keeps : {A : Type 0} (m : Prog Bytes Error A) → Keeps (in_mapping m)
unfolding in_mapping
in_mapping-Keeps m w = (refl, refl)

sync-Keeps : (faults : Faults) → Keeps (λ w. sync_mapping faults (mapping_of w) w)
unfolding sync_mapping
sync-Keeps faults w = ground arith

run_init-Keeps : (faults : Faults) → faults.munmap ≡ none → Keeps (run_init faults)
unfolding run_init
run_init-Keeps faults unmaps = with_mapping-Keeps faults true _ unmaps (
    bind-Keeps (in_mapping init_mapping) _ (in_mapping-Keeps init_mapping) (λ _. sync-Keeps faults))

run_write-Keeps :
    (faults : Faults) (args : List Bytes) (now : ℤ)
    → faults.munmap ≡ none
    → Keeps (run_write faults args now)
unfolding run_write
run_write-Keeps faults args now unmaps = with_mapping-Keeps faults true _ unmaps (
    bind-Keeps (in_mapping ensure_header) _ (in_mapping-Keeps ensure_header) (λ _.
      bind-Keeps (in_mapping (write_message (message_of args) now)) _
        (in_mapping-Keeps (write_message (message_of args) now))
        (λ written.
          bind-Keeps (λ w. sync_mapping faults (mapping_of w) w) _ (sync-Keeps faults)
            (λ _ w. (refl, refl)))))

run_read-Keeps : (faults : Faults) → faults.munmap ≡ none → Keeps (run_read faults)
unfolding run_read
run_read-Keeps faults unmaps =
    with_mapping-Keeps faults false _ unmaps (in_mapping-Keeps (query read_message))

run_inspect-Keeps :
    (faults : Faults) (address : ℕ) (path maps : ℕ ⊎ Bytes)
    → faults.munmap ≡ none
    → Keeps (run_inspect faults address path maps)
unfolding run_inspect
run_inspect-Keeps faults address path maps unmaps = with_mapping-Keeps faults true _ unmaps (
    bind-Keeps (in_mapping ensure_header) _ (in_mapping-Keeps ensure_header) (λ _ w.
      bind-Keeps (λ v. (v, find_current_process_mappings path maps)) _ (λ v. (refl, refl))
        (λ entries v. (refl, refl)) w))

watched_end-Keeps :
    (faults : Faults) (watched : List SharedMessage × Result Error (Unit {0})) (w : World)
    (r : World × Result CommandError (Unit {0}))
    → faults.munmap ≡ none
    → Opens w r
    → SameHeld w (watched_end faults watched r).0
unfolding close_mapping
watched_end-Keeps faults (shown, end) w (v, ok _) unmaps (d, m) = rw unmaps (omega arith)
watched_end-Keeps faults (shown, end) w (v, err e) unmaps same = same
watched_end-Keeps faults (shown, end) w (v, panic) unmaps never = absurd never

run_watch-Keeps :
    (faults : Faults) (ticks : List Bytes) (w : World)
    → faults.munmap ≡ none
    → SameHeld w (run_watch_command faults ticks w).0
unfolding run_watch_command
run_watch-Keeps faults ticks w unmaps =
    watched_end-Keeps faults (run_watch ticks) w (open_shared_mapping faults false w) unmaps
      (open-Opens faults false w)

status_of-SameHeld :
    {A : Type 0} (w : World) (r : World × Result CommandError A)
    → SameHeld w r.0
    → SameHeld w (status_of r).0
status_of-SameHeld w (v, ok _) h = h
status_of-SameHeld w (v, err _) h = h
status_of-SameHeld w (v, panic) h = h

run_command-SameHeld :
    (s : Surroundings) (command : Command) (w : World)
    → s.faults.munmap ≡ none
    → SameHeld w (run_command s command w).0
unfolding run_command
run_command-SameHeld s usage_error w unmaps = (refl, refl)
run_command-SameHeld s init_command w unmaps =
    status_of-SameHeld w (run_init s.faults w) (run_init-Keeps s.faults unmaps w)
run_command-SameHeld s inspect_command w unmaps =
    status_of-SameHeld w (run_inspect s.faults s.address s.path s.maps w)
      (run_inspect-Keeps s.faults s.address s.path s.maps unmaps w)
run_command-SameHeld s (write_command args) w unmaps =
    status_of-SameHeld w (run_write s.faults args s.now w)
      (run_write-Keeps s.faults args s.now unmaps w)
run_command-SameHeld s read_command w unmaps =
    status_of-SameHeld w (run_read s.faults w) (run_read-Keeps s.faults unmaps w)
run_command-SameHeld s watch_command w unmaps =
    let watched = run_watch_command s.faults s.ticks w in
    status_of-SameHeld w (watched.0, watched.2) (run_watch-Keeps s.faults s.ticks w unmaps)

-- Every command, however it ends and whichever calls of the system fail but munmap, leaves the process with as many
-- descriptors and mappings of the file as it had.
pub main_process-SameHeld :
    (s : Surroundings) (args : List Bytes) (w : World)
    → s.faults.munmap ≡ none
    → SameHeld w (main_process s args w).0
unfolding main_process
main_process-SameHeld s args w unmaps = run_command-SameHeld s (command_of args) w unmaps
