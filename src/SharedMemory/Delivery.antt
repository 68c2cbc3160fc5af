-- ===== src/SharedMemory/Delivery.antt =====
-- A message on its way from one process to another: `write`, then `read`.
use go_systems_lab.Prelude.{
  ℕ, zero, suc, ◌+◌, ◌≤◌, ◌≡◌, refl, ap, ◌∙◌, Bool, true, false, inl, inr, ltb, Option, none, some,
  List, [], ◌∷◌, ◌++◌, Result, ok, length, length-append, length-take, length-replicate, take, drop,
  replicate, arith,
}
use go_systems_lab.Prelude.Int.{ℤ, IsInt64}
use go_systems_lab.Prelude.Prog.{Prog, and_then, query}
use mathlib.Core.List.{append-nil}
use native.Mathlib.Nat.{add-sub_cancel}
use go_systems_lab.Bytes.{Bytes}
use go_systems_lab.SharedMemory.Layout.{
  Error, SharedMessage, max_payload_size, has_valid_header, read_message,
}
use go_systems_lab.SharedMemory.Store.{write_message}
use go_systems_lab.SharedMemory.Header.{
  HasHeader, has_valid_header-HasHeader, has_valid_header-cases,
}
use go_systems_lab.SharedMemory.RoundTrip.{
  written, stored, next_sequence, length-written, read_message-written, write_message-HasHeader,
}
use go_systems_lab.SharedMemory.Contract.{
  initialised, init_mapping-eq-initialised, initialised-HasHeader, initialised_zero,
  length-initialised,
}
use go_systems_lab.SharedMemory.Files.{
  World, Faults, CommandError, content_of, opened, truncated, truncate_file, check_size, map_file,
  map_opened, open_shared_mapping, close_mapping, sync_mapping, mapping_of, in_mapping, finished,
  with_mapping,
}
use go_systems_lab.SharedMemory.Commands.{ensure_header, message_of, run_write, run_read}

-- No call of the system fails.
abbrev pub no_faults : Faults
no_faults = record {
  mkdir = none;
  open_file = none;
  truncate = none;
  stat = none;
  mmap = none;
  msync = none;
  munmap = none;
  close = none;
}

length-truncated : (bytes : Bytes) → length (truncated bytes) ≡ 4096
unfolding truncated
length-truncated bytes = omega (
  arith,
  length-take 4096 (bytes ++ replicate 4096 0),
  length-append bytes (replicate 4096 0),
  length-replicate 4096 (◌+◌ 0 0),
)

take_whole : (n : ℕ) (xs : Bytes) → length xs ≡ n → take n xs ≡ xs
take_whole zero [] h = refl
take_whole (suc n) [] h = refl
take_whole zero (x ∷ xs) h = absurd (omega arith)
take_whole (suc n) (x ∷ xs) h = ap (◌∷◌ x) (take_whole n xs (omega arith))

drop_whole : (n : ℕ) (xs : Bytes) → length xs ≡ n → drop n xs ≡ []
drop_whole zero [] h = refl
drop_whole (suc n) [] h = refl
drop_whole zero (x ∷ xs) h = absurd (omega arith)
drop_whole (suc n) (x ∷ xs) h = drop_whole n xs (omega arith)

-- A process that has the mapping of a file of exactly 4096 bytes.
abbrev holding : Bytes → World → World
holding m w = record { file = some m; descriptors = w.descriptors + 1; mappings = w.mappings + 1 }

map_created :
    (bytes : Bytes) (d n : ℕ)
    → map_opened no_faults true (record { file = some bytes; descriptors = d; mappings = n })
      ≡ (record { file = some (truncated bytes); descriptors = d; mappings = n + 1 }, ok tt)
unfolding map_opened truncate_file check_size map_file
map_created bytes d n =
    let fits : ltb (length (truncated bytes)) 4096 ≡ false =
      ground (arith, length-truncated bytes) in
    rw fits refl

open_created_file :
    (file : Option Bytes) (d n : ℕ)
    → let w : World = record { file = file; descriptors = d; mappings = n } in
      open_shared_mapping no_faults true w ≡ (holding (truncated (content_of w)) w, ok tt)
unfolding open_shared_mapping opened
open_created_file none d n = rw (map_created [] (d + 1) n) refl
open_created_file (some bytes) d n = rw (map_created bytes (d + 1) n) refl

open_created :
    (w : World)
    → open_shared_mapping no_faults true w ≡ (holding (truncated (content_of w)) w, ok tt)
open_created w = open_created_file w.file w.descriptors w.mappings

-- A file of 4096 bytes is opened as it is.
open_existing :
    (m : Bytes) (d n : ℕ)
    → length m ≡ 4096
    → let w : World = record { file = some m; descriptors = d; mappings = n } in
      open_shared_mapping no_faults false w ≡ (holding m w, ok tt)
unfolding open_shared_mapping opened map_opened truncate_file check_size map_file
open_existing m d n long = let fits : ltb (length m) 4096 ≡ false = ground arith in rw fits refl

-- A program on the mapping of such a file.
in_holding :
    {A : Type 0} (p : Prog Bytes Error A) (m m' : Bytes) (a : A) (w : World)
    → length m ≡ 4096
    → p m ≡ (m', ok a)
    → in_mapping p (holding m w) ≡ (holding m' w, ok a)
unfolding in_mapping
in_holding p m m' a w long runs =
    rw (take_whole 4096 m long, drop_whole 4096 m long, runs, append-nil) refl

-- The mapping that `writeMessage` finds behind the test of the header.
abbrev ready_by : Result Error Bool → Bytes → Bytes
ready_by (ok true) m = m
ready_by (ok false) m = initialised m
ready_by _ m = m

pub readied : Bytes → Bytes
readied m = ready_by (has_valid_header m) m

ensure_header-readied :
    (m : Bytes)
    → length m ≡ 4096
    → (ensure_header m ≡ (readied m, ok tt)) × HasHeader (readied m) × (length (readied m) ≡ 4096)
unfolding ensure_header readied
ensure_header-readied m long = elim (has_valid_header-cases m) [
  | inl invalid ↦
      rw (invalid, init_mapping-eq-initialised m (omega arith))
        (refl, initialised-HasHeader m (omega arith), omega (arith, length-initialised m))
  | inr valid ↦ rw valid (refl, has_valid_header-HasHeader m valid, long)
]

-- The number of the message that is written to a mapping: the next one, 1 where there is no valid header.
abbrev number_by : Result Error Bool → Bytes → ℕ
number_by (ok true) m = next_sequence m
number_by _ m = 1

pub number_after : Bytes → ℕ
number_after m = number_by (has_valid_header m) m

next-readied : (m : Bytes) → next_sequence (readied m) ≡ number_after m
unfolding readied number_after
next-readied m = elim (has_valid_header-cases m) [
  | inl invalid ↦ rw (invalid, initialised_zero 16 8 m (omega arith)) (omega arith)
  | inr valid ↦ rw valid refl
]

-- The process of `write` behind its end.
abbrev delivered : List Bytes → ℤ → World → Bytes
delivered args now w = written (message_of args) now (readied (truncated (content_of w)))

-- A step that succeeds is followed by the next.
and_then-ok :
    {A B : Type 0} {r : World × Result CommandError A} {a : A} {v : World}
    (k : A → Prog World CommandError B)
    → r ≡ (v, ok a)
    → and_then r k ≡ k a v
and_then-ok k e = ap (λ r. and_then r k) e

-- A command whose mapping is opened and whose body succeeds closes the mapping and succeeds.
with_mapping-ok :
    {A : Type 0} (create : Bool) (body : Prog World CommandError A) (m m' : Bytes) (a : A)
    (w : World)
    → open_shared_mapping no_faults create w ≡ (holding m w, ok tt)
    → body (holding m w) ≡ (holding m' w, ok a)
    → with_mapping no_faults create body w ≡ (record w { file = some m' }, ok a)
unfolding with_mapping close_mapping
with_mapping-ok create body m m' a w opens runs =
    and_then-ok (λ _ v. finished no_faults (body v)) opens ∙ ap (finished no_faults) runs ∙ closes
  where
    closes : finished no_faults (holding m' w, ok a) ≡ (record w { file = some m' }, ok a)
    closes = rw (add-sub_cancel w.descriptors 1, add-sub_cancel w.mappings 1) refl

sync_holding :
    (m : Bytes) (w : World)
    → length m ≡ 4096
    → sync_mapping no_faults (mapping_of (holding m w)) (holding m w) ≡ (holding m w, ok tt)
unfolding sync_mapping
sync_holding m w long = rw (take_whole 4096 m long, long) refl

run_write-delivered :
    (args : List Bytes) (now : ℤ) (w : World)
    → length (message_of args) ≤ max_payload_size
    → run_write no_faults args now w ≡ (
      record w { file = some (delivered args now w) },
      ok (stored (message_of args) now (readied (truncated (content_of w)))),
    )
unfolding run_write
run_write-delivered args now w fits =
    let m : Bytes = truncated (content_of w) in
    let (ensured, header, long) = ensure_header-readied m (length-truncated (content_of w)) in
    let whole : length (delivered args now w) ≡ 4096 =
      omega (arith, length-written (message_of args) now (readied m)) in
    with_mapping-ok true _ m (delivered args now w) _ w (open_created w) (
      and_then-ok _
        (in_holding ensure_header m (readied m) tt w (length-truncated (content_of w)) ensured)
      ∙ and_then-ok _ (
          in_holding (write_message (message_of args) now) (readied m) (delivered args now w)
            (stored (message_of args) now (readied m)) w long
            (write_message-HasHeader (message_of args) now header fits))
      ∙ and_then-ok _ (sync_holding (delivered args now w) w whole))

run_read-delivered :
    (m : Bytes) (x : SharedMessage) (w : World)
    → length m ≡ 4096
    → read_message m ≡ ok x
    → (run_read no_faults (record w { file = some m })).1 ≡ ok x
unfolding run_read
run_read-delivered m x w long reads =
    ap (λ r. r.1)
      (with_mapping-ok false (in_mapping (query read_message)) m m x (record w { file = some m })
        (open_existing m w.descriptors w.mappings long)
        (in_holding (query read_message) m m x w long (rw reads refl)))

-- Whatever the scratch file is before (missing, shorter, longer, without a valid header): where no call of
-- the system fails and the message fits, `write` succeeds, and a `read` behind it, of any process, prints that message,
-- with its time and the next number, 1 if there was no valid header.
pub run_read-run_write :
    (args : List Bytes) (now : ℤ) (w : World) (d n : ℕ)
    → length (message_of args) ≤ max_payload_size
    → IsInt64 now
    → let sent : SharedMessage = record {
      sequence = number_after (truncated (content_of w));
      timestamp = now;
      payload = message_of args;
    } in
      let after : World = (run_write no_faults args now w).0 in
      ((run_write no_faults args now w).1 ≡ ok sent)
      × ((run_read no_faults (record after { descriptors = d; mappings = n })).1 ≡ ok sent)
run_read-run_write args now w d n fits time =
    let m : Bytes = truncated (content_of w) in
    let (ensured, header, long) = ensure_header-readied m (length-truncated (content_of w)) in
    let whole : length (delivered args now w) ≡ 4096 =
      omega (arith, length-written (message_of args) now (readied m)) in
    rw (run_write-delivered args now w fits, ← next-readied m)
      (
        refl,
        run_read-delivered (delivered args now w) _ (record w { descriptors = d; mappings = n })
            whole (read_message-written (message_of args) now header fits time),
      )
