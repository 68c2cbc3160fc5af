-- ===== src/SharedMemory/Files.antt =====
-- `openSharedMapping`: the file behind the mapping, and what a process holds open. The mapping is shared, so
-- a store into it is a store into the first 4096 bytes of the file.
use go_systems_lab.Prelude.{
  ℕ, ◌+◌, ◌-◌, ◌==◌, Bool, true, false, ltb, if◌then◌else◌, Option, none, some, [], ◌++◌, Result,
  ok, err, panic, length, take, drop, replicate,
}
use go_systems_lab.Prelude.Prog.{Prog, ◌>>=◌, ◌>>◌, done, fail, query}
use go_systems_lab.Bytes.{Bytes}
use go_systems_lab.SharedMemory.Layout.{Error, mapping_size}

-- The scratch file, if it is there, and how many descriptors and mappings of it the process holds.
pub record World : Type 0 where
  pub file : Option Bytes
  pub descriptors : ℕ
  pub mappings : ℕ

-- Which calls of the system fail, and with which errno.
pub record Faults : Type 0 where
  pub mkdir : Option ℕ
  pub open_file : Option ℕ
  pub truncate : Option ℕ
  pub stat : Option ℕ
  pub mmap : Option ℕ
  pub msync : Option ℕ
  pub munmap : Option ℕ
  pub close : Option ℕ

pub data CommandError : Type 0 where
  failed : ℕ → CommandError
  -- "%s is %d bytes; run init first"
  too_small : ℕ → CommandError
  message_error : Error → CommandError

abbrev pub enoent : ℕ
enoent = 2

-- A call that does nothing else that the model sees.
abbrev pub attempt : Option ℕ → Prog World CommandError (Unit {0})
attempt none w = (w, ok tt)
attempt (some errno) w = (w, err (failed errno))

abbrev pub content_of : World → Bytes
content_of w = elim w.file [ none ↦ [] | some bytes ↦ bytes ]

-- `os.OpenFile(…, flag, 0644)` on a file that is there or not.
unfoldable pub opened : Bool → Option Bytes → Prog World CommandError (Unit {0})
opened create (some bytes) w = (record w { descriptors = w.descriptors + 1 }, ok tt)
opened true none w = (record w { file = some []; descriptors = w.descriptors + 1 }, ok tt)
opened false none w = (w, err (failed enoent))

-- `file.Close()`. Its descriptor is free also where it reports an error.
abbrev pub closed : World → World
closed w = record w { descriptors = w.descriptors - 1 }

-- The branches `file.Close(); return nil, nil, err`.
abbrev pub or_close_result :
    World × Result CommandError (Unit {0}) → World × Result CommandError (Unit {0})
or_close_result (w, ok a) = (w, ok a)
or_close_result (w, err e) = (closed w, err e)
or_close_result (w, panic) = (w, panic)

-- `file.Truncate(mappingSize)` cuts the file, or fills it with zeros.
unfoldable pub truncated : Bytes → Bytes
truncated bytes = take mapping_size (bytes ++ replicate mapping_size 0)

unfoldable pub truncate_file : Faults → Bool → Prog World CommandError (Unit {0})
unfolding truncated
truncate_file faults false = done tt
truncate_file faults true = do
  attempt faults.truncate
  λ w. (record w { file = some (truncated (content_of w)) }, ok tt)

unfoldable pub check_size : Faults → Prog World CommandError (Unit {0})
check_size faults = do
  attempt faults.stat
  size ← query (λ w. ok (length (content_of w)))
  if ltb size mapping_size then fail (too_small size) else done tt

unfoldable pub map_file : Faults → Prog World CommandError (Unit {0})
map_file faults = do attempt faults.mmap; λ w. (record w { mappings = w.mappings + 1 }, ok tt)

-- Behind `os.OpenFile`.
unfoldable pub map_opened : Faults → Bool → Prog World CommandError (Unit {0})
unfolding truncate_file check_size map_file
map_opened faults create = do truncate_file faults create; check_size faults; map_file faults

unfoldable pub open_shared_mapping : Faults → Bool → Prog World CommandError (Unit {0})
unfolding opened map_opened
open_shared_mapping faults create = do
  attempt faults.mkdir
  attempt faults.open_file
  λ w. opened create w.file w
  λ w. or_close_result (map_opened faults create w)

-- `closeMapping`: both calls are made, and the error of the first goes before that of the second.
abbrev pub first_error : Option ℕ → Option ℕ → Result CommandError (Unit {0})
first_error (some errno) _ = err (failed errno)
first_error none (some errno) = err (failed errno)
first_error none none = ok tt

abbrev pub unmapped : Option ℕ → World → World
unmapped none w = record w { mappings = w.mappings - 1 }
unmapped (some _) w = w

unfoldable pub close_mapping : Faults → Prog World CommandError (Unit {0})
close_mapping faults w = (closed (unmapped faults.munmap w), first_error faults.munmap faults.close)

-- `syncMapping`
unfoldable pub sync_mapping : Faults → Bytes → Prog World CommandError (Unit {0})
sync_mapping faults mapping = if length mapping == 0 then done tt else attempt faults.msync

-- The mapped bytes.
abbrev pub mapping_of : World → Bytes
mapping_of w = take mapping_size (content_of w)

abbrev pub lifted : {A : Type 0} → Result Error A → Result CommandError A
lifted (ok a) = ok a
lifted (err e) = err (message_error e)
lifted panic = panic

-- A program on the mapped bytes.
abbrev pub stored_back :
    {A : Type 0} → World → Bytes × Result Error A → World × Result CommandError A
stored_back w (bytes, r) =
    (record w { file = some (bytes ++ drop mapping_size (content_of w)) }, lifted r)

unfoldable pub in_mapping : {A : Type 0} → Prog Bytes Error A → Prog World CommandError A
in_mapping m w = stored_back w (m (mapping_of w))

-- A body with `defer closeMapping()`: the mapping is closed however the body ends, and the error of
-- `closeMapping` is dropped.
abbrev pub finished :
    {A : Type 0} → Faults → World × Result CommandError A → World × Result CommandError A
finished faults (w, r) = ((close_mapping faults w).0, r)

unfoldable pub with_mapping :
    {A : Type 0} → Faults → Bool → Prog World CommandError A → Prog World CommandError A
unfolding open_shared_mapping close_mapping
with_mapping faults create body =
    open_shared_mapping faults create >> (λ w. finished faults (body w))
