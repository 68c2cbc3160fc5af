-- ===== src/Inotify/Tests.antt =====
-- A buffer of two events, and the theorems on it.
use go_systems_lab.Prelude.{◌^◌, ◌≡◌, ◌<◌, refl, [], ◌∷◌, ◌++◌, ok, panic, length, replicate, arith}
use go_systems_lab.Bytes.{Bytes, codes, equal, slice}
use go_systems_lab.Bytes.Endian.{le_bytes, le_value, load_le}
use go_systems_lab.Text.Split.{cut, split}
use go_systems_lab.Text.FilePath.{join}
use go_systems_lab.Inotify.Layout.{Notice, encode_notice, encode_notices}
use go_systems_lab.Inotify.Events.{event_round, parse_events, before_zero}
use go_systems_lab.Inotify.Ends.{Ends, parse_events-Ends}
use go_systems_lab.Inotify.Mask.{created, open_file, format_mask, has_bit}
use go_systems_lab.Inotify.Watch.{watch_loop, event_lines}
use go_systems_lab.Inotify.Lines.{Happening, Batch, read_of}

-- `mkdir d` in the watched directory, with a name padded to four bytes.
abbrev made : Happening
made = record { kind = created; flags = 2 ^ 17; wd = 1; cookie = 0; entry = codes "d"; pad = 3 }

-- The watched directory itself is opened.
abbrev looked : Happening
looked = record { kind = open_file; flags = 2 ^ 17; wd = 1; cookie = 0; entry = []; pad = 0 }

abbrev batch : Batch
batch = record { time = codes "12:00:00"; happenings = made ∷ looked ∷ []; stale = codes "old" }

abbrev watched : Bytes
watched = codes "/srv/in"

batch_lines : watch_loop watched (read_of batch ∷ []) ≡ (
  codes "[12:00:00] CREATE       | [DIR] /srv/in/d\n"
      ∷ codes "[12:00:00] OPEN         | [DIR] /srv/in\n"
      ∷ [],
  ok tt,
)
unfolding watch_loop parse_events event_round slice cut before_zero load_le le_value le_bytes
    encode_notice encode_notices event_lines join has_bit format_mask split equal
batch_lines = refl

-- An event whose length reaches over the end of the buffer.
overrun : parse_events (replicate 12 0 ++ le_bytes 4 9) 16 ≡ panic
unfolding parse_events event_round slice load_le le_value le_bytes
overrun = refl

abbrev notice : Notice
notice = record { wd = 1; mask = 256; cookie = 0; name = codes "d"; pad = 3 }

small : length (encode_notices (notice ∷ []) ++ codes "old") < 2 ^ 32
unfolding encode_notices encode_notice le_bytes
small = omega arith

parse_events-Ends_example : Ends 20 (parse_events (replicate 20 1) 20)
parse_events-Ends_example = parse_events-Ends (replicate 20 1) 20 (omega arith) (omega arith)
