-- ===== src/Inotify/Lines.antt =====
-- What the watcher prints for what the kernel reports.
use go_systems_lab.Prelude.{
  ℕ, ◌^◌, ◌<◌, ◌≡◌, refl, true, false, ◌==◌, inl, inr, ◌⊎◌, List, [], ◌∷◌, ◌++◌, map, if◌then◌else◌,
  length, length-append, arith,
}
use go_systems_lab.Bytes.{Bytes, All, codes}
use go_systems_lab.Text.FilePath.{IsName, rooted_path, join-rooted_path}
use go_systems_lab.Inotify.Layout.{Notice, IsNotice, encode_notice, encode_notices}
use go_systems_lab.Inotify.Events.{parse_events}
use go_systems_lab.Inotify.RoundTrip.{info, length-encode_notice, parse_events-encode_notices}
use go_systems_lab.Inotify.Mask.{Kind, label, mask_of, format_mask-mask_of}
use go_systems_lab.Inotify.Watch.{
  pad_right, dir_indicator, print_event, full_path, event_lines, Read, got, printed, Watched,
}

-- An event as a user thinks of it: what happened, with which flags, to the watched path itself or to
-- an entry of it.
pub record Happening : Type 0 where
  pub kind : Kind
  pub flags : ℕ
  pub wd : ℕ
  pub cookie : ℕ
  pub entry : Bytes
  pub pad : ℕ

abbrev pub notice_of : Happening → Notice
notice_of h = record {
  wd = h.wd;
  mask = mask_of h.kind h.flags;
  cookie = h.cookie;
  name = h.entry;
  pad = h.pad;
}

abbrev pub IsHappening : Happening → Type 0
IsHappening h = IsNotice (notice_of h) × ((h.entry ≡ []) ⊎ IsName h.entry)

-- The path below a directory, given by its components.
unfoldable pub path_below : Bytes → List Bytes → Bytes → Bytes
path_below dir dirs [] = rooted_path true (dir ∷ dirs)
path_below dir dirs (b ∷ entry) = rooted_path true (dir ∷ (dirs ++ ((b ∷ entry) ∷ [])))

-- The line of a happening.
unfoldable pub line_of : Bytes → Bytes → List Bytes → Happening → Bytes
line_of time dir dirs h =
    codes "["
    ++ (time
        ++ (codes "] "
            ++ (pad_right 12 (label h.kind)
                ++ (codes " | "
                    ++ (dir_indicator (mask_of h.kind h.flags)
                        ++ (path_below dir dirs h.entry ++ codes "\n"))))))

-- A read with the time at which it is printed, what happened, and what is left in the buffer of the
-- read before.
pub record Batch : Type 0 where
  pub time : Bytes
  pub happenings : List Happening
  pub stale : Bytes

abbrev pub notices : Batch → List Notice
notices b = map notice_of b.happenings

abbrev pub read_of : Batch → Read
read_of b = got b.time (encode_notices (notices b) ++ b.stale) (length (encode_notices (notices b)))

abbrev pub IsBatch : Batch → Type 0
IsBatch b = All IsHappening b.happenings × (length (encode_notices (notices b) ++ b.stale) < 2 ^ 32)

unfoldable pub lines_of : Bytes → List Bytes → List Batch → List Bytes
lines_of dir dirs [] = []
lines_of dir dirs (b ∷ batches) =
    map (line_of b.time dir dirs) b.happenings ++ lines_of dir dirs batches

full_path-path_below :
    (dir : Bytes) (dirs : List Bytes) (entry : Bytes)
    → IsName dir
    → All IsName dirs
    → ((entry ≡ []) ⊎ IsName entry)
    → full_path (rooted_path true (dir ∷ dirs)) entry ≡ path_below dir dirs entry
unfolding full_path path_below
full_path-path_below dir dirs [] h hs k = refl
full_path-path_below dir dirs (b ∷ entry) h hs (inl e) = cc
full_path-path_below dir dirs (b ∷ entry) h hs (inr k) =
    join-rooted_path true dir dirs ((b ∷ entry) ∷ []) h hs (k, tt)

event_lines-line_of :
    (time dir : Bytes) (dirs : List Bytes) (hs : List Happening)
    → IsName dir
    → All IsName dirs
    → All IsHappening hs
    → event_lines time (rooted_path true (dir ∷ dirs)) (map info (map notice_of hs))
      ≡ map (line_of time dir dirs) hs
unfolding event_lines print_event line_of
event_lines-line_of time dir dirs [] n ns k = refl
event_lines-line_of time dir dirs (h ∷ hs) n ns ((_, named), ks) = rw (
  format_mask-mask_of h.kind h.flags,
  full_path-path_below dir dirs h.entry n ns named,
  event_lines-line_of time dir dirs hs n ns ks,
)

all_notices : (hs : List Happening) → All IsHappening hs → All IsNotice (map notice_of hs)
all_notices [] k = tt
all_notices (h ∷ hs) ((notice, _), ks) = (notice, all_notices hs ks)

pub batch_printed :
    (time dir : Bytes) (dirs : List Bytes) (hs : List Happening) (stale : Bytes) (rest : Watched)
    → IsName dir
    → All IsName dirs
    → All IsHappening hs
    → length (encode_notices (map notice_of hs) ++ stale) < 2 ^ 32
    → (if length (encode_notices (map notice_of hs)) == 0
        then rest
        else printed time
            (rooted_path true (dir ∷ dirs))
            (parse_events
              (encode_notices (map notice_of hs) ++ stale)
              (length (encode_notices (map notice_of hs))))
            rest)
      ≡ (map (line_of time dir dirs) hs ++ rest.0, rest.1)
unfolding encode_notices
batch_printed time dir dirs [] stale rest n ns ks small = refl
batch_printed time dir dirs (h ∷ hs) stale rest n ns ks small =
    let more : (length (encode_notices (map notice_of (h ∷ hs))) == 0) ≡ false = ground (
      arith,
      length-encode_notice (notice_of h),
      length-append (encode_notice (notice_of h)) (encode_notices (map notice_of hs)),
    ) in
    rw (
      more,
      parse_events-encode_notices (map notice_of (h ∷ hs)) stale (all_notices (h ∷ hs) ks) small,
      event_lines-line_of time dir dirs (h ∷ hs) n ns ks,
    )
