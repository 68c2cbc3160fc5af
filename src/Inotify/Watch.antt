-- ===== src/Inotify/Watch.antt =====
-- The loop of `main` of labs/02-inotify/main.go over what its reads find, and `printEvent`. The watched
-- path and the time of each line are parameters.
use go_systems_lab.Prelude.{
  ℕ, ◌-◌, ◌==◌, List, [], ◌∷◌, ◌++◌, if◌then◌else◌, Result, ok, err, panic, length, replicate,
}
use go_systems_lab.Bytes.{Bytes, codes}
use go_systems_lab.Text.FilePath.{join}
use go_systems_lab.Inotify.Events.{EventInfo, Stuck, parse_events}
use go_systems_lab.Inotify.Mask.{has_bit, in_isdir, format_mask}

-- `%-12s`
unfoldable pub pad_right : ℕ → Bytes → Bytes
pad_right width s = s ++ replicate (width - length s) b' '

unfoldable pub dir_indicator : ℕ → Bytes
dir_indicator mask = if has_bit mask in_isdir then codes "[DIR] " else []

-- `printEvent(mask, fullPath)` at a time of day.
unfoldable pub print_event : Bytes → ℕ → Bytes → Bytes
unfolding pad_right dir_indicator
print_event time mask full_path =
    codes "["
    ++ (time
        ++ (codes "] "
            ++ (pad_right 12 (format_mask mask)
                ++ (codes " | " ++ (dir_indicator mask ++ (full_path ++ codes "\n"))))))

-- The path that an event is about.
unfoldable pub full_path : Bytes → Bytes → Bytes
full_path target [] = target
full_path target (b ∷ name) = join (target ∷ (b ∷ name) ∷ [])

-- `for _, e := range events`
unfoldable pub event_lines : Bytes → Bytes → List EventInfo → List Bytes
event_lines time target [] = []
event_lines time target (e ∷ events) =
    print_event time e.mask (full_path target e.name) ∷ event_lines time target events

-- One `syscall.Read`: an errno, or the number of bytes (`n <= 0` is 0 here) and the buffer behind it,
-- and the time of the lines that follow.
pub data Read : Type 0 where
  failed : ℕ → Read
  got : Bytes → Bytes → ℕ → Read

-- How the loop ended: `ok tt` where the reads ran out.
pub data End : Type 0 where
  read_failed : ℕ → End
  stuck : Stuck → End

abbrev pub Watched : Type 0
Watched = List Bytes × Result End (Unit {0})

abbrev pub printed : Bytes → Bytes → Result Stuck (List EventInfo) → Watched → Watched
printed time target (ok events) (lines, end) = (event_lines time target events ++ lines, end)
printed time target (err e) rest = ([], err (stuck e))
printed time target panic rest = ([], panic)

unfoldable pub watch_loop : Bytes → List Read → List Bytes × Result End (Unit {0})
unfolding event_lines print_event full_path
watch_loop target [] = ([], ok tt)
watch_loop target (failed errno ∷ reads) = ([], err (read_failed errno))
watch_loop target (got time buf n ∷ reads) =
    let rest = watch_loop target reads in
    if n == 0 then rest else printed time target (parse_events buf n) rest
