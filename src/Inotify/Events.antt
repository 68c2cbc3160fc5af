-- ===== src/Inotify/Events.antt =====
-- `parseEvents`. The slice that it is given is `buf[:n]`: a slice of it may reach up to the end of `buf`.
use go_systems_lab.Prelude.{
  ℕ, zero, suc, ◌+◌, ◌-◌, ◌%◌, ◌^◌, List, [], ◌∷◌, ◌++◌, ltb, if◌then◌else◌, none, some, Result, ok,
  err, ◌>>=◌,
}
use go_systems_lab.Bytes.{Bytes, slice}
use go_systems_lab.Text.Split.{cut}
use go_systems_lab.Inotify.Layout.{sizeof_inotify_event, event_at}

-- `eventInfo`
pub record EventInfo : Type 0 where
  pub mask : ℕ
  pub name : Bytes

-- The bound on the rounds is used up.
pub data Stuck : Type 0 where
  out_of_rounds : Stuck

-- The bytes before the first zero byte; nothing where there is none.
unfoldable pub before_zero : Bytes → Bytes
before_zero bytes = elim (cut 0 bytes) [ none ↦ [] | some (name, _) ↦ name ]

-- The name behind an event.
unfoldable pub name_behind : ℕ → ℕ → Bytes → Result Stuck Bytes
name_behind offset len buf = do
  bytes ←
      slice ((offset + sizeof_inotify_event) % 2 ^ 32)
        ((offset + sizeof_inotify_event + len) % 2 ^ 32) buf
  ok (before_zero bytes)

-- `if event.Len > 0`
unfoldable pub name_at : ℕ → ℕ → Bytes → Result Stuck Bytes
unfolding name_behind
name_at offset len buf = if ltb 0 len then name_behind offset len buf else ok []

-- The event at an offset and the offset behind it.
unfoldable pub event_round : Bytes → ℕ → Result Stuck (EventInfo × ℕ)
unfolding event_at name_at
event_round buf offset = do
  event ← event_at offset buf
  name ← name_at offset event.len buf
  ok (
    record { mask = event.mask; name = name },
    (offset + (sizeof_inotify_event + event.len) % 2 ^ 32) % 2 ^ 32,
  )

unfoldable pub parse_loop : ℕ → Bytes → ℕ → ℕ → List EventInfo → Result Stuck (List EventInfo)
parse_loop zero buf n offset events = err out_of_rounds
parse_loop (suc rounds) buf n offset events =
    let more : Result Stuck (List EventInfo) =
      event_round buf offset
      >>= (λ (event, next). parse_loop rounds buf n next (events ++ (event ∷ []))) in
    if ltb offset (n % 2 ^ 32)
    then (if ltb ((n % 2 ^ 32 + 2 ^ 32 - offset) % 2 ^ 32) sizeof_inotify_event
        then ok events
        else more)
    else ok events

-- `parseEvents(buf[:n])`. Each round takes 16 bytes at least, so `n + 1` rounds are more than enough.
unfoldable pub parse_events : Bytes → ℕ → Result Stuck (List EventInfo)
unfolding parse_loop
parse_events buf n = parse_loop (suc n) buf n 0 []
