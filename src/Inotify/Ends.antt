-- ===== src/Inotify/Ends.antt =====
-- `parseEvents` on any buffer: the loop ends, whatever the lengths in it say.
use go_systems_lab.Prelude.{
  ℕ, zero, suc, ◌+◌, ◌-◌, ◌*◌, ◌%◌, ◌^◌, ◌≤◌, ◌<◌, ◌≡◌, List, [], ◌∷◌, ◌++◌, ltb, inl, inr,
  Bool-cases, Result, ok, err, panic, ◌>>=◌, length, length-append, take, drop, arith,
}
use go_systems_lab.Bytes.{Bytes, slice}
use go_systems_lab.Bytes.Endian.{le_value, load_le-eq-ok}
use go_systems_lab.Inotify.Layout.{event_at}
use go_systems_lab.Inotify.Events.{
  EventInfo, Stuck, name_at, name_behind, event_round, parse_loop, parse_events,
}

-- A round panics, or goes on 16 bytes further at least, within the buffer.
abbrev RoundEnds : Bytes → ℕ → Result Stuck (EventInfo × ℕ) → Type 0
RoundEnds buf offset (ok (event, next)) = (offset + 16 ≤ next) × (next ≤ length buf)
RoundEnds buf offset (err _) = ⊥
RoundEnds buf offset panic = Unit

-- The outcome for `n` bytes: a panic, or events for each of which there were 16 bytes; the bound on the
-- rounds is not met.
abbrev pub Ends : ℕ → Result Stuck (List EventInfo) → Type 0
Ends n (ok events) = length events * 16 ≤ n
Ends n (err _) = ⊥
Ends n panic = Unit

name-RoundEnds :
    (offset mask len : ℕ) (buf : Bytes)
    → offset + 16 ≤ length buf
    → length buf < 2 ^ 32
    → RoundEnds buf offset (
        name_at offset len buf >>= λ name.
        ok (record { mask = mask; name = name }, (offset + (16 + len) % 2 ^ 32) % 2 ^ 32))
unfolding name_at name_behind slice
name-RoundEnds offset mask len buf h small =
    let lo : (offset + 16) % 2 ^ 32 ≡ offset + 16 = omega arith in
    let hi : (offset + (16 + len) % 2 ^ 32) % 2 ^ 32 ≡ (offset + 16 + len) % 2 ^ 32 = omega arith in
    rw (lo, hi) (ground arith)

event_round-RoundEnds :
    (offset : ℕ) (buf : Bytes)
    → offset + 16 ≤ length buf
    → length buf < 2 ^ 32
    → RoundEnds buf offset (event_round buf offset)
unfolding event_round event_at
event_round-RoundEnds offset buf h small =
    rw
      (
        load_le-eq-ok {E = Stuck} 4 (offset + 4) buf (omega arith),
        load_le-eq-ok {E = Stuck} 4 (offset + 12) buf (omega arith),
      )
      (name-RoundEnds offset (le_value (take 4 (drop (offset + 4) buf)))
        (le_value (take 4 (drop (offset + 12) buf))) buf h small)

-- What follows a round.
after_round :
    (n offset : ℕ) (buf : Bytes) (round : Result Stuck (EventInfo × ℕ))
    (rest : EventInfo → ℕ → Result Stuck (List EventInfo))
    → RoundEnds buf offset round
    → ((event : EventInfo) (next : ℕ)
        → offset + 16 ≤ next
        → next ≤ length buf
        → Ends n (rest event next))
    → Ends n (round >>= (λ (event, next). rest event next))
after_round n offset buf (ok (event, next)) rest h k = k event next h.0 h.1
after_round n offset buf (err e) rest h k = absurd h
after_round n offset buf panic rest h k = tt

parse_loop-Ends :
    (rounds : ℕ) (buf : Bytes) (n offset : ℕ) (events : List EventInfo)
    → n ≤ length buf
    → length buf < 2 ^ 32
    → n < rounds + offset
    → 0 < rounds
    → length events * 16 ≤ offset
    → length events * 16 ≤ n
    → Ends n (parse_loop rounds buf n offset events)
unfolding parse_loop
parse_loop-Ends zero buf n offset events fits small more some_left used used' = absurd (omega arith)
parse_loop-Ends (suc rounds) buf n offset events fits small more some_left used used' =
    let whole : n % 2 ^ 32 ≡ n = omega arith in
    rw whole (elim (Bool-cases (ltb offset n)) [
      | inr over ↦ rw over used'
      | inl inside ↦ elim (Bool-cases (ltb ((n + 2 ^ 32 - offset) % 2 ^ 32) 16)) [
        | inl short ↦ rw (inside, short) used'
        | inr room ↦
            let within : offset + 16 ≤ n = ground arith in
            rw (inside, room)
              (after_round n offset buf (event_round buf offset)
                (λ event next. parse_loop rounds buf n next (events ++ (event ∷ [])))
                (event_round-RoundEnds offset buf (omega arith) small)
                (λ event next low high.
                  parse_loop-Ends rounds buf n next (events ++ (event ∷ [])) fits small
                    (omega arith) (omega arith) (omega (arith, length-append events (event ∷ [])))
                    (omega (arith, length-append events (event ∷ [])))))
      ]
    ])

-- On any buffer smaller than 4 GiB, whatever lengths its bytes name, the loop of `parseEvents(buf[:n])`
-- ends: with a panic, or with events for each of which there were 16 of the n bytes.
pub parse_events-Ends :
    (buf : Bytes) (n : ℕ) → n ≤ length buf → length buf < 2 ^ 32 → Ends n (parse_events buf n)
unfolding parse_events
parse_events-Ends buf n fits small =
    parse_loop-Ends (suc n) buf n 0 [] fits small (omega arith) (omega arith) (omega arith)
      (omega arith)
