-- ===== src/Epoll/Releases.antt =====
-- What `runServer` leaves open.
use go_systems_lab.Prelude.{
  ℕ, List, [], ◌∷◌, Bool, true, false, if◌then◌else◌, ◌&&◌, Option, none, some,
}
use go_systems_lab.Epoll.Server.{Turn}
use go_systems_lab.Epoll.Setup.{
  Handle, listener, listener_file, epoll, Call, opened, closed, set_nonblock, add_listener,
  SetupFaults, run_server,
}

-- Which handles are open.
abbrev pub Open : Type 0
Open = Handle → Bool

abbrev pub is_same : Handle → Handle → Bool
is_same listener listener = true
is_same listener_file listener_file = true
is_same epoll epoll = true
is_same _ _ = false

abbrev pub nothing_open : Open
nothing_open h = false

-- A handle is opened while it is not open, and closed while it is; the duplicate and the epoll instance are used
-- while they are open. `none` where a call does not fit.
unfoldable pub after : Open → List Call → Option Open
after is_open [] = some is_open
after is_open (opened h ∷ calls) =
    let rest = after (λ k. if is_same h k then true else is_open k) calls in
    if is_open h then none else rest
after is_open (closed h ∷ calls) =
    let rest = after (λ k. if is_same h k then false else is_open k) calls in
    if is_open h then rest else none
after is_open (set_nonblock ∷ calls) =
    let rest = after is_open calls in if is_open listener_file then rest else none
after is_open (add_listener ∷ calls) =
    let rest = after is_open calls in if is_open listener_file && is_open epoll then rest else none

-- The handles that stay open behind `runServer`.
abbrev pub left_open : SetupFaults → ℕ → List Turn → Handle → Option Bool
left_open faults listen_fd turns h =
    elim (after nothing_open (run_server faults listen_fd turns).0) [
      | none ↦ none
      | some is_open ↦ some (is_open h)
    ]

abbrev is_none : Option ℕ → Bool
is_none none = true
is_none (some errno) = false
