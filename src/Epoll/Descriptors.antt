-- ===== src/Epoll/Descriptors.antt =====
-- Descriptors of clients: what the server has added and not closed is what its table holds.
use go_systems_lab.Prelude.{
  ℕ, ◌≡◌, Bool, true, false, ◌==◌, List, [], ◌∷◌, Option, none, some, if◌then◌else◌,
}
use go_systems_lab.Bytes.{Bytes}
use go_systems_lab.Epoll.Server.{
  State, Connections, lookup, Action, added, removed, closed, wrote, Outcome, serving, stopped,
  wait_failed,
}

-- Whether a descriptor is open after some actions, given whether it was before.
unfoldable pub is_open : ℕ → Bool → List Action → Bool
is_open fd before [] = before
is_open fd before (added fd' ∷ actions) = is_open fd (if fd' == fd then true else before) actions
is_open fd before (closed fd' ∷ actions) = is_open fd (if fd' == fd then false else before) actions
is_open fd before (removed _ ∷ actions) = is_open fd before actions
is_open fd before (wrote _ _ ∷ actions) = is_open fd before actions

abbrev pub is_some : Option State → Bool
is_some none = false
is_some (some _) = true

-- Whether the table that an outcome leaves behind holds a descriptor.
abbrev pub held : ℕ → Outcome → Bool
held fd (serving connections) = is_some (lookup fd connections)
held fd stopped = false
held fd (wait_failed _ connections) = is_some (lookup fd connections)

-- After a step the open descriptors are those of the table, where they were before it.
abbrev IsTracked : ℕ → Connections → Connections × List Action → Type 0
IsTracked fd connections (next, actions) =
    is_open fd (is_some (lookup fd connections)) actions ≡ is_some (lookup fd next)
