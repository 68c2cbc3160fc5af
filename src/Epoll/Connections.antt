-- ===== src/Epoll/Connections.antt =====
-- The table of connections.
use go_systems_lab.Prelude.{
  ℕ, ◌≡◌, ◌≢◌, refl, false, ◌==◌, Bool-cases, inl, inr, [], ◌∷◌, none, some, arith,
}
use go_systems_lab.Epoll.Server.{State, Connections, lookup, delete, insert}

pub lookup-delete_self :
    (fd : ℕ) (connections : Connections) → lookup fd (delete fd connections) ≡ none
unfolding lookup delete
lookup-delete_self fd [] = refl
lookup-delete_self fd ((fd', state) ∷ connections) = elim (Bool-cases (fd' == fd)) [
  | inl e ↦ rw e (lookup-delete_self fd connections)
  | inr ne ↦ rw (ne, ne) (lookup-delete_self fd connections)
]

pub lookup-delete_other :
    (fd other : ℕ) (connections : Connections)
    → other ≢ fd
    → lookup other (delete fd connections) ≡ lookup other connections
unfolding lookup delete
lookup-delete_other fd other [] h = refl
lookup-delete_other fd other ((fd', state) ∷ connections) h =
    let rest = lookup-delete_other fd other connections h in ground (arith, rest)

pub lookup-insert_self :
    (fd : ℕ) (state : State) (connections : Connections)
    → lookup fd (insert fd state connections) ≡ some state
unfolding lookup insert
lookup-insert_self fd state connections = ground arith

pub lookup-insert_other :
    (fd other : ℕ) (state : State) (connections : Connections)
    → other ≢ fd
    → lookup other (insert fd state connections) ≡ lookup other connections
unfolding lookup insert
lookup-insert_other fd other state connections h =
    let ne : (fd == other) ≡ false = ground arith in
    rw ne (lookup-delete_other fd other connections h)
