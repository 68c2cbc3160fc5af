-- ===== src/Epoll/Turns.antt =====
-- The whole loop of the server, turn by turn, as one client sees it.
use go_systems_lab.Prelude.{
  ℕ, ◌≡◌, refl, sym, ap, ◌∙◌, not, ◌&&◌, ◌==◌, Bool-cases, inl, inr, List, [], ◌∷◌, ◌++◌, Option,
  if◌then◌else◌, map,
}
use mathlib.Core.List.{append_assoc}
use go_systems_lab.Epoll.Server.{
  State, Connections, lookup, Turn, eintr, handle_events, close_all, serve,
}
use go_systems_lab.Epoll.Session.{
  Heard, heard, sent, sent-append, client_step, client_run, handle_events-client_run,
}

-- What happens to a client in some turns: nothing from the turn on in which the server stops or its
-- wait fails.
unfoldable pub heard_turns : ℕ → ℕ → List Turn → List Heard
heard_turns listen_fd fd [] = []
heard_turns listen_fd fd (turn ∷ turns) =
    let live = if turn.failure == 0 then turn.readies else [] in
    let more = map (heard listen_fd fd) live ++ heard_turns listen_fd fd turns in
    if not (turn.failure == 0) && not (turn.failure == eintr)
    then []
    else if turn.stop
    then []
    else more

client_run-append :
    (first second : List Heard) (state : Option State)
    → (client_run (first ++ second) state).1
      ≡ (client_run first state).1 ++ (client_run second (client_run first state).0).1
unfolding client_run
client_run-append [] second state = refl
client_run-append (h ∷ first) second state =
    ap (λ texts. (client_step h state).1 ++ texts)
      (client_run-append first second (client_step h state).0)
    ∙ sym (append_assoc (client_step h state).1 _ _)

sent-close_all : (fd : ℕ) (connections : Connections) → sent fd (close_all connections) ≡ []
unfolding sent close_all
sent-close_all fd [] = refl
sent-close_all fd ((fd', state) ∷ connections) = sent-close_all fd connections

-- Over any number of turns, each with any events, what the server writes to one descriptor is what the
-- protocol gives for the events of that descriptor alone, up to the turn that ends the loop.
pub serve-client_run :
    (listen_fd fd : ℕ) (turns : List Turn) (connections : Connections)
    → sent fd (serve listen_fd turns connections).1
      ≡ (client_run (heard_turns listen_fd fd turns) (lookup fd connections)).1
unfolding serve heard_turns
serve-client_run listen_fd fd [] connections = unfold sent client_run in refl
serve-client_run listen_fd fd (turn ∷ turns) connections =
    let live = if turn.failure == 0 then turn.readies else [] in
    let done = handle_events listen_fd live connections in
    let now = handle_events-client_run listen_fd fd live connections in
    let on =
      sent-append fd done.1 (serve listen_fd turns done.0).1
      ∙ rw (serve-client_run listen_fd fd turns done.0) (
          rw (ap (λ v. v.0) now, ap (λ v. v.1) now)
            (sym (
              client_run-append (map (heard listen_fd fd) live) (heard_turns listen_fd fd turns)
                (lookup fd connections)))) in
    elim (Bool-cases (not (turn.failure == 0) && not (turn.failure == eintr))) [
      | inl failed ↦ rw failed (unfold sent client_run in refl)
      | inr waited ↦ elim (Bool-cases turn.stop) [
        | inl stop ↦ rw (waited, stop) (sent-close_all fd connections ∙ unfold client_run in refl)
        | inr going ↦ rw (waited, going) on
      ]
    ]
