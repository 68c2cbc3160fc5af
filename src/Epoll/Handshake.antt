-- ===== src/Epoll/Handshake.antt =====
-- The handshake: no client is echoed before it has said CLIENT_HELLO.
use go_systems_lab.Prelude.{
  ℕ, ◌≡◌, ◌≢◌, refl, Bool, false, ◌⊎◌, inl, inr, List, [], ◌∷◌, Option, none, some,
}
use go_systems_lab.Bytes.{Bytes, equal, All, All-append}
use go_systems_lab.Text.Space.{trim_space}
use go_systems_lab.Epoll.Server.{
  State, handshake, authenticated, Connections, lookup, Turn, server_ready, client_hello,
  send_hello_first, serve,
}
use go_systems_lab.Epoll.Session.{
  Heard, connected, gone, elsewhere, said, sent, client_step, client_run,
}
use go_systems_lab.Epoll.Turns.{heard_turns, serve-client_run}

-- The line that ends the handshake, with any space around it.
unfoldable pub is_hello : Heard → Bool
is_hello (said bytes) = equal (trim_space bytes) client_hello
is_hello _ = false

-- What a client is told before it is authenticated.
abbrev pub IsBanner : Bytes → Type 0
IsBanner text = (text ≡ server_ready) ⊎ (text ≡ send_hello_first)

client_step_quiet :
    (h : Heard) (state : Option State)
    → is_hello h ≡ false
    → state ≢ some authenticated
    → ((client_step h state).0 ≢ some authenticated) × All IsBanner (client_step h state).1
unfolding client_step is_hello
client_step_quiet connected state quiet h = (λ e. cc, (inl refl, tt))
client_step_quiet gone state quiet h = (λ e. cc, tt)
client_step_quiet elsewhere state quiet h = (h, tt)
client_step_quiet (said bytes) none quiet h = (λ e. cc, tt)
client_step_quiet (said bytes) (some handshake) quiet h = rw quiet (λ e. cc, (inr refl, tt))
client_step_quiet (said bytes) (some authenticated) quiet h = absurd (h refl)

client_run_quiet :
    (hs : List Heard) (state : Option State)
    → All (λ h. is_hello h ≡ false) hs
    → state ≢ some authenticated
    → ((client_run hs state).0 ≢ some authenticated) × All IsBanner (client_run hs state).1
unfolding client_run
client_run_quiet [] state quiet h = (h, tt)
client_run_quiet (heard_now ∷ hs) state (quiet, later) h =
    let (next, texts) = client_step_quiet heard_now state quiet h in
    let (final, more) = client_run_quiet hs (client_step heard_now state).0 later next in
    (final, All-append IsBanner (client_step heard_now state).1 _ texts more)

-- As long as a client that is not authenticated has not said CLIENT_HELLO, nothing that it sends is
-- echoed: all it is told is the banner and the request to begin, whatever the other clients do.
pub serve_quiet :
    (listen_fd fd : ℕ) (turns : List Turn) (connections : Connections)
    → lookup fd connections ≢ some authenticated
    → All (λ h. is_hello h ≡ false) (heard_turns listen_fd fd turns)
    → All IsBanner (sent fd (serve listen_fd turns connections).1)
serve_quiet listen_fd fd turns connections h quiet =
    rw (serve-client_run listen_fd fd turns connections)
      (client_run_quiet (heard_turns listen_fd fd turns) (lookup fd connections) quiet h).1
