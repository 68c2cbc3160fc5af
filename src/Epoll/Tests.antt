-- ===== src/Epoll/Tests.antt =====
-- One client from its connection to its end, and the theorems on it.
use go_systems_lab.Prelude.{◌≡◌, refl, true, false, List, [], ◌∷◌, none, some}
use go_systems_lab.Bytes.{codes, equal, All}
use go_systems_lab.Epoll.Setup.{SetupFaults}
use go_systems_lab.Epoll.Server.{
  added, removed, closed, wrote, lookup, insert, delete, Ready, Turn, stopped, server_ready,
  auth_success, echo_prefix, send_hello_first, accept_client, hang_up, answer_input, handle_read,
  handle_data, handle_event, handle_events, serve, close_all,
}
use go_systems_lab.Epoll.Session.{sent, heard, heard_read, heard_accept, client_run}
use go_systems_lab.Epoll.Turns.{heard_turns, serve-client_run}
use go_systems_lab.Epoll.Handshake.{is_hello, serve_quiet, IsBanner}
use go_systems_lab.Text.Space.{trim_space, space_width}

abbrev connects : Ready
connects = record { fd = 3; accepted = some 7; read = none }

abbrev hello : Ready
hello = record { fd = 7; accepted = none; read = some (codes " CLIENT_HELLO\n") }

abbrev chatter : Ready
chatter = record { fd = 7; accepted = none; read = some (codes "hi\n") }

abbrev turns_of : List Ready → List Turn
turns_of readies =
    record { failure = 0; stop = false; readies = readies }
    ∷ record { failure = 4; stop = false; readies = [] }
    ∷ record { failure = 0; stop = true; readies = [] }
    ∷ []

-- Before the hello a line is refused, behind it a line is echoed.
serve_session : serve 3 (turns_of (connects ∷ chatter ∷ hello ∷ chatter ∷ [])) [] ≡ (
  stopped,
  added 7
      ∷ wrote 7 server_ready
      ∷ wrote 7 send_hello_first
      ∷ wrote 7 auth_success
      ∷ wrote 7 echo_prefix
      ∷ wrote 7 (codes "hi\n")
      ∷ closed 7
      ∷ [],
)
unfolding serve handle_events handle_event handle_data handle_read answer_input accept_client insert
    lookup delete close_all trim_space equal space_width
serve_session = refl

-- A client that hangs up is closed once.
handle_events_hang_up :
    handle_events 3 (connects ∷ record { fd = 7; accepted = none; read = some [] } ∷ []) []
    ≡ ([], added 7 ∷ wrote 7 server_ready ∷ removed 7 ∷ closed 7 ∷ [])
unfolding handle_events handle_event handle_data handle_read hang_up accept_client insert lookup
    delete
handle_events_hang_up = refl

serve-client_run_example :
    sent 7 (serve 3 (turns_of (connects ∷ hello ∷ chatter ∷ [])) []).1
    ≡ (client_run (heard_turns 3 7 (turns_of (connects ∷ hello ∷ chatter ∷ []))) (lookup 7 [])).1
serve-client_run_example = serve-client_run 3 7 (turns_of (connects ∷ hello ∷ chatter ∷ [])) []

nobody : lookup 7 [] ≡ none
unfolding lookup
nobody = refl

only_chatter : All (λ h. is_hello h ≡ false) (heard_turns 3 7 (turns_of (connects ∷ chatter ∷ [])))
unfolding heard_turns heard heard_read heard_accept is_hello trim_space equal space_width
only_chatter = (refl, (refl, tt))

serve_quiet_example : All IsBanner (sent 7 (serve 3 (turns_of (connects ∷ chatter ∷ [])) []).1)
serve_quiet_example =
    serve_quiet 3 7 (turns_of (connects ∷ chatter ∷ [])) [] (λ e. cc nobody) only_chatter

-- There is no epoll instance to be had.
abbrev no_epoll : SetupFaults
no_epoll = record { listen = none; file = none; nonblock = none; create = some 24; add = none }
