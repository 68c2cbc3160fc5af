-- ===== src/Epoll/Server.antt =====
-- The event loop of `runServer`. A client's descriptor is open from its `added` to its `closed`.
use go_systems_lab.Prelude.{
  ℕ, ◌==◌, Bool, not, ◌&&◌, List, [], ◌∷◌, ◌++◌, Option, none, some, if◌then◌else◌,
}
use go_systems_lab.Bytes.{Bytes, codes, equal}
use go_systems_lab.Text.Space.{trim_space}

-- `connContext.state`
pub data State : Type 0 where
  handshake authenticated : State

-- `map[int]*connContext`, a descriptor at most once.
abbrev pub Connections : Type 0
Connections = List (ℕ × State)

unfoldable pub lookup : ℕ → Connections → Option State
lookup fd [] = none
lookup fd ((fd', state) ∷ connections) = if fd' == fd then some state else lookup fd connections

unfoldable pub delete : ℕ → Connections → Connections
delete fd [] = []
delete fd ((fd', state) ∷ connections) =
    let rest = delete fd connections in if fd' == fd then rest else (fd', state) ∷ rest

unfoldable pub insert : ℕ → State → Connections → Connections
insert fd state connections = (fd, state) ∷ delete fd connections

-- The system calls on clients: EPOLL_CTL_ADD, EPOLL_CTL_DEL, close and write. The program does not look
-- at their errors.
pub data Action : Type 0 where
  added removed closed : ℕ → Action
  wrote : ℕ → Bytes → Action

-- An event of `EpollWait`, with what the call that the handler then makes would answer: the
-- descriptor of a new connection (`none`: Accept failed; that `File` of the connection succeeds is
-- assumed), and the bytes read (`none`: Read failed).
pub record Ready : Type 0 where
  pub fd : ℕ
  pub accepted : Option ℕ
  pub read : Option Bytes

abbrev pub server_ready : Bytes
server_ready = codes "SERVER_READY\n"

abbrev pub client_hello : Bytes
client_hello = codes "CLIENT_HELLO"

abbrev pub auth_success : Bytes
auth_success = codes "AUTH_SUCCESS: Welcome to Echo Room\n"

abbrev pub send_hello_first : Bytes
send_hello_first = codes "ERROR: Send CLIENT_HELLO to begin\n"

abbrev pub echo_prefix : Bytes
echo_prefix = codes "ECHO: "

unfoldable pub accept_client : Option ℕ → Connections → Connections × List Action
accept_client none connections = (connections, [])
accept_client (some cfd) connections =
    (insert cfd handshake connections, added cfd ∷ wrote cfd server_ready ∷ [])

unfoldable pub hang_up : ℕ → Connections → Connections × List Action
hang_up fd connections = (delete fd connections, removed fd ∷ closed fd ∷ [])

unfoldable pub answer_input : ℕ → State → Bytes → Connections → Connections × List Action
answer_input fd handshake bytes connections =
    if equal (trim_space bytes) client_hello
    then (insert fd authenticated connections, wrote fd auth_success ∷ [])
    else (connections, wrote fd send_hello_first ∷ [])
answer_input fd authenticated bytes connections =
    (connections, wrote fd echo_prefix ∷ wrote fd bytes ∷ [])

unfoldable pub handle_read : ℕ → State → Option Bytes → Connections → Connections × List Action
handle_read fd state none connections = hang_up fd connections
handle_read fd state (some []) connections = hang_up fd connections
handle_read fd state (some (b ∷ bytes)) connections = answer_input fd state (b ∷ bytes) connections

unfoldable pub handle_data :
    ℕ → Option State → Option Bytes → Connections → Connections × List Action
handle_data fd none read connections = (connections, [])
handle_data fd (some state) read connections = handle_read fd state read connections

unfoldable pub handle_event : ℕ → Ready → Connections → Connections × List Action
handle_event listen_fd ready connections =
    if ready.fd == listen_fd
    then accept_client ready.accepted connections
    else handle_data ready.fd (lookup ready.fd connections) ready.read connections

-- `for i := 0; i < n; i++`
unfoldable pub handle_events : ℕ → List Ready → Connections → Connections × List Action
handle_events listen_fd [] connections = (connections, [])
handle_events listen_fd (ready ∷ readies) connections =
    let (next, actions) = handle_event listen_fd ready connections in
    let (final, more) = handle_events listen_fd readies next in (final, actions ++ more)

-- `for fd := range connections`; the order of a map is not determined, here it is that of the list.
unfoldable pub close_all : Connections → List Action
close_all [] = []
close_all ((fd, state) ∷ connections) = closed fd ∷ close_all connections

-- One turn of the loop: the errno of `EpollWait` (0 for none), whether `stop` is closed by then, and
-- the events, which count only where the wait succeeded (`n` is -1 otherwise).
pub record Turn : Type 0 where
  pub failure : ℕ
  pub stop : Bool
  pub readies : List Ready

abbrev pub eintr : ℕ
eintr = 4

pub data Outcome : Type 0 where
  -- The turns given are used up and the server still runs.
  serving : Connections → Outcome
  stopped : Outcome
  -- "error in epoll_wait", with the connections that are left behind
  wait_failed : ℕ → Connections → Outcome

abbrev pub happened : List Action → Outcome × List Action → Outcome × List Action
happened actions (outcome, more) = (outcome, actions ++ more)

-- The loop, and all that it did to clients.
unfoldable pub serve : ℕ → List Turn → Connections → Outcome × List Action
serve listen_fd [] connections = (serving connections, [])
serve listen_fd (turn ∷ turns) connections =
    let (next, actions) =
      handle_events listen_fd (if turn.failure == 0 then turn.readies else []) connections in
    let rest = serve listen_fd turns next in
    if not (turn.failure == 0) && not (turn.failure == eintr)
    then (wait_failed turn.failure connections, [])
    else if turn.stop
    then (stopped, close_all connections)
    else happened actions rest
