-- ===== src/Epoll/Session.antt =====
-- The server as one small machine for each client: no event of one client changes what another is
-- told.
use go_systems_lab.Prelude.{
  ℕ, ◌≡◌, ◌≢◌, refl, sym, ap, true, false, ◌==◌, Bool-cases, inl, inr, List, [], ◌∷◌, ◌++◌, Option,
  none, some, if◌then◌else◌, map, arith,
}
use go_systems_lab.Bytes.{Bytes, equal}
use go_systems_lab.Text.Space.{trim_space}
use go_systems_lab.Epoll.Server.{
  State, handshake, authenticated, Connections, lookup, Action, added, removed, closed, wrote,
  Ready, server_ready, client_hello, auth_success, send_hello_first, echo_prefix, accept_client,
  hang_up, answer_input, handle_read, handle_data, handle_event, handle_events,
}
use go_systems_lab.Epoll.Connections.{
  lookup-delete_self, lookup-delete_other, lookup-insert_self, lookup-insert_other,
}

-- The texts written to a descriptor, in order.
unfoldable pub sent : ℕ → List Action → List Bytes
sent fd [] = []
sent fd (wrote fd' text ∷ actions) =
    let rest = sent fd actions in if fd' == fd then text ∷ rest else rest
sent fd (_ ∷ actions) = sent fd actions

-- What an event is for the client with a descriptor.
pub data Heard : Type 0 where
  connected gone elsewhere : Heard
  said : Bytes → Heard

unfoldable pub heard_read : Option Bytes → Heard
heard_read none = gone
heard_read (some []) = gone
heard_read (some (b ∷ bytes)) = said (b ∷ bytes)

unfoldable pub heard_accept : ℕ → Option ℕ → Heard
heard_accept fd none = elsewhere
heard_accept fd (some cfd) = if cfd == fd then connected else elsewhere

unfoldable pub heard : ℕ → ℕ → Ready → Heard
heard listen_fd fd ready =
    if ready.fd == listen_fd
    then heard_accept fd ready.accepted
    else if ready.fd == fd
    then heard_read ready.read
    else elsewhere

-- The protocol: connect, wait for SERVER_READY, send CLIENT_HELLO, be echoed.
unfoldable pub client_step : Heard → Option State → Option State × List Bytes
client_step connected state = (some handshake, server_ready ∷ [])
client_step gone state = (none, [])
client_step elsewhere state = (state, [])
client_step (said bytes) none = (none, [])
client_step (said bytes) (some handshake) =
    if equal (trim_space bytes) client_hello
    then (some authenticated, auth_success ∷ [])
    else (some handshake, send_hello_first ∷ [])
client_step (said bytes) (some authenticated) = (some authenticated, echo_prefix ∷ bytes ∷ [])

unfoldable pub client_run : List Heard → Option State → Option State × List Bytes
client_run [] state = (state, [])
client_run (h ∷ hs) state =
    let (next, texts) = client_step h state in
    let (final, more) = client_run hs next in (final, texts ++ more)

-- What the client with a descriptor sees of a table and a list of actions.
abbrev pub view : ℕ → Connections × List Action → Option State × List Bytes
view fd (connections, actions) = (lookup fd connections, sent fd actions)

eq_self : (n : ℕ) → (n == n) ≡ true
eq_self n = ground arith

pub sent-append :
    (fd : ℕ) (first second : List Action)
    → sent fd (first ++ second) ≡ sent fd first ++ sent fd second
unfolding sent
sent-append fd [] second = refl
sent-append fd (wrote fd' text ∷ first) second = elim (Bool-cases (fd' == fd)) [
  | inl e ↦ rw e (ap (◌∷◌ text) (sent-append fd first second))
  | inr ne ↦ rw ne (sent-append fd first second)
]
sent-append fd (added _ ∷ first) second = sent-append fd first second
sent-append fd (removed _ ∷ first) second = sent-append fd first second
sent-append fd (closed _ ∷ first) second = sent-append fd first second

view-accept_client :
    (fd : ℕ) (accepted : Option ℕ) (connections : Connections)
    → view fd (accept_client accepted connections)
      ≡ client_step (heard_accept fd accepted) (lookup fd connections)
unfolding accept_client heard_accept client_step sent
view-accept_client fd none connections = refl
view-accept_client fd (some cfd) connections = elim (Bool-cases (cfd == fd)) [
  | inl e ↦
      let same : cfd ≡ fd = ground arith in
      rw (e, same, lookup-insert_self fd handshake connections) refl
  | inr ne ↦
      let other : fd ≢ cfd = ground arith in
      rw (ne, lookup-insert_other cfd fd handshake connections other) refl
]

view-handle_data_self :
    (fd : ℕ) (state : Option State) (read : Option Bytes) (connections : Connections)
    → lookup fd connections ≡ state
    → view fd (handle_data fd state read connections) ≡ client_step (heard_read read) state
unfolding handle_data handle_read answer_input hang_up heard_read client_step sent
view-handle_data_self fd none none connections h = rw h refl
view-handle_data_self fd none (some []) connections h = rw h refl
view-handle_data_self fd none (some (b ∷ bytes)) connections h = rw h refl
view-handle_data_self fd (some state) none connections h =
    rw (lookup-delete_self fd connections) refl
view-handle_data_self fd (some state) (some []) connections h =
    rw (lookup-delete_self fd connections) refl
view-handle_data_self fd (some handshake) (some (b ∷ bytes)) connections h =
    elim (Bool-cases (equal (trim_space (b ∷ bytes)) client_hello)) [
      | inl hello ↦ rw (hello, lookup-insert_self fd authenticated connections, eq_self fd) refl
      | inr other ↦ rw (other, h, eq_self fd) refl
    ]
view-handle_data_self fd (some authenticated) (some (b ∷ bytes)) connections h =
    rw (h, eq_self fd) refl

view-handle_data_other :
    (fd other : ℕ) (state : Option State) (read : Option Bytes) (connections : Connections)
    → other ≢ fd
    → view other (handle_data fd state read connections) ≡ (lookup other connections, [])
unfolding handle_data handle_read answer_input hang_up sent
view-handle_data_other fd other none read connections ne = refl
view-handle_data_other fd other (some state) none connections ne =
    rw (lookup-delete_other fd other connections ne) refl
view-handle_data_other fd other (some state) (some []) connections ne =
    rw (lookup-delete_other fd other connections ne) refl
view-handle_data_other fd other (some handshake) (some (b ∷ bytes)) connections ne =
    let test : (fd == other) ≡ false = ground arith in
    elim (Bool-cases (equal (trim_space (b ∷ bytes)) client_hello)) [
      | inl hello ↦ rw (hello, lookup-insert_other fd other authenticated connections ne, test) refl
      | inr none_yet ↦ rw (none_yet, test) refl
    ]
view-handle_data_other fd other (some authenticated) (some (b ∷ bytes)) connections ne =
    let test : (fd == other) ≡ false = ground arith in rw test refl

-- One event: every client sees its own machine make its step.
view-handle_event :
    (listen_fd fd : ℕ) (ready : Ready) (connections : Connections)
    → view fd (handle_event listen_fd ready connections)
      ≡ client_step (heard listen_fd fd ready) (lookup fd connections)
unfolding handle_event heard client_step
view-handle_event listen_fd fd ready connections = elim (Bool-cases (ready.fd == listen_fd)) [
  | inl listening ↦ rw listening (view-accept_client fd ready.accepted connections)
  | inr client ↦ elim (Bool-cases (ready.fd == fd)) [
    | inl e ↦
        let same : ready.fd ≡ fd = ground arith in
        rw (client, e, same)
          (view-handle_data_self fd (lookup fd connections) ready.read connections refl)
    | inr ne ↦
        let other : fd ≢ ready.fd = ground arith in
        rw (client, ne)
          (view-handle_data_other ready.fd fd (lookup ready.fd connections) ready.read connections
            other)
  ]
]

-- Whatever the events and in whatever order, each client is in the state, and was sent the texts, that
-- the protocol gives for the events of this client alone.
pub handle_events-client_run :
    (listen_fd fd : ℕ) (readies : List Ready) (connections : Connections)
    → view fd (handle_events listen_fd readies connections)
      ≡ client_run (map (heard listen_fd fd) readies) (lookup fd connections)
unfolding handle_events client_run
handle_events-client_run listen_fd fd [] connections = unfold sent in refl
handle_events-client_run listen_fd fd (ready ∷ readies) connections =
    let next = (handle_event listen_fd ready connections).0 in
    let actions = (handle_event listen_fd ready connections).1 in
    let one = view-handle_event listen_fd fd ready connections in
    let later = handle_events-client_run listen_fd fd readies next in
    rw
      (
        sent-append fd actions (handle_events listen_fd readies next).1,
        sym (ap (λ v. v.0) one),
        sym (ap (λ v. v.1) one),
      )
      (ap (λ v. (v.0, sent fd actions ++ v.1)) later)
