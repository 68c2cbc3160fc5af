-- ===== src/Epoll/Setup.antt =====
-- `main` and `runServer` around the event loop: the sockets that are opened, and the deferred closes. Which calls
-- fail, and with which errno, is a parameter.
use go_systems_lab.Prelude.{ℕ, List, [], ◌∷◌, ◌++◌, Option, none, some, Result, ok, err, panic}
use go_systems_lab.Epoll.Server.{Action, Turn, Outcome, serving, stopped, wait_failed, serve}

-- The listener, the duplicate of its descriptor that `File` makes, and the epoll instance.
pub data Handle : Type 0 where
  listener listener_file epoll : Handle

pub data Call : Type 0 where
  opened closed : Handle → Call
  -- SetNonblock and EPOLL_CTL_ADD, on the duplicate.
  set_nonblock add_listener : Call

pub record SetupFaults : Type 0 where
  pub listen : Option ℕ
  pub file : Option ℕ
  pub nonblock : Option ℕ
  pub create : Option ℕ
  pub add : Option ℕ

pub data ServerError : Type 0 where
  listen_error file_error nonblock_error create_error add_error wait_error : ℕ → ServerError

-- The calls, and how `runServer` returns, with what it did on the clients' descriptors.
abbrev pub Ran : Type 0
Ran = List Call × Result ServerError Outcome × List Action

-- A call that is returned from if it fails.
abbrev pub tried : Option ℕ → (ℕ → ServerError) → Call → Ran → Ran
tried none e call (calls, end, actions) = (call ∷ calls, end, actions)
tried (some errno) e call rest = ([], err (e errno), [])

-- `defer`: the handle is closed however the rest ends.
abbrev pub deferred : Handle → Ran → Ran
deferred h (calls, end, actions) = (calls ++ (closed h ∷ []), end, actions)

-- `none` for a loop that has no more turns: it ends there.
abbrev pub loop_end : Outcome → Result ServerError Outcome
loop_end (serving connections) = ok (serving connections)
loop_end stopped = ok stopped
loop_end (wait_failed errno connections) = err (wait_error errno)

abbrev pub looped : Outcome × List Action → Ran
looped (end, actions) = ([], loop_end end, actions)

unfoldable pub run_server :
    SetupFaults → ℕ → List Turn → List Call × Result ServerError Outcome × List Action
run_server faults listen_fd turns =
    let registered = tried faults.add add_error add_listener (looped (serve listen_fd turns [])) in
    let watched = tried faults.create create_error (opened epoll) (deferred epoll registered) in
    let prepared = tried faults.nonblock nonblock_error set_nonblock watched in
    let duplicated = tried faults.file file_error (opened listener_file) prepared in
    tried faults.listen listen_error (opened listener) (deferred listener duplicated)

-- The exit status.
abbrev pub status_of : Result ServerError Outcome → ℕ
status_of (ok end) = 0
status_of (err e) = 1
status_of panic = 2

unfoldable pub main_process : SetupFaults → ℕ → List Turn → List Call × ℕ
unfolding run_server
main_process faults listen_fd turns =
    let (calls, end, actions) = run_server faults listen_fd turns in (calls, status_of end)
