-- ===== src/Signals/Agent.antt =====
-- `handleSignal`, `cleanup`, `doWork` and `getCPULoad` as steps of two goroutines: what main still has to
-- do for a signal is a list of actions, between which the worker's steps can fall. The time of day, the file
-- /proc/loadavg and the order of the steps are parameters. What is printed of signals is left out.
use go_systems_lab.Prelude.{
  ◌≡◌, List, [], ◌∷◌, ◌++◌, Bool, true, false, not, if◌then◌else◌, Option, none, some,
}
use go_systems_lab.Bytes.{Bytes, codes}
use go_systems_lab.Text.Space.{fields}

-- The three that the agent is notified of, and any other.
pub data Signal : Type 0 where
  sighup sigint sigterm other_signal : Signal

-- `toggle_debug` is the body of the case SIGHUP, `cancel` the call of the context's function, the others are the
-- calls of `cleanup`.
pub data Action : Type 0 where
  toggle_debug cancel sync close : Action
  write_shutdown : Bytes → Action

-- What is written to the log.
pub data Entry : Type 0 where
  load_line shutdown_line : Bytes → Entry

pub record State : Type 0 where
  pub debug : Bool
  pub cancelled : Bool
  pub pending : List Action
  pub leaving : Bool
  pub working : Bool
  pub is_open : Bool
  pub log : List Entry
  pub synced : List Entry
  pub shown : List Entry

unfoldable pub cleanup : Bytes → List Action
cleanup time = write_shutdown time ∷ sync ∷ close ∷ []

-- The actions for a signal, and whether the loop ends behind them.
unfoldable pub handle_signal : Bytes → Signal → List Action × Bool
unfolding cleanup
handle_signal time sighup = (toggle_debug ∷ [], false)
handle_signal time sigint = (cancel ∷ cleanup time, true)
handle_signal time sigterm = (cancel ∷ cleanup time, true)
handle_signal time other_signal = ([], false)

-- `f.WriteString`: an error where the file is closed, which both callers drop.
unfoldable pub write_string : Entry → State → State
write_string entry s = record s { log = if s.is_open then s.log ++ (entry ∷ []) else s.log }

unfoldable pub perform : Action → State → State
unfolding write_string
perform toggle_debug s = record s { debug = not s.debug }
perform cancel s = record s { cancelled = true }
perform (write_shutdown time) s = write_string (shutdown_line time) s
perform sync s = record s { synced = if s.is_open then s.log else s.synced }
perform close s = record s { is_open = false }

-- `getCPULoad`, without the error that `doWork` drops: nothing for a file that cannot be read.
unfoldable pub first_three : List Bytes → Bytes
first_three (one ∷ five ∷ fifteen ∷ _) = one ++ (codes " " ++ (five ++ (codes " " ++ fifteen)))
first_three _ = codes "unknown"

unfoldable pub get_cpu_load : Option Bytes → Bytes
unfolding first_three
get_cpu_load none = []
get_cpu_load (some content) = first_three (fields content)

-- The text of a line of load at a time of day.
unfoldable pub load_text : Bytes → Option Bytes → Bytes
load_text time file = codes "[" ++ (time ++ (codes "] LOAD: " ++ (get_cpu_load file ++ codes "\n")))

-- A tick of the worker: it writes the line, and shows it in debug mode.
unfoldable pub tick : Bytes → Option Bytes → State → State
unfolding write_string
tick time file s =
    let line = load_line (load_text time file) in
    record (write_string line s) { shown = if s.debug then s.shown ++ (line ∷ []) else s.shown }

abbrev pub start : State
start = record {
  debug = false;
  cancelled = false;
  pending = [];
  leaving = false;
  working = true;
  is_open = true;
  log = [];
  synced = [];
  shown = [];
}

-- Main has left its loop, and the program ends.
abbrev pub HasExited : State → Type 0
HasExited s = (s.pending ≡ []) × (s.leaving ≡ true)

-- The steps of main and of the worker. `select` may take a tick although the context is cancelled.
pub data Step : State → State → Type 0 where
  received :
      (s : State) (time : Bytes) (sig : Signal)
      → s.pending ≡ []
      → s.leaving ≡ false
      → Step s
          (record s { pending = (handle_signal time sig).0; leaving = (handle_signal time sig).1 })
  performed :
      (s : State) (a : Action) (rest : List Action)
      → s.pending ≡ a ∷ rest
      → Step s (record (perform a s) { pending = rest })
  ticked :
      (s : State) (time : Bytes) (file : Option Bytes)
      → s.working ≡ true
      → ¬ HasExited s
      → Step s (tick time file s)
  stopped :
      (s : State)
      → s.working ≡ true
      → s.cancelled ≡ true
      → ¬ HasExited s
      → Step s (record s { working = false })

-- The states that the agent can come to, from an empty log.
pub data IsReachable : State → Type 0 where
  started : IsReachable start
  stepped : {s t : State} → IsReachable s → Step s t → IsReachable t
