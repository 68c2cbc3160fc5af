-- ===== src/Signals/Shutdown.antt =====
-- What the log holds in every state that the agent can come to.
use go_systems_lab.Prelude.{◌≡◌, refl, sym, List, [], ◌∷◌, ◌++◌, true, false, inl, inr, ◌⊎◌, Option}
use mathlib.Core.List.{append_assoc, append-nil}
use go_systems_lab.Bytes.{Bytes, All, All-append}
use go_systems_lab.Signals.Agent.{
  Signal, sighup, sigint, sigterm, other_signal, Action, toggle_debug, cancel, write_shutdown, sync,
  close, Entry, load_line, shutdown_line, State, cleanup, handle_signal, write_string, perform,
  load_text, tick, Step, received, performed, ticked, stopped, IsReachable, started, stepped,
}

abbrev pub IsLoad : Entry → Type 0
IsLoad (load_line _) = Unit
IsLoad (shutdown_line _) = ⊥

-- One line of shutdown, with lines of load before and behind it.
abbrev pub IsMarked : List Entry → Type 0
IsMarked log =
    (before : List Entry) × (time : Bytes) × (after : List Entry) × (log
      ≡ before ++ (shutdown_line time ∷ after))
    × All IsLoad before
    × All IsLoad after

-- What is written, and some lines of load behind it.
abbrev pub IsBehind : List Entry → List Entry → Type 0
IsBehind synced log = (more : List Entry) × (log ≡ synced ++ more) × All IsLoad more

-- How far main has come.
pub data Phase (s : State) : Type 0 where
  serving :
      ((s.pending ≡ []) ⊎ (s.pending ≡ toggle_debug ∷ []))
      → s.leaving ≡ false
      → s.is_open ≡ true
      → s.cancelled ≡ false
      → All IsLoad s.log
      → Phase s
  entering :
      (time : Bytes)
      → s.pending ≡ cancel ∷ cleanup time
      → s.leaving ≡ true
      → s.is_open ≡ true
      → All IsLoad s.log
      → Phase s
  stopping :
      (time : Bytes)
      → s.pending ≡ cleanup time
      → s.leaving ≡ true
      → s.is_open ≡ true
      → s.cancelled ≡ true
      → All IsLoad s.log
      → Phase s
  logged :
      s.pending ≡ sync ∷ close ∷ []
      → s.leaving ≡ true
      → s.is_open ≡ true
      → s.cancelled ≡ true
      → IsMarked s.log
      → Phase s
  flushed :
      s.pending ≡ close ∷ []
      → s.leaving ≡ true
      → s.is_open ≡ true
      → s.cancelled ≡ true
      → IsMarked s.synced
      → IsBehind s.synced s.log
      → Phase s
  finished :
      s.pending ≡ []
      → s.leaving ≡ true
      → s.is_open ≡ false
      → s.cancelled ≡ true
      → IsMarked s.synced
      → IsBehind s.synced s.log
      → Phase s

one_more :
    (log : List Entry) (text : Bytes) → All IsLoad log → All IsLoad (log ++ (load_line text ∷ []))
one_more log text h = All-append IsLoad log (load_line text ∷ []) h (tt, tt)

IsMarked-more :
    (log : List Entry) (text : Bytes) → IsMarked log → IsMarked (log ++ (load_line text ∷ []))
IsMarked-more log text (before, time, after, e, h, k) = (
  before,
  time,
  after ++ (load_line text ∷ []),
  rw e (append_assoc before (shutdown_line time ∷ after) (load_line text ∷ [])),
  h,
  one_more after text k,
)

IsBehind-more :
    (synced log : List Entry) (text : Bytes)
    → IsBehind synced log
    → IsBehind synced (log ++ (load_line text ∷ []))
IsBehind-more synced log text (more, e, h) = (
  more ++ (load_line text ∷ []),
  rw e (append_assoc synced more (load_line text ∷ [])),
  one_more more text h,
)

tick-Phase : (s : State) (time : Bytes) (file : Option Bytes) → Phase s → Phase (tick time file s)
unfolding tick write_string
tick-Phase s time file (serving p l o c h) =
    serving p l o c (rw o (one_more s.log (load_text time file) h))
tick-Phase s time file (entering t p l o h) =
    entering t p l o (rw o (one_more s.log (load_text time file) h))
tick-Phase s time file (stopping t p l o c h) =
    stopping t p l o c (rw o (one_more s.log (load_text time file) h))
tick-Phase s time file (logged p l o c m) =
    logged p l o c (rw o (IsMarked-more s.log (load_text time file) m))
tick-Phase s time file (flushed p l o c m b) =
    flushed p l o c m (rw o (IsBehind-more s.synced s.log (load_text time file) b))
tick-Phase s time file (finished p l o c m b) = finished p l o c m (rw o b)

received-Phase :
    (s : State) (time : Bytes) (sig : Signal)
    → s.leaving ≡ false
    → Phase s
    → Phase
        (record s { pending = (handle_signal time sig).0; leaving = (handle_signal time sig).1 })
unfolding handle_signal
received-Phase s time sighup e (serving p l o c h) = serving (inr refl) refl o c h
received-Phase s time sigint e (serving p l o c h) = entering time refl refl o h
received-Phase s time sigterm e (serving p l o c h) = entering time refl refl o h
received-Phase s time other_signal e (serving p l o c h) = serving (inl refl) refl o c h
received-Phase s time sig e (entering t p l o h) = absurd cc
received-Phase s time sig e (stopping t p l o c h) = absurd cc
received-Phase s time sig e (logged p l o c m) = absurd cc
received-Phase s time sig e (flushed p l o c m b) = absurd cc
received-Phase s time sig e (finished p l o c m b) = absurd cc

performed-Phase :
    (s : State) (a : Action) (rest : List Action)
    → s.pending ≡ a ∷ rest
    → Phase s
    → Phase (record (perform a s) { pending = rest })
unfolding perform write_string cleanup
performed-Phase s a rest e (serving (inl p) l o c h) = absurd cc
performed-Phase s a rest e (serving (inr p) l o c h) =
    let this : a ≡ toggle_debug = cc in
    let after : rest ≡ [] = cc in rw this (serving (inl after) l o c h)
performed-Phase s a rest e (entering t p l o h) =
    let this : a ≡ cancel = cc in
    let after : rest ≡ cleanup t = cc in rw this (stopping t after l o refl h)
performed-Phase s a rest e (stopping t p l o c h) =
    let this : a ≡ write_shutdown t = cc in
    let after : rest ≡ sync ∷ close ∷ [] = cc in
    rw this (logged after l o c (rw o (s.log, t, [], refl, h, tt)))
performed-Phase s a rest e (logged p l o c m) =
    let this : a ≡ sync = cc in
    let after : rest ≡ close ∷ [] = cc in
    rw this (flushed after l o c (rw o m) (rw o ([], sym (append-nil s.log), tt)))
performed-Phase s a rest e (flushed p l o c m b) =
    let this : a ≡ close = cc in let after : rest ≡ [] = cc in rw this (finished after l refl c m b)
performed-Phase s a rest e (finished p l o c m b) = absurd cc

stopped-Phase : (s : State) → Phase s → Phase (record s { working = false })
stopped-Phase s (serving p l o c h) = serving p l o c h
stopped-Phase s (entering t p l o h) = entering t p l o h
stopped-Phase s (stopping t p l o c h) = stopping t p l o c h
stopped-Phase s (logged p l o c m) = logged p l o c m
stopped-Phase s (flushed p l o c m b) = flushed p l o c m b
stopped-Phase s (finished p l o c m b) = finished p l o c m b

step-Phase : {s t : State} → Step s t → Phase s → Phase t
step-Phase (received s time sig p l) h = received-Phase s time sig l h
step-Phase (performed s a rest e) h = performed-Phase s a rest e h
step-Phase (ticked s time file w alive) h = tick-Phase s time file h
step-Phase (stopped s w c alive) h = stopped-Phase s h

pub reachable-Phase : {s : State} → IsReachable s → Phase s
reachable-Phase started = serving (inl refl) refl refl refl tt
reachable-Phase (stepped before step) = step-Phase step (reachable-Phase before)

-- The worker is told to stop, the log is closed, and what was flushed to the disk is a log with one line
-- of shutdown; what is behind it in the log are lines of load.
abbrev pub IsShutDown : State → Type 0
IsShutDown s =
    (s.is_open ≡ false) × (s.cancelled ≡ true) × IsMarked s.synced × IsBehind s.synced s.log
