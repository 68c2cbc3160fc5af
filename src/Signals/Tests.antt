-- ===== src/Signals/Tests.antt =====
-- The agent from its start to its end, and the theorem on it.
use go_systems_lab.Prelude.{◌≡◌, refl, [], ◌∷◌, true, false, some, none}
use go_systems_lab.Bytes.{codes}
use go_systems_lab.Text.Space.{fields, fields_loop, space_width}
use go_systems_lab.Signals.Agent.{
  cancel, write_shutdown, sync, close, load_line, shutdown_line, State, get_cpu_load, load_text,
  tick, start,
}

load : get_cpu_load (some (codes "0.10 0.25 0.30 1/234 5678\n")) ≡ codes "0.10 0.25 0.30"
unfolding get_cpu_load fields fields_loop space_width
load = refl

-- A line of load falls between the line of shutdown and the flush.
abbrev final : State
final = record {
  debug = false;
  cancelled = true;
  pending = [];
  leaving = true;
  working = true;
  is_open = false;
  log = shutdown_line (codes "12:00:00") ∷ load_line (load_text (codes "12:00:00") none) ∷ [];
  synced = shutdown_line (codes "12:00:00") ∷ load_line (load_text (codes "12:00:00") none) ∷ [];
  shown = [];
}

-- A signal has come, and main has taken no action yet.
abbrev told : State
told = record start {
  pending = cancel ∷ write_shutdown (codes "12:00:00") ∷ sync ∷ close ∷ [];
  leaving = true;
}

-- The worker writes its line after the first action of main.
abbrev midway : State
midway = tick (codes "12:00:00") none (record told {
  cancelled = true;
  pending = write_shutdown (codes "12:00:00") ∷ sync ∷ close ∷ [];
})
