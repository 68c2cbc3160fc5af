-- ===== src/Signals/Leaving.antt =====
-- That main leaves its loop once a signal has told it to.
use go_systems_lab.Prelude.{ℕ, ◌+◌, ◌≡◌}
use go_systems_lab.Signals.Agent.{State, Step, received, performed, ticked, stopped}

-- Any steps of main and of the worker, in any order.
pub data Run (s : State) : State → Type 0 where
  here : Run s s
  next : {t u : State} → Run s t → Step t u → Run s u

-- 1 for an action of main, 0 for the other steps.
pub action_count : {s t : State} → Step s t → ℕ
action_count (received s time sig idle staying) = 0
action_count (performed s a rest e) = 1
action_count (ticked s time file working alive) = 0
action_count (stopped s working cancelled alive) = 0

pub main_actions : {s t : State} → Run s t → ℕ
unfolding action_count
main_actions here = 0
main_actions (next run step) = main_actions run + action_count step

-- An action of main that can be taken.
abbrev pub CanAct : State → Type 0
CanAct s = (t : State) × (step : Step s t) × (action_count step ≡ 1)
