-- ===== src/Procfs/Sections.antt =====
-- `main`: the sections that are asked for, once or in rounds.
use go_systems_lab.Prelude.{
  List, [], ◌∷◌, ◌++◌, map, Bool, true, false, not, ◌&&◌, ◌||◌, if◌then◌else◌, ok, err, panic,
}
use go_systems_lab.Prelude.Prog.{Prog, ◌>>◌, done}
use go_systems_lab.Bytes.{Bytes, codes}
use go_systems_lab.Procfs.Samples.{NetSamples}
use go_systems_lab.Procfs.Telemetry.{
  Floats, TelemetryError, Reading, Print, print_cpu_load, print_cpu_cores,
}
use go_systems_lab.Procfs.Rates.{print_net_dev, print_power_usage, print_mem_info}

pub data Section : Type 0 where
  cpu cores net power mem : Section

pub record Flags : Type 0 where
  pub cpu_flag : Bool
  pub cores_flag : Bool
  pub mem_flag : Bool
  pub net_flag : Bool
  pub power_flag : Bool
  pub live_flag : Bool

abbrev pub sections : List Section
sections = cpu ∷ cores ∷ net ∷ power ∷ mem ∷ []

unfoldable pub show_all : Flags → Bool
show_all f =
    not f.cpu_flag && not f.cores_flag && not f.mem_flag && not f.net_flag && not f.power_flag

-- `run`
unfoldable pub is_wanted : Flags → Section → Bool
unfolding show_all
is_wanted f cpu = show_all f || f.cpu_flag
is_wanted f cores = show_all f || f.cores_flag
is_wanted f net = show_all f || f.net_flag
is_wanted f power = show_all f || f.power_flag
is_wanted f mem = show_all f || f.mem_flag

-- What one round finds: the time as text, the readings of the files, and Go's order of the interfaces.
pub record Round : Type 0 where
  pub time : Bytes
  pub loadavg : Reading
  pub stat_before : Reading
  pub stat_now : Reading
  pub net_before : Reading
  pub net_now : Reading
  pub order : NetSamples → NetSamples
  pub energy_before : Reading
  pub energy_now : Reading
  pub meminfo : Reading

-- A line on standard output, an error on standard error, or the clearing of the screen.
pub data Output : Type 0 where
  out_line : Bytes → Output
  error_line : TelemetryError → Output
  clear_screen : Output

-- A part of the program, over what is printed; a panic is its only failure.
abbrev pub Printing : Type 0
Printing = Prog (List Output) (Unit {0}) (Unit {0})

abbrev pub say : List Output → Printing
say new before = (before ++ new, ok tt)

abbrev pub shown : Print → Printing
shown (ok lines) = say (map out_line lines)
shown (err e) = say (error_line e ∷ [])
shown panic = λ before. (before, panic)

-- Further rounds, with `-live`.
abbrev pub continued : Bool → Printing → Printing
continued true rest = rest
continued false rest = done tt

module _ {F : Type 0} (floats : Floats F) where
  unfoldable pub print_section : Round → Section → Print
  print_section r cpu = print_cpu_load r.loadavg
  print_section r cores = print_cpu_cores floats r.stat_before r.stat_now
  print_section r net = print_net_dev floats r.order r.net_before r.net_now
  print_section r power = print_power_usage floats r.energy_before r.energy_now
  print_section r mem = print_mem_info floats r.meminfo

  -- `first` is whether no section has been shown yet.
  unfoldable pub run_sections : Flags → Round → Bool → List Section → Printing
  unfolding print_section
  run_sections f r first [] = done tt
  run_sections f r first (s ∷ rest) =
      if is_wanted f s
      then (do
        say (if first then [] else out_line [] ∷ [])
        shown (print_section r s)
        run_sections f r false rest)
      else run_sections f r first rest

  abbrev pub live_header : Flags → Round → Printing
  live_header f r = say (
      if f.live_flag
      then clear_screen
        ∷ out_line (codes "--- Go Systems Lab: Live Telemetry (" ++ (r.time ++ codes ") ---"))
        ∷ out_line []
        ∷ []
      else [])

  unfoldable pub run_round : Flags → Round → Printing
  unfolding run_sections
  run_round f r = live_header f r >> run_sections f r true sections

  -- Over the rounds that the program lives for.
  unfoldable pub run_rounds : Flags → List Round → Printing
  unfolding run_round
  run_rounds f [] = done tt
  run_rounds f (r ∷ rounds) = run_round f r >> continued f.live_flag (run_rounds f rounds)
