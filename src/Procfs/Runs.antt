-- ===== src/Procfs/Runs.antt =====
-- `main` and its rows on concrete texts, with whole numbers for the floating-point ones.
use go_systems_lab.Prelude.{ℕ, ◌*◌, ◌/◌, ◌==◌, [], ◌∷◌, true, false, inl, inr}
use go_systems_lab.Bytes.{codes}
use go_systems_lab.Text.Number.{format_uint, value_or_zero, parse_uint}
use go_systems_lab.Procfs.Readback.{CoreLine}
use go_systems_lab.Procfs.Telemetry.{Floats}
use go_systems_lab.Procfs.Sections.{Flags, Round}

abbrev whole : Floats ℕ
whole = record {
  of_uint = λ n. n;
  is_zero = λ n. n == 0;
  times = λ a b. a * b;
  divide = λ a b. a / b;
  parse = λ s. value_or_zero (parse_uint 10 s);
  fixed = λ digits n. format_uint 10 n;
}

abbrev live : Flags
live = record {
  cpu_flag = false;
  cores_flag = true;
  mem_flag = true;
  net_flag = false;
  power_flag = false;
  live_flag = true;
}

-- No file of /proc can be read, but for one of the memory.
abbrev bare : Round
bare = record {
  time = codes "now";
  loadavg = inl 2;
  stat_before = inl 2;
  stat_now = inl 2;
  net_before = inl 2;
  net_now = inl 2;
  order = λ samples. samples;
  energy_before = inl 13;
  energy_now = inl 13;
  meminfo = inr (codes "MemTotal: 2048 kB\n");
}

abbrev before : CoreLine
before = record { number = 0; user = 10; nice = 1; system = 5; idle = 80; others = 4 ∷ [] }

abbrev now : CoreLine
now = record { number = 0; user = 20; nice = 1; system = 5; idle = 90; others = 4 ∷ [] }
