-- ===== src/Procfs/Settled.antt =====
-- No section panics, whatever the files hold.
use go_systems_lab.Prelude.{
  ℕ, zero, suc, ◌≡◌, refl, List, [], ◌∷◌, Bool, true, false, Bool-cases, ◌⊎◌, inl, inr, ltb, length,
  Result, ok, err, ◌>>=◌, arith,
}
use go_systems_lab.Bytes.{Bytes}
use go_systems_lab.Text.Number.{Parsed, value, syntax, range}
use go_systems_lab.Text.Scan.{scan}
use go_systems_lab.Text.Space.{fields}
use go_systems_lab.Procfs.Samples.{
  LoadError, word_at, load_line, of_first, parse_cpu_load, parse_cpu_samples, parse_net_samples,
}
use go_systems_lab.Procfs.Safety.{Returns, word_at-Returns, parse_samples-Returns}
use go_systems_lab.Procfs.Telemetry.{
  Floats, TelemetryError, Reading, text_of, of_load, complete, print_cpu_load, print_cpu_cores,
  get_cpu_samples, get_net_samples,
}
use go_systems_lab.Procfs.Rates.{
  energy_of, first_energy, read_energy_uj, mem_lines, parse_mem_info, print_net_dev,
  print_power_usage, print_mem_info,
}
use go_systems_lab.Procfs.Sections.{Section, cpu, cores, net, power, mem, Round, print_section}

-- A result that is no panic.
abbrev pub IsSettled : {E A : Type 0} → Result E A → Type 0
IsSettled {E = E} {A = A} r = ((a : A) × (r ≡ ok a)) ⊎ ((e : E) × (r ≡ err e))

bind-IsSettled :
    {E A B : Type 0} (r : Result E A) (k : A → Result E B)
    → IsSettled r
    → ((a : A) → IsSettled (k a))
    → IsSettled (r >>= k)
bind-IsSettled r k (inl (a, e)) h = rw e (h a)
bind-IsSettled r k (inr (e, p)) h = inr (e, rw p refl)

settled : {E A : Type 0} {r : Result E A} → Returns r → IsSettled r
settled h = inl h

text_of-IsSettled : (reading : Reading) → IsSettled (text_of reading)
text_of-IsSettled (inl errno) = inr (_, refl)
text_of-IsSettled (inr text) = inl (_, refl)

complete-IsSettled : {A : Type 0} (r : A × Bool) → IsSettled (complete r)
complete-IsSettled (samples, true) = inr (_, refl)
complete-IsSettled (samples, false) = inl (_, refl)

load_line-IsSettled :
    (failure : LoadError) (words : List Bytes) → IsSettled (load_line failure words)
unfolding load_line
load_line-IsSettled failure words = elim (Bool-cases (ltb (length words) 3)) [
  | inl few ↦ inr (failure, rw few refl)
  | inr enough ↦ rw enough (
      bind-IsSettled (word_at 0 words) _ (settled (word_at-Returns words 0 (ground arith))) (λ one.
        bind-IsSettled (word_at 1 words) _ (settled (word_at-Returns words 1 (ground arith)))
          (λ five.
            bind-IsSettled (word_at 2 words) _ (settled (word_at-Returns words 2 (ground arith)))
              (λ fifteen. inl (_, refl)))))
]

of_load-IsSettled : (r : Result LoadError Bytes) → IsSettled r → IsSettled (of_load r)
of_load-IsSettled r (inl (a, e)) = rw e (inl (_, refl))
of_load-IsSettled r (inr (a, e)) = rw e (inr (_, refl))

of_first-IsSettled : (r : List Bytes × Bool) → IsSettled (of_first r)
of_first-IsSettled ([], true) = inr (_, refl)
of_first-IsSettled ([], false) = inr (_, refl)
of_first-IsSettled (line ∷ _, _) = load_line-IsSettled _ (fields line)

parse_cpu_load-IsSettled : (text : Bytes) → IsSettled (parse_cpu_load text)
unfolding parse_cpu_load
parse_cpu_load-IsSettled text = of_first-IsSettled (scan text)

samples-IsSettled :
    (reading : Reading) → IsSettled (get_cpu_samples reading) × IsSettled (get_net_samples reading)
unfolding get_cpu_samples get_net_samples
samples-IsSettled reading = (
  bind-IsSettled (text_of reading) _ (text_of-IsSettled reading) (λ text.
      bind-IsSettled (parse_cpu_samples text) complete (settled (parse_samples-Returns text).0)
        complete-IsSettled),
  bind-IsSettled (text_of reading) _ (text_of-IsSettled reading) (λ text.
      bind-IsSettled (parse_net_samples text) complete (settled (parse_samples-Returns text).1)
        complete-IsSettled),
)

energy_of-IsSettled : (p : Parsed ℕ) → IsSettled (energy_of p)
energy_of-IsSettled (value n) = inl (_, refl)
energy_of-IsSettled syntax = inr (_, refl)
energy_of-IsSettled (range n) = inr (_, refl)

first_energy-IsSettled : (r : Result TelemetryError ℕ) → IsSettled r → IsSettled (first_energy r)
first_energy-IsSettled r (inl (a, e)) = rw e (inl (_, refl))
first_energy-IsSettled r (inr (a, e)) = rw e (inr (_, refl))

read_energy_uj-IsSettled : (reading : Reading) → IsSettled (read_energy_uj reading)
unfolding read_energy_uj
read_energy_uj-IsSettled reading =
    bind-IsSettled (text_of reading) _ (text_of-IsSettled reading)
      (λ content. energy_of-IsSettled _)

module _ {F : Type 0} (floats : Floats F) where
  mem_lines-IsSettled :
      (limit : ℕ) (lines : List Bytes) (too_long : Bool)
      → IsSettled (mem_lines floats limit lines too_long)
  unfolding mem_lines
  mem_lines-IsSettled limit [] true = inr (_, refl)
  mem_lines-IsSettled limit [] false = inl (_, refl)
  mem_lines-IsSettled zero (line ∷ lines) too_long = inl (_, refl)
  mem_lines-IsSettled (suc limit) (line ∷ lines) too_long =
      bind-IsSettled (mem_lines floats limit lines too_long) _
        (mem_lines-IsSettled limit lines too_long) (λ output. inl (_, refl))

  pub print_section-IsSettled : (r : Round) (s : Section) → IsSettled (print_section floats r s)
  unfolding print_section print_cpu_load print_cpu_cores print_net_dev print_power_usage
      print_mem_info parse_mem_info
  print_section-IsSettled r cpu =
      bind-IsSettled (text_of r.loadavg) _ (text_of-IsSettled r.loadavg)
        (λ text. of_load-IsSettled _ (parse_cpu_load-IsSettled text))
  print_section-IsSettled r cores =
      bind-IsSettled (get_cpu_samples r.stat_before) _ (samples-IsSettled r.stat_before).0 (λ s1.
        bind-IsSettled (get_cpu_samples r.stat_now) _ (samples-IsSettled r.stat_now).0
          (λ s2. inl (_, refl)))
  print_section-IsSettled r net =
      bind-IsSettled (get_net_samples r.net_before) _ (samples-IsSettled r.net_before).1 (λ s1.
        bind-IsSettled (get_net_samples r.net_now) _ (samples-IsSettled r.net_now).1
          (λ s2. inl (_, refl)))
  print_section-IsSettled r power =
      bind-IsSettled (first_energy (read_energy_uj r.energy_before)) _
        (first_energy-IsSettled _ (read_energy_uj-IsSettled r.energy_before))
        (λ uj1.
          bind-IsSettled (read_energy_uj r.energy_now) _ (read_energy_uj-IsSettled r.energy_now)
            (λ uj2. inl (_, refl)))
  print_section-IsSettled r mem =
      bind-IsSettled (text_of r.meminfo) _ (text_of-IsSettled r.meminfo) (λ text.
        bind-IsSettled (mem_lines floats 5 (scan text).0 (scan text).1) _
          (mem_lines-IsSettled 5 (scan text).0 (scan text).1) (λ out. inl (_, refl)))
