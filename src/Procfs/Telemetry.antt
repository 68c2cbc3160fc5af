-- ===== src/Procfs/Telemetry.antt =====
-- The printing functions. What is read of a file, floating-point arithmetic and the order in which Go goes over
-- a map are parameters; a width of `fmt.Printf` counts bytes, which are its characters in ASCII.
use go_systems_lab.Prelude.{
  ℕ, zero, suc, ◌+◌, ◌-◌, ◌%◌, ◌^◌, List, [], ◌∷◌, ◌++◌, Bool, true, false, if◌then◌else◌, Option,
  none, some, ◌⊎◌, inl, inr, Result, ok, err, panic, ◌>>=◌, length, replicate,
}
use go_systems_lab.Bytes.{Bytes, codes}
use go_systems_lab.Bytes.Dict.{lookup}
use go_systems_lab.Text.Number.{format_uint}
use go_systems_lab.Procfs.Samples.{
  CoreStats, LoadError, CpuSamples, NetSamples, parse_cpu_load, parse_cpu_samples,
  parse_net_samples,
}

-- `float64`: its operations, `strconv.ParseFloat` without its error, and `%.nf`.
pub record Floats (F : Type 0) : Type 0 where
  pub of_uint : ℕ → F
  pub is_zero : F → Bool
  pub times : F → F → F
  pub divide : F → F → F
  pub parse : Bytes → F
  pub fixed : ℕ → F → Bytes

pub data TelemetryError : Type 0 where
  unreadable : ℕ → TelemetryError
  no_load : LoadError → TelemetryError
  line_too_long bad_energy : TelemetryError
  -- "Intel RAPL restricted or not available"
  restricted : TelemetryError → TelemetryError

-- What `os.Open` and the reads behind it give: an errno, or the text.
abbrev pub Reading : Type 0
Reading = ℕ ⊎ Bytes

-- The lines that are printed; no line is printed in front of an error.
abbrev pub Print : Type 0
Print = Result TelemetryError (List Bytes)

abbrev pub text_of : Reading → Result TelemetryError Bytes
text_of (inl errno) = err (unreadable errno)
text_of (inr text) = ok text

-- `%ns` and `%-ns`.
unfoldable pub padded_left : ℕ → Bytes → Bytes
padded_left w s = replicate (w - length s) b' ' ++ s

unfoldable pub padded_right : ℕ → Bytes → Bytes
padded_right w s = s ++ replicate (w - length s) b' '

abbrev pub of_load : Result LoadError Bytes → Print
of_load (ok out) = ok (codes "--- CPU Load Averages ---" ∷ out ∷ [])
of_load (err e) = err (no_load e)
of_load panic = panic

unfoldable pub print_cpu_load : Reading → Print
print_cpu_load reading = text_of reading >>= (λ text. of_load (parse_cpu_load text))

-- `scanner.Err()` behind the samples.
abbrev pub complete : {A : Type 0} → A × Bool → Result TelemetryError A
complete (samples, true) = err line_too_long
complete (samples, false) = ok samples

unfoldable pub get_cpu_samples : Reading → Result TelemetryError CpuSamples
get_cpu_samples reading = text_of reading >>= (λ text. parse_cpu_samples text >>= complete)

unfoldable pub get_net_samples : Reading → Result TelemetryError NetSamples
get_net_samples reading = text_of reading >>= (λ text. parse_net_samples text >>= complete)

-- `b - a` of uint64.
abbrev pub delta : ℕ → ℕ → ℕ
delta a b = (b + (2 ^ 64 - a)) % 2 ^ 64

abbrev pub cores_header : List Bytes
cores_header =
    (padded_right 8 (codes "Core")
      ++ (codes " | "
          ++ (padded_right 20 (codes "User")
              ++ (codes " | "
                  ++ (padded_right 20 (codes "System")
                      ++ (codes " | " ++ padded_right 20 (codes "Idle")))))))
    ∷ replicate 75 b'-'
    ∷ []

module _ {F : Type 0} (floats : Floats F) where
  abbrev pub or_one : F → F
  or_one x = if floats.is_zero x then floats.of_uint 1 else x

  abbrev pub percent : F → ℕ → F
  percent total n = floats.times (floats.divide (floats.of_uint n) total) (floats.of_uint 100)

  -- A value, and the share of the time that it grew in.
  unfoldable pub core_column : F → ℕ → ℕ → Bytes
  unfolding padded_left
  core_column total before now =
      padded_left 10 (format_uint 10 now)
      ++ (codes " ("
          ++ (padded_left 5 (floats.fixed 1 (percent total (delta before now))) ++ codes "%)"))

  unfoldable pub core_row : Bytes → CoreStats → CoreStats → Bytes
  unfolding padded_right core_column
  core_row name v1 v2 =
      let total = or_one (floats.of_uint (delta v1.total v2.total)) in
      padded_right 8 name
      ++ (codes " | "
          ++ (core_column total v1.user v2.user
              ++ (codes " | "
                  ++ (core_column total v1.system v2.system
                      ++ (codes " | " ++ core_column total v1.idle v2.idle)))))

  -- No row for a core that one of the maps does not have.
  abbrev pub row_of : Bytes → Option CoreStats → Option CoreStats → List Bytes
  row_of name (some v1) (some v2) = core_row name v1 v2 ∷ []
  row_of name (some v1) none = []
  row_of name none v2 = []

  -- The rounds of the loop from `i` on.
  unfoldable pub core_rows : CpuSamples → CpuSamples → ℕ → ℕ → List Bytes
  unfolding core_row
  core_rows s1 s2 i zero = []
  core_rows s1 s2 i (suc rounds) =
      let name = codes "cpu" ++ format_uint 10 i in
      row_of name (lookup name s1) (lookup name s2) ++ core_rows s1 s2 (suc i) rounds

  -- The readings of /proc/stat in front of and behind the sleep.
  unfoldable pub print_cpu_cores : Reading → Reading → Print
  unfolding get_cpu_samples core_rows
  print_cpu_cores before now = do
    s1 ← get_cpu_samples before
    s2 ← get_cpu_samples now
    ok (cores_header ++ core_rows s1 s2 0 (length s2))
