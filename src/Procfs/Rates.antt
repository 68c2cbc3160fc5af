-- ===== src/Procfs/Rates.antt =====
-- `printNetDev`, `printPowerUsage` and `printMemInfo`.
use go_systems_lab.Prelude.{
  ℕ, zero, suc, ◌+◌, List, [], ◌∷◌, ◌++◌, Bool, true, false, ltb, if◌then◌else◌, Option, none, some,
  Result, ok, err, panic, ◌>>=◌, length, replicate,
}
use go_systems_lab.Bytes.{Bytes, codes}
use go_systems_lab.Bytes.Dict.{lookup}
use go_systems_lab.Text.Scan.{scan}
use go_systems_lab.Text.Space.{fields, trim_space}
use go_systems_lab.Text.Number.{Parsed, value, syntax, range, parse_uint, format_uint}
use go_systems_lab.Procfs.Samples.{NetStats, NetSamples}
use go_systems_lab.Procfs.Telemetry.{
  Floats, TelemetryError, line_too_long, bad_energy, restricted, Reading, Print, text_of,
  get_net_samples, delta, padded_left, padded_right,
}

-- `maxIfaceLen`, behind the interfaces of `samples`.
unfoldable pub widest : ℕ → NetSamples → ℕ
widest w [] = w
widest w ((iface, stats) ∷ samples) =
    widest (if ltb w (length iface) then length iface else w) samples

abbrev pub energy_of : Parsed ℕ → Result TelemetryError ℕ
energy_of (value n) = ok n
energy_of syntax = err bad_energy
energy_of (range n) = err bad_energy

unfoldable pub read_energy_uj : Reading → Result TelemetryError ℕ
read_energy_uj reading =
    text_of reading >>= (λ content. energy_of (parse_uint 10 (trim_space content)))

-- The error of the first reading is wrapped, that of the second is not.
abbrev pub first_energy : Result TelemetryError ℕ → Result TelemetryError ℕ
first_energy (ok n) = ok n
first_energy (err e) = err (restricted e)
first_energy panic = panic

abbrev pub net_header : ℕ → List Bytes
net_header w =
    (padded_right w (codes "Interface")
      ++ (codes " | "
          ++ (padded_right 25 (codes "Received (RX)")
              ++ (codes " | " ++ padded_right 25 (codes "Transmitted (TX)")))))
    ∷ replicate (w + 56) b'-'
    ∷ []

module _ {F : Type 0} (floats : Floats F) where
  unfoldable pub net_column : ℕ → ℕ → Bytes
  net_column before now =
      let rate = floats.times (floats.of_uint (delta before now)) (floats.of_uint 4) in
      padded_left 10 (format_uint 10 now)
      ++ (codes " bytes ("
          ++ (padded_left 8 (floats.fixed 1 (floats.divide rate (floats.of_uint 1024)))
              ++ codes " KB/s)"))

  abbrev pub net_row : ℕ → Bytes → Option NetStats → NetStats → List Bytes
  net_row w iface none v2 = []
  net_row w iface (some v1) v2 =
      (padded_right w iface
        ++ (codes " | "
            ++ (net_column v1.rx_bytes v2.rx_bytes
                ++ (codes " | " ++ net_column v1.tx_bytes v2.tx_bytes))))
      ∷ []

  -- `for iface, v2 := range s2`, over the interfaces in the order that Go takes.
  unfoldable pub net_rows : ℕ → NetSamples → NetSamples → List Bytes
  unfolding net_column
  net_rows w s1 [] = []
  net_rows w s1 ((iface, v2) ∷ s2) = net_row w iface (lookup iface s1) v2 ++ net_rows w s1 s2

  -- `order` is the order in which Go goes over the map.
  unfoldable pub print_net_dev : (NetSamples → NetSamples) → Reading → Reading → Print
  unfolding net_rows widest
  print_net_dev order before now = do
    s1 ← get_net_samples before
    s2 ← get_net_samples now
    ok (net_header (widest 9 s2) ++ net_rows (widest 9 s2) s1 (order s2))

  unfoldable pub print_power_usage : Reading → Reading → Print
  unfolding read_energy_uj
  print_power_usage before now = do
    uj1 ← first_energy (read_energy_uj before)
    uj2 ← read_energy_uj now
    let watts =
        floats.divide (floats.times (floats.of_uint (delta uj1 uj2)) (floats.of_uint 4))
          (floats.of_uint 1000000)
    ok (
        (codes "Cumulative Energy: " ++ (format_uint 10 uj2 ++ codes " microjoules"))
        ∷ (codes "Current Draw:      " ++ (floats.fixed 2 watts ++ codes " Watts"))
        ∷ [])

  abbrev pub mem_line_of : Bytes → List Bytes → Bytes
  mem_line_of line (_ ∷ kb ∷ _) =
      padded_right 30 line
      ++ (codes " ("
          ++ (padded_left 8 (floats.fixed 1 (floats.divide (floats.parse kb) (floats.of_uint 1024)))
              ++ codes " MB)"))
  mem_line_of line _ = line

  -- A line behind the last one that counts is scanned too, and `bufio.ErrTooLong` is seen only if the scanner
  -- comes to it.
  unfoldable pub mem_lines : ℕ → List Bytes → Bool → Print
  mem_lines limit [] true = err line_too_long
  mem_lines limit [] false = ok []
  mem_lines zero (line ∷ lines) too_long = ok []
  mem_lines (suc limit) (line ∷ lines) too_long = do
    output ← mem_lines limit lines too_long
    ok (mem_line_of line (fields line) ∷ output)

  unfoldable pub parse_mem_info : Bytes → ℕ → Print
  unfolding mem_lines
  parse_mem_info text limit = mem_lines limit (scan text).0 (scan text).1

  unfoldable pub print_mem_info : Reading → Print
  unfolding parse_mem_info
  print_mem_info reading = do
    text ← text_of reading
    out ← parse_mem_info text 5
    ok (codes "--- Memory Information ---" ∷ out)
