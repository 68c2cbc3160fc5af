-- ===== src/Procfs/Cores.antt =====
-- The rows of the cores, on texts laid out as in proc(5).
use go_systems_lab.Prelude.{ℕ, ◌+◌, ◌≤◌, ◌≡◌, List, [], ◌∷◌, ◌++◌, false, length}
use go_systems_lab.Bytes.{Bytes, All, codes}
use go_systems_lab.Text.Scan.{scan, IsLine}
use go_systems_lab.Text.Words.{spaced}
use go_systems_lab.Text.Number.{max_uint64}
use go_systems_lab.Procfs.Readback.{
  CoreLine, core_name, stats_of, column_words, IsCoreLine, IsOther,
}
use go_systems_lab.Procfs.Telemetry.{Floats, core_row}
use go_systems_lab.Procfs.Numbered.{IsNumbered}

-- Cores numbered from 0, the loop standing at `i` behind those of `before`.
abbrev IsAt : ℕ → List CoreLine → List CoreLine → Type 0
IsAt i before cores =
    IsNumbered 0 before × (length before ≡ i) × IsNumbered i cores × (i + length cores ≤ max_uint64)

module _ {F : Type 0} (floats : Floats F) where
  -- A row for each core, between its two lines.
  unfoldable pub pair_rows : List CoreLine → List CoreLine → List Bytes
  pair_rows (a ∷ earlier) (b ∷ later) =
      core_row floats (core_name b) (stats_of a) (stats_of b) ∷ pair_rows earlier later
  pair_rows _ _ = []

-- A text of /proc/stat, its cores numbered from 0.
abbrev pub IsStat : List ℕ → List CoreLine → Bytes → Type 0
IsStat columns cores rest =
    IsLine (codes "cpu" ++ spaced (column_words columns))
    × All IsCoreLine cores
    × IsOther (scan rest).0
    × ((scan rest).1 ≡ false)
    × IsNumbered 0 cores
    × (length cores ≤ max_uint64)
