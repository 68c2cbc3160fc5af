-- ===== src/Procfs/Screens.antt =====
-- What `main` shows, whatever the files hold.
use go_systems_lab.Prelude.{List, [], ◌∷◌, ◌++◌, map, if◌then◌else◌, ok, err, panic}
use go_systems_lab.Bytes.{codes}
use go_systems_lab.Procfs.Telemetry.{Floats, Print}
use go_systems_lab.Procfs.Sections.{
  Section, Flags, Round, Output, out_line, error_line, clear_screen, sections, is_wanted,
  print_section,
}

-- What is shown of a section: its lines, or its error.
abbrev pub section_output : Print → List Output
section_output (ok lines) = map out_line lines
section_output (err e) = error_line e ∷ []
section_output panic = []

-- Texts with an empty line in front of each.
abbrev pub behind : List (List Output) → List Output
behind [] = []
behind (text ∷ texts) = out_line [] ∷ (text ++ behind texts)

-- Texts with an empty line between each two.
abbrev pub separated : List (List Output) → List Output
separated [] = []
separated (text ∷ texts) = text ++ behind texts

module _ {F : Type 0} (floats : Floats F) (f : Flags) where
  -- The outputs of the sections of a list that are asked for.
  abbrev pub wanted_outputs : Round → List Section → List (List Output)
  wanted_outputs r [] = []
  wanted_outputs r (s ∷ rest) =
      let outputs = wanted_outputs r rest in
      if is_wanted f s then section_output (print_section floats r s) ∷ outputs else outputs

  abbrev pub header_of : Round → List Output
  header_of r =
      if f.live_flag
      then clear_screen
        ∷ out_line (codes "--- Go Systems Lab: Live Telemetry (" ++ (r.time ++ codes ") ---"))
        ∷ out_line []
        ∷ []
      else []

  unfoldable pub screen : Round → List Output
  screen r = header_of r ++ separated (wanted_outputs r sections)

  -- The screens of some rounds.
  unfoldable pub screens : List Round → List Output
  screens [] = []
  screens (r ∷ rounds) = screen r ++ screens rounds
