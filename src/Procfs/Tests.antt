-- ===== src/Procfs/Tests.antt =====
-- Texts of /proc, and the theorems on them.
use go_systems_lab.Prelude.{◌≡◌, refl, [], ok, err}
use go_systems_lab.Bytes.{codes}
use go_systems_lab.Text.Scan.{scan, scan_pieces, drop_cr}
use go_systems_lab.Text.Split.{split}
use go_systems_lab.Text.Space.{fields, fields_loop, space_width}
use go_systems_lab.Procfs.Samples.{unexpected_format, parse_cpu_load, word_at}

load :
    parse_cpu_load (codes "0.10 0.25 0.30 1/234 5678\n")
    ≡ ok (codes "1 min:  0.10 procs\n5 min:  0.25 procs\n15 min: 0.30 procs")
unfolding parse_cpu_load scan scan_pieces drop_cr split fields fields_loop space_width word_at
load = refl

no_load : parse_cpu_load [] ≡ err unexpected_format
unfolding parse_cpu_load scan scan_pieces split
no_load = refl
