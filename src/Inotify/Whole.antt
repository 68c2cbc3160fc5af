-- ===== src/Inotify/Whole.antt =====
-- `main` from its argument to its lines.
use go_systems_lab.Prelude.{List}
use go_systems_lab.Bytes.{Bytes}
