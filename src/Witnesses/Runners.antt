-- ===== src/Witnesses/Runners.antt =====
-- `configure_ns`, which fills the maps of the user namespace.
use sunwalker_box.Common.{ℕ, Option, none, List}
use sunwalker_box.Runner.{ConfigureCall}

abbrev grants : List ConfigureCall → ConfigureCall → Option ℕ
grants h c = none
