-- ===== src/Witnesses/Limits.antt =====
-- The limits and the peak of a box of linux/cgroups.rs, and an enum of the derive macro.

use sunwalker_box.Common.{◌≡◌, arith, none, some, [], ◌∷◌, inl, inr}
use sunwalker_box.Common.Exec.{ok, answer}
use sunwalker_box.Serde.Shared.RoundTrip.{copy}
use sunwalker_box.Serde.Derive.{Enum, enum_object, reaper_command}
use sunwalker_box.Serde.Copies.{copy_enum}
use sunwalker_box.Cgroups.Removal.{CgroupHistory, CgroupFs, Directory}
use sunwalker_box.Cgroups.Setup.{number_line, set_memory_limit}

abbrev fs : CgroupFs
fs = record {
  open_reply = λ h dir name. none;
  write_reply = λ h dir name. none;
  lines_reply = λ h dir name. ok [];
  list_reply = λ h dir. ok [];
  sub_dir_reply = λ h dir. none;
  rmdir_reply = λ h dir. none;
  kill_reply = λ h pid. none;
  setup_reply = λ h c. none;
  text_reply = λ h dir name. answer (number_line 4096);
}

abbrev box : Directory
box = "box-a" ∷ "proc-b" ∷ []

abbrev limited : CgroupHistory
limited = (set_memory_limit fs box 1000000 []).1

-- `Command::Reset`.
abbrev reset_value : Enum reaper_command
reset_value = inr (inl tt)

copy_enum_example : copy ⦃o = enum_object reaper_command⦄ reset_value ≡ some reset_value
copy_enum_example = copy_enum reaper_command (tt, (tt, tt)) reset_value ((omega arith), tt)
