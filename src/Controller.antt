-- ===== src/Controller.antt =====
-- linux/controller.rs: which files of the box may be changed from outside.
pub mod Protected
pub mod Machine
use sunwalker_box.Common.{ℕ, List, ◌==◌, if◌then◌else◌, length}
use sunwalker_box.Common.Exec.{Result, ok, err, message}
use sunwalker_box.Rootfs.{components}

unfoldable pub ensure_allowed_to_modify : List ℕ → Result (Unit {0})
unfolding components
ensure_allowed_to_modify path =
    if length (components path) == 3 then err (message "File cannot be modified") else ok tt
