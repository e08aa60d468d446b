-- ===== src/Witnesses/Box.antt =====
-- A box of linux/entry.rs that is started and given two lines: a directory is made, and one that may
-- not be made is refused.

use sunwalker_box.Common.{ℕ, ◌≡◌, refl, true, false, none, some, List, [], ◌∷◌, map}
use sunwalker_box.Common.Exec.{
  ok, err, panic, message, Answer, answer, pure, fail, lift, gets, modify, skip, unwrap, ◌>>=◌,
}
use sunwalker_box.Rootfs.{resolve_abs_box_root}
use sunwalker_box.Rootfs.Mounts.{list_child_mounts, paths_to_umount}
use sunwalker_box.Rootfs.Reset.{DiskQuotas, RootfsHost, reset_rootfs}
use sunwalker_box.Controller.{ensure_allowed_to_modify}
use sunwalker_box.Controller.Machine.{ControllerHost, value}
use sunwalker_box.Controller.Machine.Started.{AllConfined}
use sunwalker_box.Entry.Commands.{Json, FileHost, nothing}
use sunwalker_box.Entry.Commands.Total.{IsLawful}
use sunwalker_box.Entry.Serve.{ok_line, error_line, run_box, fresh}
use sunwalker_box.Entry.Serve.Answers.{run_box-AllConfined}

-- Every text is a string, and times are whole seconds.
abbrev json : Json
json = record {
  Value = List ℕ;
  parse = λ t. some t;
  is_string = λ v. true;
  is_null = λ v. false;
  is_array = λ v. false;
  take_string = λ v. some v;
  as_usize = λ v. none;
  as_u8 = λ v. none;
  as_bool = λ v. none;
  F64 = ℕ;
  as_f64 = λ v. none;
  from_secs_f64 = λ t. some t;
  field = λ v key. v;
  members = λ v. [];
  entries = λ v. [];
  stringify = λ t. t;
}

json-IsLawful : IsLawful json
json-IsLawful = record { string_taken = λ v h. (v, refl); durations = λ f. (f, refl) }

abbrev rootfs : RootfsHost
rootfs = record {
  mounts_reply = λ h. answer [];
  dir_reply = λ h path. answer [];
  call_reply = λ h c. none;
}

abbrev host : ControllerHost
host = record {
  child_ended = λ h. false;
  step_reply = λ h c. none;
  area_reply = λ h. ok tt;
  canonicalize_reply = λ h path. answer path;
  rootfs_reply = λ h path. answer [];
  spawn_reply = λ h. answer 7;
  recv_reply = λ h c. answer (some (value none));
  rootfs_host = λ h. rootfs;
  read_link = λ h path. none;
}

abbrev files : FileHost
files = record { read_dir_reply = λ h path. answer []; open_reply = λ h path. Answer.errno 2 }

abbrev lowered : List ℕ → List ℕ
lowered t = t

-- `mkdir a`.
abbrev first_line : List ℕ
first_line = 109 ∷ 107 ∷ 100 ∷ 105 ∷ 114 ∷ 32 ∷ 97 ∷ []

-- That, and `mkdir /b`.
abbrev lines : List (List ℕ)
lines = first_line ∷ (109 ∷ 107 ∷ 100 ∷ 105 ∷ 114 ∷ 32 ∷ 47 ∷ 98 ∷ []) ∷ []

abbrev quotas : DiskQuotas
quotas = record { space = 1024; max_inodes = 16 }

box_prints :
    (run_box json host files lowered 1 (47 ∷ []) (map answer lines) (fresh quotas)).1.printed
    ≡ error_line (message "File cannot be modified") ∷ ok_line nothing ∷ []
unfolding run_box reset_rootfs list_child_mounts paths_to_umount ensure_allowed_to_modify
    resolve_abs_box_root ◌>>=◌ pure fail lift gets modify skip unwrap
box_prints = refl

-- The child ends as soon as it is watched.
abbrev child_dies : ControllerHost
child_dies = record host { child_ended = λ h. true }

box_ends :
    (run_box json child_dies files lowered 1 (47 ∷ []) (map answer lines) (fresh quotas)).0
    ≡ err panic
unfolding run_box reset_rootfs list_child_mounts paths_to_umount ensure_allowed_to_modify
    resolve_abs_box_root ◌>>=◌ pure fail lift gets modify skip unwrap
box_ends = refl

run_box-AllConfined_example :
    AllConfined
      (run_box json host files lowered 1
        (47 ∷ [])
        (map answer lines)
        (fresh quotas)).1.world.history
run_box-AllConfined_example =
    run_box-AllConfined json json-IsLawful host files lowered quotas 1 (47 ∷ []) (map answer lines)
