-- ===== src/Witnesses/Roots.antt =====
-- `create_rootfs` of linux/rootfs.rs on an image with a directory and a link, and the working area of
-- linux/sandbox.rs.
use sunwalker_box.Common.{◌≡◌, none, [], ◌∷◌}
use sunwalker_box.Common.Exec.{answer, ok}
use sunwalker_box.Rootfs.Mounts.{FilePath, MountPoints}
use sunwalker_box.Rootfs.Create.{FsHost, dir_type, create_rootfs}
use sunwalker_box.Rootfs.Create.Guarded.{Guarded, Settled, create_rootfs-Guarded}
use sunwalker_box.Sandbox.{AreaHost, file_type}
use sunwalker_box.Sandbox.Contained.{Contained}

-- The bytes of `/r`.
abbrev image : FilePath
image = 47 ∷ 114 ∷ []

-- The image has the directories `bin` and `sys`.
abbrev host : FsHost
host = record {
  dir_reply = λ h dir. answer (answer (98 ∷ 105 ∷ 110 ∷ []) ∷ answer (115 ∷ 121 ∷ 115 ∷ []) ∷ []);
  type_reply = λ h file. answer dir_type;
  link_reply = λ h file. answer [];
  mounts_reply = λ h. answer [];
  call_reply = λ h c. none;
}

create_rootfs-Guarded_example :
    Guarded host image (create_rootfs host image []).1
    × ((counts : MountPoints)
        → (create_rootfs host image []).0 ≡ ok counts
        → Settled host (create_rootfs host image []).1)
create_rootfs-Guarded_example = create_rootfs-Guarded host image

abbrev machine : AreaHost
machine = record {
  call_reply = λ h c. none;
  type_reply = λ h file. answer file_type;
  link_reply = λ h file. answer "pts/0";
}
