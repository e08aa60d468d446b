-- ===== src/Witnesses/Resets.antt =====
-- `reset` of linux/rootfs.rs, where one mount was added and one terminal is open.
use sunwalker_box.Common.{ℕ, ◌≡◌, refl, Option, none, some, List, [], ◌∷◌, ◌++◌, if◌then◌else◌}
use sunwalker_box.Common.Exec.{answer, ok, skip, lift, ◌>>=◌}
use sunwalker_box.Rootfs.{newroot, eq_bytes}
use sunwalker_box.Rootfs.Mounts.{FilePath, list_child_mounts, paths_to_umount}
use sunwalker_box.Cgroups.{parse_number}
use sunwalker_box.Rootfs.Reset.{
  DiskQuotas, RootfsCall, read_mounts, umount, read_dir, RootfsHistory, RootfsHost, einval,
  newroot_tmp, newroot_dev_shm, space_shm, space_tmp, newroot_dev_pts, reversed_onto, reset_rootfs,
}
use sunwalker_box.Rootfs.Reset.Calls.{
  umount_calls, remount_calls, space_calls, terminal_calls, read_entries, child_mounts,
  reset_rootfs_lem,
}

-- The line is `x /newroot/a`; the entries are `0` and `ptmx`. `/newroot/tmp` is no mount point, so
-- that its `umount` is refused.
abbrev added_line : FilePath
added_line = 120 ∷ 32 ∷ newroot ++ 47 ∷ 97 ∷ []

abbrev refuses : RootfsCall → Option ℕ
refuses (umount path) = if eq_bytes path newroot_tmp then some einval else none
refuses _ = none

abbrev host : RootfsHost
host = record {
  mounts_reply = λ h. answer (added_line ∷ []);
  dir_reply = λ h path. answer (answer (48 ∷ []) ∷ answer (112 ∷ 116 ∷ 109 ∷ 120 ∷ []) ∷ []);
  call_reply = λ h. refuses;
}

abbrev quotas : DiskQuotas
quotas = record { space = 1024; max_inodes = 16 }

abbrev made : RootfsHistory
made = (reset_rootfs host [] quotas []).1

reset_rootfs_returns : reset_rootfs host [] quotas [] ≡ (ok tt, made)
unfolding reset_rootfs list_child_mounts paths_to_umount parse_number eq_bytes ◌>>=◌ skip lift
reset_rootfs_returns = refl

reset_rootfs_example :
    (current names : List FilePath) × (undone fresh : RootfsHistory) × (child_mounts host []
      ≡ ok current)
    × (undone ≡ umount_calls (reversed_onto (paths_to_umount current []) []) (read_mounts ∷ []))
    × (fresh
        ≡ remount_calls newroot_tmp space_tmp
            (remount_calls newroot_dev_shm space_shm (space_calls quotas undone)))
    × (host.dir_reply fresh newroot_dev_pts ≡ answer (read_entries names))
    × (made ≡ terminal_calls names (read_dir newroot_dev_pts ∷ fresh))
reset_rootfs_example = reset_rootfs_lem host [] quotas [] made reset_rootfs_returns
