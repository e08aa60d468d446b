-- ===== src/Witnesses/Procs.antt =====
-- `mount_procfs` of linux/procs.rs, where of the names the first is a directory, the second a file,
-- and the others are not there.
use sunwalker_box.Common.{◌≡◌, refl, Bool, true, false, none, [], ◌∷◌}
use sunwalker_box.Common.Exec.{Result, ok, err, io, skip, ◌>>=◌}
use sunwalker_box.Procs.{
  emptydir, mount_proc, bind_mount, bind_readonly, ProcHistory, ProcHost, mount_procfs,
}
use sunwalker_box.Procs.Hidden.{telling_names, Hidden, mount_procfs-Hidden}

abbrev found : ProcHistory → Result Bool
found (mount_proc _ ∷ []) = ok true
found (bind_readonly _ ∷ bind_mount emptydir _ ∷ _) = ok false
found _ = err (io 2)

abbrev host : ProcHost
host = record { metadata_reply = λ h target. found h; call_reply = λ h c. none }

abbrev mounted : ProcHistory
mounted = (mount_procfs host "/newroot/proc" []).1

mount_procfs_returns : mount_procfs host "/newroot/proc" [] ≡ (ok tt, mounted)
unfolding mount_procfs ◌>>=◌ skip
mount_procfs_returns = refl

mount_procfs_example :
    (host.call_reply [] (mount_proc "/newroot/proc") ≡ none)
    × Hidden host "/newroot/proc" telling_names (mount_proc "/newroot/proc" ∷ []) mounted
mount_procfs_example = mount_procfs-Hidden host "/newroot/proc" [] mounted mount_procfs_returns
