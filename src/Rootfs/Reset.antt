-- ===== src/Rootfs/Reset.antt =====
-- linux/rootfs.rs: the steps of `reset`. The kernel answers each call, by all the calls before it,
-- which are recorded, the latest first.
pub mod Calls
pub mod Total
use sunwalker_box.Common.{
  ℕ, ◌^◌, Bool, true, false, ◌&&◌, Option, none, some, List, [], ◌∷◌, ◌++◌, ltb, ◌==◌,
  if◌then◌else◌,
}
use sunwalker_box.Common.Exec.{
  Answer, answered, Failure, Result, ok, err, io, Exec, pure, fail, lift, skip, and_then, ◌>>=◌,
  ◌>>◌, granted,
}
use sunwalker_box.Rootfs.{newroot, slash}
use sunwalker_box.Rootfs.Mounts.{FilePath, MountPoints, list_child_mounts, paths_to_umount}
use sunwalker_box.Cgroups.{parse_number}

pub record DiskQuotas : Type 0 where
  pub space : ℕ
  pub max_inodes : ℕ

pub data RootfsCall : Type 0 where
  read_mounts : RootfsCall
  umount : FilePath → RootfsCall
  -- The flags, and `size` and `nr_inodes` of the options.
  mount_tmpfs : FilePath → ℕ → ℕ → ℕ → RootfsCall
  chown : FilePath → ℕ → ℕ → RootfsCall
  create_dir : FilePath → RootfsCall
  set_permissions : FilePath → ℕ → RootfsCall
  bind_mount : FilePath → FilePath → RootfsCall
  read_dir : FilePath → RootfsCall
  remove_file : FilePath → RootfsCall

abbrev pub RootfsHistory : Type 0
RootfsHistory = List RootfsCall

-- What the kernel answers. A failure of a call that returns nothing is an errno.
pub record RootfsHost : Type 0 where
  -- The lines of `/proc/self/mounts`.
  pub mounts_reply : RootfsHistory → Answer (List FilePath)
  -- The names of the entries, of which each may be a failure to read on.
  pub dir_reply : RootfsHistory → FilePath → Answer (List (Answer FilePath))
  pub call_reply : RootfsHistory → RootfsCall → Option ℕ

abbrev pub Fs : Type 0 → Type 0
Fs A = Exec RootfsHistory A

-- `ErrorKind::InvalidInput`.
abbrev pub einval : ℕ
einval = 22

abbrev pub ms_nosuid : ℕ
ms_nosuid = 2

abbrev pub newroot_space : FilePath
newroot_space = newroot ++ 47 ∷ 115 ∷ 112 ∷ 97 ∷ 99 ∷ 101 ∷ []

abbrev pub newroot_dev_shm : FilePath
newroot_dev_shm = newroot ++ 47 ∷ 100 ∷ 101 ∷ 118 ∷ 47 ∷ 115 ∷ 104 ∷ 109 ∷ []

abbrev pub newroot_tmp : FilePath
newroot_tmp = newroot ++ 47 ∷ 116 ∷ 109 ∷ 112 ∷ []

abbrev pub space_shm : FilePath
space_shm = newroot_space ++ 47 ∷ 46 ∷ 115 ∷ 104 ∷ 109 ∷ []

abbrev pub space_tmp : FilePath
space_tmp = newroot_space ++ 47 ∷ 46 ∷ 116 ∷ 109 ∷ 112 ∷ []

abbrev pub newroot_dev_pts : FilePath
newroot_dev_pts = newroot ++ 47 ∷ 100 ∷ 101 ∷ 118 ∷ 47 ∷ 112 ∷ 116 ∷ 115 ∷ []

-- A list in the reverse order, before `later`.
unfoldable pub reversed_onto : List FilePath → List FilePath → List FilePath
reversed_onto [] later = later
reversed_onto (path ∷ paths) later = reversed_onto paths (path ∷ later)

abbrev pub succeed_umount : Option ℕ → Fs (Unit {0})
succeed_umount none = skip
succeed_umount (some e) = if e == einval then skip else fail (io e)

-- A name that is not UTF-8 is not a number either.
abbrev pub is_number : Option ℕ → Bool
is_number none = false
is_number (some n) = true

module _ (host : RootfsHost) where
  unfoldable pub run_call : RootfsCall → Fs (Unit {0})
  run_call c h = granted (host.call_reply h c) (c ∷ h)

  unfoldable pub umount_paths : List FilePath → Fs (Unit {0})
  unfolding run_call
  umount_paths [] = skip
  umount_paths (path ∷ paths) = do run_call (umount path); umount_paths paths

  -- That the path is no mount point is fine.
  unfoldable pub umount_if_mounted : FilePath → Fs (Unit {0})
  umount_if_mounted path h = succeed_umount (host.call_reply h (umount path)) (umount path ∷ h)

  unfoldable pub read_child_mounts : Fs (List FilePath)
  unfolding list_child_mounts
  read_child_mounts h = (
    and_then (answered (host.mounts_reply h))
        (λ lines. list_child_mounts (newroot ++ slash ∷ []) lines),
    read_mounts ∷ h,
  )

  -- The body of the loop over `/dev/shm` and `/tmp`.
  unfoldable pub remount_dir : FilePath → FilePath → Fs (Unit {0})
  unfolding run_call umount_if_mounted
  remount_dir path orig_path = do
    run_call (create_dir orig_path)
    run_call (chown orig_path 0 0)
    run_call (set_permissions orig_path 1023)
    umount_if_mounted path
    run_call (bind_mount orig_path path)

  unfoldable pub remove_terminal : FilePath → Fs (Unit {0})
  unfolding run_call
  remove_terminal name =
      if is_number (parse_number name)
      then run_call (remove_file (newroot_dev_pts ++ slash ∷ name))
      else skip

  -- The loop over the entries of `/newroot/dev/pts`.
  unfoldable pub remove_terminals : List (Answer FilePath) → Fs (Unit {0})
  unfolding remove_terminal
  remove_terminals [] = skip
  remove_terminals (entry ∷ entries) = do
    name ← lift (answered entry)
    remove_terminal name
    remove_terminals entries

  unfoldable pub list_terminals : Fs (List (Answer FilePath))
  list_terminals h = (answered (host.dir_reply h newroot_dev_pts), read_dir newroot_dev_pts ∷ h)

  unfoldable pub reset_rootfs : MountPoints → DiskQuotas → Fs (Unit {0})
  unfolding read_child_mounts umount_paths paths_to_umount reversed_onto remount_dir list_terminals
      remove_terminals
  reset_rootfs mount_points quotas = do
    current ← read_child_mounts
    umount_paths (reversed_onto (paths_to_umount current mount_points) [])
    run_call (mount_tmpfs newroot_space ms_nosuid quotas.space quotas.max_inodes)
    run_call (chown newroot_space 1000 1000)
    remount_dir newroot_dev_shm space_shm
    remount_dir newroot_tmp space_tmp
    entries ← list_terminals
    remove_terminals entries
