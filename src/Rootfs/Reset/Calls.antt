-- ===== src/Rootfs/Reset/Calls.antt =====
-- What `reset` of linux/rootfs.rs has called when it returns.
use sunwalker_box.Common.{
  ℕ, ◌≡◌, refl, sym, ap, ◌∙◌, Option, none, some, List, [], ◌∷◌, ◌++◌, ◌==◌, if◌then◌else◌,
  Bool-cases, inl, inr,
}
use sunwalker_box.Common.Exec.{
  Answer, answer, answered, answered_ok, Result, ok, and_then, skip, fail, lift, bind_returned,
  granted_kept,
}
use sunwalker_box.Rootfs.{newroot, slash}
use sunwalker_box.Rootfs.Mounts.{FilePath, MountPoints, list_child_mounts, paths_to_umount}
use sunwalker_box.Cgroups.{parse_number}
use sunwalker_box.Rootfs.Reset.{
  DiskQuotas, RootfsCall, read_mounts, umount, mount_tmpfs, chown, create_dir, set_permissions,
  bind_mount, read_dir, remove_file, RootfsHistory, RootfsHost, einval, ms_nosuid, newroot_space,
  newroot_dev_shm, newroot_tmp, space_shm, space_tmp, newroot_dev_pts, reversed_onto,
  succeed_umount, is_number, run_call, umount_paths, umount_if_mounted, read_child_mounts,
  remount_dir, remove_terminal, remove_terminals, list_terminals, reset_rootfs,
}

-- The calls that undo these mounts, the latest first.
abbrev pub umount_calls : List FilePath → RootfsHistory → RootfsHistory
umount_calls [] h = h
umount_calls (path ∷ paths) h = umount_calls paths (umount path ∷ h)

-- A directory of the fresh disk takes the place of `path`.
abbrev pub remount_calls : FilePath → FilePath → RootfsHistory → RootfsHistory
remount_calls path orig_path h =
    bind_mount orig_path path
    ∷ umount path
    ∷ set_permissions orig_path 1023
    ∷ chown orig_path 0 0
    ∷ create_dir orig_path
    ∷ h

-- A fresh disk for the user 1000.
abbrev pub space_calls : DiskQuotas → RootfsHistory → RootfsHistory
space_calls quotas h =
    chown newroot_space 1000 1000
    ∷ mount_tmpfs newroot_space ms_nosuid quotas.space quotas.max_inodes
    ∷ h

-- Whose names are numbers is removed.
abbrev pub terminal_calls : List FilePath → RootfsHistory → RootfsHistory
terminal_calls [] h = h
terminal_calls (name ∷ names) h =
    terminal_calls names (
      if is_number (parse_number name)
      then remove_file (newroot_dev_pts ++ slash ∷ name) ∷ h
      else h)

-- The entries that were all read.
abbrev pub read_entries : List FilePath → List (Answer FilePath)
read_entries [] = []
read_entries (name ∷ names) = answer name ∷ read_entries names

succeed_umount_kept : (o : Option ℕ) (h : RootfsHistory) → (succeed_umount o h).1 ≡ h
unfolding skip fail
succeed_umount_kept none h = refl
succeed_umount_kept (some e) h = elim (Bool-cases (e == einval)) [
  | inl z ↦ rw z refl
  | inr z ↦ rw z refl
]

returned : {r : Result (Unit {0}) × RootfsHistory} {u : Unit {0}} → r.0 ≡ ok u → r ≡ (ok tt, r.1)
returned {r} h = ap (λ o. (o, r.1)) h

module _ (host : RootfsHost) where
  -- The paths below `/newroot` that the kernel lists.
  abbrev pub child_mounts : RootfsHistory → Result (List FilePath)
  child_mounts h =
      and_then (answered (host.mounts_reply h))
        (λ lines. list_child_mounts (newroot ++ slash ∷ []) lines)

  run_call_lem : (c : RootfsCall) (h : RootfsHistory) → (run_call host c h).1 ≡ c ∷ h
  unfolding run_call
  run_call_lem c h = granted_kept (host.call_reply h c) (c ∷ h)

  umount_if_mounted_lem :
      (path : FilePath) (h : RootfsHistory) → (umount_if_mounted host path h).1 ≡ umount path ∷ h
  unfolding umount_if_mounted
  umount_if_mounted_lem path h = succeed_umount_kept (host.call_reply h (umount path)) _

  umount_paths_lem :
      (paths : List FilePath) (h h' : RootfsHistory)
      → umount_paths host paths h ≡ (ok tt, h')
      → h' ≡ umount_calls paths h
  unfolding umount_paths
  umount_paths_lem [] h h' e = unfold skip in ap (λ r. r.1) (sym e)
  umount_paths_lem (path ∷ paths) h h' e =
      let (_, one, e') = bind_returned _ _ h tt h' e in
      umount_paths_lem paths (run_call host (umount path) h).1 h' e'
      ∙ ap (umount_calls paths) (run_call_lem (umount path) h)

  remount_dir_lem :
      (path orig_path : FilePath) (h h' : RootfsHistory)
      → remount_dir host path orig_path h ≡ (ok tt, h')
      → h' ≡ remount_calls path orig_path h
  unfolding remount_dir
  remount_dir_lem path orig_path h h' e =
      let (_, _, e1) = bind_returned _ _ h tt h' e in
      let (_, _, e2) = bind_returned _ _ _ tt h' e1 in
      let (_, _, e3) = bind_returned _ _ _ tt h' e2 in
      let (_, _, e4) = bind_returned _ _ _ tt h' e3 in
      ap (λ r. r.1) (sym e4)
      ∙ run_call_lem _ _
      ∙ ap (λ g. bind_mount orig_path path ∷ g)
          (umount_if_mounted_lem path _
            ∙ ap (λ g. umount path ∷ g)
                (run_call_lem _ _
                  ∙ ap (λ g. set_permissions orig_path 1023 ∷ g)
                      (run_call_lem _ _ ∙ ap (λ g. chown orig_path 0 0 ∷ g) (run_call_lem _ h))))

  remove_terminal_lem :
      (name : FilePath) (h : RootfsHistory)
      → (remove_terminal host name h).1 ≡ terminal_calls (name ∷ []) h
  unfolding remove_terminal skip
  remove_terminal_lem name h = elim (Bool-cases (is_number (parse_number name))) [
    | inl z ↦ rw z (run_call_lem _ h)
    | inr z ↦ rw z refl
  ]

  remove_terminals_lem :
      (entries : List (Answer FilePath)) (h h' : RootfsHistory)
      → remove_terminals host entries h ≡ (ok tt, h')
      → (names : List FilePath) × (entries ≡ read_entries names) × (h' ≡ terminal_calls names h)
  unfolding remove_terminals
  remove_terminals_lem [] h h' e = ([], refl, (unfold skip in ap (λ r. r.1) (sym e)))
  remove_terminals_lem (entry ∷ entries) h h' e =
      let (name, found, e1) = bind_returned (lift (answered entry)) _ h tt h' e in
      let found' : entry ≡ answer name = answered_ok entry name (unfold lift in found) in
      let at : (lift (answered entry) h).1 ≡ h = (unfold lift in refl) in
      let (_, _, e2) = bind_returned _ _ _ tt h' e1 in
      let (names, same, went) = remove_terminals_lem entries _ h' e2 in
      (
        name ∷ names,
        ap (λ r. r ∷ entries) found' ∙ ap (λ es. answer name ∷ es) same,
        went
            ∙ ap (terminal_calls names)
                (remove_terminal_lem name _ ∙ ap (terminal_calls (name ∷ [])) at),
      )

  -- Where `reset` returns, the mounts that were added have been undone, the last first, then
  -- `/newroot/space` has been mounted afresh with the quotas and given to the user, then `/dev/shm`
  -- and `/tmp` have been put on it, then of the entries of `/dev/pts` those whose names are numbers
  -- have been removed, in their order; no other call was made.
  pub reset_rootfs_lem :
      (mount_points : MountPoints) (quotas : DiskQuotas) (h h' : RootfsHistory)
      → reset_rootfs host mount_points quotas h ≡ (ok tt, h')
      → (current names : List FilePath) × (undone fresh : RootfsHistory) × (child_mounts h
          ≡ ok current)
        × (undone
            ≡ umount_calls
                (reversed_onto (paths_to_umount current mount_points) [])
                (read_mounts ∷ h))
        × (fresh
            ≡ remount_calls newroot_tmp space_tmp
                (remount_calls newroot_dev_shm space_shm (space_calls quotas undone)))
        × (host.dir_reply fresh newroot_dev_pts ≡ answer (read_entries names))
        × (h' ≡ terminal_calls names (read_dir newroot_dev_pts ∷ fresh))
  unfolding reset_rootfs
  reset_rootfs_lem mount_points quotas h h' e =
      let (current, found, e1) = bind_returned _ _ h tt h' e in
      let (_, u, e2) = bind_returned _ _ _ tt h' e1 in
      let (_, _, e3) = bind_returned _ _ _ tt h' e2 in
      let (_, _, e4) = bind_returned _ _ _ tt h' e3 in
      let (_, s, e5) = bind_returned _ _ _ tt h' e4 in
      let (_, t, e6) = bind_returned _ _ _ tt h' e5 in
      let (entries, listed, e7) = bind_returned _ _ _ tt h' e6 in
      let (names, same, went) = remove_terminals_lem entries _ h' e7 in
      (
        current,
        names,
        _,
        _,
        (unfold read_child_mounts in found),
        umount_paths_lem _ _ _ (returned u) ∙ (unfold read_child_mounts in refl),
        remount_dir_lem _ _ _ _ (returned t)
            ∙ ap (remount_calls newroot_tmp space_tmp) (
                remount_dir_lem _ _ _ _ (returned s)
                ∙ ap (remount_calls newroot_dev_shm space_shm) (
                    run_call_lem _ _
                    ∙ ap (λ g. chown newroot_space 1000 1000 ∷ g) (run_call_lem _ _))),
        answered_ok _ entries (unfold list_terminals in listed) ∙ ap answer same,
        went ∙ (unfold list_terminals in refl),
      )
