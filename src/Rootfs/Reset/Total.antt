-- ===== src/Rootfs/Reset/Total.antt =====
-- `reset` of linux/rootfs.rs, and the resolution of paths, do not panic.
use sunwalker_box.Common.{ℕ, Option, none, some, List, [], ◌∷◌, ◌++◌}
use sunwalker_box.Common.Exec.{
  nix, io, message, panic, unfinished, Result, ok, err, Answer, answered, and_then, granted,
}
use sunwalker_box.Common.Exec.Safe.{
  NotPanic, Safe, NotPanic-answered, Safe-io, Safe-lift, Safe-if, Safe-skip, Safe-bind,
}
use sunwalker_box.Rootfs.{
  newroot, oldroot, space, slash, resolve_abs_box_root, resolve_abs_old_root,
}
use sunwalker_box.Rootfs.Names.{space-AllNames}
use sunwalker_box.Rootfs.Mounts.{
  FilePath, MountPoints, list_child_mounts, split_spaces, target_path,
}
use sunwalker_box.Rootfs.Resolve.{render, Agrees, resolve_abs-Agrees}
use sunwalker_box.Rootfs.Reset.{
  DiskQuotas, RootfsCall, RootfsHistory, RootfsHost, succeed_umount, run_call, umount_paths,
  umount_if_mounted, read_child_mounts, remount_dir, remove_terminal, remove_terminals,
  list_terminals, reset_rootfs,
}

and_then-NotPanic :
    {A B : Type 0} (r : Result A) (f : A → Result B)
    → NotPanic r
    → ((a : A) → NotPanic (f a))
    → NotPanic (and_then r f)
and_then-NotPanic (ok a) f n nf = nf a
and_then-NotPanic (err (nix e)) f n nf = tt
and_then-NotPanic (err (io e)) f n nf = tt
and_then-NotPanic (err (message t)) f n nf = tt
and_then-NotPanic (err panic) f n nf = absurd n
and_then-NotPanic (err unfinished) f n nf = tt

target_path-NotPanic : (words : List FilePath) → NotPanic (target_path words)
target_path-NotPanic [] = tt
target_path-NotPanic (a ∷ []) = tt
target_path-NotPanic (a ∷ b ∷ rest) = tt

list_child_mounts-NotPanic :
    (prefix : FilePath) (lines : List FilePath) → NotPanic (list_child_mounts prefix lines)
unfolding list_child_mounts
list_child_mounts-NotPanic prefix [] = tt
list_child_mounts-NotPanic prefix (line ∷ lines) =
    and_then-NotPanic (target_path (split_spaces line)) _ (target_path-NotPanic (split_spaces line))
      λ target.
        and_then-NotPanic (list_child_mounts prefix lines) _
          (list_child_mounts-NotPanic prefix lines) λ paths. tt

module _ {P : RootfsHistory → Type 0} (keeps : (h : RootfsHistory) → P h) (host : RootfsHost) where
  run_call-Safe : (c : RootfsCall) → Safe P (run_call host c)
  unfolding run_call
  run_call-Safe c = record { at = λ h p. (Safe-succeed (host.call_reply h c)).at _ (keeps _) }
    where
      Safe-succeed : (o : Option ℕ) → Safe P (granted o)
      Safe-succeed none = Safe-skip
      Safe-succeed (some e) = Safe-io e

  umount_if_mounted-Safe : (path : FilePath) → Safe P (umount_if_mounted host path)
  unfolding umount_if_mounted
  umount_if_mounted-Safe path = record {
    at = λ h p. (Safe-succeed (host.call_reply h (RootfsCall.umount path))).at _ (keeps _);
  }
    where
      Safe-succeed : (o : Option ℕ) → Safe P (succeed_umount o)
      Safe-succeed none = Safe-skip
      Safe-succeed (some e) = Safe-if _ _ _ Safe-skip (Safe-io e)

  read_child_mounts-Safe : Safe P (read_child_mounts host)
  unfolding read_child_mounts
  read_child_mounts-Safe = record {
    at = λ h p. (
      and_then-NotPanic (answered (host.mounts_reply h)) _ (NotPanic-answered (host.mounts_reply h))
          (list_child_mounts-NotPanic (newroot ++ slash ∷ [])),
      keeps _,
    );
  }

  list_terminals-Safe : Safe P (list_terminals host)
  unfolding list_terminals
  list_terminals-Safe = record { at = λ h p. (NotPanic-answered (host.dir_reply h _), keeps _) }

  umount_paths-Safe : (paths : List FilePath) → Safe P (umount_paths host paths)
  unfolding umount_paths
  umount_paths-Safe [] = Safe-skip
  umount_paths-Safe (path ∷ paths) = Safe-bind _ _ (run_call-Safe _) (λ _. umount_paths-Safe paths)

  remount_dir-Safe : (path orig_path : FilePath) → Safe P (remount_dir host path orig_path)
  unfolding remount_dir
  remount_dir-Safe path orig_path = search (Safe-bind, run_call-Safe, umount_if_mounted-Safe)

  remove_terminal-Safe : (name : FilePath) → Safe P (remove_terminal host name)
  unfolding remove_terminal
  remove_terminal-Safe name = search (Safe-if, run_call-Safe, Safe-skip)

  remove_terminals-Safe :
      (entries : List (Answer FilePath)) → Safe P (remove_terminals host entries)
  unfolding remove_terminals
  remove_terminals-Safe [] = Safe-skip
  remove_terminals-Safe (entry ∷ entries) =
      Safe-bind _ _ (Safe-lift _ (NotPanic-answered entry))
        λ name. Safe-bind _ _ (remove_terminal-Safe name) λ _. remove_terminals-Safe entries

  pub reset_rootfs-Safe :
      (mount_points : MountPoints) (quotas : DiskQuotas)
      → Safe P (reset_rootfs host mount_points quotas)
  unfolding reset_rootfs
  reset_rootfs-Safe mount_points quotas =
      search
        (
          Safe-bind, read_child_mounts-Safe, umount_paths-Safe, run_call-Safe, remount_dir-Safe,
          list_terminals-Safe, remove_terminals-Safe,
        )
        depth 20 fits 2000

Agrees-NotPanic :
    (read_link : List ℕ → Option (List ℕ)) (root : List ℕ) (r : Result (List ℕ))
    (o : Option (List (List ℕ)))
    → Agrees read_link root r o
    → NotPanic r
Agrees-NotPanic read_link root r none e = rw e tt
Agrees-NotPanic read_link root r (some stack) (e, _) = rw e tt

pub resolve_abs_box_root-NotPanic :
    (read_link : List ℕ → Option (List ℕ)) (path : List ℕ)
    → NotPanic (resolve_abs_box_root read_link path)
unfolding resolve_abs_box_root render
resolve_abs_box_root-NotPanic read_link path =
    Agrees-NotPanic read_link newroot _ _
      (resolve_abs-Agrees read_link newroot path (space ∷ []) 0 space-AllNames)

pub resolve_abs_old_root-NotPanic :
    (read_link : List ℕ → Option (List ℕ)) (path : List ℕ)
    → NotPanic (resolve_abs_old_root read_link path)
unfolding resolve_abs_old_root render
resolve_abs_old_root-NotPanic read_link path =
    Agrees-NotPanic read_link oldroot _ _ (resolve_abs-Agrees read_link oldroot path [] 0 tt)
