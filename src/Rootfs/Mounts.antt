-- ===== src/Rootfs/Mounts.antt =====
-- linux/rootfs.rs: which mounts of the box `reset` keeps and which it undoes.
use sunwalker_box.Common.{
  ℕ, ◌+◌, ◌-◌, Bool, true, false, ◌&&◌, ◌||◌, List, [], ◌∷◌, ◌++◌, ◌==◌, if◌then◌else◌,
}
use sunwalker_box.Common.Exec.{Result, ok, err, message, and_then}
use sunwalker_box.Rootfs.{eq_bytes, newroot, slash}

abbrev pub FilePath : Type 0
FilePath = List ℕ

unfoldable pub starts_with : FilePath → FilePath → Bool
starts_with path [] = true
starts_with [] (p ∷ ps) = false
starts_with (c ∷ cs) (p ∷ ps) = c == p && starts_with cs ps

-- The fields of a line, split at spaces: there is one at least.
abbrev to_first : ℕ → List FilePath → List FilePath
to_first c [] = (c ∷ []) ∷ []
to_first c (w ∷ ws) = (c ∷ w) ∷ ws

unfoldable pub split_spaces : FilePath → List FilePath
split_spaces [] = [] ∷ []
split_spaces (c ∷ cs) = let rest = split_spaces cs in if c == 32 then [] ∷ rest else to_first c rest

abbrev pub target_path : List FilePath → Result FilePath
target_path (source ∷ target ∷ _) = ok target
target_path _ = err (message "Invalid format of /proc/self/mounts")

-- The paths that start with the prefix, of the lines of `/proc/self/mounts`.
unfoldable pub list_child_mounts : FilePath → List FilePath → Result (List FilePath)
unfolding split_spaces starts_with
list_child_mounts prefix [] = ok []
list_child_mounts prefix (line ∷ lines) = and_then (target_path (split_spaces line)) λ target.
    and_then (list_child_mounts prefix lines)
      λ paths. ok (if starts_with target prefix then target ∷ paths else paths)

-- A map from paths to numbers.
abbrev pub MountPoints : Type 0
MountPoints = List (FilePath × ℕ)

unfoldable pub lookup_count : FilePath → MountPoints → ℕ
unfolding eq_bytes
lookup_count path [] = 0
lookup_count path ((p, n) ∷ counts) = if eq_bytes p path then n else lookup_count path counts

unfoldable pub set_count : FilePath → ℕ → MountPoints → MountPoints
unfolding eq_bytes
set_count path n [] = (path, n) ∷ []
set_count path n ((p, m) ∷ counts) =
    let rest = set_count path n counts in if eq_bytes p path then (p, n) ∷ counts else (p, m) ∷ rest

-- The loop at the end of `create_rootfs`.
unfoldable pub count_mounts : List FilePath → MountPoints → MountPoints
unfolding lookup_count set_count
count_mounts [] counts = counts
count_mounts (path ∷ paths) counts =
    count_mounts paths (set_count path (lookup_count path counts + 1) counts)

-- The bytes of `/newroot/proc` and `/newroot/dev/mqueue`.
abbrev pub newroot_proc : FilePath
newroot_proc = newroot ++ 47 ∷ 112 ∷ 114 ∷ 111 ∷ 99 ∷ []

abbrev pub newroot_dev_mqueue : FilePath
newroot_dev_mqueue = newroot ++ 47 ∷ 100 ∷ 101 ∷ 118 ∷ 47 ∷ 109 ∷ 113 ∷ 117 ∷ 101 ∷ 117 ∷ 101 ∷ []

unfoldable pub is_whitelisted : FilePath → Bool
unfolding eq_bytes starts_with
is_whitelisted path =
    eq_bytes path newroot_proc
    || starts_with path (newroot_proc ++ slash ∷ [])
    || eq_bytes path newroot_dev_mqueue

-- The loop of `reset`: `counts` is what is still to be kept.
unfoldable pub paths_to_umount : List FilePath → MountPoints → List FilePath
unfolding is_whitelisted lookup_count set_count
paths_to_umount [] counts = []
paths_to_umount (path ∷ paths) counts =
    let kept = paths_to_umount paths counts in
    let undone = path ∷ kept in
    let counted = paths_to_umount paths (set_count path (lookup_count path counts - 1) counts) in
    if is_whitelisted path then kept else if lookup_count path counts == 0 then undone else counted
