-- ===== src/Rootfs/Create.antt =====
-- linux/rootfs.rs, `create_rootfs`, with the mounts of linux/system.rs: the root of the box is made
-- from an image. The kernel answers each call, by all the calls before it, which are recorded, the
-- latest first. A path is its bytes.
pub mod Guarded
use sunwalker_box.Common.{
  ℕ, ◌+◌, Bool, true, false, ◌||◌, Option, none, some, List, [], ◌∷◌, ◌++◌, ◌==◌, if◌then◌else◌,
}
use sunwalker_box.Common.Exec.{
  Answer, answered, Failure, io, message, Result, Exec, pure, fail, lift, skip, and_then, ◌>>=◌,
  ◌>>◌, granted,
}
use sunwalker_box.Serde.Text.{is_utf8}
use sunwalker_box.Rootfs.{eq_bytes, newroot, slash}
use sunwalker_box.Rootfs.Mounts.{FilePath, MountPoints, list_child_mounts, count_mounts}

pub data FileType : Type 0 where
  symlink_type dir_type file_type : FileType

pub data FsCall : Type 0 where
  read_dir get_type read_link create_dir create_file : FilePath → FsCall
  -- The target of the link, and the link.
  symlink : FilePath → FilePath → FsCall
  bind_mount : FilePath → FilePath → FsCall
  -- With MS_REC.
  bind_mount_rec : FilePath → FilePath → FsCall
  -- MS_REMOUNT and MS_RDONLY.
  remount_readonly : FilePath → FsCall
  read_mounts : FsCall

abbrev pub FsHistory : Type 0
FsHistory = List FsCall

pub record FsHost : Type 0 where
  -- The names of the entries, of which each may be a failure to read on.
  pub dir_reply : FsHistory → FilePath → Answer (List (Answer FilePath))
  pub type_reply : FsHistory → FilePath → Answer FileType
  pub link_reply : FsHistory → FilePath → Answer FilePath
  -- The lines of `/proc/self/mounts`.
  pub mounts_reply : FsHistory → Answer (List FilePath)
  pub call_reply : FsHistory → FsCall → Option ℕ

abbrev pub FsAction : Type 0 → Type 0
FsAction A = Exec FsHistory A

-- The bytes of the names of the directories that are mounted later, and of `sys`.
abbrev pub space_name : FilePath
space_name = 115 ∷ 112 ∷ 97 ∷ 99 ∷ 101 ∷ []

abbrev pub dev_name : FilePath
dev_name = 100 ∷ 101 ∷ 118 ∷ []

abbrev pub proc_name : FilePath
proc_name = 112 ∷ 114 ∷ 111 ∷ 99 ∷ []

abbrev pub tmp_name : FilePath
tmp_name = 116 ∷ 109 ∷ 112 ∷ []

abbrev pub sys_name : FilePath
sys_name = 115 ∷ 121 ∷ 115 ∷ []

unfoldable pub is_left_out : FilePath → Bool
unfolding eq_bytes
is_left_out name =
    eq_bytes name space_name
    || eq_bytes name dev_name
    || eq_bytes name proc_name
    || eq_bytes name tmp_name
    || eq_bytes name sys_name

-- `/newroot/{name}`.
abbrev pub in_newroot : FilePath → FilePath
in_newroot name = newroot ++ slash ∷ name

-- `Path::join` with a name.
unfoldable pub join_name : FilePath → FilePath → FilePath
join_name [] name = name
join_name (c ∷ []) name = if c == slash then slash ∷ name else c ∷ slash ∷ name
join_name (c ∷ d ∷ root) name = c ∷ join_name (d ∷ root) name

-- `into_string()` of an `OsString`.
unfoldable pub to_text : FilePath → Result FilePath
to_text path = if is_utf8 path then Result.ok path else Result.err (message "is not UTF-8")

module _ (host : FsHost) where
  unfoldable pub fs_call : FsCall → FsAction (Unit {0})
  fs_call c h = granted (host.call_reply h c) (c ∷ h)

  unfoldable pub list_dir : FilePath → FsAction (List (Answer FilePath))
  list_dir path h = (answered (host.dir_reply h path), read_dir path ∷ h)

  unfoldable pub ask_type : FilePath → FsAction FileType
  ask_type path h = (answered (host.type_reply h path), get_type path ∷ h)

  unfoldable pub ask_link : FilePath → FsAction FilePath
  ask_link path h = (answered (host.link_reply h path), read_link path ∷ h)

  unfoldable pub read_child_mounts : FsAction (List FilePath)
  unfolding list_child_mounts
  read_child_mounts h = (
    and_then (answered (host.mounts_reply h))
        (λ lines. list_child_mounts (newroot ++ slash ∷ []) lines),
    read_mounts ∷ h,
  )

  unfoldable pub mount_readonly : FilePath → FilePath → FsAction (Unit {0})
  unfolding fs_call
  mount_readonly source_path target_path = do
    fs_call (bind_mount source_path target_path)
    fs_call (remount_readonly target_path)

  -- A link is copied; what is no link is mounted on a new directory or file.
  unfoldable pub copy_entry : FilePath → FilePath → FileType → FsAction (Unit {0})
  unfolding fs_call ask_link mount_readonly
  copy_entry source_path target_path symlink_type = do
    link_target ← ask_link source_path
    fs_call (symlink link_target target_path)
  copy_entry source_path target_path dir_type = do
    fs_call (create_dir target_path)
    mount_readonly source_path target_path
  copy_entry source_path target_path file_type = do
    fs_call (create_file target_path)
    mount_readonly source_path target_path

  -- The body of the loop over the image.
  unfoldable pub mount_entry : FilePath → FilePath → FsAction (Unit {0})
  unfolding is_left_out join_name to_text ask_type copy_entry
  mount_entry root name = if is_left_out name then skip else (do
    source_path ← lift (to_text (join_name root name))
    type ← ask_type source_path
    copy_entry source_path (in_newroot name) type)

  unfoldable pub mount_image : FilePath → List (Answer FilePath) → FsAction (Unit {0})
  unfolding to_text mount_entry
  mount_image root [] = skip
  mount_image root (entry ∷ entries) = do
    file_name ← lift (answered entry)
    name ← lift (to_text file_name)
    mount_entry root name
    mount_image root entries

  unfoldable pub make_ephemeral : List FilePath → FsAction (Unit {0})
  unfolding fs_call
  make_ephemeral [] = skip
  make_ephemeral (name ∷ names) = do fs_call (create_dir (in_newroot name)); make_ephemeral names

  -- `/dev` of the working area, with all that is mounted in it.
  unfoldable pub mount_dev : FsAction (Unit {0})
  unfolding fs_call
  mount_dev = do
    fs_call (bind_mount_rec (slash ∷ dev_name) (in_newroot dev_name))
    fs_call (remount_readonly (in_newroot dev_name))

  unfoldable pub create_rootfs : FilePath → FsAction MountPoints
  unfolding fs_call list_dir mount_image make_ephemeral mount_dev read_child_mounts count_mounts
  create_rootfs root = do
    fs_call (create_dir newroot)
    entries ← list_dir root
    mount_image root entries
    make_ephemeral (space_name ∷ dev_name ∷ proc_name ∷ tmp_name ∷ [])
    mount_dev
    paths ← read_child_mounts
    pure (count_mounts paths [])
