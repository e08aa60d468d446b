-- ===== src/Sandbox.antt =====
-- linux/sandbox.rs, `enter_working_area` and `create_dev_copy`, with the calls of linux/system.rs.
-- The kernel answers each call, by all the calls before it, which are recorded, the latest first. A
-- path is the list of the names on it from the root.
pub mod Contained
use Prim.Native.String.{String}
use text.Mathlib.Text.{◌==◌}
use sunwalker_box.Common.{
  if◌then◌else◌, ℕ, ◌+◌, Bool, true, false, Option, none, some, List, [], ◌∷◌, ◌++◌,
}
use sunwalker_box.Common.Exec.{Answer, answered, io, panic, Exec, fail, skip, ◌>>=◌, ◌>>◌, granted}

abbrev pub AreaPath : Type 0
AreaPath = List String

pub data AreaType : Type 0 where
  symlink_type dir_type file_type : AreaType

-- What is mounted: a word, or a path.
pub data MountSource : Type 0 where
  label : String → MountSource
  path : AreaPath → MountSource

pub data AreaCall : Type 0 where
  create_dir_all create_dir create_file set_current_dir symlink_metadata : AreaPath → AreaCall
  -- A file with nothing in it.
  write_file : AreaPath → AreaCall
  -- The source, target, type, flags and options.
  mount : MountSource → AreaPath → String → ℕ → Option String → AreaCall
  -- Of `.`, with the old root at `oldroot` in it.
  pivot_root : AreaCall
  read_link : AreaPath → AreaCall
  -- The target of the link, as a text, and the link.
  symlink : String → AreaPath → AreaCall

abbrev pub AreaHistory : Type 0
AreaHistory = List AreaCall

pub record AreaHost : Type 0 where
  pub call_reply : AreaHistory → AreaCall → Option ℕ
  pub type_reply : AreaHistory → AreaPath → Answer AreaType
  pub link_reply : AreaHistory → AreaPath → Answer String

abbrev pub Area : Type 0 → Type 0
Area A = Exec AreaHistory A

abbrev pub ms_nosuid : ℕ
ms_nosuid = 2

abbrev pub ms_noexec : ℕ
ms_noexec = 8

abbrev pub ms_bind : ℕ
ms_bind = 4096

abbrev pub ms_rec : ℕ
ms_rec = 16384

abbrev pub ms_shared : ℕ
ms_shared = 1048576

abbrev pub working_area : AreaPath
working_area = "tmp" ∷ "sunwalker_box" ∷ []

unfoldable pub device_names : List String
device_names =
    "null" ∷ "full" ∷ "zero" ∷ "urandom" ∷ "random" ∷ "stdin" ∷ "stdout" ∷ "stderr" ∷ "tty" ∷ "fd"
    ∷ []

-- `.expect(..)` of what a call answers.
abbrev pub expect_area : Option ℕ → Area (Unit {0})
expect_area none = skip
expect_area (some e) = fail panic

-- `/dev/random` is the other device, which does not wait.
unfoldable pub device_source : String → AreaPath
device_source name = "oldroot" ∷ "dev" ∷ (if name == "random" then "urandom" else name) ∷ []

-- `bind_mount` and `change_propagation` of linux/system.rs.
abbrev pub bind_mount : AreaPath → AreaPath → AreaCall
bind_mount source target = mount (path source) target "none" ms_bind none

abbrev pub change_propagation : AreaPath → ℕ → AreaCall
change_propagation target flags = mount (label "none") target "none" flags none

module _ (host : AreaHost) where
  unfoldable pub area_call : AreaCall → Area (Unit {0})
  area_call c h = granted (host.call_reply h c) (c ∷ h)

  unfoldable pub expect_call : AreaCall → Area (Unit {0})
  expect_call c h = expect_area (host.call_reply h c) (c ∷ h)

  unfoldable pub enter_working_area : Area (Unit {0})
  unfolding area_call expect_call
  enter_working_area = do
    area_call (create_dir_all working_area)
    area_call (mount (label "none") working_area "tmpfs" 0 none)
    area_call (create_dir (working_area ++ "emptydir" ∷ []))
    area_call (write_file (working_area ++ "emptyfile" ∷ []))
    area_call (create_dir (working_area ++ "oldroot" ∷ []))
    area_call (set_current_dir working_area)
    area_call pivot_root
    area_call (set_current_dir [])
    area_call (create_dir ("proc" ∷ []))
    area_call (bind_mount ("oldroot" ∷ "proc" ∷ []) ("proc" ∷ []))
    expect_call (change_propagation [] (ms_shared + ms_rec))

  unfoldable pub ask_type : AreaPath → Area AreaType
  ask_type source h = (answered (host.type_reply h source), symlink_metadata source ∷ h)

  unfoldable pub ask_link : AreaPath → Area String
  ask_link source h = (answered (host.link_reply h source), read_link source ∷ h)

  -- A link is copied; what is no link is mounted on a new directory or file.
  unfoldable pub copy_device : AreaPath → AreaPath → AreaType → Area (Unit {0})
  unfolding area_call ask_link
  copy_device source target symlink_type = do
    symlink_target ← ask_link source
    area_call (symlink symlink_target target)
  copy_device source target dir_type = do
    area_call (create_dir target)
    area_call (bind_mount source target)
  copy_device source target file_type = do
    area_call (create_file target)
    area_call (bind_mount source target)

  -- The loop over the names.
  unfoldable pub copy_devices : List String → Area (Unit {0})
  unfolding ask_type copy_device device_source
  copy_devices [] = skip
  copy_devices (name ∷ names) = do
    metadata ← ask_type (device_source name)
    copy_device (device_source name) ("dev" ∷ name ∷ []) metadata
    copy_devices names

  unfoldable pub create_dev_copy : Area (Unit {0})
  unfolding area_call copy_devices device_names
  create_dev_copy = do
    area_call (create_dir ("dev" ∷ []))
    copy_devices device_names
    area_call (create_dir ("dev" ∷ "pts" ∷ []))
    area_call (
        mount (label "devpts") ("dev" ∷ "pts" ∷ []) "devpts" (ms_nosuid + ms_noexec)
          (some "mode=666,ptmxmode=666"))
    area_call (write_file ("dev" ∷ "ptmx" ∷ []))
    area_call (bind_mount ("dev" ∷ "pts" ∷ "ptmx" ∷ []) ("dev" ∷ "ptmx" ∷ []))
    area_call (create_dir ("dev" ∷ "shm" ∷ []))
    area_call (create_dir ("dev" ∷ "mqueue" ∷ []))
