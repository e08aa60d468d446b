-- ===== src/Runner.antt =====
-- `Runner::new` of linux/running.rs, with `configure_rootfs` and `enter_rootfs` of linux/rootfs.rs and
-- linux/userns.rs: the manager closes the box around itself. Each call is answered by an errno or none, by
-- all the calls before it, the latest first; the mounting of `/newroot/proc` (Procs) is one of them.
pub mod Maps
use Prim.Native.String.{String}
use sunwalker_box.Common.{ℕ, Option, List, [], ◌∷◌, ◌++◌}
use sunwalker_box.Common.Exec.{Result, ok, err, panic, Exec, ◌>>=◌, ◌>>◌}
use sunwalker_box.Common.Exec.Calls.{call}
use sunwalker_box.Cgroups.Numbers.{show_number}

-- ---------------------------------------------------------------- the ids

abbrev pub internal_root : ℕ
internal_root = 0

abbrev pub external_root : ℕ
external_root = 1

abbrev pub internal_user : ℕ
internal_user = 1000

abbrev pub external_user : ℕ
external_user = 2

abbrev pub nobody : ℕ
nobody = 65534

-- `{inside} {outside} 1` and a line feed.
abbrev pub map_line : ℕ → ℕ → List ℕ
map_line inside outside = show_number inside ++ 32 ∷ show_number outside ++ 32 ∷ 49 ∷ 10 ∷ []

-- The text of the users; that of the groups is made of the same numbers.
unfoldable pub id_map : List ℕ
unfolding show_number
id_map =
    map_line internal_root external_root
    ++ map_line internal_user external_user
    ++ map_line nobody nobody

-- `allow` and a line feed.
abbrev pub allow_text : List ℕ
allow_text = 97 ∷ 108 ∷ 108 ∷ 111 ∷ 119 ∷ 10 ∷ []

-- The files in `/newroot/proc/{ppid}`.
pub data IdFile : Type 0 where
  uid_map gid_map setgroups_file : IdFile

pub data ConfigureCall : Type 0 where
  -- Of the trigger.
  recv getppid : ConfigureCall
  write_file : ℕ → IdFile → List ℕ → ConfigureCall

-- ---------------------------------------------------------------- the manager

pub data RunnerCall : Type 0 where
  mount_procfs private_oldroot detach_oldroot open_timens_offsets make_channel spawn_configure_ns
        trigger join_configure_ns chdir_newroot chroot block_sigchld make_signalfd make_epoll
        add_signalfd make_memfd fill_memfd :
      RunnerCall
  unshare setuid setgid : ℕ → RunnerCall

abbrev pub clone_newns : ℕ
clone_newns = 131072

abbrev pub clone_newipc : ℕ
clone_newipc = 134217728

abbrev pub clone_newuser : ℕ
clone_newuser = 268435456

-- Every failure of `expect` is a panic.
abbrev pub panics : {S A : Type 0} → Result A × S → Result A × S
panics (ok a, s) = (ok a, s)
panics (err e, s) = (err panic, s)

-- The child that fills the maps of its parent.
module _ (call_reply : List ConfigureCall → ConfigureCall → Option ℕ) (ppid : ℕ) where
  unfoldable pub write_maps : Exec (List ConfigureCall) (Unit {0})
  unfolding call
  write_maps = do
    call call_reply recv
    call call_reply getppid
    call call_reply (write_file ppid uid_map id_map)
    call call_reply (write_file ppid setgroups_file allow_text)
    call call_reply (write_file ppid gid_map id_map)

  unfoldable pub configure_ns : Exec (List ConfigureCall) (Unit {0})
  unfolding write_maps
  configure_ns h = panics (write_maps h)

module _ (call_reply : List RunnerCall → RunnerCall → Option ℕ) where
  unfoldable pub configure_rootfs : Exec (List RunnerCall) (Unit {0})
  unfolding call
  configure_rootfs = do
    call call_reply mount_procfs
    call call_reply (unshare clone_newns)
    call call_reply private_oldroot
    call call_reply detach_oldroot

  unfoldable pub enter_user_namespace : Exec (List RunnerCall) (Unit {0})
  unfolding call
  enter_user_namespace = do
    call call_reply make_channel
    call call_reply spawn_configure_ns
    call call_reply (unshare clone_newuser)
    call call_reply trigger
    call call_reply join_configure_ns
    call call_reply (setuid internal_root)
    call call_reply (setgid internal_root)

  unfoldable pub enter_rootfs : Exec (List RunnerCall) (Unit {0})
  unfolding call
  enter_rootfs = do
    call call_reply (unshare clone_newns)
    call call_reply chdir_newroot
    call call_reply chroot

  unfoldable pub new_runner : Exec (List RunnerCall) (Unit {0})
  unfolding call configure_rootfs enter_user_namespace enter_rootfs
  new_runner = do
    configure_rootfs
    call call_reply open_timens_offsets
    enter_user_namespace
    enter_rootfs
    call call_reply (unshare clone_newipc)
    call call_reply block_sigchld
    call call_reply make_signalfd
    call call_reply make_epoll
    call call_reply add_signalfd
    call call_reply make_memfd
    call call_reply fill_memfd
