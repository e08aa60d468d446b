-- ===== src/Controller/Machine.antt =====
-- linux/controller.rs: the controller, which keeps what has been set up so far, and the commands that
-- it sends to the reaper and the manager. The host answers each call, by all the calls before it,
-- which are recorded, the latest first. A path and a text is a list of bytes.
pub mod Calls
pub mod Wired
pub mod Started
use Prim.Native.String.{String}
use sunwalker_box.Common.{
  ℕ, ◌+◌, Bool, true, false, ◌&&◌, ◌||◌, Option, none, some, List, [], ◌∷◌, ◌++◌, map, ◌==◌,
  if◌then◌else◌,
}
use sunwalker_box.Common.Exec.{
  Answer, answer, errno, answered, Failure, io, message, panic, Result, ok, err, Exec, pure, fail,
  lift, gets, modify, skip, unwrap, ◌>>=◌, ◌>>◌,
}
use sunwalker_box.Running.{Options}
use sunwalker_box.Reaper.{Command, init_command, reset_command}
use sunwalker_box.Rootfs.{oldroot, slash, resolve_abs_box_root, resolve_abs_old_root}
use sunwalker_box.Rootfs.Mounts.{MountPoints}
use sunwalker_box.Rootfs.Reset.{DiskQuotas, RootfsCall, RootfsHistory, RootfsHost, reset_rootfs}

-- `manager::Command`.
pub data ManagerCommand : Type 0 where
  remount_readonly : List ℕ → ManagerCommand
  run : Options → ManagerCommand

-- A reply of the reaper or the manager.
pub data Reply : Type 0 where
  value : Option (List ℕ) → Reply
  failure : List ℕ → Reply

-- The calls of linux/entry.rs on the files of the box.
pub data FileCall : Type 0 where
  create_dir read_dir open_file create_file : List ℕ → FileCall
  write_all : List ℕ → List ℕ → FileCall
  -- The target, and where the link stands.
  make_symlink : List ℕ → List ℕ → FileCall

pub data ControllerCall : Type 0 where
  unshare_persistent_namespaces disable_core_dumps : ControllerCall
  new_cgroup : ℕ → ControllerCall
  add_self_as_manager : ControllerCall
  canonicalize : List ℕ → ControllerCall
  unshare_mountns make_private enter_working_area create_dev_copy : ControllerCall
  create_rootfs : List ℕ → ControllerCall
  reaper_duplex manager_duplex unshare_pidns pidfd_open spawn_reaper watch_child : ControllerCall
  send_reaper : Command → ControllerCall
  send_manager : ManagerCommand → ControllerCall
  kill_sigio : ℕ → ControllerCall
  recv_reaper recv_manager : ControllerCall
  reset_persistent_namespaces : ControllerCall
  rootfs_call : RootfsCall → ControllerCall
  -- The external path, and the internal one.
  bind_mount : List ℕ → List ℕ → ControllerCall
  change_propagation : List ℕ → ControllerCall
  file_call : FileCall → ControllerCall

abbrev pub ControllerHistory : Type 0
ControllerHistory = List ControllerCall

pub record ControllerHost : Type 0 where
  -- Whether the child has ended. The thread that watches it ends the process then, by a panic.
  pub child_ended : ControllerHistory → Bool
  pub step_reply : ControllerHistory → ControllerCall → Option ℕ
  -- How `enter_working_area` of linux/sandbox.rs ends, which may panic.
  pub area_reply : ControllerHistory → Result (Unit {0})
  pub canonicalize_reply : ControllerHistory → List ℕ → Answer (List ℕ)
  pub rootfs_reply : ControllerHistory → List ℕ → Answer MountPoints
  -- The pid of the child.
  pub spawn_reply : ControllerHistory → Answer ℕ
  -- `none` where the channel is closed.
  pub recv_reply : ControllerHistory → ControllerCall → Answer (Option Reply)
  -- How the file system of the box answers, which stands still while it is used.
  pub rootfs_host : ControllerHistory → RootfsHost
  pub read_link : ControllerHistory → List ℕ → Option (List ℕ)

-- A channel is there or not; a cgroup is the one of a core.
pub record Controller : Type 0 where
  pub quotas : DiskQuotas
  pub cgroup : Option ℕ
  pub reaper_pid : Option ℕ
  pub reaper_channel : Bool
  pub manager_channel : Bool
  pub rootfs_state : Option MountPoints

pub record World : Type 0 where
  pub controller : Controller
  -- The process has been ended by the thread that watches the child.
  pub aborted : Bool
  pub history : ControllerHistory

abbrev pub Control : Type 0 → Type 0
Control A = Exec World A

abbrev pub recorded : ControllerCall → World → World
recorded c w = record w { history = c ∷ w.history }

abbrev pub done : Option ℕ → Result (Unit {0})
done none = ok tt
done (some e) = err (io e)

-- `.context(..)` on an `Option`.
unfoldable pub required : {A : Type 0} → String → Option A → Control A
unfolding fail pure
required text none = fail (message text)
required text (some a) = pure a

unfoldable pub require : String → Bool → Control (Unit {0})
unfolding fail skip
require text true = skip
require text false = fail (message text)

-- `bail!("{e}")`, the text of which is left out.
unfoldable pub reply_value : Option Reply → Control (Option (List ℕ))
unfolding fail pure
reply_value none = fail (message "No reply from child")
reply_value (some (value v)) = pure v
reply_value (some (failure e)) = fail (message "Failure of the child")

-- `/oldroot` extended by what follows the root of an absolute path.
abbrev pub below_oldroot : List ℕ → List ℕ
below_oldroot [] = oldroot
below_oldroot (c ∷ cs) = if c == slash then oldroot ++ slash ∷ cs else oldroot

unfoldable pub resolving : {A : Type 0} → (ControllerHistory → Result A) → Control A
resolving f w = (f w.history, w)

abbrev pub new_controller : DiskQuotas → Controller
new_controller quotas = record {
  quotas = quotas;
  cgroup = none;
  reaper_pid = none;
  reaper_channel = false;
  manager_channel = false;
  rootfs_state = none;
}

-- The cgroup goes to the child, `take`n before it is asked for.
unfoldable pub take_cgroup : Control (Option ℕ)
take_cgroup w =
    (ok w.controller.cgroup, record w { controller = record w.controller { cgroup = none } })

abbrev pub is_watched : ControllerHistory → Bool
is_watched [] = false
is_watched (watch_child ∷ h) = true
is_watched (_ ∷ h) = is_watched h

module _ (host : ControllerHost) where
  abbrev pub is_gone : World → Bool
  is_gone w = w.aborted || (is_watched w.history && host.child_ended w.history)

  -- Where the process has been ended nothing is done any more, and the result is not seen.
  unfoldable pub unless_gone : {A : Type 0} → Control A → Control A
  unless_gone m w =
      if is_gone w then (err (message "Child failed"), record w { aborted = true }) else m w

  unfoldable pub request :
      {A : Type 0} → ControllerCall → (ControllerHistory → Result A) → Control A
  unfolding unless_gone
  request c reply = unless_gone (λ w. (reply w.history, recorded c w))

  -- A wait for input.
  unfoldable pub stand_by : Control (Unit {0})
  unfolding unless_gone skip
  stand_by = unless_gone skip

  -- The calls on the root file system are recorded among the others.
  unfoldable pub on_rootfs :
      (ControllerHistory → Exec RootfsHistory (Unit {0})) → Control (Unit {0})
  unfolding unless_gone
  on_rootfs m = unless_gone (λ w.
      let (r, calls) = m w.history [] in
      (r, record w { history = map rootfs_call calls ++ w.history }))

  unfoldable pub perform : ControllerCall → Control (Unit {0})
  unfolding request
  perform c = request c (λ h. done (host.step_reply h c))

  unfoldable pub recv : ControllerCall → Control (Option Reply)
  unfolding request
  recv c = request c (λ h. answered (host.recv_reply h c))

  -- `try_new`, in a process that has made no call yet.
  unfoldable pub try_new : Control (Unit {0})
  unfolding perform
  try_new = do perform unshare_persistent_namespaces; perform disable_core_dumps

  unfoldable pub join_core : ℕ → Control (Unit {0})
  unfolding perform
  join_core core = do
    perform (new_cgroup core)
    perform add_self_as_manager
    modify (λ w. record w { controller = record w.controller { cgroup = some core } })

  unfoldable pub enter_root : List ℕ → Control (Unit {0})
  unfolding perform request
  enter_root root = do
    root' ← request (canonicalize root) (λ h. answered (host.canonicalize_reply h root))
    perform unshare_mountns
    perform make_private
    request enter_working_area host.area_reply
    perform create_dev_copy
    state ←
        request (create_rootfs (below_oldroot root'))
          (λ h. answered (host.rootfs_reply h (below_oldroot root')))
    modify (λ w. record w { controller = record w.controller { rootfs_state = some state } })

  -- What follows where there is a channel.
  unfoldable pub exchange_with_reaper : Command → Control (Option (List ℕ))
  unfolding perform recv unwrap reply_value
  exchange_with_reaper command = do
    perform (send_reaper command)
    found ← gets (λ w. w.controller.reaper_pid)
    pid ← unwrap found
    perform (kill_sigio pid)
    reply ← recv recv_reaper
    reply_value reply

  unfoldable pub run_reaper_command : Command → Control (Option (List ℕ))
  unfolding require exchange_with_reaper
  run_reaper_command command = do
    channel ← gets (λ w. w.controller.reaper_channel)
    require "Not started" channel
    exchange_with_reaper command

  unfoldable pub run_manager_command : ManagerCommand → Control (Option (List ℕ))
  unfolding require perform recv reply_value
  run_manager_command command = do
    channel ← gets (λ w. w.controller.manager_channel)
    require "Not started" channel
    perform (send_manager command)
    reply ← recv recv_manager
    reply_value reply

  unfoldable pub reset : Control (Unit {0})
  unfolding perform required on_rootfs reset_rootfs run_reaper_command
  reset = do
    perform reset_persistent_namespaces
    state ← gets (λ w. w.controller.rootfs_state)
    mount_points ← required "Did not join a core" state
    quotas ← gets (λ w. w.controller.quotas)
    on_rootfs (λ h. reset_rootfs (host.rootfs_host h) mount_points quotas)
    _ ← run_reaper_command reset_command
    skip

  unfoldable pub start : Control (Unit {0})
  unfolding perform request take_cgroup required recv reply_value run_reaper_command reset
  start = do
    perform reaper_duplex
    perform manager_duplex
    perform unshare_pidns
    perform pidfd_open
    cgroup ← take_cgroup
    _ ← required "The controller has not joined a core cgroup yet" cgroup
    pid ← request spawn_reaper (λ h. answered (host.spawn_reply h))
    modify (λ w. record w { controller = record w.controller { reaper_pid = some pid } })
    -- From here on the process is ended when the child ends.
    perform watch_child
    ready ← recv recv_manager
    _ ← reply_value ready
    modify (λ w. record w { controller = record w.controller { reaper_channel = true } })
    modify (λ w. record w { controller = record w.controller { manager_channel = true } })
    _ ← run_reaper_command init_command
    reset

  unfoldable pub remount_if : Bool → List ℕ → Control (Unit {0})
  unfolding run_manager_command
  remount_if true internal = do _ ← run_manager_command (remount_readonly internal); skip
  remount_if false internal = skip

  unfoldable pub bind : List ℕ → List ℕ → Bool → Control (Unit {0})
  unfolding perform resolving remount_if resolve_abs_box_root resolve_abs_old_root
  bind external internal ro = do
    internal_abs ← resolving (λ h. resolve_abs_box_root (host.read_link h) internal)
    external_abs ← resolving (λ h. resolve_abs_old_root (host.read_link h) external)
    perform (bind_mount external_abs internal_abs)
    perform (change_propagation internal_abs)
    remount_if ro internal
