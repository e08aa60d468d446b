-- ===== src/Witnesses/Commands.antt =====
-- Commands of linux/manager.rs, the reset of linux/ipc.rs, and the loop of linux/reaper.rs.
use Prim.Native.String.{String}
use sunwalker_box.Common.{
  ℕ, ◌+◌, ◌≡◌, refl, true, false, Option, none, some, List, [], ◌∷◌, ◌==◌, if◌then◌else◌, ◌||◌,
}
use sunwalker_box.Common.Exec.{ok, skip, ◌>>=◌}
use sunwalker_box.Tracing.{IpcKind, sem, msg, shm}
use sunwalker_box.Cgroups.{parse_line, split_ascii_whitespace, parse_number}
use sunwalker_box.SysvIpc.{IpcNamespace, IpcHistory, list_queues, list_objects, reset}
use sunwalker_box.SysvIpc.Removed.{QueuesRemoved, ObjectsRemoved, Lists, reset_lem}
use sunwalker_box.Reaper.{
  reset_command, Signal, sigusr1, sigio, unchanged, ReaperHistory, ReaperHost, main_loop,
}
use sunwalker_box.Reaper.Protocol.{Leads, main_loop-Leads}
use sunwalker_box.Manager.{remount_readonly}
use sunwalker_box.Manager.Remount.{Locked, locked_flags, Grants, remount_readonly_lem}

-- A mount that was made with NODEV.
abbrev nodev : Locked
nodev = (false, true, false)

-- It grants the sets with NODEV, by their flags.
abbrev grants_nodev : List ℕ → ℕ → Option ℕ
grants_nodev tried flags =
    if flags == 4133 || (flags == 4135 || (flags == 4141 || flags == 4143)) then none else some 1

grants_nodev-Grants : Grants grants_nodev nodev
grants_nodev-Grants tried (false, false, false) = refl
grants_nodev-Grants tried (false, false, true) = refl
grants_nodev-Grants tried (false, true, false) = refl
grants_nodev-Grants tried (false, true, true) = refl
grants_nodev-Grants tried (true, false, false) = refl
grants_nodev-Grants tried (true, false, true) = refl
grants_nodev-Grants tried (true, true, false) = refl
grants_nodev-Grants tried (true, true, true) = refl

remount_readonly_example :
    (tried : List ℕ) × (remount_readonly grants_nodev []
      ≡ (ok tt, (32 + 1 + locked_flags nodev + 4096) ∷ tried))
remount_readonly_example = remount_readonly_lem grants_nodev nodev grants_nodev-Grants

-- A namespace with one message queue and one set of semaphores, whose id is 5.
abbrev sem_lines : List (List ℕ)
sem_lines = (107 ∷ 101 ∷ 121 ∷ []) ∷ (48 ∷ 32 ∷ 53 ∷ []) ∷ []

abbrev lines_of : IpcKind → List (List ℕ)
lines_of sem = sem_lines
lines_of _ = []

abbrev namespace : IpcNamespace
namespace = record {
  queues_reply = λ h. ok ("q" ∷ []);
  remove_queue_reply = λ h name. none;
  objects_reply = λ h kind. ok (lines_of kind);
  remove_object_reply = λ h kind id. none;
}

abbrev emptied : IpcHistory
emptied = (reset namespace []).1

reset_returns : reset namespace [] ≡ (ok tt, emptied)
unfolding reset parse_line split_ascii_whitespace parse_number ◌>>=◌ skip
reset_returns = refl

reset_example :
    (names : List String) × (msgs sems shms : List ℕ) × (h1 h2 h3 : IpcHistory)
    × (namespace.queues_reply [] ≡ ok names)
    × QueuesRemoved namespace names (list_queues ∷ []) h1
    × Lists namespace msg h1 msgs
    × ObjectsRemoved namespace msg msgs (list_objects msg ∷ h1) h2
    × Lists namespace sem h2 sems
    × ObjectsRemoved namespace sem sems (list_objects sem ∷ h2) h3
    × Lists namespace shm h3 shms
    × ObjectsRemoved namespace shm shms (list_objects shm ∷ h3) emptied
reset_example = reset_lem namespace [] emptied reset_returns

-- A reset, and then the death of the controller.
abbrev signal_of : ReaperHistory → Signal
signal_of [] = sigio
signal_of _ = sigusr1

abbrev reaper_host : ReaperHost
reaper_host = record {
  signal_reply = signal_of;
  recv_reply = λ h. ok (some reset_command);
  step_reply = λ h c. ok tt;
  wait_reply = λ h. unchanged;
  manager_pid = 2;
}

main_loop-Leads_example : Leads false false (main_loop reaper_host 5)
main_loop-Leads_example = main_loop-Leads reaper_host 5
