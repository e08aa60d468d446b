-- ===== src/Controller/Machine/Wired.antt =====
-- The channel to the reaper of linux/controller.rs is there only with the pid that is signalled when a
-- command is sent, whatever was called before and failed.
use mathlib.Core.Path.{subst}
use sunwalker_box.Common.{
  sym, ℕ, ◌≡◌, refl, Bool-cases, inl, inr, ◌||◌, Bool, true, false, Option, none, some, List, [],
  ◌∷◌, ◌++◌, map,
}
use sunwalker_box.Common.Exec.{Result, ok, Exec, fail, gets, unwrap, skip, ◌>>=◌}
use sunwalker_box.Common.Exec.Safe.{
  NotPanic, Safe, Gives, Given-result, Safe-bind_given, NotPanic-answered, Safe-pure, Safe-message,
  Safe-gets, Safe-skip, Safe-bind,
}
use sunwalker_box.Reaper.{Command, reset_command}
use sunwalker_box.Rootfs.{newroot, oldroot}
use sunwalker_box.Rootfs.Reset.{RootfsHistory}
use sunwalker_box.Rootfs.Reset.Total.{
  reset_rootfs-Safe, resolve_abs_box_root-NotPanic, resolve_abs_old_root-NotPanic,
}
use sunwalker_box.Controller.Machine.Calls.{
  Below, Confined, resolve_abs_box_root-Below, resolve_abs_old_root-Below,
}
use sunwalker_box.Controller.Machine.{
  recorded, ManagerCommand, Reply, value, failure, ControllerCall, ControllerHistory,
  ControllerHost, World, Control, is_gone, unless_gone, done, request, required, require,
  reply_value, on_rootfs, resolving, perform, recv, run_reaper_command, exchange_with_reaper,
  run_manager_command, reset, remount_if, bind,
}

abbrev pub HasPid : World → Type 0
HasPid w = (pid : ℕ) × (w.controller.reaper_pid ≡ some pid)

abbrev pub IsWired : World → Type 0
IsWired w = w.controller.reaper_channel ≡ true → HasPid w

done-NotPanic : (o : Option ℕ) → NotPanic (done o)
done-NotPanic none = tt
done-NotPanic (some e) = tt

-- An invariant that calls on confined paths keep, and the end of the process.
pub record Extends (host : ControllerHost) (P : World → Type 0) : Type 0 where
  pub on_call :
      (w : World) (c : ControllerCall) → Confined c → w.aborted ≡ false → P w → P (recorded c w)
  pub on_abort : (w : World) → is_gone host w ≡ true → P w → P (record w { aborted = true })

pub not_aborted : (a b : Bool) → (a || b) ≡ false → a ≡ false
not_aborted false b e = refl
not_aborted true b e = e

module _ {P : World → Type 0} {host : ControllerHost} (extend : Extends host P) where
  pub unless_gone-Safe :
      {A : Type 0} (m : Control A)
      → ((w : World) → w.aborted ≡ false → P w → NotPanic (m w).0 × P (m w).1)
      → Safe P (unless_gone host m)
  unfolding unless_gone
  unless_gone-Safe m sm = record {
    at = λ w p. elim (Bool-cases (is_gone host w)) [
      | inl gone ↦ rw gone (tt, extend.on_abort w gone p)
      | inr there ↦ rw there (sm w (not_aborted w.aborted _ there) p)
    ];
  }

  pub request-Safe :
      {A : Type 0} (c : ControllerCall) (reply : ControllerHistory → Result A)
      → Confined c
      → ((h : ControllerHistory) → NotPanic (reply h))
      → Safe P (request host c reply)
  unfolding request
  request-Safe c reply confined n =
      unless_gone-Safe _ (λ w there p. (n w.history, extend.on_call w c confined there p))

  pub require-Safe : (text : _) (b : Bool) → Safe P (require text b)
  unfolding require
  require-Safe text true = Safe-skip
  require-Safe text false = Safe-message text

  pub required-Safe : {A : Type 0} (text : _) (o : Option A) → Safe P (required text o)
  unfolding required
  required-Safe text (some a) = Safe-pure a
  required-Safe text none = Safe-message text

  pub reply_value-Safe : (o : Option Reply) → Safe P (reply_value o)
  unfolding reply_value
  reply_value-Safe none = Safe-message _
  reply_value-Safe (some (value v)) = Safe-pure v
  reply_value-Safe (some (failure e)) = Safe-message _

  pub resolving-Gives :
      {A : Type 0} (Q : A → Type 0) (f : ControllerHistory → Result A)
      → ((h : ControllerHistory) → NotPanic (f h))
      → ((h : ControllerHistory) (a : A) → f h ≡ ok a → Q a)
      → Gives P Q (resolving f)
  unfolding resolving
  resolving-Gives Q f n q = record {
    at = λ w p. (Given-result Q (f w.history) (n w.history) (q w.history), p);
  }

  extend_all :
      (calls : RootfsHistory) (w : World)
      → w.aborted ≡ false
      → P w
      → P (record w { history = map ControllerCall.rootfs_call calls ++ w.history })
  extend_all [] w there p = p
  extend_all (c ∷ calls) w there p =
      extend.on_call _ (ControllerCall.rootfs_call c) tt there (extend_all calls w there p)

  on_rootfs-Safe :
      (m : ControllerHistory → Exec RootfsHistory (Unit {0}))
      → ((h : ControllerHistory) → Safe (λ _. Unit {0}) (m h))
      → Safe P (on_rootfs host m)
  unfolding on_rootfs
  on_rootfs-Safe m sm =
      unless_gone-Safe _ (λ w there p. (((sm w.history).at [] tt).0, extend_all _ w there p))

  pub perform-Safe : (c : ControllerCall) → Confined c → Safe P (perform host c)
  unfolding perform
  perform-Safe c confined = request-Safe c _ confined (λ h. done-NotPanic (host.step_reply h c))

  pub recv-Safe : (c : ControllerCall) → Confined c → Safe P (recv host c)
  unfolding recv
  recv-Safe c confined = request-Safe c _ confined (λ h. NotPanic-answered (host.recv_reply h c))

  pub run_manager_command-Safe :
      (command : ManagerCommand) → Safe P (run_manager_command host command)
  unfolding run_manager_command
  run_manager_command-Safe command = Safe-bind _ _ (Safe-gets _) λ channel.
      Safe-bind _ _ (require-Safe _ channel)
        λ _. Safe-bind _ _ (perform-Safe _ tt) λ _. Safe-bind _ _ (recv-Safe _ tt) reply_value-Safe

  remount_if-Safe : (ro : Bool) (internal : List ℕ) → Safe P (remount_if host ro internal)
  unfolding remount_if
  remount_if-Safe true internal = search (Safe-bind, run_manager_command-Safe, Safe-skip)
  remount_if-Safe false internal = Safe-skip

  pub bind-Safe : (external internal : List ℕ) (ro : Bool) → Safe P (bind host external internal ro)
  unfolding bind
  bind-Safe external internal ro =
      Safe-bind_given _ _
        (resolving-Gives (Below newroot) _
          (λ h. resolve_abs_box_root-NotPanic (host.read_link h) internal)
          (λ h. resolve_abs_box_root-Below (host.read_link h) internal))
        λ i inside.
          Safe-bind_given _ _
            (resolving-Gives (Below oldroot) _
              (λ h. resolve_abs_old_root-NotPanic (host.read_link h) external)
              (λ h. resolve_abs_old_root-Below (host.read_link h) external))
            λ e outside.
              Safe-bind _ _ (perform-Safe _ (outside, inside))
                λ _. Safe-bind _ _ (perform-Safe _ inside) λ _. remount_if-Safe ro internal

-- An invariant under which a channel to the reaper comes with its pid.
module _ {P : World → Type 0} {host : ControllerHost} (extend : Extends host P)
    (wired : (w : World) → P w → IsWired w) where
  abbrev Signalled : World → Type 0
  Signalled w = P w × HasPid w

  abbrev extend_signalled : Extends host Signalled
  extend_signalled = record {
    on_call = λ w c confined there (p, pid). (extend.on_call w c confined there p, pid);
    on_abort = λ w gone (p, pid). (extend.on_abort w gone p, pid);
  }

  found-Safe :
      {A : Type 0} (k : Option ℕ → Control A)
      → ((pid : ℕ) → Safe Signalled (k (some pid)))
      → Safe Signalled (gets (λ w. w.controller.reaper_pid) >>= k)
  unfolding ◌>>=◌ gets
  found-Safe k sk = record {
    at = λ w (p, (pid, e)).
        subst (λ o. NotPanic (k o w).0 × Signalled (k o w).1) (sym e) ((sk pid).at w (p, (pid, e)));
  }

  exchange-Safe : (command : Command) → Safe Signalled (exchange_with_reaper host command)
  unfolding exchange_with_reaper unwrap
  exchange-Safe command = Safe-bind _ _ (perform-Safe extend_signalled _ tt) λ _.
      found-Safe _ λ pid. Safe-bind _ _ (Safe-pure pid) λ pid'.
        Safe-bind _ _ (perform-Safe extend_signalled _ tt)
          λ _. Safe-bind _ _ (recv-Safe extend_signalled _ tt) (reply_value-Safe extend_signalled)

  channel-Safe :
      (command : Command) (b : Bool) (w : World)
      → P w
      → (b ≡ true → HasPid w)
      → NotPanic ((require "Not started" b >>= λ _. exchange_with_reaper host command) w).0
        × P ((require "Not started" b >>= λ _. exchange_with_reaper host command) w).1
  unfolding require ◌>>=◌ skip fail
  channel-Safe command true w p pid =
      let (n, (p', _)) = (exchange-Safe command).at w (p, pid refl) in (n, p')
  channel-Safe command false w p pid = (tt, p)

  pub run_reaper_command-Safe : (command : Command) → Safe P (run_reaper_command host command)
  unfolding run_reaper_command ◌>>=◌ gets
  run_reaper_command-Safe command = record {
    at = λ w p. channel-Safe command w.controller.reaper_channel w p (wired w p);
  }

  pub reset-Safe : Safe P (reset host)
  unfolding reset
  reset-Safe = Safe-bind _ _ (perform-Safe extend _ tt) λ _. Safe-bind _ _ (Safe-gets _) λ state.
      Safe-bind _ _ (required-Safe extend _ state) λ mount_points.
        Safe-bind _ _ (Safe-gets _) λ quotas.
          Safe-bind _ _
            (on_rootfs-Safe extend _
              (λ h. reset_rootfs-Safe (λ _. tt) (host.rootfs_host h) mount_points quotas))
            λ _. Safe-bind _ _ (run_reaper_command-Safe reset_command) (λ _. Safe-skip)
