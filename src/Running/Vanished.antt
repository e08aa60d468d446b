-- ===== src/Running/Vanished.antt =====
-- A process that is killed while it is traced, for linux/running.rs: its calls answer ESRCH.
use sunwalker_box.Common.{ℕ, ◌≡◌, refl, Bool, ◌==◌, Bool-cases, inl, inr, arith}
use sunwalker_box.Common.Exec.{Result, ok, err, nix, io, message, panic, unfinished}
use sunwalker_box.Tracing.{Kernel}
use sunwalker_box.Running.{SingleRun, WaitStatus}
use sunwalker_box.Running.Events.{esrch, dispatch_event, forgive, handle_event}

-- ESRCH is let go where `nix` reports it, and everything else is passed on.
pub handle_event_lem :
    (k : Kernel) (fuel : ℕ) (status : WaitStatus) (s : SingleRun)
    → ((handle_event k fuel status s).1 ≡ (dispatch_event k fuel status s).1)
      × (¬ ((handle_event k fuel status s).0 ≡ err (nix esrch)))
unfolding handle_event
handle_event_lem k fuel status s = (refl, never (dispatch_event k fuel status s).0)
  where
    never : (r : Result Bool) → ¬ (forgive k fuel r ≡ err (nix esrch))
    never (ok b) h = absurd (cc)
    never (err (nix e)) h = elim (Bool-cases (e == esrch)) [
      | inl gone ↦ absurd (ground (arith, gone))
      | inr other ↦ absurd (ground (arith, other))
    ]
    never (err (io _)) h = absurd (cc)
    never (err (message _)) h = absurd (cc)
    never (err panic) h = absurd (cc)
    never (err unfinished) h = absurd (cc)
