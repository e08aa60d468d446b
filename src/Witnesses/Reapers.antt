-- ===== src/Witnesses/Reapers.antt =====
-- The set-up of linux/reaper.rs with a descriptor 7 that is closed on exec.
use sunwalker_box.Common.{◌≡◌, refl, false, none, [], ◌∷◌}
use sunwalker_box.Common.Exec.{answer, ok, pure, skip, unwrap, ◌>>=◌}
use sunwalker_box.Reaper.Setup.{SetupHost, prepared, set_up}
use sunwalker_box.Cgroups.{parse_number}
use sunwalker_box.Reaper.Setup.Steps.{Guarded}
use sunwalker_box.Reaper.Setup.Guarded.{set_up-Guarded}

abbrev host : SetupHost
host = record {
  pid_reply = λ h. 1;
  step_reply = λ h c. none;
  poll_reply = λ h. answer false;
  fds_reply = λ h. answer (answer (48 ∷ []) ∷ answer (55 ∷ []) ∷ []);
  flags_reply = λ h. answer 1;
  manager_reply = λ h. answer 2;
}

set_up_returns : (set_up host false []).0 ≡ ok (prepared 2)
unfolding set_up ◌>>=◌ pure skip unwrap parse_number
set_up_returns = refl

set_up_example : Guarded host false (set_up host false []).1
set_up_example = set_up-Guarded host false
