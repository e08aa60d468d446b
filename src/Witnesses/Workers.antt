-- ===== src/Witnesses/Workers.antt =====
-- `executor_worker` of linux/running.rs on a kernel where no call fails.
use sunwalker_box.Common.{ℕ, ◌≡◌, refl, none, some, List, [], ◌∷◌, map}
use sunwalker_box.Common.Exec.{ok}
use sunwalker_box.Serde.Text.{has_nul}
use sunwalker_box.Running.Worker.{
  fexecve, WorkerHost, EnvVars, exec_wrapper, env_entry, executor_worker,
}
use sunwalker_box.Running.Worker.Confined.{Confined, confining_calls, executor_worker-Confined}
use sunwalker_box.Running.Worker.Executes.{executor_worker-executes}

-- Where `/` is the only argument.
abbrev argv : List (List ℕ)
argv = (47 ∷ []) ∷ []

abbrev vars : EnvVars
vars = (65 ∷ [], 66 ∷ []) ∷ []

abbrev host : WorkerHost
host = record { call_reply = λ h c. none; vars = some [] }

executor_worker-Confined_example :
    Confined host argv
      (some vars)
      (some 1500000000)
      (executor_worker host argv (some vars) (some 1500000000) []).1
executor_worker-Confined_example = executor_worker-Confined host argv (some vars) (some 1500000000)

executor_worker-executes_example : executor_worker host argv (some vars) (some 1500000000) [] ≡ (
  ok tt,
  fexecve (exec_wrapper ∷ argv) (map env_entry vars) ∷ confining_calls (some 1500000000),
)
unfolding has_nul
executor_worker-executes_example =
    executor_worker-executes host (λ h c. refl) argv (some vars) (some 1500000000) vars (refl, tt)
      refl (refl, tt)
