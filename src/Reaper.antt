-- ===== src/Reaper.antt =====
-- linux/reaper.rs: the loop of PID 1 of the box, which waits for signals, and the commands that it
-- executes. What it waits for is answered by the host, by all the calls before, the latest first. An
-- `expect` that fails is a panic.
pub mod Protocol
pub mod Setup
use sunwalker_box.Common.{
  ℕ, zero, suc, Bool, true, false, Option, none, some, List, [], ◌∷◌, ◌==◌, if◌then◌else◌,
}
use sunwalker_box.Common.Exec.{
  Result, ok, err, panic, unfinished, Exec, pure, fail, skip, ◌>>=◌, ◌>>◌,
}

pub data Command : Type 0 where
  init_command reset_command : Command

pub data Signal : Type 0 where
  sigusr1 sigio sigchld other_signal : Signal

-- What `waitpid` with WNOHANG reports: a process that changed state, none that did, or an errno.
pub data Waited : Type 0 where
  changed : ℕ → Waited
  unchanged : Waited
  wait_failed : ℕ → Waited

pub data ReaperCall : Type 0 where
  wait_signal recv_command join_ipc mount_mqueue reset_pidns reset_ipc wait_child destroy_cgroup :
      ReaperCall
  -- With whether the command succeeded.
  send_reply : Bool → ReaperCall

abbrev pub ReaperHistory : Type 0
ReaperHistory = List ReaperCall

pub record ReaperHost : Type 0 where
  pub signal_reply : ReaperHistory → Signal
  pub recv_reply : ReaperHistory → Result (Option Command)
  pub step_reply : ReaperHistory → ReaperCall → Result (Unit {0})
  pub wait_reply : ReaperHistory → Waited
  pub manager_pid : ℕ

abbrev pub Reaping : Type 0 → Type 0
Reaping A = Exec ReaperHistory A

unfoldable pub demand : {A : Type 0} → ReaperCall → (ReaperHistory → Result A) → Reaping A
demand c reply h = (reply h, c ∷ h)

abbrev pub succeeded : Result (Unit {0}) → Bool
succeeded (ok _) = true
succeeded (err _) = false

-- A failure of a command is reported, not passed on.
unfoldable pub outcome_of : Reaping (Unit {0}) → Reaping Bool
outcome_of m h = let (r, h') = m h in (ok (succeeded r), h')

-- `expect`.
abbrev pub expected : {A : Type 0} → Result A → Result A
expected (ok a) = ok a
expected (err _) = err panic

-- Whether the loop is left.
pub data Next : Type 0 where
  goes_on leaves : Next

abbrev echild : ℕ
echild = 10

module _ (host : ReaperHost) where
  abbrev perform : ReaperCall → Reaping (Unit {0})
  perform c = demand c (λ h. host.step_reply h c)

  unfoldable pub execute_command : Command → Reaping (Unit {0})
  unfolding demand
  execute_command init_command = do perform join_ipc; perform mount_mqueue
  execute_command reset_command = do perform reset_pidns; perform reset_ipc

  abbrev pub received_command : Option Command → Reaping Command
  received_command none = fail panic
  received_command (some command) = pure command

  unfoldable pub answer_command : Reaping (Unit {0})
  unfolding demand outcome_of execute_command
  answer_command = do
    message ← demand recv_command (λ h. expected (host.recv_reply h))
    command ← received_command message
    result ← outcome_of (execute_command command)
    demand (send_reply result) (λ h. expected (host.step_reply h (send_reply result)))

  -- A round of the inner loop at SIGCHLD.
  abbrev pub after_wait : Reaping Next → Waited → Reaping Next
  after_wait next unchanged = pure goes_on
  after_wait next (wait_failed e) = if e == echild then pure leaves else fail panic
  after_wait next (changed pid) = if pid == host.manager_pid then pure goes_on else next

  -- It has as many rounds as there are children that ended, and fuel.
  unfoldable pub reap_children : ℕ → Reaping Next
  unfolding demand
  reap_children zero = fail unfinished
  reap_children (suc fuel) = do
    waited ← demand wait_child (λ h. ok (host.wait_reply h))
    after_wait (reap_children fuel) waited

  unfoldable pub on_signal : ℕ → Signal → Reaping Next
  unfolding answer_command reap_children
  on_signal fuel sigusr1 = pure leaves
  on_signal fuel sigio = do answer_command; pure goes_on
  on_signal fuel sigchld = reap_children fuel
  on_signal fuel other_signal = fail panic

  abbrev pub after_signal : Reaping (Unit {0}) → Next → Reaping (Unit {0})
  after_signal next leaves = skip
  after_signal next goes_on = next

  -- The loop `'main`, on fuel, as signals may come for ever.
  unfoldable pub main_loop : ℕ → Reaping (Unit {0})
  unfolding demand on_signal
  main_loop zero = fail unfinished
  main_loop (suc fuel) = do
    signal ← demand wait_signal (λ h. ok (host.signal_reply h))
    next ← on_signal fuel signal
    after_signal (main_loop fuel) next

  -- A cgroup that cannot be destroyed is let be.
  unfoldable pub reaper : ℕ → Reaping (Unit {0})
  unfolding main_loop outcome_of
  reaper fuel = do main_loop fuel; destroyed ← outcome_of (perform destroy_cgroup); skip
