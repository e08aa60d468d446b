-- ===== src/Running.antt =====
-- linux/running.rs: one run of a program under the tracer, its options, limits and verdict. Times are
-- nanoseconds, as in `Duration`; subtraction and addition of durations panic where they do in Rust.
pub mod Limits
pub mod Events
pub mod Quiet
pub mod Resumes
pub mod Stops
pub mod Emulation
pub mod Loop
pub mod Ends
pub mod Verdicts
pub mod Vanished
pub mod Worker
use sunwalker_box.Common.{
  ℕ, zero, suc, ◌+◌, ◌-◌, ◌*◌, ◌/◌, ◌<◌, Bool, true, false, ◌||◌, Option, none, some, List, [], ◌∷◌,
  min, ltb, leb, ◌==◌, if◌then◌else◌,
}
use sunwalker_box.Common.Int.{ℤ, pos, negsuc}
use sunwalker_box.Common.Exec.{Result, ok, err, message}
use sunwalker_box.Serde.Object.{◌>>=◌}
use sunwalker_box.Tracing.{History}

-- Texts are lists of bytes; a map is the list of its entries.
pub record Options : Type 0 where
  pub argv : List (List ℕ)
  pub stdin : List ℕ
  pub stdout : List ℕ
  pub stderr : List ℕ
  pub real_time_limit : Option ℕ
  pub cpu_time_limit : Option ℕ
  pub idleness_time_limit : Option ℕ
  pub memory_limit : Option ℕ
  pub processes_limit : Option ℕ
  pub env : Option (List (List ℕ × List ℕ))

pub data Verdict : Type 0 where
  exit_code : ℕ → Verdict
  signaled : ℕ → Verdict
  cpu_time_limit_exceeded : Verdict
  real_time_limit_exceeded : Verdict
  idleness_time_limit_exceeded : Verdict
  memory_limit_exceeded : Verdict

pub record RunResults : Type 0 where
  pub verdict : Verdict
  pub real_time : ℕ
  pub cpu_time : ℕ
  pub idleness_time : ℕ
  pub memory : ℕ

-- `nix::sys::wait::WaitStatus`; `unexpected` stands for the variants that the program refuses.
pub data WaitStatus : Type 0 where
  still_alive : WaitStatus
  exited : ℕ → ℕ → WaitStatus
  killed : ℕ → ℕ → WaitStatus
  stopped : ℕ → ℕ → WaitStatus
  ptrace_event : ℕ → ℕ → ℕ → WaitStatus
  unexpected : WaitStatus

abbrev pub duration_max : ℕ
duration_max = 18446744073709551616 * 1_000_000_000 - 1

abbrev pub from_millis : ℕ → ℕ
from_millis n = n * 1_000_000

-- `a - b` and `a + b` on durations.
unfoldable pub checked_sub : ℕ → ℕ → Option ℕ
checked_sub a b = if leb b a then some (a - b) else none

unfoldable pub checked_add : ℕ → ℕ → Option ℕ
checked_add a b = if leb (a + b) duration_max then some (a + b) else none

-- `timeout.min(limit - used)`, where the limit is set.
unfoldable pub min_real : Option ℕ → ℕ → ℕ → Option ℕ
unfolding checked_sub
min_real none used timeout = some timeout
min_real (some limit) used timeout = do left ← checked_sub limit used; some (min timeout left)

-- `timeout.min(limit - used + Duration::from_millis(50))`.
unfoldable pub min_polled : Option ℕ → ℕ → ℕ → Option ℕ
unfolding checked_sub checked_add
min_polled none used timeout = some timeout
min_polled (some limit) used timeout = do
  left ← checked_sub limit used
  padded ← checked_add left (from_millis 50)
  some (min timeout padded)

-- `as_millis().try_into().unwrap_or(i32::MAX).min(1000000)`; -1 waits for ever.
unfoldable pub timeout_ms : ℕ → ℤ
timeout_ms timeout =
    if timeout == duration_max
    then negsuc 0
    else pos (
        min (if leb (timeout / 1_000_000) 2147483647 then timeout / 1_000_000 else 2147483647)
          1_000_000)

-- `none` is a panic.
unfoldable pub compute_wait_timeout_ms : Options → RunResults → Bool → Option ℤ
unfolding min_real min_polled timeout_ms
compute_wait_timeout_ms options results has_peak = do
  t ← min_real options.real_time_limit results.real_time duration_max
  t' ← min_polled options.cpu_time_limit results.cpu_time t
  t'' ← min_polled options.idleness_time_limit results.idleness_time t'
  some (timeout_ms (if has_peak then t'' else from_millis 50))

-- `limit.is_some_and(|limit| used > limit)`.
unfoldable pub over : Option ℕ → ℕ → Bool
over none used = false
over (some limit) used = ltb limit used

unfoldable pub is_exceeding_limits : Options → RunResults → Bool
unfolding over
is_exceeding_limits options results =
    over options.cpu_time_limit results.cpu_time
    || over options.real_time_limit results.real_time
    || over options.idleness_time_limit results.idleness_time
    || over options.memory_limit results.memory

abbrev pub sigprof : ℕ
sigprof = 27

-- The verdict by the way that the main process ended.
unfoldable pub verdict_of_status : WaitStatus → Result Verdict
verdict_of_status (exited pid code) = ok (exit_code code)
verdict_of_status (killed pid signal) =
    if signal == sigprof then ok cpu_time_limit_exceeded else ok (signaled signal)
verdict_of_status _ = err (message "waitpid returned unexpected status")

abbrev with_oom : Options → RunResults → WaitStatus → Result Bool → Result Verdict
with_oom options results status (err e) = err e
with_oom options results status (ok oom_killed) =
    if oom_killed || over options.memory_limit results.memory
    then ok memory_limit_exceeded
    else verdict_of_status status

-- `oom_killed` is the answer of `was_oom_killed()`, which is asked after the time limits.
unfoldable pub compute_verdict : Options → RunResults → Result Bool → WaitStatus → Result Verdict
unfolding over verdict_of_status
compute_verdict options results oom_killed status =
    if over options.cpu_time_limit results.cpu_time
    then ok cpu_time_limit_exceeded
    else if over options.real_time_limit results.real_time
    then ok real_time_limit_exceeded
    else if over options.idleness_time_limit results.idleness_time
    then ok idleness_time_limit_exceeded
    else with_oom options results status oom_killed

pub data ProcessState : Type 0 where
  just_started : ProcessState
  alive : ProcessState
  emulate_syscall : ℤ → ProcessState

-- The state of a run, with the calls that it has made.
pub record SingleRun : Type 0 where
  pub options : Options
  pub results : RunResults
  pub has_peak : Bool
  pub main_pid : ℕ
  pub start_time : Option ℕ
  pub processes : List (ℕ × ProcessState)
  pub tsc_shift : ℕ
  pub sem_next_id : ℕ
  pub msg_next_id : ℕ
  pub shm_next_id : ℕ
  pub history : History
