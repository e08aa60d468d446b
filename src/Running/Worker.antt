-- ===== src/Running/Worker.antt =====
-- linux/running.rs, `executor_worker`, with `drop_privileges` of linux/userns.rs, `disable_rdtsc` of
-- linux/timens.rs and `apply_seccomp_filter` of linux/tracing.rs: what the child does to become the
-- program. The kernel answers each call by all the calls before it, which are recorded, the latest
-- first. A text is its bytes.
pub mod Confined
pub mod Executes
use sunwalker_box.Common.{
  ℕ, ◌/◌, ◌%◌, Bool, true, false, Option, none, some, List, [], ◌∷◌, ◌++◌, map, if◌then◌else◌,
}
use sunwalker_box.Common.Exec.{
  Failure, io, message, panic, Result, ok, err, Exec, pure, fail, lift, skip, unwrap, and_then,
  ◌>>=◌, ◌>>◌, granted,
}
use sunwalker_box.Serde.Text.{has_nul}

pub data Stream : Type 0 where
  stdin stdout stderr : Stream

pub data WorkerCall : Type 0 where
  -- SECCOMP_SET_MODE_FILTER with the flags.
  seccomp : ℕ → WorkerCall
  setgroups : List ℕ → WorkerCall
  setgid setuid : ℕ → WorkerCall
  prctl : ℕ → ℕ → WorkerCall
  chdir : List ℕ → WorkerCall
  dup2 : Stream → ℕ → WorkerCall
  -- ITIMER_PROF, by the seconds, in 64 bits, and microseconds to its only signal.
  setitimer : ℕ → ℕ → WorkerCall
  traceme : WorkerCall
  -- Of the wrapper, with its arguments and environment.
  fexecve : List (List ℕ) → List (List ℕ) → WorkerCall
  send_error : Failure → WorkerCall

abbrev pub WorkerHistory : Type 0
WorkerHistory = List WorkerCall

pub record WorkerHost : Type 0 where
  -- The errno of a call that fails. An `fexecve` that succeeds does not return.
  pub call_reply : WorkerHistory → WorkerCall → Option ℕ
  -- `std::env::vars()`, which panics on what is not UTF-8.
  pub vars : Option (List (List ℕ × List ℕ))

abbrev pub Work : Type 0 → Type 0
Work A = Exec WorkerHistory A

abbrev pub EnvVars : Type 0
EnvVars = List (List ℕ × List ℕ)

abbrev pub internal_user_uid : ℕ
internal_user_uid = 1000

abbrev pub internal_user_gid : ℕ
internal_user_gid = 1000

-- SECCOMP_FILTER_FLAG_LOG and SECCOMP_FILTER_FLAG_SPEC_ALLOW.
abbrev pub filter_flags : ℕ
filter_flags = 6

abbrev pub pr_set_tsc : ℕ
pr_set_tsc = 26

abbrev pub pr_tsc_sigsegv : ℕ
pr_tsc_sigsegv = 2

abbrev pub space_dir : List ℕ
space_dir = 47 ∷ 115 ∷ 112 ∷ 97 ∷ 99 ∷ 101 ∷ []

abbrev pub exec_wrapper : List ℕ
exec_wrapper = 101 ∷ 120 ∷ 101 ∷ 99 ∷ 95 ∷ 119 ∷ 114 ∷ 97 ∷ 112 ∷ 112 ∷ 101 ∷ 114 ∷ []

-- `CString::new(..)?` of each.
unfoldable pub to_cstrings : List (List ℕ) → Result (List (List ℕ))
to_cstrings [] = ok []
to_cstrings (text ∷ texts) =
    if has_nul text
    then err (message "nul byte found in provided data")
    else and_then (to_cstrings texts) (λ rest. ok (text ∷ rest))

-- `format!("{name}={value}")`.
abbrev pub env_entry : List ℕ × List ℕ → List ℕ
env_entry (name, value) = name ++ 61 ∷ value

module _ (host : WorkerHost) where
  unfoldable pub work_call : WorkerCall → Work (Unit {0})
  work_call c h = granted (host.call_reply h c) (c ∷ h)

  -- The filter is a file that the build makes.
  unfoldable pub apply_seccomp_filter : Work (Unit {0})
  unfolding work_call
  apply_seccomp_filter = work_call (seccomp filter_flags)

  unfoldable pub disable_rdtsc : Work (Unit {0})
  unfolding work_call
  disable_rdtsc = work_call (prctl pr_set_tsc pr_tsc_sigsegv)

  unfoldable pub drop_privileges : Work (Unit {0})
  unfolding work_call
  drop_privileges = do
    work_call (setgroups (internal_user_gid ∷ []))
    work_call (setgid internal_user_gid)
    work_call (setuid internal_user_uid)

  abbrev pub env_vars : Option EnvVars → Work EnvVars
  env_vars (some env) = pure env
  env_vars none = unwrap host.vars

  -- `as_secs()` and `subsec_micros()` of nanoseconds.
  unfoldable pub set_timer : Option ℕ → Work (Unit {0})
  unfolding work_call
  set_timer none = skip
  set_timer (some limit) =
      work_call (setitimer (limit / 1_000_000_000) (limit % 1_000_000_000 / 1000))

  unfoldable pub redirect_streams : Work (Unit {0})
  unfolding work_call
  redirect_streams = do
    work_call (dup2 stdin 0)
    work_call (dup2 stdout 1)
    work_call (dup2 stderr 2)

  unfoldable pub become_program : List (List ℕ) → Option EnvVars → Option ℕ → Work (Unit {0})
  unfolding work_call apply_seccomp_filter disable_rdtsc drop_privileges redirect_streams set_timer
  become_program argv env cpu_time_limit = do
    apply_seccomp_filter
    drop_privileges
    disable_rdtsc
    work_call (chdir space_dir)
    redirect_streams
    args ← lift (to_cstrings (exec_wrapper ∷ argv))
    vars ← env_vars env
    envp ← lift (to_cstrings (map env_entry vars))
    set_timer cpu_time_limit
    work_call traceme
    work_call (fexecve args envp)

  abbrev pub sent_report : Option ℕ → Result (Unit {0})
  sent_report none = ok tt
  sent_report (some e) = err panic

  -- `pipe.send(..).expect(..)`.
  unfoldable pub send_report : Failure → Work (Unit {0})
  send_report e h = (sent_report (host.call_reply h (send_error e)), send_error e ∷ h)

  -- The `try` block catches no panic.
  abbrev pub report_error : Result (Unit {0}) → Work (Unit {0})
  report_error (ok _) = skip
  report_error (err panic) = fail panic
  report_error (err e) = send_report e

  unfoldable pub executor_worker : List (List ℕ) → Option EnvVars → Option ℕ → Work (Unit {0})
  unfolding become_program
  executor_worker argv env cpu_time_limit h =
      let (result, h') = become_program argv env cpu_time_limit h in report_error result h'
