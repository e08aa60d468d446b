-- ===== src/Running/Verdicts.antt =====
-- That a run of linux/running.rs has a verdict when its loop ends.
use sunwalker_box.Common.{
  ℕ, ◌≡◌, inl, inr, refl, Bool, true, false, Option, none, some, max, ◌==◌, if◌then◌else◌, arith,
  Bool-cases,
}
use sunwalker_box.Common.Exec.{Result, ok}
use sunwalker_box.Tracing.{Kernel}
use sunwalker_box.Running.{
  Options, RunResults, Verdict, exit_code, signaled, cpu_time_limit_exceeded,
  real_time_limit_exceeded, idleness_time_limit_exceeded, memory_limit_exceeded, WaitStatus,
  still_alive, exited, killed, stopped, ptrace_event, unexpected, SingleRun, is_exceeding_limits,
  over, compute_verdict, verdict_of_status,
}
use sunwalker_box.Running.Limits.{compute_verdict-IsLimitVerdict}
use sunwalker_box.Running.Loop.{Host, run_loop}
use sunwalker_box.Running.Ends.{IsEnd, run_loop-Ended}

-- The results with the peak of the memory in use.
abbrev pub raised : ℕ → RunResults → RunResults
raised used r = record r { memory = max r.memory used }

raised_over :
    (limit : Option ℕ) (used more : ℕ) → over limit used ≡ true → over limit (max used more) ≡ true
unfolding over
raised_over none used more h = h
raised_over (some limit) used more h = ground arith

raised-Exceeding :
    (options : Options) (r : RunResults) (used : ℕ)
    → is_exceeding_limits options r ≡ true
    → is_exceeding_limits options (raised used r) ≡ true
unfolding is_exceeding_limits
raised-Exceeding options r used h = elim (Bool-cases (over options.memory_limit r.memory)) [
  | inl m ↦ rw (raised_over options.memory_limit r.memory used m) (ground arith)
  | inr m ↦ ground arith
]

status_verdict :
    (main_pid : ℕ) (status : WaitStatus)
    → IsEnd main_pid status
    → (v : Verdict) × (verdict_of_status status ≡ ok v)
unfolding verdict_of_status
status_verdict main_pid (exited pid code) e = (exit_code code, refl)
status_verdict main_pid still_alive e = absurd e
status_verdict main_pid (stopped _ _) e = absurd e
status_verdict main_pid (ptrace_event _ _ _) e = absurd e
status_verdict main_pid unexpected e = absurd e
status_verdict main_pid (killed pid signal) e = elim (Bool-cases (signal == 27)) [
  | inl timer ↦ (cpu_time_limit_exceeded, rw timer refl)
  | inr other ↦ (signaled signal, rw other refl)
]

HasVerdict : Result Verdict → Type 0
HasVerdict r = (v : Verdict) × (r ≡ ok v)

HasVerdict-if :
    (b : Bool) (r r' : Result Verdict)
    → HasVerdict r
    → HasVerdict r'
    → HasVerdict (if b then r else r')
HasVerdict-if true r r' h h' = h
HasVerdict-if false r r' h h' = h'

end_verdict :
    (options : Options) (r : RunResults) (oom : Bool) (main_pid : ℕ) (status : WaitStatus)
    → IsEnd main_pid status
    → HasVerdict (compute_verdict options r (ok oom) status)
unfolding compute_verdict HasVerdict
end_verdict options r oom main_pid status e =
    HasVerdict-if _ (ok cpu_time_limit_exceeded) _ (_, refl)
      (HasVerdict-if _ (ok real_time_limit_exceeded) _ (_, refl)
        (HasVerdict-if _ (ok idleness_time_limit_exceeded) _ (_, refl)
          (HasVerdict-if _ (ok memory_limit_exceeded) _ (_, refl)
            (status_verdict main_pid status e))))

-- Where the loop of a run returns and the state of the memory can be read, the run has a verdict: the
-- error for an unexpected status cannot occur. The peak `used` is what is read after the loop.
pub compute_verdict-run_loop :
    (k : Kernel) (host : Host) (fuel n : ℕ) (status status' : WaitStatus) (s s' : SingleRun)
    → run_loop k host fuel n status s ≡ (ok status', s')
    → (used : ℕ) (oom : Bool)
    → (v : Verdict) × (compute_verdict s'.options (raised used s'.results) (ok oom) status' ≡ ok v)
unfolding HasVerdict
compute_verdict-run_loop k host fuel n status status' s s' h used oom =
    elim (run_loop-Ended k host fuel n status status' s s' h) [
      | inl exceeding ↦
          let (v, e, _) =
            compute_verdict-IsLimitVerdict s'.options (raised used s'.results) oom status'
              (raised-Exceeding s'.options s'.results used exceeding) in
          (v, e)
      | inr e ↦ end_verdict s'.options (raised used s'.results) oom s'.main_pid status' e
    ]
