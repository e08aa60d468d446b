-- ===== src/Witnesses/Runs.antt =====
-- Runs of linux/running.rs.
use sunwalker_box.Common.{ℕ, ◌≡◌, ◌⊎◌, inl, refl, true, false, none, some, [], ◌∷◌, ◌↔◌, arith}
use sunwalker_box.Common.Int.{ℤ, pos, negsuc}
use sunwalker_box.Common.Exec.{ok, err, nix, ◌>>=◌}
use sunwalker_box.Tracing.{Registers, Kernel, call}
use sunwalker_box.Running.{
  Options, Verdict, exit_code, RunResults, still_alive, exited, stopped, alive, SingleRun,
  compute_wait_timeout_ms, compute_verdict, is_exceeding_limits,
}
use sunwalker_box.Running.Limits.{
  WithinLimits, IsTimeout, IsLimitVerdict, compute_wait_timeout_ms-IsTimeout,
  compute_verdict-IsLimitVerdict, compute_verdict_exit_code,
}
use sunwalker_box.Running.Events.{sys, emulate_syscall_result, dispatch_event}
use sunwalker_box.Running.Resumes.{Resumes}
use sunwalker_box.Running.Stops.{dispatch_event-Resumes}
use sunwalker_box.Running.Loop.{Host, run_loop}
use sunwalker_box.Running.Ends.{IsEnd, run_loop-Ended}
use sunwalker_box.Running.Verdicts.{raised, compute_verdict-run_loop}

abbrev registers : Registers
registers = record { rax = 1; rcx = 2; rdx = 3; rip = 4; rsp = 5 }

abbrev kernel : Kernel
kernel = record {
  setoptions_reply = λ h pid. ok tt;
  peek_reply = λ h pid address. ok 0;
  poke_reply = λ h pid address value. ok tt;
  getregs_reply = λ h pid. ok registers;
  setregs_reply = λ h pid regs. ok tt;
  cont_reply = λ h pid signal. ok tt;
  step_reply = λ h pid. ok tt;
  getsiginfo_reply = λ h pid. ok (record { si_signo = 11; si_code = 1; si_addr = 0 });
  getevent_reply = λ h pid. ok 8;
  get_syscall_info_reply = λ h pid. ok (record { nr = 64; args = 1 ∷ 2 ∷ 3 ∷ [] });
  get_next_id_reply = λ h kind. ok (negsuc 0);
  set_next_id_reply = λ h kind id. ok tt;
  ipc_get_reply = λ h kind args. inl 0;
  rdtsc_reply = λ h. (100, 0);
}

abbrev options : Options
options = record {
  argv = [];
  stdin = [];
  stdout = [];
  stderr = [];
  real_time_limit = some 2000000000;
  cpu_time_limit = some 1000000000;
  idleness_time_limit = none;
  memory_limit = some 1000000;
  processes_limit = none;
  env = none;
}

abbrev results : RunResults
results = record {
  verdict = exit_code 0;
  real_time = 5;
  cpu_time = 5;
  idleness_time = 0;
  memory = 10;
}

abbrev slow_results : RunResults
slow_results = record results { real_time = 3000000000 }

abbrev start : SingleRun
start = record {
  options = options;
  results = results;
  has_peak = true;
  main_pid = 7;
  start_time = some 0;
  processes = (7, alive) ∷ [];
  tsc_shift = 0;
  sem_next_id = 0;
  msg_next_id = 0;
  shm_next_id = 0;
  history = [];
}

dispatch_event-Resumes_example : Resumes 7 1 (dispatch_event kernel 10 (stopped 7 11))
dispatch_event-Resumes_example = dispatch_event-Resumes kernel 10 (stopped 7 11)

results-WithinLimits : WithinLimits options results
unfolding is_exceeding_limits
results-WithinLimits = refl

compute_wait_timeout_ms-IsTimeout_example :
    (t : ℤ) × (compute_wait_timeout_ms options results false ≡ some t) × IsTimeout t
compute_wait_timeout_ms-IsTimeout_example =
    compute_wait_timeout_ms-IsTimeout options results results-WithinLimits (omega arith) tt false

slow-exceeding : is_exceeding_limits options slow_results ≡ true
unfolding is_exceeding_limits
slow-exceeding = refl

compute_verdict-IsLimitVerdict_example :
    (v : Verdict) × (compute_verdict options slow_results (ok false) still_alive ≡ ok v)
    × IsLimitVerdict v
compute_verdict-IsLimitVerdict_example =
    compute_verdict-IsLimitVerdict options slow_results false still_alive slow-exceeding

compute_verdict_exit_code_example :
    (compute_verdict options results (ok false) (exited 7 3) ≡ ok (exit_code 3)) ↔ (
      WithinLimits options results
      × (ok false ≡ ok false)
      × ((pid : ℕ) × (exited 7 3 ≡ exited pid 3)))
compute_verdict_exit_code_example =
    compute_verdict_exit_code options results (ok false) (exited 7 3) 3

-- A call that is emulated with the result 5, and the stop after it.
abbrev skipped : SingleRun
skipped = (emulate_syscall_result kernel 10 7 (pos 5) start).1

abbrev resumed_run : SingleRun
resumed_run = (dispatch_event kernel 10 (stopped 7 5) skipped).1

-- The main process exits at once.
abbrev host : Host
host = record {
  reset_time_reply = λ h. ok tt;
  spawn_reply = λ h. ok 7;
  wait_main_reply = λ h pid. ok (stopped 7 5);
  wait_any_reply = λ h. ok (exited 7 3);
  wait_all_reply = λ h. err (nix 10);
  epoll_reply = λ h timeout. ok 0;
  signal_reply = λ h. ok false;
  cpu_reply = λ h. ok (record { user = 5; system = 0; total = 5 });
  clock_reply = λ h. 9;
  total_reply = λ h. ok 20;
  peak_reply = λ h. ok (some 30);
  oom_reply = λ h. ok false;
  box_reply = λ h b. ok tt;
}

abbrev finished_run : SingleRun
finished_run = (run_loop kernel host 10 5 still_alive start).1

loop_ends : run_loop kernel host 10 5 still_alive start ≡ (ok (exited 7 3), finished_run)
unfolding run_loop ◌>>=◌ call sys
loop_ends = refl

run_loop-Ended_example :
    (is_exceeding_limits finished_run.options finished_run.results ≡ true)
    ⊎ IsEnd finished_run.main_pid (exited 7 3)
run_loop-Ended_example =
    run_loop-Ended kernel host 10 5 still_alive (exited 7 3) start finished_run loop_ends

compute_verdict-run_loop_example :
    (v : Verdict) × (compute_verdict finished_run.options
        (raised 30 finished_run.results)
        (ok false)
        (exited 7 3)
      ≡ ok v)
compute_verdict-run_loop_example =
    compute_verdict-run_loop kernel host 10 5 still_alive (exited 7 3) start finished_run loop_ends
      30 false
