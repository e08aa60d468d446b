-- ===== src/Running/Loop.antt =====
-- linux/running.rs: the loop of a run, from the start of the program to its verdict. What is waited
-- for and measured is answered by the host, by all the calls before.
use sunwalker_box.Common.{
  ℕ, zero, suc, ◌-◌, ◌*◌, Bool, true, false, Option, none, some, max, ltb, ◌==◌, if◌then◌else◌,
}
use sunwalker_box.Common.Int.{ℤ}
use sunwalker_box.Common.Exec.{
  nix, message, unfinished, Result, ok, err, pure, fail, lift, gets, unwrap, modify, skip, ◌>>=◌,
  ◌>>◌,
}
use sunwalker_box.Tracing.{
  BoxStep, create_box, kill_box, destroy_box, limit_memory, limit_processes, add_process,
  reset_time, spawn, wait_any, wait_all, wait_main, read_signal, read_cpu, read_clock, read_total,
  read_peak, epoll_wait, box_step, History, Kernel, call, resume,
}
use sunwalker_box.Cgroups.{CpuStats}
use sunwalker_box.Running.{
  RunResults, Verdict, WaitStatus, still_alive, exited, stopped, SingleRun, alive,
  compute_wait_timeout_ms, is_exceeding_limits, compute_verdict,
}
use sunwalker_box.Running.Events.{
  Run, sys, set_process, on_after_fork, on_after_execve, handle_event,
}

pub record Host : Type 0 where
  pub reset_time_reply : History → Result (Unit {0})
  -- The pid of the child that is to run the program.
  pub spawn_reply : History → Result ℕ
  pub wait_main_reply : History → ℕ → Result WaitStatus
  pub wait_any_reply : History → Result WaitStatus
  pub wait_all_reply : History → Result WaitStatus
  -- The number of events within the timeout.
  pub epoll_reply : History → ℤ → Result ℕ
  -- Whether there was a signal to read.
  pub signal_reply : History → Result Bool
  pub cpu_reply : History → Result CpuStats
  -- The time since the start.
  pub clock_reply : History → ℕ
  pub total_reply : History → Result ℕ
  pub peak_reply : History → Result (Option ℕ)
  pub oom_reply : History → Result Bool
  pub box_reply : History → BoxStep → Result (Unit {0})

abbrev pub echild : ℕ
echild = 10

module _ (k : Kernel) (host : Host) (fuel : ℕ) where
  abbrev box : BoxStep → Run (Unit {0})
  box b = sys (call (box_step b) (λ h. host.box_reply h b))

  abbrev limit_by : (ℕ → BoxStep) → Option ℕ → Run (Unit {0})
  limit_by step none = skip
  limit_by step (some limit) = box (step limit)

  unfoldable pub create_box_cgroup : Run (Unit {0})
  unfolding sys call
  create_box_cgroup = do
    box create_box
    memory ← gets (λ s. s.options.memory_limit)
    limit_by limit_memory memory
    processes ← gets (λ s. s.options.processes_limit)
    limit_by limit_processes processes

  -- The child stops by SIGTRAP at an `execve`.
  abbrev expect_trap : WaitStatus → Run (Unit {0})
  expect_trap (exited pid code) = fail (message "Failed to start program")
  expect_trap (stopped pid signal) =
      if signal == 5 then skip else fail (message "waitpid returned unexpected status")
  expect_trap _ = fail (message "waitpid returned unexpected status")

  unfoldable pub start_worker : Run (Unit {0})
  unfolding sys call create_box_cgroup resume
  start_worker = do
    pid ← sys (call spawn (λ h. host.spawn_reply h))
    modify (λ s. record s { main_pid = pid })
    at_wrapper ← sys (call (wait_main pid) (λ h. host.wait_main_reply h pid))
    expect_trap at_wrapper
    create_box_cgroup
    box (add_process pid)
    sys (resume k pid)
    at_program ← sys (call (wait_main pid) (λ h. host.wait_main_reply h pid))
    expect_trap at_program

  unfoldable pub read_signals : ℕ → Run (Unit {0})
  unfolding sys call
  read_signals zero = fail unfinished
  read_signals (suc n) = do
    more ← sys (call read_signal (λ h. host.signal_reply h))
    (if more then read_signals n else skip)

  abbrev wait_any_now : Run WaitStatus
  wait_any_now = sys (call wait_any (λ h. host.wait_any_reply h))

  unfoldable pub on_epoll : ℕ → Run WaitStatus
  unfolding read_signals
  on_epoll n =
      if n == 0
      then pure still_alive
      else if n == 1
      then (do read_signals fuel; wait_any_now)
      else fail (message "epoll_wait returned")

  unfoldable pub wait_idle : WaitStatus → Run WaitStatus
  unfolding sys call on_epoll compute_wait_timeout_ms
  wait_idle still_alive = do
    timeout ← gets (λ s. compute_wait_timeout_ms s.options s.results s.has_peak)
    timeout_ms ← unwrap timeout
    n ← sys (call (epoll_wait timeout_ms) (λ h. host.epoll_reply h timeout_ms))
    on_epoll n
  wait_idle status = pure status

  unfoldable pub wait_for_event : Run WaitStatus
  unfolding sys call wait_idle
  wait_for_event = do status ← wait_any_now; wait_idle status

  abbrev measure : ℕ → ℕ → RunResults → RunResults
  measure cpu real results = record results {
    cpu_time = cpu;
    real_time = real;
    idleness_time = real - cpu;
  }

  abbrev raise_memory : ℕ → SingleRun → SingleRun
  raise_memory used s = record s {
    results = record s.results { memory = max s.results.memory used };
  }

  unfoldable pub update_metrics : Run (Unit {0})
  unfolding sys call
  update_metrics = do
    cpu ← sys (call read_cpu (λ h. host.cpu_reply h))
    started ← gets (λ s. s.start_time)
    since ← unwrap started
    real ← sys (call read_clock (λ h. ok (host.clock_reply h)))
    modify (λ s. record s { results = measure cpu.total real s.results })
    has_peak ← gets (λ s. s.has_peak)
    (if has_peak then skip else (do
      total ← sys (call read_total (λ h. host.total_reply h))
      modify (raise_memory total)))

  -- `while !self.is_exceeding_limits()`, with the status of the last event.
  unfoldable pub run_loop : ℕ → WaitStatus → Run WaitStatus
  unfolding wait_for_event handle_event update_metrics is_exceeding_limits
  run_loop zero status = fail unfinished
  run_loop (suc n) status = do
    exceeding ← gets (λ s. is_exceeding_limits s.options s.results)
    (if exceeding then pure status else (do
      status' ← wait_for_event
      ended ← handle_event k fuel status'
      (if ended then pure status' else (do update_metrics; run_loop n status'))))

  abbrev peak_of : Option ℕ → Run (Unit {0})
  peak_of none = fail (message "memory.peak is unexpectedly unavailable")
  peak_of (some peak) = modify (raise_memory peak)

  unfoldable pub read_final_peak : Run (Unit {0})
  unfolding sys call
  read_final_peak = do
    has_peak ← gets (λ s. s.has_peak)
    (if has_peak
        then (do peak ← sys (call read_peak (λ h. host.peak_reply h)); peak_of peak)
        else skip)

  abbrev verdict_now : WaitStatus → SingleRun → Result Verdict
  verdict_now status s = compute_verdict s.options s.results (host.oom_reply s.history) status

  unfoldable pub give_verdict : WaitStatus → Run (Unit {0})
  unfolding compute_verdict
  give_verdict status = do
    found ← gets (verdict_now status)
    verdict ← lift found
    modify (λ s. record s { results = record s.results { verdict = verdict } })

  -- The wait for every process that is left.
  unfoldable pub reap : ℕ → Run (Unit {0})
  unfolding sys call handle_event
  reap zero = fail unfinished
  reap (suc n) = λ s.
      let (r, h) = call wait_all (λ h. host.wait_all_reply h) s.history in
      let s' = record s { history = h } in
      elim r [
        | ok status ↦ (handle_event k fuel status >>= λ _. reap n) s'
        | err (nix e) ↦ if e == echild then skip s' else fail (nix e) s'
        | err e ↦ fail e s'
      ]

  unfoldable pub cleanup : Run (Unit {0})
  unfolding reap
  cleanup = do box kill_box; reap fuel; box destroy_box

  abbrev too_low : Option ℕ → Bool
  too_low none = false
  too_low (some limit) = ltb limit (43 * 4096)

  unfoldable pub run : Run (Unit {0})
  unfolding start_worker run_loop read_final_peak give_verdict cleanup on_after_fork on_after_execve
      resume set_process sys call
  run = do
    low ← gets (λ s. too_low s.options.memory_limit)
    (if low then fail (message "Memory limit lower than 172 KiB cannot be enforced") else skip)
    sys (call reset_time (λ h. host.reset_time_reply h))
    start_worker
    peak ← sys (call read_peak (λ h. host.peak_reply h))
    modify (λ s. record s {
      has_peak = elim peak [ none ↦ false | some _ ↦ true ];
      start_time = some 0;
    })
    pid ← gets (λ s. s.main_pid)
    on_after_fork k fuel pid
    on_after_execve k fuel pid
    sys (resume k pid)
    set_process pid alive
    status ← run_loop fuel still_alive
    read_final_peak
    give_verdict status
    cleanup
