-- ===== src/Running/Stops.antt =====
-- What the tracer of linux/running.rs does at a stop: the stopped process runs on, once.
use sunwalker_box.Common.{ℕ, ◌≡◌, refl, Bool, false, Option, none, some, List, ◌⊎◌}
use sunwalker_box.Common.Int.{ℤ}
use sunwalker_box.Common.Exec.{Result, ok, err, pure, modify, ◌>>◌}
use sunwalker_box.Tracing.{
  get_next_id, set_next_id, ipc_get, rdtsc, IpcKind, sem, msg, shm, Registers, History, Kernel,
  call, resume,
}
use sunwalker_box.Running.{
  ProcessState, just_started, alive, emulate_syscall, WaitStatus, still_alive, exited, killed,
  stopped, ptrace_event, unexpected,
}
use sunwalker_box.Running.Events.{
  sys, on_after_fork, on_after_execve, skip_syscall, emulate_syscall_result, emulate_ipc,
  seccomp_arm, on_seccomp, emulate_tsc, instruction_arm, handle_gp, handle_sigsegv, deliver,
  on_stop, on_exec, on_ptrace_event, dispatch_event, count_id, finished,
}
use sunwalker_box.Running.Quiet.{
  resumed, again, Quiet, Quiet-call, init-Quiet, read_word-Quiet, get_registers-Quiet,
  set_registers-Quiet, get_signal_info-Quiet, get_event_msg-Quiet, syscall_info-Quiet,
  disable_vdso-Quiet,
}
use sunwalker_box.Running.Resumes.{
  Resumes, Resumes-pure, Resumes-gets, Resumes-fail, Resumes-if, Resumes-sys, Resumes-attempt,
  Resumes-skip, Resumes-set_process, Resumes-modify_processes, resume-Resumes,
  resume_signal-Resumes, resume_step-Resumes, Resumes-bind, Resumes-bind_last,
}

get_next_id-Quiet :
    (kind : IpcKind) (reply : History → Result ℤ) → Quiet (call (get_next_id kind) reply)
unfolding resumed
get_next_id-Quiet kind reply = Quiet-call _ _ (λ h. refl)

set_next_id-Quiet :
    (kind : IpcKind) (id : ℕ) (reply : History → Result (Unit {0}))
    → Quiet (call (set_next_id kind id) reply)
unfolding resumed
set_next_id-Quiet kind id reply = Quiet-call _ _ (λ h. refl)

ipc_get-Quiet :
    (kind : IpcKind) (args : List ℕ) (reply : History → Result (ℕ ⊎ ℕ))
    → Quiet (call (ipc_get kind args) reply)
unfolding resumed
ipc_get-Quiet kind args reply = Quiet-call _ _ (λ h. refl)

rdtsc-Quiet : (reply : History → Result (ℕ × ℕ)) → Quiet (call rdtsc reply)
unfolding resumed
rdtsc-Quiet reply = Quiet-call _ _ (λ h. refl)

again-zero : (pid : ℕ) (h : History) → resumed h ≡ again 0 pid (resumed h)
unfolding again
again-zero pid h = refl

count_id-Resumes : (pid : ℕ) (kind : IpcKind) → Resumes pid 0 (modify (count_id kind))
unfolding modify
count_id-Resumes pid sem = record { at = λ s. again-zero pid s.history }
count_id-Resumes pid msg = record { at = λ s. again-zero pid s.history }
count_id-Resumes pid shm = record { at = λ s. again-zero pid s.history }

ruleset calls = (
  init-Quiet, read_word-Quiet, get_registers-Quiet, set_registers-Quiet, get_signal_info-Quiet,
  get_event_msg-Quiet, syscall_info-Quiet, disable_vdso-Quiet, get_next_id-Quiet, set_next_id-Quiet,
  ipc_get-Quiet, rdtsc-Quiet,
)

ruleset resumes_rules = (
  calls, Resumes-pure, Resumes-gets, Resumes-fail, Resumes-if, Resumes-sys, Resumes-attempt,
  Resumes-skip, Resumes-set_process, Resumes-modify_processes, resume-Resumes,
  resume_signal-Resumes, resume_step-Resumes, Resumes-bind,
)

module _ (k : Kernel) (fuel pid : ℕ) where
  skip_syscall-Resumes :
      (result : ℤ) (process : Option ProcessState)
      → Resumes pid 1 (skip_syscall k fuel pid result process)
  unfolding skip_syscall
  skip_syscall-Resumes result none = Resumes-fail 1 _
  skip_syscall-Resumes result (some state) = search resumes_rules

  emulate_syscall_result-Resumes :
      (result : ℤ) → Resumes pid 1 (emulate_syscall_result k fuel pid result)
  unfolding emulate_syscall_result
  emulate_syscall_result-Resumes result = search (resumes_rules, skip_syscall-Resumes)

  emulate_ipc-Resumes :
      (kind : IpcKind) (args : List ℕ) → Resumes pid 1 (emulate_ipc k fuel kind pid args)
  unfolding emulate_ipc
  emulate_ipc-Resumes kind args =
      search (resumes_rules, count_id-Resumes, emulate_syscall_result-Resumes) depth 9

  seccomp_arm-Resumes :
      (args : List ℕ) (kind : Option IpcKind) → Resumes pid 1 (seccomp_arm k fuel pid args kind)
  unfolding seccomp_arm
  seccomp_arm-Resumes args none = resume-Resumes k pid
  seccomp_arm-Resumes args (some kind) = emulate_ipc-Resumes kind args

  on_seccomp-Resumes : Resumes pid 1 (on_seccomp k fuel pid)
  unfolding on_seccomp
  on_seccomp-Resumes = search (resumes_rules, seccomp_arm-Resumes)

  emulate_tsc-Resumes :
      (regs : Registers) (with_aux : Bool) → Resumes pid 1 (emulate_tsc k fuel pid regs with_aux)
  unfolding emulate_tsc
  emulate_tsc-Resumes regs with_aux = search resumes_rules

  instruction_arm-Resumes :
      (regs : Registers) (word : Result ℕ) → Resumes pid 1 (instruction_arm k fuel pid regs word)
  unfolding instruction_arm
  instruction_arm-Resumes regs (err _) = resume_signal-Resumes k pid _
  instruction_arm-Resumes regs (ok w) = search (resumes_rules, emulate_tsc-Resumes)

  handle_sigsegv-Resumes : Resumes pid 1 (handle_sigsegv k fuel pid)
  unfolding handle_sigsegv handle_gp
  handle_sigsegv-Resumes = search (resumes_rules, instruction_arm-Resumes) depth 9

  deliver-Resumes : (signal : ℕ) → Resumes pid 1 (deliver k fuel pid signal)
  unfolding deliver
  deliver-Resumes signal =
      Resumes-bind_last _ _ (search (resumes_rules, handle_sigsegv-Resumes))
        (λ _. Resumes-pure false)

  on_after_execve-Resumes : Resumes pid 0 (on_after_execve k fuel pid)
  unfolding on_after_execve
  on_after_execve-Resumes =
      Resumes-bind _ _ _ (Resumes-sys _ (disable_vdso-Quiet k pid fuel))
        (λ walked. finished_lem walked)
    where
      finished_lem : (walked : Option (Unit {0})) → Resumes pid 0 (finished k fuel walked)
      finished_lem none = Resumes-fail 0 _
      finished_lem (some _) = Resumes-skip pid

  -- The end of each arm: the process is resumed, and the main process has not ended.
  resume_on : Resumes pid 1 (do sys (resume k pid); pure false)
  resume_on = Resumes-bind_last _ _ (resume-Resumes k pid) (λ _. Resumes-pure false)

  on_stop-Resumes :
      (signal : ℕ) (process : Option ProcessState)
      → Resumes pid 1 (on_stop k fuel pid signal process)
  unfolding on_stop on_after_fork
  on_stop-Resumes signal none = deliver-Resumes signal
  on_stop-Resumes signal (some alive) = deliver-Resumes signal
  on_stop-Resumes signal (some just_started) =
      search (resumes_rules, deliver-Resumes, resume_on) depth 9
  on_stop-Resumes signal (some (emulate_syscall ret)) =
      search (resumes_rules, deliver-Resumes, resume_on) depth 9

  on_ptrace_event-Resumes : (event : ℕ) → Resumes pid 1 (on_ptrace_event k fuel pid event)
  unfolding on_ptrace_event on_exec
  on_ptrace_event-Resumes event =
      search
        (resumes_rules, on_after_execve-Resumes, on_seccomp-Resumes, resume_on, Resumes-bind_last)
        depth 12 fits 5000

-- The process that an event is about, and how often it is to be resumed.
abbrev pub subject : WaitStatus → ℕ
subject still_alive = 0
subject (exited pid _) = pid
subject (killed pid _) = pid
subject (stopped pid _) = pid
subject (ptrace_event pid _ _) = pid
subject unexpected = 0

abbrev pub resumptions : WaitStatus → ℕ
resumptions (stopped _ _) = 1
resumptions (ptrace_event _ _ _) = 1
resumptions _ = 0

-- At a stop, of whichever signal or event and in whichever state, `_handle_event` resumes the
-- process that stopped once where it returns, at most once where it fails, and no other process.
-- At the other events it resumes none. The kernel may answer the calls in any way.
pub dispatch_event-Resumes :
    (k : Kernel) (fuel : ℕ) (status : WaitStatus)
    → Resumes (subject status) (resumptions status) (dispatch_event k fuel status)
unfolding dispatch_event
dispatch_event-Resumes k fuel still_alive = Resumes-pure false
dispatch_event-Resumes k fuel (exited pid code) = Resumes-gets _
dispatch_event-Resumes k fuel (killed pid signal) = Resumes-gets _
dispatch_event-Resumes k fuel (stopped pid signal) =
    Resumes-bind _ _ _ (Resumes-gets _) (on_stop-Resumes k fuel pid signal)
dispatch_event-Resumes k fuel (ptrace_event pid signal event) =
    on_ptrace_event-Resumes k fuel pid event
dispatch_event-Resumes k fuel unexpected = Resumes-fail 0 _
