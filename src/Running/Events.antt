-- ===== src/Running/Events.antt =====
-- linux/running.rs: what the tracer does at each event that `waitpid` reports.
use sunwalker_box.Common.{
  ℕ, ◌+◌, ◌-◌, ◌/◌, ◌%◌, ◌^◌, Bool, true, false, ◌&&◌, ◌||◌, Option, none, some, List, [], ◌∷◌, ◌⊎◌,
  inl, inr, ◌==◌, if◌then◌else◌,
}
use sunwalker_box.Common.Int.{ℤ, pos, negsuc, negate}
use sunwalker_box.Common.Exec.{
  nix, message, unfinished, Result, ok, err, Exec, pure, fail, gets, modify, skip, ◌>>=◌, ◌>>◌,
}
use sunwalker_box.Tracing.{
  Registers, IpcKind, sem, msg, shm, get_next_id, set_next_id, ipc_get, rdtsc, Kernel, Sys, call,
  init, read_word, get_registers, set_registers, disable_vdso, resume, resume_signal, resume_step,
  get_signal_info, get_event_msg, syscall_info,
}
use sunwalker_box.Running.{
  WaitStatus, still_alive, exited, killed, stopped, ptrace_event, unexpected, ProcessState,
  just_started, alive, emulate_syscall, SingleRun,
}

-- The map of processes.
unfoldable pub get_process : ℕ → List (ℕ × ProcessState) → Option ProcessState
get_process pid [] = none
get_process pid ((p, state) ∷ ps) = if p == pid then some state else get_process pid ps

unfoldable pub remove_process : ℕ → List (ℕ × ProcessState) → List (ℕ × ProcessState)
remove_process pid [] = []
remove_process pid ((p, state) ∷ ps) =
    let rest = remove_process pid ps in if p == pid then rest else (p, state) ∷ rest

unfoldable pub insert_process : ℕ → ProcessState → List (ℕ × ProcessState) → List (ℕ × ProcessState)
unfolding remove_process
insert_process pid state ps = (pid, state) ∷ remove_process pid ps

abbrev pub Run : Type 0 → Type 0
Run A = Exec SingleRun A

-- A call through the kernel leaves the rest of the state alone.
unfoldable pub sys : {A : Type 0} → Sys A → Run A
sys m s = let (r, h) = m s.history in (r, record s { history = h })

-- `if let Ok(..)`: a failure is a value.
unfoldable pub attempt : {A : Type 0} → Run A → Run (Result A)
attempt m s = let (r, s') = m s in (ok r, s')

unfoldable pub set_process : ℕ → ProcessState → Run (Unit {0})
unfolding modify
set_process pid state = modify (λ s. record s { processes = insert_process pid state s.processes })

-- `as u64` of an `i64`.
abbrev pub to_u64 : ℤ → ℕ
to_u64 (pos n) = n
to_u64 (negsuc n) = 2 ^ 64 - 1 - n

abbrev pub wrapping_add : ℕ → ℕ → ℕ
wrapping_add a b = (a + b) % 2 ^ 64

abbrev pub sigtrap : ℕ
sigtrap = 5

abbrev pub sigsegv : ℕ
sigsegv = 11

abbrev pub sigstop : ℕ
sigstop = 19

abbrev pub si_kernel : ℕ
si_kernel = 128

abbrev pub esrch : ℕ
esrch = 3

abbrev pub event_fork : ℕ
event_fork = 1

abbrev pub event_vfork : ℕ
event_vfork = 2

abbrev pub event_clone : ℕ
event_clone = 3

abbrev pub event_exec : ℕ
event_exec = 4

abbrev pub event_exit : ℕ
event_exit = 6

abbrev pub event_seccomp : ℕ
event_seccomp = 7

abbrev pub sys_shmget : ℕ
sys_shmget = 29

abbrev pub sys_semget : ℕ
sys_semget = 64

abbrev pub sys_msgget : ℕ
sys_msgget = 68

abbrev ids_of : IpcKind → SingleRun → ℕ
ids_of sem s = s.sem_next_id
ids_of msg s = s.msg_next_id
ids_of shm s = s.shm_next_id

abbrev pub count_id : IpcKind → SingleRun → SingleRun
count_id sem s = record s { sem_next_id = s.sem_next_id + 1 }
count_id msg s = record s { msg_next_id = s.msg_next_id + 1 }
count_id shm s = record s { shm_next_id = s.shm_next_id + 1 }

-- The bits of `as i32`.
abbrev as_i32 : ℕ → ℕ
as_i32 n = n % 2 ^ 32

-- The arguments that the call takes: three of `semget` and `shmget`, two of `msgget`.
abbrev ipc_args : IpcKind → List ℕ → List ℕ
ipc_args sem (a ∷ b ∷ c ∷ _) = as_i32 a ∷ as_i32 b ∷ as_i32 c ∷ []
ipc_args msg (a ∷ b ∷ _) = as_i32 a ∷ as_i32 b ∷ []
ipc_args shm (a ∷ b ∷ c ∷ _) = as_i32 a ∷ b ∷ as_i32 c ∷ []
ipc_args _ args = args

abbrev ipc_kind : ℕ → Option IpcKind
ipc_kind nr =
    if nr == sys_semget
    then some sem
    else if nr == sys_msgget
    then some msg
    else if nr == sys_shmget
    then some shm
    else none

module _ (k : Kernel) (fuel : ℕ) where
  unfoldable pub on_after_fork : ℕ → Run (Unit {0})
  unfolding init
  on_after_fork pid = sys (init k pid)

  abbrev pub finished : Option (Unit {0}) → Run (Unit {0})
  finished none = fail unfinished
  finished (some _) = skip

  unfoldable pub on_after_execve : ℕ → Run (Unit {0})
  on_after_execve pid = do walked ← sys (disable_vdso k pid fuel); finished walked

  unfoldable pub skip_syscall : ℕ → ℤ → Option ProcessState → Run (Unit {0})
  unfolding get_registers set_registers resume_step
  skip_syscall pid result none = fail (message "Unknown process")
  skip_syscall pid result (some _) = do
    regs ← sys (get_registers k pid)
    sys (set_registers k pid (record regs { rax = 2 ^ 64 - 1 }))
    set_process pid (emulate_syscall result)
    sys (resume_step k pid)

  unfoldable pub emulate_syscall_result : ℕ → ℤ → Run (Unit {0})
  unfolding get_process skip_syscall
  emulate_syscall_result pid result = do
    process ← gets (λ s. get_process pid s.processes)
    skip_syscall pid result process

  -- The value of the call, or minus the errno.
  abbrev ipc_result : ℕ ⊎ ℕ → ℤ
  ipc_result (inl value) = pos value
  ipc_result (inr errno) = negate errno

  abbrev is_unset : ℤ → Bool
  is_unset (negsuc n) = n == 0
  is_unset (pos n) = false

  -- The three arms of `on_seccomp` for System V objects. The call is made here, not by the process.
  unfoldable pub emulate_ipc : IpcKind → ℕ → List ℕ → Run (Unit {0})
  unfolding emulate_syscall_result
  emulate_ipc kind pid args = do
    next ← sys (call (get_next_id kind) (λ h. k.get_next_id_reply h kind))
    (if is_unset next
        then (do
          id ← gets (ids_of kind)
          sys (call (set_next_id kind id) (λ h. k.set_next_id_reply h kind id))
          modify (count_id kind))
        else skip)
    result ← sys (
        call (ipc_get kind (ipc_args kind args))
          (λ h. ok (k.ipc_get_reply h kind (ipc_args kind args))))
    emulate_syscall_result pid (ipc_result result)

  unfoldable pub seccomp_arm : ℕ → List ℕ → Option IpcKind → Run (Unit {0})
  unfolding emulate_ipc resume
  seccomp_arm pid args (some kind) = emulate_ipc kind pid args
  seccomp_arm pid args none = sys (resume k pid)

  unfoldable pub on_seccomp : ℕ → Run (Unit {0})
  unfolding syscall_info seccomp_arm
  on_seccomp pid = do info ← sys (syscall_info k pid); seccomp_arm pid info.args (ipc_kind info.nr)

  abbrev low_half : ℕ → ℕ
  low_half n = n % 2 ^ 32

  abbrev high_half : ℕ → ℕ
  high_half n = n / 2 ^ 32

  -- `rdtsc` or `rdtscp`, by its length; the latter also answers in `rcx`.
  unfoldable pub emulate_tsc : ℕ → Registers → Bool → Run (Unit {0})
  unfolding set_registers resume
  emulate_tsc pid regs with_aux = do
    reading ← sys (call rdtsc (λ h. ok (k.rdtsc_reply h)))
    shift ← gets (λ s. s.tsc_shift)
    let tsc = wrapping_add reading.0 shift
    sys (
        set_registers k pid (record regs {
          rip = wrapping_add regs.rip (if with_aux then 3 else 2);
          rdx = high_half tsc;
          rax = low_half tsc;
          rcx = if with_aux then reading.1 else regs.rcx;
        }))
    sys (resume k pid)

  unfoldable pub instruction_arm : ℕ → Registers → Result ℕ → Run (Unit {0})
  unfolding emulate_tsc resume_signal
  instruction_arm pid regs (err _) = sys (resume_signal k pid sigsegv)
  instruction_arm pid regs (ok w) =
      if w % 2 ^ 16 == 0x310f
      then emulate_tsc pid regs false
      else if w % 2 ^ 24 == 0xf9010f
      then emulate_tsc pid regs true
      else sys (resume_signal k pid sigsegv)

  -- The instruction at a fault that may be a trapped `rdtsc` (0f 31) or `rdtscp` (0f 01 f9).
  unfoldable pub handle_gp : ℕ → Run (Unit {0})
  unfolding get_registers read_word instruction_arm
  handle_gp pid = do
    regs ← sys (get_registers k pid)
    word ← attempt (sys (read_word k pid regs.rip))
    instruction_arm pid regs word

  unfoldable pub handle_sigsegv : ℕ → Run (Unit {0})
  unfolding get_signal_info handle_gp resume_signal
  handle_sigsegv pid = do
    info ← sys (get_signal_info k pid)
    (if info.si_signo == sigsegv
        then (if info.si_code == si_kernel && info.si_addr == 0
            then handle_gp pid
            else sys (resume_signal k pid sigsegv))
        else fail (message "signal number mismatch between waitpid and PTRACE_GETSIGINFO"))

  -- The rest of the `Stopped` arm, for a signal that the program is to get.
  unfoldable pub deliver : ℕ → ℕ → Run Bool
  unfolding handle_sigsegv resume_signal
  deliver pid signal = do
    (if signal == sigsegv then handle_sigsegv pid else sys (resume_signal k pid signal))
    pure false

  unfoldable pub on_stop : ℕ → ℕ → Option ProcessState → Run Bool
  unfolding deliver on_after_fork get_registers set_registers resume
  on_stop pid signal (some just_started) =
      if signal == sigstop
      then (do set_process pid alive; on_after_fork pid; sys (resume k pid); pure false)
      else deliver pid signal
  on_stop pid signal (some (emulate_syscall ret)) =
      if signal == sigtrap
      then (do
        set_process pid alive
        regs ← sys (get_registers k pid)
        sys (set_registers k pid (record regs { rax = to_u64 ret }))
        sys (resume k pid)
        pure false)
      else deliver pid signal
  on_stop pid signal (some alive) = deliver pid signal
  on_stop pid signal none = deliver pid signal

  -- `as pid_t` keeps the low 32 bits of the event message; a pid is positive.
  abbrev as_pid : ℕ → ℕ
  as_pid n = n % 2 ^ 32

  unfoldable pub on_exec : ℕ → Run (Unit {0})
  unfolding get_event_msg on_after_execve remove_process insert_process
  on_exec pid = do
    old ← sys (get_event_msg k pid)
    modify (λ s. record s { processes = remove_process (as_pid old) s.processes })
    set_process pid alive
    on_after_execve pid

  unfoldable pub on_ptrace_event : ℕ → ℕ → Run Bool
  unfolding get_event_msg on_exec on_seccomp remove_process insert_process resume
  on_ptrace_event pid event =
      if event == event_fork || event == event_vfork || event == event_clone
      then (do
        child ← sys (get_event_msg k pid)
        set_process (as_pid child) just_started
        sys (resume k pid)
        pure false)
      else if event == event_exit
      then (do
        modify (λ s. record s { processes = remove_process pid s.processes })
        sys (resume k pid)
        pure false)
      else if event == event_exec
      then (do on_exec pid; sys (resume k pid); pure false)
      else if event == event_seccomp
      then (do on_seccomp pid; pure false)
      else (do sys (resume k pid); pure false)

  -- `_handle_event`; `true` says that the main process has ended.
  unfoldable pub dispatch_event : WaitStatus → Run Bool
  unfolding on_stop on_ptrace_event get_process
  dispatch_event still_alive = pure false
  dispatch_event (exited pid code) = gets (λ s. pid == s.main_pid)
  dispatch_event (killed pid signal) = gets (λ s. pid == s.main_pid)
  dispatch_event (stopped pid signal) = do
    process ← gets (λ s. get_process pid s.processes)
    on_stop pid signal process
  dispatch_event (ptrace_event pid signal event) = on_ptrace_event pid event
  dispatch_event unexpected = fail (message "waitpid returned unexpected status")

  -- A process that is killed under the tracer's hands answers ESRCH, which is no failure.
  abbrev pub forgive : Result Bool → Result Bool
  forgive (ok b) = ok b
  forgive (err (nix e)) = if e == esrch then ok false else err (nix e)
  forgive (err e) = err e

  unfoldable pub handle_event : WaitStatus → Run Bool
  unfolding dispatch_event
  handle_event status s = let (r, s') = dispatch_event status s in (forgive r, s')
