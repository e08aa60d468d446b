-- ===== src/Tracing.antt =====
-- linux/tracing.rs: the operations on a traced process. The kernel is a parameter: what it answers
-- to a call may depend on every call before it. Each call is recorded, the latest first.
use sunwalker_box.Common.{
  ℕ, zero, suc, ◌+◌, ◌-◌, ◌*◌, Option, none, some, List, [], ◌∷◌, ◌++◌, ◌==◌, ◌⊎◌, if◌then◌else◌,
}
use sunwalker_box.Common.Int.{ℤ}
use sunwalker_box.Common.Exec.{Failure, io, Result, ok, err, Exec, pure, ◌>>=◌, ◌>>◌, skip}

-- The part of `user_regs_struct` that the program reads or writes.
pub record Registers : Type 0 where
  pub rax : ℕ
  pub rcx : ℕ
  pub rdx : ℕ
  pub rip : ℕ
  pub rsp : ℕ

pub record SigInfo : Type 0 where
  pub si_signo : ℕ
  pub si_code : ℕ
  pub si_addr : ℕ

pub record SyscallInfo : Type 0 where
  pub nr : ℕ
  pub args : List ℕ

-- The System V object kinds whose ids the kernel hands out.
pub data IpcKind : Type 0 where
  sem msg shm : IpcKind

-- What is done with the cgroup of a run.
pub data BoxStep : Type 0 where
  create_box kill_box destroy_box : BoxStep
  limit_memory limit_processes add_process : ℕ → BoxStep

pub data Call : Type 0 where
  setoptions : ℕ → Call
  peek : ℕ → ℕ → Call
  poke : ℕ → ℕ → ℕ → Call
  getregs : ℕ → Call
  setregs : ℕ → Registers → Call
  cont : ℕ → Option ℕ → Call
  step : ℕ → Call
  getsiginfo : ℕ → Call
  getevent : ℕ → Call
  get_syscall_info : ℕ → Call
  get_next_id : IpcKind → Call
  set_next_id : IpcKind → ℕ → Call
  ipc_get : IpcKind → List ℕ → Call
  rdtsc : Call
  reset_time spawn wait_any wait_all read_signal read_cpu read_clock read_total read_peak : Call
  wait_main : ℕ → Call
  epoll_wait : ℤ → Call
  box_step : BoxStep → Call

abbrev pub History : Type 0
History = List Call

pub record Kernel : Type 0 where
  pub setoptions_reply : History → ℕ → Result (Unit {0})
  pub peek_reply : History → ℕ → ℕ → Result ℕ
  pub poke_reply : History → ℕ → ℕ → ℕ → Result (Unit {0})
  pub getregs_reply : History → ℕ → Result Registers
  pub setregs_reply : History → ℕ → Registers → Result (Unit {0})
  pub cont_reply : History → ℕ → Option ℕ → Result (Unit {0})
  pub step_reply : History → ℕ → Result (Unit {0})
  pub getsiginfo_reply : History → ℕ → Result SigInfo
  pub getevent_reply : History → ℕ → Result ℕ
  pub get_syscall_info_reply : History → ℕ → Result SyscallInfo
  pub get_next_id_reply : History → IpcKind → Result ℤ
  pub set_next_id_reply : History → IpcKind → ℕ → Result (Unit {0})
  -- `inr` is -1 with an errno.
  pub ipc_get_reply : History → IpcKind → List ℕ → ℕ ⊎ ℕ
  pub rdtsc_reply : History → ℕ × ℕ

abbrev pub Sys : Type 0 → Type 0
Sys A = Exec History A

-- Make a call and take the answer.
unfoldable pub call : {A : Type 0} → Call → (History → Result A) → Sys A
call c reply h = (reply h, c ∷ h)

abbrev pub word_size : ℕ
word_size = 8

abbrev pub at_null : ℕ
at_null = 0

abbrev pub at_ignore : ℕ
at_ignore = 1

abbrev pub at_sysinfo_ehdr : ℕ
at_sysinfo_ehdr = 33

pub record AuxiliaryEntry : Type 0 where
  pub address : ℕ
  pub id : ℕ
  pub value : ℕ

module _ (k : Kernel) (pid : ℕ) where
  unfoldable pub init : Sys (Unit {0})
  init = call (setoptions pid) (λ h. k.setoptions_reply h pid)

  unfoldable pub read_word : ℕ → Sys ℕ
  read_word address = call (peek pid address) (λ h. k.peek_reply h pid address)

  unfoldable pub write_word : ℕ → ℕ → Sys (Unit {0})
  write_word address value = call (poke pid address value) (λ h. k.poke_reply h pid address value)

  unfoldable pub get_registers : Sys Registers
  get_registers = call (getregs pid) (λ h. k.getregs_reply h pid)

  unfoldable pub set_registers : Registers → Sys (Unit {0})
  set_registers regs = call (setregs pid regs) (λ h. k.setregs_reply h pid regs)

  -- `while self.read_word(address)? != 0`, on fuel: `none` means that it ran out.
  unfoldable pub skip_environment : ℕ → ℕ → Sys (Option ℕ)
  unfolding read_word
  skip_environment zero address = pure none
  skip_environment (suc fuel) address = do
    word ← read_word address
    (elim word [
      | zero ↦ pure (some (address + word_size))
      | suc _ ↦ skip_environment fuel (address + word_size)
    ])

  unfoldable pub get_auxiliary_vector_address : ℕ → Sys (Option ℕ)
  unfolding get_registers read_word skip_environment
  get_auxiliary_vector_address fuel = do
    regs ← get_registers
    argc ← read_word regs.rsp
    skip_environment fuel (regs.rsp + word_size + (argc + 1) * word_size)

  -- The loop of `get_auxiliary_entries`.
  unfoldable pub read_entries : ℕ → ℕ → List AuxiliaryEntry → Sys (Option (List AuxiliaryEntry))
  unfolding read_word
  read_entries zero address entries = pure none
  read_entries (suc fuel) address entries = do
    id ← read_word address
    value ← read_word (address + word_size)
    (if id == at_null
        then pure (some entries)
        else read_entries fuel (address + word_size + word_size) (
            entries
            ++ record {
              address = address + word_size + word_size - 2 * word_size;
              id = id;
              value = value;
            }
              ∷ []))

  abbrev read_entries_at : ℕ → Option ℕ → Sys (Option (List AuxiliaryEntry))
  read_entries_at fuel none = pure none
  read_entries_at fuel (some address) = read_entries fuel address []

  unfoldable pub get_auxiliary_entries : ℕ → Sys (Option (List AuxiliaryEntry))
  unfolding get_auxiliary_vector_address read_entries
  get_auxiliary_entries fuel = do
    address ← get_auxiliary_vector_address fuel
    read_entries_at fuel address

  unfoldable pub ignore_vdso : List AuxiliaryEntry → Sys (Unit {0})
  unfolding write_word
  ignore_vdso [] = skip
  ignore_vdso (entry ∷ entries) = do
    (if entry.id == at_sysinfo_ehdr then write_word entry.address at_ignore else skip)
    ignore_vdso entries

  -- A stack with no end in sight leaves the loops running.
  abbrev ignore_found : Option (List AuxiliaryEntry) → Sys (Option (Unit {0}))
  ignore_found none = pure none
  ignore_found (some entries) = do ignore_vdso entries; pure (some tt)

  unfoldable pub disable_vdso : ℕ → Sys (Option (Unit {0}))
  unfolding get_auxiliary_entries ignore_vdso
  disable_vdso fuel = do entries ← get_auxiliary_entries fuel; ignore_found entries

  unfoldable pub resume : Sys (Unit {0})
  resume = call (cont pid none) (λ h. k.cont_reply h pid none)

  unfoldable pub resume_signal : ℕ → Sys (Unit {0})
  resume_signal signal = call (cont pid (some signal)) (λ h. k.cont_reply h pid (some signal))

  unfoldable pub resume_step : Sys (Unit {0})
  resume_step = call (step pid) (λ h. k.step_reply h pid)

  unfoldable pub get_signal_info : Sys SigInfo
  get_signal_info = call (getsiginfo pid) (λ h. k.getsiginfo_reply h pid)

  unfoldable pub get_event_msg : Sys ℕ
  get_event_msg = call (getevent pid) (λ h. k.getevent_reply h pid)

  -- The failure is a `std::io::Error` here, and a `nix` error in all the others.
  abbrev as_io : {A : Type 0} → Result A → Result A
  as_io (ok a) = ok a
  as_io (err (Failure.nix e)) = err (io e)
  as_io (err e) = err e

  unfoldable pub syscall_info : Sys SyscallInfo
  syscall_info = call (get_syscall_info pid) (λ h. as_io (k.get_syscall_info_reply h pid))
