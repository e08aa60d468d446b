-- ===== src/Reaper/Setup.antt =====
-- linux/reaper.rs: what the reaper does before its loop. Each call is answered by the host, by all the
-- calls before it, the latest first; an `expect` that fails is a panic.
pub mod Steps
pub mod Guarded
use sunwalker_box.Common.{
  ℕ, ◌^◌, ◌%◌, Bool, true, false, Option, none, some, List, [], ◌∷◌, ltb, ◌==◌, if◌then◌else◌,
}
use sunwalker_box.Common.Exec.{
  Answer, answer, errno, answered, Result, ok, err, io, panic, Exec, pure, fail, skip, unwrap,
  and_then, ◌>>=◌, ◌>>◌,
}
use sunwalker_box.Cgroups.{parse_number}
use sunwalker_box.Reaper.{ReaperHistory, ReaperHost, expected, reaper}

pub data HandledSignal : Type 0 where
  sigsegv sigabrt : HandledSignal

pub data SetupCall : Type 0 where
  -- `block_signals` is of SIGUSR1, SIGIO and SIGCHLD; `set_pdeathsig` is to SIGUSR1.
  getpid block_signals set_pdeathsig poll_parent list_fds setsid create_proc_cgroup clone_cgroup
        start_manager :
      SetupCall
  -- The handler exits with 128 and the number of the signal.
  handle : HandledSignal → SetupCall
  get_flags : ℕ → SetupCall

abbrev pub SetupHistory : Type 0
SetupHistory = List SetupCall

pub record SetupHost : Type 0 where
  pub pid_reply : SetupHistory → ℕ
  -- An errno where a call fails.
  pub step_reply : SetupHistory → SetupCall → Option ℕ
  -- Whether the parent ended.
  pub poll_reply : SetupHistory → Answer Bool
  -- The names in /proc/self/fd, one by one.
  pub fds_reply : SetupHistory → Answer (List (Answer (List ℕ)))
  pub flags_reply : SetupHistory → Answer ℕ
  pub manager_reply : SetupHistory → Answer ℕ

abbrev pub Setup : Type 0 → Type 0
Setup A = Exec SetupHistory A

-- What the process does next: it goes on with the loop and this manager, or exits.
pub data Prepared : Type 0 where
  prepared : ℕ → Prepared
  exits : ℕ → Prepared

unfoldable pub request : {A : Type 0} → SetupCall → (SetupHistory → Result A) → Setup A
request c reply h = (reply h, c ∷ h)

abbrev pub or_exit : Option ℕ → ℕ → Setup Prepared → Setup Prepared
or_exit none code rest = rest
or_exit (some e) code rest = pure (exits code)

abbrev pub demanded : Option ℕ → Result (Unit {0})
demanded none = ok tt
demanded (some e) = err panic

abbrev pub fd_cloexec : ℕ
fd_cloexec = 1

-- A name of the directory has no sign.
abbrev pub fd_number : List ℕ → Option ℕ
fd_number name = elim (parse_number name) [
  | none ↦ none
  | some fd ↦ if ltb fd (2 ^ 31) then some fd else none
]

abbrev pub is_cloexec : ℕ → Bool
is_cloexec flags = flags % 2 == fd_cloexec

module _ (host : SetupHost) where
  abbrev attempt : SetupCall → Setup (Option ℕ)
  attempt c = request c (λ h. ok (host.step_reply h c))

  abbrev require : SetupCall → Setup (Unit {0})
  require c = request c (λ h. demanded (host.step_reply h c))

  unfoldable pub check_fd : ℕ → Setup (Unit {0})
  unfolding request
  check_fd fd = if ltb fd 3 then skip else (do
    flags ← request (get_flags fd) (λ h. expected (answered (host.flags_reply h)))
    (if is_cloexec flags then skip else fail panic))

  unfoldable pub check_fds : List (Answer (List ℕ)) → Setup (Unit {0})
  unfolding check_fd
  check_fds [] = skip
  check_fds (errno e ∷ names) = fail panic
  check_fds (answer name ∷ names) = do fd ← unwrap (fd_number name); check_fd fd; check_fds names

  unfoldable pub check_cloexec : Bool → Setup (Unit {0})
  unfolding request check_fds
  check_cloexec true = skip
  check_cloexec false = do
    names ← request list_fds (λ h. expected (answered (host.fds_reply h)))
    check_fds names

  unfoldable pub launch_manager : Setup Prepared
  unfolding request
  launch_manager = do
    require setsid
    require create_proc_cgroup
    require clone_cgroup
    pid ← request start_manager (λ h. expected (answered (host.manager_reply h)))
    pure (prepared pid)

  -- The parent may have ended before the signal was asked for.
  unfoldable pub follow_parent : Bool → Setup Prepared
  unfolding request check_cloexec launch_manager
  follow_parent ignore_non_cloexec = do
    require set_pdeathsig
    ended ← request poll_parent (λ h. expected (answered (host.poll_reply h)))
    (if ended then pure (exits 0) else (do check_cloexec ignore_non_cloexec; launch_manager))

  -- `reaper` before its loop; the argument is `ignore_non_cloexec` of the command line.
  unfoldable pub set_up : Bool → Setup Prepared
  unfolding request follow_parent
  set_up ignore_non_cloexec = do
    pid ← request getpid (λ h. ok (host.pid_reply h))
    (if pid == 1 then skip else fail panic)
    blocked ← attempt block_signals
    or_exit blocked 1 (do
      segv ← attempt (handle sigsegv)
      or_exit segv 1
          (do abrt ← attempt (handle sigabrt); or_exit abrt 1 (follow_parent ignore_non_cloexec)))

-- The whole process, with the exit code.
abbrev after_set_up : (ℕ → ReaperHost) → ℕ → Result Prepared → Result ℕ × ReaperHistory
after_set_up host fuel (err e) = (err e, [])
after_set_up host fuel (ok (exits code)) = (ok code, [])
after_set_up host fuel (ok (prepared pid)) =
    let (r, h) = reaper (host pid) fuel [] in (and_then r (λ _. ok 0), h)

unfoldable pub reaper_process : SetupHost → (ℕ → ReaperHost) → Bool → ℕ → Result ℕ × ReaperHistory
unfolding set_up reaper
reaper_process setup host ignore_non_cloexec fuel =
    after_set_up host fuel (set_up setup ignore_non_cloexec []).0
