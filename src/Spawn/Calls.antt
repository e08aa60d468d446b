-- ===== src/Spawn/Calls.antt =====
-- What the child of `_spawn_child` does before the program runs
-- (multiprocessing/src/platform/unix/subprocess.rs).
use sunwalker_box.Common.{
  ℕ, zero, suc, ◌+◌, ◌==◌, ◌||◌, if◌then◌else◌, Option, List, [], ◌∷◌, ◌++◌, map,
}
use sunwalker_box.Cgroups.Numbers.{show_number}
use sunwalker_box.Spawn.Process.{
  ChildCall, set_mask, sigaction, disable_cloexec, execv, ChildHistory, multiprocessing_arg,
}

-- SIGHUP to SIGSYS, without SIGKILL and SIGSTOP.
abbrev pub signals : List ℕ
signals =
    1 ∷ 2 ∷ 3 ∷ 4 ∷ 5 ∷ 6 ∷ 7 ∷ 8 ∷ 10 ∷ 11 ∷ 12 ∷ 13 ∷ 14 ∷ 15 ∷ 16 ∷ 17 ∷ 18 ∷ 20 ∷ 21 ∷ 22 ∷ 23
    ∷ 24 ∷ 25 ∷ 26 ∷ 27 ∷ 28 ∷ 29 ∷ 30 ∷ 31 ∷ []

-- The calls of a child that is to run the program with these descriptors.
abbrev pub child_calls : ℕ → List ℕ → List ChildCall
child_calls child_fd inherited_fds =
    set_mask ∷ map sigaction signals
    ++ disable_cloexec child_fd ∷ map disable_cloexec inherited_fds
    ++ execv (multiprocessing_arg ∷ show_number child_fd ∷ []) ∷ []

-- Calls that are made one after the other, up to the first that fails.
module _ (call_reply : ChildHistory → ChildCall → Option ℕ) where
  abbrev reset_signal : ℕ → List ChildCall
  reset_signal i = if i == 9 || i == 19 then [] else sigaction i ∷ []

  abbrev reset_signals : ℕ → ℕ → List ChildCall
  reset_signals zero i = []
  reset_signals (suc n) i = reset_signal i ++ reset_signals n (i + 1)

  module _ (child_fd : ℕ) (fds : List ℕ) where
    abbrev exec_call : List ChildCall
    exec_call = execv (multiprocessing_arg ∷ show_number child_fd ∷ []) ∷ []

    abbrev inherit_calls : List ChildCall
    inherit_calls = disable_cloexec child_fd ∷ map disable_cloexec fds ++ exec_call
