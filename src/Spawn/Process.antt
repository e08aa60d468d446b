-- ===== src/Spawn/Process.antt =====
-- multiprocessing/src/platform/unix/subprocess.rs: a process is started on this executable, is sent its
-- entry over a socket, and its result is awaited. A text is its bytes.
use sunwalker_box.Common.{
  ℕ, zero, suc, ◌+◌, ◌||◌, Option, none, some, List, [], ◌∷◌, map, ◌==◌, if◌then◌else◌,
}
use sunwalker_box.Common.Exec.{
  Answer, answered, io, message, panic, unfinished, Result, ok, err, Exec, pure, fail, skip, unwrap,
  and_then, ◌>>=◌, ◌>>◌,
}
use sunwalker_box.Common.Exec.Calls.{call}
use sunwalker_box.Serde.{new, drain_handles, into_vec}
use sunwalker_box.Serde.Object.{Object, serialize}
use sunwalker_box.Serde.Words.{Word, word, word_object}
use sunwalker_box.Serde.Builtins.{pair_object}
use sunwalker_box.Serde.Sequences.{vec_object}
use sunwalker_box.Ipc
use sunwalker_box.Ipc.{Outcome, Packet, Sendmsg, Recvmsg}
use sunwalker_box.Ipc.Transport.{send_on_fd, recv_on_fd}
use sunwalker_box.Cgroups.Numbers.{show_number}
use sunwalker_box.Running.{WaitStatus, exited}
use sunwalker_box.Spawn.{Program, ProcessImage, BoxedEntry, entry_object}

-- The data and the handles of an entry, as `(Vec<u8>, Vec<RawHandle>)`.
abbrev pub EntryMessage : Type 0
EntryMessage = List (Word 1) × List (Word 4)

abbrev pub io_result : {A : Type 0} → Outcome A → Result A
io_result (Ipc.ok a) = ok a
io_result (Ipc.err (Ipc.os e)) = err (io e)
io_result (Ipc.err _) = err (message "Broken message")
io_result Ipc.panicked = err panic
io_result Ipc.unfinished = err unfinished

-- `.expect(..)`, under which every error is a panic.
abbrev pub expected : {S A : Type 0} → Result A → Exec S A
expected (ok a) = pure a
expected (err unfinished) = fail unfinished
expected (err _) = fail panic

-- ---------------------------------------------------------------- the parent

pub data SpawnCall : Type 0 where
  -- Of the type SOCK_SEQPACKET, closed on exec.
  socketpair : SpawnCall
  set_blocking : ℕ → SpawnCall
  -- With SIGCHLD and the flags; what the child does then is `exec_child`.
  clone : ℕ → ℕ → List ℕ → SpawnCall
  send : List Packet → SpawnCall

abbrev pub SpawnHistory : Type 0
SpawnHistory = List SpawnCall

pub record SpawnHost : Type 0 where
  pub socketpair_reply : SpawnHistory → Answer (ℕ × ℕ)
  pub fcntl_reply : SpawnHistory → ℕ → Option ℕ
  -- The pid of the child.
  pub clone_reply : SpawnHistory → Answer ℕ
  pub sendmsg : Sendmsg

pub record Child : Type 0 where
  pub proc_pid : ℕ
  pub output_rx : ℕ

abbrev blocking_expected : Option ℕ → Result (Unit {0})
blocking_expected none = ok tt
blocking_expected (some e) = err panic

abbrev sent_packets : Outcome (List Packet) → List SpawnCall → List SpawnCall
sent_packets (Ipc.ok packets) h = send packets ∷ h
sent_packets _ h = h

module _ (host : SpawnHost) where
  abbrev make_socketpair : Exec SpawnHistory (ℕ × ℕ)
  make_socketpair h = (answered (host.socketpair_reply h), socketpair ∷ h)

  -- `from_raw_fd` of an end.
  unfoldable pub make_blocking : ℕ → Exec SpawnHistory (Unit {0})
  make_blocking fd h = (blocking_expected (host.fcntl_reply h fd), set_blocking fd ∷ h)

  unfoldable pub duplex : Exec SpawnHistory (ℕ × ℕ)
  unfolding make_blocking
  duplex = do
    (local, child) ← make_socketpair
    make_blocking local
    make_blocking child
    pure (local, child)

  unfoldable pub spawn_child : ℕ → ℕ → List ℕ → Exec SpawnHistory ℕ
  spawn_child child_fd flags inherited_fds h =
      (answered (host.clone_reply h), clone flags child_fd inherited_fds ∷ h)

  unfoldable pub send_entry : List ℕ → List ℕ → Exec SpawnHistory (Unit {0})
  send_entry bytes fds h =
      let outcome = send_on_fd {A = EntryMessage} host.sendmsg (map word bytes, map word fds) in
      (and_then (io_result outcome) (λ _. ok tt), sent_packets outcome h)

  module _ (p : Program) (image : ProcessImage p) where
    -- `spawn`; the end for the child is closed when it returns.
    unfoldable pub spawn : BoxedEntry p → ℕ → Exec SpawnHistory Child
    unfolding new drain_handles duplex spawn_child send_entry
    spawn entry flags = do
      s ← unwrap (serialize ⦃o = entry_object p image⦄ entry new)
      (fds, s') ← unwrap (drain_handles s)
      (local, child) ← duplex
      pid ← spawn_child child flags fds
      send_entry (into_vec s') fds
      pure (record { proc_pid = pid; output_rx = local })

-- ---------------------------------------------------------------- between the two

pub data ChildCall : Type 0 where
  -- Of no signal.
  set_mask : ChildCall
  -- The default action of the signal.
  sigaction : ℕ → ChildCall
  disable_cloexec : ℕ → ChildCall
  -- Of `/proc/self/exe`, with the arguments.
  execv : List (List ℕ) → ChildCall

abbrev pub ChildHistory : Type 0
ChildHistory = List ChildCall

-- The bytes of `_multiprocessing_`.
abbrev pub multiprocessing_arg : List ℕ
multiprocessing_arg =
    95 ∷ 109 ∷ 117 ∷ 108 ∷ 116 ∷ 105 ∷ 112 ∷ 114 ∷ 111 ∷ 99 ∷ 101 ∷ 115 ∷ 115 ∷ 105 ∷ 110 ∷ 103 ∷ 95
    ∷ []

module _ (call_reply : ChildHistory → ChildCall → Option ℕ) where
  unfoldable pub child_call : ChildCall → Exec ChildHistory (Unit {0})
  unfolding call
  child_call c = call call_reply c

  -- The loop over the signals from `i` on, `n` of them; SIGKILL and SIGSTOP cannot be set.
  unfoldable pub default_signals : ℕ → ℕ → Exec ChildHistory (Unit {0})
  unfolding child_call
  default_signals zero i = skip
  default_signals (suc n) i = do
    (if i == 9 || i == 19 then skip else child_call (sigaction i))
    default_signals n (i + 1)

  unfoldable pub inherit : List ℕ → Exec ChildHistory (Unit {0})
  unfolding child_call
  inherit [] = skip
  inherit (fd ∷ fds) = do child_call (disable_cloexec fd); inherit fds

  -- `_spawn_child` in the child; where it fails it prints the error and aborts.
  unfoldable pub exec_child : ℕ → List ℕ → Exec ChildHistory (Unit {0})
  unfolding child_call default_signals inherit
  exec_child child_fd inherited_fds = do
    child_call set_mask
    default_signals 31 1
    child_call (disable_cloexec child_fd)
    inherit inherited_fds
    child_call (execv (multiprocessing_arg ∷ show_number child_fd ∷ []))

-- ---------------------------------------------------------------- the parent again

-- `join`: the value, and then how the process ended.
module _ {T : Type 0} ⦃o : Object T⦄ where
  abbrev joined : Option T → Result WaitStatus → Result T
  joined (some value) (ok (exited pid zero)) = ok value
  joined none (ok (exited pid zero)) =
      err (message "The subprocess terminated without returning a value")
  joined value (ok status) = err (message "The subprocess did not terminate successfully")
  joined value (err e) = err e

  unfoldable pub join : Recvmsg → Answer WaitStatus → List Packet → Result T
  unfolding recv_on_fd
  join recvmsg status queue =
      and_then (io_result (recv_on_fd {A = T} recvmsg queue))
        (λ (value, _). joined value (answered status))
