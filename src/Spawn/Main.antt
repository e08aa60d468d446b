-- ===== src/Spawn/Main.antt =====
-- multiprocessing/src/imp.rs: `main` of a process that was started for an entry, which it is sent over a
-- socket, and the `call` of `#[entrypoint]` of multiprocessing-derive/src/lib.rs. A text is its bytes.
use sunwalker_box.Common.{ℕ, ◌^◌, Option, none, some, List, [], ◌∷◌, map, ltb, if◌then◌else◌}
use sunwalker_box.Common.Exec.{panic, ok, Exec, pure, fail, skip, unwrap, and_then, ◌>>=◌, ◌>>◌}
use sunwalker_box.Serde.{from}
use sunwalker_box.Serde.Object.{deserialize}
use sunwalker_box.Serde.Words.{Word, word_object}
use sunwalker_box.Serde.Builtins.{pair_object}
use sunwalker_box.Serde.Sequences.{vec_object}
use sunwalker_box.Serde.Delayed.{deserialize_delayed_value}
use sunwalker_box.Rootfs.{eq_bytes}
use sunwalker_box.Ipc
use sunwalker_box.Ipc.{Outcome, Packet, Sendmsg, Recvmsg}
use sunwalker_box.Ipc.Transport.{send_on_fd, recv_on_fd}
use sunwalker_box.Cgroups.{parse_number}
use sunwalker_box.Spawn.{
  Program, ProcessImage, BoxedEntry, boxed_closure_object, entry_object, call_closure,
}
use sunwalker_box.Spawn.Process.{EntryMessage, io_result, expected, multiprocessing_arg}

pub data MainCall : Type 0 where
  enable_cloexec : ℕ → MainCall
  disable_nonblock : ℕ → MainCall
  reply : List Packet → MainCall

pub record MainState : Type 0 where
  pub calls : List MainCall
  -- What the socket still holds.
  pub queue : List Packet

pub record MainHost : Type 0 where
  pub fcntl_reply : List MainCall → MainCall → Option ℕ
  pub sendmsg : Sendmsg
  pub recvmsg : Recvmsg

abbrev pub Main : Type 0 → Type 0
Main A = Exec MainState A

abbrev expect_fcntl : Option ℕ → Main (Unit {0})
expect_fcntl none = skip
expect_fcntl (some e) = fail panic

abbrev in_range : Option ℕ → Option ℕ
in_range none = none
in_range (some n) = if ltb n (2 ^ 31) then some n else none

abbrev next_arg : List (List ℕ) → Option (List ℕ)
next_arg [] = none
next_arg (arg ∷ args) = some arg

abbrev recorded : Outcome (List Packet) → MainState → MainState
recorded (Ipc.ok packets) s = record s { calls = reply packets ∷ s.calls }
recorded _ s = s

module _ (host : MainHost) where
  unfoldable pub expect_call : MainCall → Main (Unit {0})
  expect_call c s = expect_fcntl (host.fcntl_reply s.calls c) (record s { calls = c ∷ s.calls })

  unfoldable pub enable_all : List (Word 4) → Main (Unit {0})
  unfolding expect_call
  enable_all [] = skip
  enable_all (handle ∷ handles) = do expect_call (enable_cloexec handle.value); enable_all handles

  -- A negative number is no descriptor, and stops the process as an invalid one does.
  unfoldable pub parse_raw_handle : List ℕ → Main ℕ
  unfolding parse_number
  parse_raw_handle text = unwrap (in_range (parse_number text))

  abbrev after_recv : Outcome (Option EntryMessage × List Packet) → Main (Option EntryMessage)
  after_recv (Ipc.ok (entry, queue)) s = (ok entry, record s { queue = queue })
  after_recv outcome s = expected (and_then (io_result outcome) (λ (entry, _). ok entry)) s

  unfoldable pub recv_entry : Main (Option EntryMessage)
  unfolding recv_on_fd
  recv_entry s = after_recv (recv_on_fd {A = EntryMessage} host.recvmsg s.queue) s

  module _ (p : Program) (image : ProcessImage p) where
    unfoldable pub send_output : (e : p.Entry) → p.Output e → Main (Unit {0})
    send_output e output s =
        let outcome = send_on_fd ⦃o = p.output_object e⦄ host.sendmsg output in
        expected (and_then (io_result outcome) (λ _. ok tt)) (recorded outcome s)

    -- `call` of the entry that `#[entrypoint]` makes: the function is read, called, and its result sent.
    -- A failure to send is a panic.
    unfoldable pub call_entry : BoxedEntry p → ℕ → Main ℕ
    unfolding expect_call send_output call_closure
    call_entry (_, func) output_tx_handle = do
      expect_call (disable_nonblock output_tx_handle)
      closure ← unwrap (deserialize_delayed_value ⦃o = boxed_closure_object p image⦄ func)
      send_output closure.0 (call_closure p closure)
      pure 0

    unfoldable pub multiprocessing_main : List (List ℕ) → Main ℕ
    unfolding parse_raw_handle expect_call recv_entry enable_all from call_entry
    multiprocessing_main args = do
      text ← unwrap (next_arg args)
      handle ← parse_raw_handle text
      expect_call (enable_cloexec handle)
      expect_call (disable_nonblock handle)
      received ← recv_entry
      (entry_data, entry_handles) ← unwrap received
      enable_all entry_handles
      (entry, _) ← unwrap (
          deserialize ⦃o = entry_object p image⦄
            (from (map (λ w. w.value) entry_data) (map (λ w. w.value) entry_handles)))
      call_entry entry handle

    -- `main`, by its arguments, the name of the program first.
    unfoldable pub main : Option (Main ℕ) → List (List ℕ) → Main ℕ
    unfolding multiprocessing_main
    main main_entry [] = do run_main ← unwrap main_entry; run_main
    main main_entry (name ∷ args) =
        if eq_bytes name multiprocessing_arg
        then multiprocessing_main args
        else (do run_main ← unwrap main_entry; run_main)
