-- ===== src/Spawn/Joins.antt =====
-- A process of multiprocessing/src/platform/unix/subprocess.rs and imp.rs, from `spawn` to `join`. The
-- two processes have the program loaded at addresses of their own.
use sunwalker_box.Common.{
  ℕ, ◌^◌, ◌<◌, ◌≡◌, refl, ap, sym, ◌∙◌, Option, none, some, List, [], ◌∷◌, ◌++◌, map, ltb, true,
  arith, append-nil,
}
use sunwalker_box.Common.Exec
use sunwalker_box.Common.Exec.{Answer, answer, pure, skip, unwrap, ◌>>=◌}
use sunwalker_box.Serde.{new, drain_handles, from, write}
use sunwalker_box.Serde.Object.{Transmissible}
use sunwalker_box.Serde.Words.{word, word_object, word_transmissible}
use sunwalker_box.Serde.Builtins.{pair_object, unit_object}
use sunwalker_box.Serde.Builtins.RoundTrip.{pair_transmissible}
use sunwalker_box.Serde.Sequences.{vec_object}
use sunwalker_box.Serde.Sequences.RoundTrip.{vec_transmissible}
use sunwalker_box.Serde.Text.RoundTrip.{ValidBytes, value-word, valid_bytes}
use sunwalker_box.Serde.Shared.RoundTrip.{At-from}
use sunwalker_box.Serde.Delayed.{serialized}
use sunwalker_box.Serde.Delayed.RoundTrip.{deserialize_delayed_value-serialized}
use sunwalker_box.Running.{exited}
use sunwalker_box.Rootfs.{eq_bytes}
use sunwalker_box.Ipc.{ok, Packet, max_packet_size, Sendmsg, Recvmsg}
use sunwalker_box.Ipc.Framing.{IsSeqpacket}
use sunwalker_box.Ipc.Transport.{send_on_fd, recv_on_fd, recv-send}
use sunwalker_box.Cgroups.Numbers.{show_number, parse-show_number}
use sunwalker_box.Spawn.Main.{
  MainCall, enable_cloexec, disable_nonblock, reply, MainState, MainHost, Main, expect_call,
  enable_all, parse_raw_handle, recv_entry, send_output, call_entry, multiprocessing_main, main,
}
use sunwalker_box.Spawn.Process.{
  multiprocessing_arg, EntryMessage, socketpair, set_blocking, clone, send, SpawnHistory, SpawnHost,
  make_blocking, duplex, spawn_child, send_entry, spawn, join,
}
use sunwalker_box.Spawn.{Tuple, Program, ProcessImage, boxed_closure_object, new_entry}
use sunwalker_box.Spawn.Closures.{ArgsTransmissible, ValidArgs, call_closure-bind_all}
use sunwalker_box.Spawn.Images.{
  Layout, IsRunning, image_closure, image_entry, closure_of, Transfers-closure, Transfers-entry,
}

-- The calls that make a pair of ends, the latest first.
abbrev pub duplex_calls : ℕ → ℕ → SpawnHistory
duplex_calls local child = set_blocking child ∷ set_blocking local ∷ socketpair ∷ []

module _ (p : Program) (layout : Layout p) (sent : ArgsTransmissible p)
    (sent_output : (e : p.Entry) → Transmissible (p.Output e) ⦃o = p.output_object e⦄)
    (ours theirs : ProcessImage p) (run : IsRunning p layout ours)
    (run' : IsRunning p layout theirs) (sendmsg : Sendmsg) (recvmsg : Recvmsg)
    (socket : IsSeqpacket max_packet_size sendmsg recvmsg) (e : p.Entry)
    (args : Tuple p.Val (p.args_of e)) (valid : ValidArgs p.arg_object sent (p.args_of e) args)
    (short : ValidBytes (image_closure p layout sent e args))
    (short' : ValidBytes (image_entry p layout sent e args)) where
  abbrev bytes : List ℕ
  bytes = image_entry p layout sent e args

  -- The message with the entry crosses.
  entry_sent :
      (packets : List Packet) × (send_on_fd {A = EntryMessage} sendmsg (map word bytes, [])
        ≡ ok packets)
      × ((queue : List Packet)
          → recv_on_fd {A = EntryMessage} recvmsg (packets ++ queue)
            ≡ ok (some (map word bytes, []), queue))
  entry_sent =
      recv-send sendmsg recvmsg socket {A = EntryMessage} (map word bytes, [])
        (valid_bytes bytes short', ((omega arith), tt))

  entry_arrives :
      recv_on_fd {A = EntryMessage} recvmsg entry_sent.0 ≡ ok (some (map word bytes, []), [])
  entry_arrives = ap (recv_on_fd recvmsg) (sym (append-nil entry_sent.0)) ∙ entry_sent.2 []

  module _ (host : SpawnHost) (host_sends : host.sendmsg ≡ sendmsg) (local child pid flags : ℕ)
      (pair : host.socketpair_reply [] ≡ answer (local, child))
      (blocking : (h : SpawnHistory) (fd : ℕ) → host.fcntl_reply h fd ≡ none)
      (cloned : host.clone_reply (duplex_calls local child) ≡ answer pid) where
    spawn_lem : spawn host p ours (new_entry p e args) flags [] ≡ (
      Exec.ok (record { proc_pid = pid; output_rx = local }),
      send entry_sent.0 ∷ clone flags child [] ∷ duplex_calls local child,
    )
    unfolding spawn new drain_handles duplex make_blocking spawn_child send_entry write ◌>>=◌ unwrap
        pure
    spawn_lem =
        rw ((Transfers-entry p layout sent e args ours theirs run run' valid short).writes new) (
          rw pair (
            rw (blocking (socketpair ∷ []) local) (
              rw (blocking (set_blocking local ∷ socketpair ∷ []) child)
                (rw cloned (rw host_sends (rw entry_sent.1 refl))))))

  module _ (valid_output : Transmissible.Valid (sent_output e) (p.body e args)) where
    -- The result crosses.
    output_sent :
        (packets : List Packet) × (send_on_fd ⦃o = p.output_object e⦄ sendmsg (p.body e args)
          ≡ ok packets)
        × ((queue : List Packet)
            → recv_on_fd ⦃o = p.output_object e⦄ recvmsg (packets ++ queue)
              ≡ ok (some (p.body e args), queue))
    output_sent =
        recv-send sendmsg recvmsg socket ⦃o = p.output_object e⦄ ⦃t = sent_output e⦄ (p.body e args)
          valid_output

    module _ (host : MainHost) (host_sends : host.sendmsg ≡ sendmsg)
        (host_receives : host.recvmsg ≡ recvmsg)
        (fcntl : (h : List MainCall) (c : MainCall) → host.fcntl_reply h c ≡ none)
        (main_entry : Option (Main ℕ)) (child : ℕ) (fits : child < 2 ^ 31) where
      call_entry_lem :
          (s : MainState)
          → call_entry host p theirs (e, serialized (image_closure p layout sent e args) []) child s
            ≡ (
              Exec.ok 0,
              record {
                calls = reply output_sent.0 ∷ disable_nonblock child ∷ s.calls;
                queue = s.queue;
              },
            )
      unfolding call_entry expect_call send_output ◌>>=◌ unwrap pure skip
      call_entry_lem s = rw (fcntl s.calls (disable_nonblock child)) (
          rw
            (deserialize_delayed_value-serialized (boxed_closure_object p ours)
              (boxed_closure_object p theirs) (closure_of p layout sent e args)
              (closure_of p layout sent e args) (image_closure p layout sent e args)
              (Transfers-closure p layout sent e args ours theirs run run' valid short) short)
            (rw (call_closure-bind_all p e args) (rw host_sends (rw output_sent.1 refl))))

      main_lem :
          main host p theirs main_entry
            (multiprocessing_arg ∷ show_number child ∷ [])
            (record { calls = []; queue = entry_sent.0 })
          ≡ (
            Exec.ok 0,
            record {
              calls =
                  reply output_sent.0
                  ∷ disable_nonblock child
                  ∷ disable_nonblock child
                  ∷ enable_cloexec child
                  ∷ [];
              queue = [];
            },
          )
      unfolding eq_bytes main multiprocessing_main expect_call parse_raw_handle recv_entry
          enable_all ◌>>=◌ unwrap pure skip
      main_lem =
          let range : ltb child (2 ^ 31) ≡ true = ground (arith, fits) in
          rw (parse-show_number child (omega (arith, fits))) (
            rw range (
              rw (fcntl [] (enable_cloexec child)) (
                rw (fcntl (enable_cloexec child ∷ []) (disable_nonblock child)) (
                  rw host_receives (
                    rw entry_arrives (
                      rw (value-word bytes) (
                        let at = At-from bytes in
                        rw
                          ((Transfers-entry p layout sent e args ours theirs run run' valid
                              short).reads
                            (from bytes []) [] at)
                          (call_entry_lem _))))))))

    join_lem :
        (pid : ℕ)
        → join ⦃o = p.output_object e⦄ recvmsg (answer (exited pid 0)) output_sent.0
          ≡ Exec.ok (p.body e args)
    unfolding join
    join_lem pid =
        let arrives =
          ap (recv_on_fd ⦃o = p.output_object e⦄ recvmsg) (sym (append-nil output_sent.0))
          ∙ output_sent.2 [] in
        rw arrives refl

    module _ (host : SpawnHost) (host' : MainHost) (host_sends : host.sendmsg ≡ sendmsg)
        (child_sends : host'.sendmsg ≡ sendmsg) (child_receives : host'.recvmsg ≡ recvmsg)
        (local child pid flags : ℕ) (pair : host.socketpair_reply [] ≡ answer (local, child))
        (blocking : (h : SpawnHistory) (fd : ℕ) → host.fcntl_reply h fd ≡ none)
        (cloned : host.clone_reply (duplex_calls local child) ≡ answer pid) (fits : child < 2 ^ 31)
        (fcntl : (h : List MainCall) (c : MainCall) → host'.fcntl_reply h c ≡ none)
        (main_entry : Option (Main ℕ)) where
      -- An entry of the program whose arguments and result can be sent without handles, in fewer
      -- than 2^64 bytes, is started in a process that has the program at other addresses. Over a
      -- socket that keeps packets whole, where the pair of sockets and the process are made and no
      -- fcntl fails: the entry is sent to the process, its main calls the function with these
      -- arguments, sends the result back and exits with 0, and join, when the process exited with
      -- 0, returns the result.
      pub join-main-spawn :
          (packets out : List Packet) × (spawn host p ours (new_entry p e args) flags [] ≡ (
            Exec.ok (record { proc_pid = pid; output_rx = local }),
            send packets ∷ clone flags child [] ∷ duplex_calls local child,
          ))
          × (main host' p theirs main_entry
                (multiprocessing_arg ∷ show_number child ∷ [])
                (record { calls = []; queue = packets })
              ≡ (
                Exec.ok 0,
                record {
                  calls =
                      reply out
                      ∷ disable_nonblock child
                      ∷ disable_nonblock child
                      ∷ enable_cloexec child
                      ∷ [];
                  queue = [];
                },
              ))
          × (join ⦃o = p.output_object e⦄ recvmsg (answer (exited pid 0)) out
              ≡ Exec.ok (p.body e args))
      join-main-spawn = (
        entry_sent.0,
        output_sent.0,
        spawn_lem host host_sends local child pid flags pair blocking cloned,
        main_lem host' child_sends child_receives fcntl main_entry child fits,
        join_lem pid,
      )
