-- ===== src/Ipc/Transport.antt =====
-- `send_on_fd` and `recv_on_fd` of multiprocessing/src/platform/unix/ipc.rs for any object.
use sunwalker_box.Common.{
  ℕ, suc, ◌-◌, ◌≤◌, ◌<◌, ◌≡◌, Option, none, some, List, [], ◌++◌, arith, length, length-take,
}
use sunwalker_box.Serde.{Serializer, Deserializer, new, from, write, drain_handles}
use sunwalker_box.Serde.Object.{Object, Transmissible, serialize, deserialize}
use sunwalker_box.Serde.Shared.RoundTrip.{At-from}
use sunwalker_box.Ipc.{
  Outcome, ok, err, panicked, unfinished, too_many_fds, Packet, max_packet_size, fds_end, batch,
  Sendmsg, send_loop, send_fuel, Recvmsg, recv_packets,
}
use sunwalker_box.Ipc.Framing.{IsSeqpacket, Arrives, add_fds-too_many, send_loop_lem}

-- Sending drains the handles, and the bytes and the handles go through the loop.
unfoldable pub send_message : Sendmsg → Option (List ℕ × Serializer) → Outcome (List Packet)
send_message sendmsg none = panicked
send_message sendmsg (some (fds, s)) =
    send_loop max_packet_size sendmsg s.data' fds (send_fuel s.data' fds) 0 0 []

module _ {A : Type 0} ⦃o : Object A⦄ where
  unfoldable pub send_on_fd : Sendmsg → A → Outcome (List Packet)
  unfolding send_message
  send_on_fd sendmsg value = elim (serialize value new) [
    | none ↦ panicked
    | some s ↦ send_message sendmsg (drain_handles s)
  ]

  abbrev decoded : Option (A × Deserializer) → List Packet → Outcome (Option A × List Packet)
  decoded none queue = panicked
  decoded (some (value, d)) queue = ok (some value, queue)

  abbrev decode : Option (List ℕ × List ℕ) → List Packet → Outcome (Option A × List Packet)
  decode none queue = ok (none, queue)
  decode (some (serialized, fds)) queue = decoded (deserialize {A = A} (from serialized fds)) queue

  abbrev receive :
      Outcome (Option (List ℕ × List ℕ) × List Packet) → Outcome (Option A × List Packet)
  receive (ok (message, queue)) = decode message queue
  receive (err e) = err e
  receive panicked = panicked
  receive unfinished = unfinished

  unfoldable pub recv_on_fd : Recvmsg → List Packet → Outcome (Option A × List Packet)
  recv_on_fd recvmsg queue = receive (recv_packets recvmsg queue [] [])

-- A batch of more than 58 descriptors is refused, though a round takes up to 253 of them.
pub send_loop-too_many_fds :
    (max : ℕ) (sendmsg : Sendmsg) (serialized fds : List ℕ) (fuel : ℕ)
    → 58 < length fds
    → send_loop max sendmsg serialized fds (suc fuel) 0 0 [] ≡ err too_many_fds
unfolding send_loop
send_loop-too_many_fds max sendmsg serialized fds fuel h =
    rw (
      add_fds-too_many (batch fds 0) (omega (arith, length-take (fds_end fds 0 - 0) fds)),
      send_loop,
    )

module _ (sendmsg : Sendmsg) (recvmsg : Recvmsg)
    (socket : IsSeqpacket max_packet_size sendmsg recvmsg) where
  -- Any bytes with at most 58 descriptors are sent within the fuel and arrive whole and in order.
  pub send-recv_bytes :
      (serialized fds : List ℕ)
      → length fds ≤ 58
      → (packets : List Packet) × (send_loop max_packet_size sendmsg serialized fds
            (send_fuel serialized fds)
            0
            0
            []
          ≡ ok packets)
        × Arrives recvmsg packets serialized fds
  send-recv_bytes serialized fds few =
      send_loop_lem max_packet_size sendmsg recvmsg socket (omega arith) serialized fds
        (send_fuel serialized fds) 0 0 [] (omega arith) (omega arith) (omega arith) (omega arith)

  module _ {A : Type 0} ⦃o : Object A⦄ ⦃t : Transmissible A⦄ where
    -- A valid value of a type whose objects hold no handles or pointers, and are read from a message
    -- as they were written to it, arrives as it was over a socket that keeps packets of at most
    -- MAX_PACKET_SIZE bytes whole, and nothing that follows in the queue is touched. Sending ends within
    -- the fuel.
    pub recv-send :
        (value : A)
        → t.Valid value
        → (packets : List Packet) × (send_on_fd sendmsg value ≡ ok packets)
          × ((queue : List Packet) → recv_on_fd recvmsg (packets ++ queue) ≡ ok (some value, queue))
    unfolding send_on_fd recv_on_fd drain_handles write new
    recv-send value v =
        let (packets, sends, arrives) = send-recv_bytes (t.image value) [] (omega arith) in
        (
          packets,
          rw (t.writes value new v, send_on_fd) sends,
          λ queue.
              rw (arrives [] [] queue, recv_on_fd)
                (rw (t.reads value (from (t.image value) []) [] v (At-from (t.image value)))),
        )
