-- ===== src/Witnesses/Transport.antt =====
-- Messages of multiprocessing/src/platform/unix/ipc.rs over a socket that keeps packets as they are.
use sunwalker_box.Common.{ℕ, zero, suc, ◌≡◌, refl, some, List, [], ◌∷◌, ◌++◌, length, arith}
use sunwalker_box.Serde.Words.{Word, word, word_object, word_transmissible}
use sunwalker_box.Serde.Sequences.{vec_object}
use sunwalker_box.Serde.Sequences.RoundTrip.{vec_transmissible}
use sunwalker_box.Ipc.{
  ok, err, too_many_fds, Packet, max_packet_size, Sendmsg, Recvmsg, send_loop, send_fuel,
}
use sunwalker_box.Ipc.Framing.{IsSeqpacket, Arrives}
use sunwalker_box.Ipc.Transport.{
  send_on_fd, recv_on_fd, recv-send, send-recv_bytes, send_loop-too_many_fds,
}

abbrev pub send_whole : Sendmsg
send_whole sent p = ok (length p.bytes)

abbrev pub deliver_whole : Recvmsg
deliver_whole p = p

pub whole-IsSeqpacket : IsSeqpacket max_packet_size send_whole deliver_whole
whole-IsSeqpacket = record {
  sends_whole = λ sent p h. refl;
  delivers_whole = λ p fds h e few. refl;
}

abbrev numbers : List (Word 4)
numbers = word 7 ∷ word 70000 ∷ []

recv-send_example :
    (packets : List Packet) × (send_on_fd send_whole numbers ≡ ok packets)
    × ((queue : List Packet)
        → recv_on_fd {A = List (Word 4)} deliver_whole (packets ++ queue)
          ≡ ok (some numbers, queue))
recv-send_example =
    recv-send send_whole deliver_whole whole-IsSeqpacket numbers
      (omega arith, (omega arith, (omega arith, tt)))

send-recv_bytes_example :
    (packets : List Packet) × (send_loop max_packet_size send_whole
        (1 ∷ 2 ∷ 3 ∷ [])
        (9 ∷ [])
        (send_fuel (1 ∷ 2 ∷ 3 ∷ []) (9 ∷ []))
        0
        0
        []
      ≡ ok packets)
    × Arrives deliver_whole packets (1 ∷ 2 ∷ 3 ∷ []) (9 ∷ [])
send-recv_bytes_example =
    send-recv_bytes send_whole deliver_whole whole-IsSeqpacket (1 ∷ 2 ∷ 3 ∷ []) (9 ∷ [])
      (omega arith)

abbrev copies : ℕ → List ℕ
copies zero = []
copies (suc n) = 5 ∷ copies n

send_loop-too_many_fds_example :
    send_loop max_packet_size send_whole (1 ∷ []) (copies 60) 10 0 0 [] ≡ err too_many_fds
send_loop-too_many_fds_example =
    send_loop-too_many_fds max_packet_size send_whole (1 ∷ []) (copies 60) 9 (omega arith)
