-- ===== src/Ipc.antt =====
-- multiprocessing/src/platform/unix/ipc.rs: messages over a SOCK_SEQPACKET socket. A message is sent
-- as packets, each with a marker byte (1 on the last) before its part of the data; the descriptors
-- travel as ancillary data. The socket is the list of packets in flight; its end is a closed peer.
pub mod Framing
pub mod Transport
use sunwalker_box.Common.{
  ℕ, zero, suc, ◌+◌, ◌-◌, ◌*◌, ◌/◌, Bool, true, false, ◌&&◌, Option, none, some, List, [], ◌∷◌,
  ◌++◌, length, take, drop, min, leb, ◌==◌, if◌then◌else◌,
}
use sunwalker_box.Serde.{Serializer, Deserializer, new, from, drain_handles}
use sunwalker_box.Serde.Object.{Object, serialize, deserialize}

pub data Error : Type 0 where
  too_many_fds : Error
  unexpected_cmsg : Error
  unterminated : Error
  empty_message : Error
  os : ℕ → Error

-- `panicked` is a panic, `unfinished` a loop that ran out of fuel.
pub data Outcome {ℓ} (A : Type ℓ) : Type ℓ where
  ok : A → Outcome A
  err : Error → Outcome A
  panicked : Outcome A
  unfinished : Outcome A

pub data Ancillary : Type 0 where
  rights : List ℕ → Ancillary
  other : Ancillary

pub record Packet : Type 0 where
  pub bytes : List ℕ
  pub ancillary : List Ancillary

abbrev pub max_packet_size : ℕ
max_packet_size = 16 * 1024

-- `[0; 253]`, in both directions.
abbrev pub ancillary_buffer : ℕ
ancillary_buffer = 253

abbrev pub fds_per_packet : ℕ
fds_per_packet = 253

-- `SocketAncillary::add_fds`: a control message takes a header of 16 bytes and its descriptors, 4
-- bytes each, rounded up to 8; it is refused when the buffer has no room for it.
unfoldable pub add_fds : List ℕ → Option (List Ancillary)
add_fds fds =
    if leb (16 + (4 * length fds + 7) / 8 * 8) ancillary_buffer
    then some (rights fds ∷ [])
    else none

abbrev pub marker : Bool → ℕ
marker true = 1
marker false = 0

-- What `sendmsg` answers: the bytes written, or an errno. It may depend on what was sent before.
abbrev pub Sendmsg : Type 0
Sendmsg = List Packet → Packet → Outcome ℕ

-- One round of the loop at `buffer_pos` and `fds_pos`: how far it gets, and what it sends.
abbrev pub buffer_end : ℕ → List ℕ → ℕ → ℕ
buffer_end max serialized buffer_pos = min (length serialized) (buffer_pos + max - 1)

abbrev pub fds_end : List ℕ → ℕ → ℕ
fds_end fds fds_pos = min (length fds) (fds_pos + fds_per_packet)

abbrev pub is_last : ℕ → List ℕ → List ℕ → ℕ → ℕ → Bool
is_last max serialized fds buffer_pos fds_pos =
    buffer_end max serialized buffer_pos == length serialized && fds_end fds fds_pos == length fds

abbrev pub payload : ℕ → List ℕ → ℕ → List ℕ
payload max serialized buffer_pos =
    take (buffer_end max serialized buffer_pos - buffer_pos) (drop buffer_pos serialized)

abbrev pub batch : List ℕ → ℕ → List ℕ
batch fds fds_pos = take (fds_end fds fds_pos - fds_pos) (drop fds_pos fds)

abbrev pub round_packet : ℕ → List ℕ → List ℕ → ℕ → ℕ → List Ancillary → Packet
round_packet max serialized fds buffer_pos fds_pos ancillary = record {
  bytes =
      marker (is_last max serialized fds buffer_pos fds_pos) ∷ payload max serialized buffer_pos;
  ancillary = ancillary;
}

module _ (max : ℕ) (sendmsg : Sendmsg) (serialized fds : List ℕ) where
  -- The loop of `send_on_fd`. `n_written - 1` panics when nothing was written.
  unfoldable pub send_loop : ℕ → ℕ → ℕ → List Packet → Outcome (List Packet)
  send_loop zero buffer_pos fds_pos sent = unfinished
  send_loop (suc fuel) buffer_pos fds_pos sent = elim (add_fds (batch fds fds_pos)) [
    | none ↦ err too_many_fds
    | some ancillary ↦
        let packet = round_packet max serialized fds buffer_pos fds_pos ancillary in
        elim (sendmsg sent packet) [
          | err e ↦ err e
          | panicked ↦ panicked
          | unfinished ↦ unfinished
          | ok zero ↦ panicked
          | ok (suc n) ↦ elim (is_last max serialized fds buffer_pos fds_pos) [
            | true ↦ ok (sent ++ packet ∷ [])
            | false ↦ send_loop fuel (buffer_pos + n) (fds_end fds fds_pos) (sent ++ packet ∷ [])
          ]
        ]
  ]

-- The rounds that are always enough.
abbrev pub send_fuel : List ℕ → List ℕ → ℕ
send_fuel serialized fds = length serialized + length fds + 1

-- What `recvmsg` delivers of a packet.
abbrev pub Recvmsg : Type 0
Recvmsg = Packet → Packet

-- `for cmsg in ancillary.messages()`.
unfoldable pub collect_fds : List Ancillary → List ℕ → Outcome (List ℕ)
collect_fds [] received = ok received
collect_fds (rights fds ∷ cmsgs) received = collect_fds cmsgs (received ++ fds)
collect_fds (other ∷ cmsgs) received = err unexpected_cmsg

-- A message, its descriptors, and what the socket still holds; `none` at the end of the stream.
abbrev pub Received : Type 0
Received = Option (List ℕ × List ℕ) × List Packet

abbrev is_empty : {A : Type 0} → List A → Bool
is_empty [] = true
is_empty _ = false

-- What one packet does: the loop ends with a result, or goes on with more data.
pub data Round : Type 0 where
  stop : Outcome (Option (List ℕ × List ℕ)) → Round
  again : List ℕ → List ℕ → Round

abbrev recv_part : List Ancillary → List ℕ → List ℕ → Outcome (List ℕ) → Round
recv_part ancillary [] serialized (ok fds) =
    if is_empty ancillary
    then stop (if is_empty serialized && is_empty fds then ok none else err unterminated)
    else stop (err empty_message)
recv_part ancillary (m ∷ part) serialized (ok fds) =
    if m == 1 then stop (ok (some (serialized ++ part, fds))) else again (serialized ++ part) fds
recv_part ancillary bytes serialized (err e) = stop (err e)
recv_part ancillary bytes serialized panicked = stop panicked
recv_part ancillary bytes serialized unfinished = stop unfinished

unfoldable pub recv_round : Packet → List ℕ → List ℕ → Round
unfolding collect_fds
recv_round got serialized received_fds =
    recv_part got.ancillary got.bytes serialized (collect_fds got.ancillary received_fds)

abbrev with_queue : {A : Type 0} → List Packet → Outcome A → Outcome (A × List Packet)
with_queue queue (ok a) = ok (a, queue)
with_queue queue (err e) = err e
with_queue queue panicked = panicked
with_queue queue unfinished = unfinished

-- The loop of `recv_on_fd`.
unfoldable pub recv_packets : Recvmsg → List Packet → List ℕ → List ℕ → Outcome Received
recv_packets recvmsg [] serialized received_fds =
    if is_empty serialized && is_empty received_fds then ok (none, []) else err unterminated
recv_packets recvmsg (packet ∷ queue) serialized received_fds =
    elim (recv_round (recvmsg packet) serialized received_fds) [
      | stop result ↦ with_queue queue result
      | again serialized' fds' ↦ recv_packets recvmsg queue serialized' fds'
    ]
