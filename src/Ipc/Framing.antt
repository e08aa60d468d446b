-- ===== src/Ipc/Framing.antt =====
-- The packets that `send_on_fd` makes of a message are what `recv_on_fd` puts together again.
use mathlib.Core.Path.{ap₂, subst, subst₂}
use sunwalker_box.Common.{
  ℕ, zero, suc, ◌+◌, ◌-◌, ◌≤◌, ◌<◌, ◌≡◌, refl, Bool, true, false, none, some, List, [], ◌∷◌, ◌++◌,
  arith, length, take, drop, ap, ◌∙◌, sym, length-take, length-drop, take-append-drop, drop-drop,
  take-of_le, drop-of_le, append_assoc, append-nil, Bool-cases, inl, inr,
}
use sunwalker_box.Ipc.{
  ok, rights, Packet, add_fds, marker, Sendmsg, buffer_end, fds_end, is_last, payload, batch,
  round_packet, recv_round, send_loop, Recvmsg, recv_packets,
}

-- What SOCK_SEQPACKET promises: a packet of at most `max` bytes is sent whole, and a packet with
-- room for its descriptors is received as it was sent.
pub record IsSeqpacket (max : ℕ) (sendmsg : Sendmsg) (recvmsg : Recvmsg) : Type 0 where
  pub sends_whole :
      (sent : List Packet) (p : Packet)
      → length p.bytes ≤ max
      → sendmsg sent p ≡ ok (length p.bytes)
  pub delivers_whole :
      (p : Packet) (fds : List ℕ)
      → length p.bytes ≤ max
      → p.ancillary ≡ rights fds ∷ []
      → length fds ≤ 58
      → recvmsg p ≡ p

pub add_fds_lem : (fds : List ℕ) → length fds ≤ 58 → add_fds fds ≡ some (rights fds ∷ [])
unfolding add_fds
add_fds_lem fds h = ground arith

pub add_fds-too_many : (fds : List ℕ) → 58 < length fds → add_fds fds ≡ none
unfolding add_fds
add_fds-too_many fds h = ground arith

-- Cutting a slice out of the middle leaves the rest.
slice_rest : (p k : ℕ) (xs : List ℕ) → take k (drop p xs) ++ drop (p + k) xs ≡ drop p xs
slice_rest p k xs =
    ap (λ l. take k (drop p xs) ++ l) (sym (drop-drop k p xs)) ∙ take-append-drop k (drop p xs)

-- What is left to send from a position, and that it arrives.
abbrev pub Arrives : Recvmsg → List Packet → List ℕ → List ℕ → Type 0
Arrives recvmsg packets part part_fds =
    (serialized fds : List ℕ) (queue : List Packet)
    → recv_packets recvmsg (packets ++ queue) serialized fds
      ≡ ok (some (serialized ++ part, fds ++ part_fds), queue)

module _ (max : ℕ) (sendmsg : Sendmsg) (recvmsg : Recvmsg)
    (socket : IsSeqpacket max sendmsg recvmsg) (room : 1 < max) where
  -- The receiver's round on the last packet, and on one before it.
  last-Arrives :
      (part part_fds : List ℕ)
      → length part < max
      → length part_fds ≤ 58
      → Arrives recvmsg
          (record { bytes = 1 ∷ part; ancillary = rights part_fds ∷ [] } ∷ [])
          part
          part_fds
  unfolding recv_packets
  last-Arrives part part_fds fits few serialized fds queue =
      let packet : Packet = record { bytes = 1 ∷ part; ancillary = rights part_fds ∷ [] } in
      rw (socket.delivers_whole packet part_fds fits refl few, recv_packets)
        (unfold recv_round in refl)

  more-Arrives :
      (part part_fds : List ℕ) (packets : List Packet) (rest rest_fds : List ℕ)
      → length part < max
      → length part_fds ≤ 58
      → Arrives recvmsg packets rest rest_fds
      → Arrives recvmsg
          (record { bytes = 0 ∷ part; ancillary = rights part_fds ∷ [] } ∷ packets)
          (part ++ rest)
          (part_fds ++ rest_fds)
  unfolding recv_packets
  more-Arrives part part_fds packets rest rest_fds fits few later serialized fds queue =
      let packet : Packet = record { bytes = 0 ∷ part; ancillary = rights part_fds ∷ [] } in
      rw (socket.delivers_whole packet part_fds fits refl few, recv_packets)
        (unfold recv_round in
          (later (serialized ++ part) (fds ++ part_fds) queue
            ∙ ap₂ (λ s f. ok (some (s, f), queue)) (append_assoc serialized part rest)
                (append_assoc fds part_fds rest_fds)))

  module _ (serialized fds : List ℕ) where
    length-payload :
        (bp : ℕ)
        → bp ≤ length serialized
        → length (payload max serialized bp) ≡ buffer_end max serialized bp - bp
    length-payload bp h =
        omega (arith, length-take _ (drop bp serialized), length-drop bp serialized)

    payload_rest :
        (bp : ℕ)
        → bp ≤ length serialized
        → payload max serialized bp ++ drop (bp + length (payload max serialized bp)) serialized
          ≡ drop bp serialized
    payload_rest bp h = rw (length-payload bp h) (slice_rest bp _ serialized)

    -- The first batch takes every descriptor, where all of them fit one packet.
    batch_all :
        (fp : ℕ)
        → fp ≤ length fds
        → length fds - fp ≤ 58
        → (batch fds fp ≡ drop fp fds) × (fds_end fds fp ≡ length fds)
    batch_all fp h few = (take-of_le _ _ (omega (arith, length-drop fp fds)), omega arith)

    last_end :
        (bp fp : ℕ)
        → is_last max serialized fds bp fp ≡ true
        → buffer_end max serialized bp ≡ length serialized
    last_end bp fp h = ground arith

    more_end :
        (bp fp : ℕ)
        → fds_end fds fp ≡ length fds
        → is_last max serialized fds bp fp ≡ false
        → buffer_end max serialized bp ≡ bp + max - 1
    more_end bp fp all h = ground arith

    payload_last :
        (bp fp : ℕ)
        → bp ≤ length serialized
        → is_last max serialized fds bp fp ≡ true
        → payload max serialized bp ≡ drop bp serialized
    payload_last bp fp hb h =
        take-of_le _ _ (omega (arith, length-drop bp serialized, last_end bp fp h))

    batch_rest :
        (fp : ℕ)
        → fp ≤ length fds
        → length fds - fp ≤ 58
        → batch fds fp ++ drop (fds_end fds fp) fds ≡ drop fp fds
    batch_rest fp hf few =
        rw (batch_all fp hf few).0
          (ap (λ l. drop fp fds ++ l) (drop-of_le _ fds (omega arith)) ∙ append-nil (drop fp fds))

    -- From every position the loop sends packets that carry what was left.
    pub send_loop_lem :
        (fuel bp fp : ℕ) (sent : List Packet)
        → bp ≤ length serialized
        → fp ≤ length fds
        → length fds - fp ≤ 58
        → length serialized - bp < fuel
        → (packets : List Packet) × (send_loop max sendmsg serialized fds fuel bp fp sent
            ≡ ok (sent ++ packets))
          × Arrives recvmsg packets (drop bp serialized) (drop fp fds)
    unfolding send_loop
    send_loop_lem zero bp fp sent hb hf few hfuel = absurd (omega arith)
    send_loop_lem (suc fuel) bp fp sent hb hf few hfuel =
        let part = payload max serialized bp in
        let packet = round_packet max serialized fds bp fp (rights (batch fds fp) ∷ []) in
        let all = batch_all fp hf few in
        let size = length-payload bp hb in
        let with_marker : ℕ → Packet =
          λ m. record { bytes = m ∷ part; ancillary = rights (batch fds fp) ∷ [] } in
        let marked : (b : Bool)
            → is_last max serialized fds bp fp ≡ b
            → packet ≡ with_marker (marker b) =
          λ b e. ap (λ b. with_marker (marker b)) e in
        let fits : length part < max = omega arith in
        let slots : length (batch fds fp) ≤ 58 = rw all.0 (omega (arith, length-drop fp fds)) in
        rw (add_fds_lem (batch fds fp) slots, send_loop)
          (rw (socket.sends_whole sent packet fits)
            (elim (Bool-cases (is_last max serialized fds bp fp)) [
              | inl last ↦ rw last (
                packet ∷ [],
                refl,
                subst (λ p. Arrives recvmsg (p ∷ []) (drop bp serialized) (drop fp fds))
                    (sym (marked true last))
                    (subst₂ (Arrives recvmsg (with_marker 1 ∷ [])) (payload_last bp fp hb last)
                      all.0 (last-Arrives part (batch fds fp) fits slots)),
              )
              | inr more ↦
                  let end = more_end bp fp all.1 more in
                  rw more (
                    let (packets, sends, arrives) =
                      send_loop_lem fuel (bp + length part) (fds_end fds fp) (sent ++ packet ∷ [])
                        (omega arith) (omega arith) (omega arith) (omega arith) in
                    (
                      packet ∷ packets,
                      sends ∙ ap ok (append_assoc sent (packet ∷ []) packets),
                      subst (λ p. Arrives recvmsg (p ∷ packets) (drop bp serialized) (drop fp fds))
                          (sym (marked false more))
                          (subst₂ (Arrives recvmsg (with_marker 0 ∷ packets)) (payload_rest bp hb)
                            (batch_rest fp hf few)
                            (more-Arrives part (batch fds fp) packets _ _ fits slots arrives)),
                    ))
            ]))
