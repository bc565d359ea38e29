-- ===== src/Egress/Laws.antt =====
-- src/transport/udp/egress.rs (`run_egress_task`): the order of what is sent, and what the statistics
-- count of it.
use oxlens_sfu_server.Prelude.{
  ℕ, ◌+◌, ◌%◌, ◌<◌, ◌≡◌, refl, ◌∙◌, sym, ap, subst, inl, inr, Bool-cases, ◌&&◌, Option, none, some,
  List, [], ◌∷◌, ◌++◌, arith, ◌==◌, ==_iff, byte_at, length, ◌-◌, if◌then◌else◌, read32, add32,
  u32_mod,
}
use oxlens_sfu_server.Terminator.Source
use oxlens_sfu_server.Terminator.Source.{SendStats, on_rtp_sent}
use oxlens_sfu_server.Participant.{Participant, SocketAddr, subscribe_pc, EgressPacket, rtp, rtcp}
use oxlens_sfu_server.Room.{Pointer}
use oxlens_sfu_server.Ingress.Feedback.{Transport}
use oxlens_sfu_server.Egress.{
  Sent, stats_or_new, is_counted, note_sent, sent_to, send_packet, send_queued, run_egress_task,
  header_len,
}

-- What goes out of a queue, one packet after the other.
abbrev pub outputs : Transport → Pointer → SocketAddr → List EgressPacket → Sent
outputs x at addr [] = []
outputs x at addr (rtp packet ∷ packets) =
    sent_to addr (x.encrypt_rtp at subscribe_pc packet) ++ outputs x at addr packets
outputs x at addr (rtcp packet ∷ packets) =
    sent_to addr (x.encrypt_rtcp at subscribe_pc packet) ++ outputs x at addr packets

-- How many packets of a stream are in a queue, retransmissions not counted.
abbrev pub packets_of : (ssrc : ℕ) → List EgressPacket → ℕ
packets_of ssrc [] = 0
packets_of ssrc (rtp packet ∷ packets) =
    (if is_counted packet && ssrc == read32 packet 8 then 1 else 0) + packets_of ssrc packets
packets_of ssrc (rtcp packet ∷ packets) = packets_of ssrc packets

-- The packets that the statistics of a stream have counted.
abbrev pub counted : Option SendStats → ℕ
counted none = 0
counted (some stats) = stats.packets_sent

counted-new :
    (ssrc pt rtp_ts payload_len now : ℕ) (o : Option SendStats)
    → (on_rtp_sent (stats_or_new ssrc pt o) rtp_ts payload_len now).packets_sent
      ≡ add32 (counted o) 1
unfolding on_rtp_sent Source.new
counted-new ssrc pt rtp_ts payload_len now none = refl
counted-new ssrc pt rtp_ts payload_len now (some stats) = refl

module _ {F : Type 0} where
  note_sent-keeps :
      (p : Participant F) (packet : List ℕ) (now : ℕ)
      → ((note_sent p packet now).subscribe ≡ p.subscribe)
        × ((note_sent p packet now).egress ≡ p.egress)
  unfolding note_sent
  note_sent-keeps p packet now = elim (Bool-cases (is_counted packet)) [
    | inl counts ↦ rw counts (refl, refl)
    | inr passes ↦ rw passes (refl, refl)
  ]

  note_sent-counts :
      (p : Participant F) (packet : List ℕ) (now ssrc : ℕ)
      → counted (p.send_stats ssrc) < u32_mod
      → counted ((note_sent p packet now).send_stats ssrc)
        ≡ (counted (p.send_stats ssrc)
            + (if is_counted packet && ssrc == read32 packet 8 then 1 else 0))
          % u32_mod
  unfolding note_sent
  note_sent-counts p packet now ssrc lt = elim (Bool-cases (is_counted packet)) [
    | inl counts ↦ elim (Bool-cases (ssrc == read32 packet 8)) [
      | inl here ↦
          let e : ssrc ≡ read32 packet 8 = (==_iff ssrc (read32 packet 8)).0 here in
          rw (counts, here)
            (counted-new (read32 packet 8) (byte_at packet 1 % 128) (read32 packet 4)
                (length packet - header_len packet) now (p.send_stats (read32 packet 8))
              ∙ ap (λ q. add32 (counted (p.send_stats q)) 1) (sym e))
      | inr other ↦ rw (counts, other) (omega (arith, lt))
    ]
    | inr passes ↦ rw passes (omega (arith, lt))
  ]

  module _ (x : Transport) (at : Pointer) (now : ℕ) where
    -- What sending leaves of the participant, and what goes out.
    pub record Drained (p : Participant F) (addr : SocketAddr) (packets : List EgressPacket)
        (out : Participant F × Sent) : Type 0 where
      pub order : out.1 ≡ outputs x at addr packets
      pub address : out.0.subscribe ≡ p.subscribe
      pub queue : out.0.egress ≡ p.egress
      pub counts :
          (ssrc : ℕ)
          → counted (p.send_stats ssrc) < u32_mod
          → counted (out.0.send_stats ssrc)
            ≡ (counted (p.send_stats ssrc) + packets_of ssrc packets) % u32_mod

    -- A round of the loop, where there is an address.
    Drained-of :
        (p : Participant F) (addr : SocketAddr) (packet : EgressPacket)
        (packets : List EgressPacket)
        → p.subscribe.address ≡ some addr
        → Drained p addr (packet ∷ packets) (
            let one = send_packet x at now p packet (some addr) in
            let rest = send_queued x at now one.0 packets in (rest.0, one.1 ++ rest.1))
        → Drained p addr (packet ∷ packets) (send_queued x at now p (packet ∷ packets))
    unfolding send_queued
    Drained-of p addr packet packets latched =
        subst
          (λ o. Drained p addr (packet ∷ packets) (
            let one = send_packet x at now p packet o in
            let rest = send_queued x at now one.0 packets in (rest.0, one.1 ++ rest.1)))
          (sym latched)

    send_queued-Drained :
        (p : Participant F) (addr : SocketAddr) (packets : List EgressPacket)
        → p.subscribe.address ≡ some addr
        → Drained p addr packets (send_queued x at now p packets)
    unfolding send_queued
    send_queued-Drained p addr [] latched = record {
      order = refl;
      address = refl;
      queue = refl;
      counts = λ ssrc lt. omega (arith, lt);
    }
    send_queued-Drained p addr (rtp packet ∷ packets) latched =
        let q = note_sent p packet now in
        let kept = note_sent-keeps p packet now in
        let rest = send_queued-Drained q addr packets (ap (λ m. m.address) kept.0 ∙ latched) in
        Drained-of p addr (rtp packet) packets latched (record {
          order = ap (λ o. sent_to addr (x.encrypt_rtp at subscribe_pc packet) ++ o) rest.order;
          address = rest.address ∙ kept.0;
          queue = rest.queue ∙ kept.1;
          counts = λ ssrc lt.
              let once = note_sent-counts p packet now ssrc lt in
              let later = rest.counts ssrc (omega (arith, once)) in omega (arith, once, later);
        })
    send_queued-Drained p addr (rtcp packet ∷ packets) latched =
        let rest = send_queued-Drained p addr packets latched in
        Drained-of p addr (rtcp packet) packets latched (record {
          order = ap (λ o. sent_to addr (x.encrypt_rtcp at subscribe_pc packet) ++ o) rest.order;
          address = rest.address;
          queue = rest.queue;
          counts = rest.counts;
        })

    -- Where the subscriber's address is known, a round of its egress task empties the queue and sends
    -- its packets in their order, each as the encryption makes it, less those it refuses. The
    -- statistics of each stream then count, besides what they had counted, the packets of the stream
    -- that were in the queue, retransmissions not among them, modulo the range of the count.
    pub run_egress_task-Drained :
        (p : Participant F) (addr : SocketAddr)
        → p.subscribe.address ≡ some addr
        → Drained (record p { egress = [] }) addr p.egress (run_egress_task x at now p)
    unfolding run_egress_task
    run_egress_task-Drained p addr latched =
        send_queued-Drained (record p { egress = [] }) addr p.egress latched
