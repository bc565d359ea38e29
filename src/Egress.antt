-- ===== src/Egress.antt =====
-- src/transport/udp/egress.rs: what is sent: the queue of a subscriber (`run_egress_task`), and what the
-- server sends to the publishers on its own: PLIs, bandwidth feedback and receiver reports. What is
-- sent is a list of addresses with the encrypted bytes. The logs and the global counters are left out.
pub mod Laws
mod Tests
use oxlens_sfu_server.Prelude.{
  ℕ, ◌+◌, ◌-◌, ◌*◌, ◌/◌, ◌%◌, String, Bool, true, false, not, ◌&&◌, Option, none, some, List, [],
  ◌∷◌, ◌++◌, ltb, leb, ◌==◌, if◌then◌else◌, same, length, byte_at, read16, read32, and_then,
}
use oxlens_sfu_server.Rtcp.Header.{fixed_len, is_audio_pt, is_rtx_pt}
use oxlens_sfu_server.Rtcp.Feedback.{build_pli, build_remb}
use oxlens_sfu_server.Terminator.{Float64, RecvStats, RrReportBlock, build_rr_block}
use oxlens_sfu_server.Terminator.Report.{build_receiver_report}
use oxlens_sfu_server.Terminator.Source
use oxlens_sfu_server.Terminator.Source.{SendStats, on_rtp_sent}
use oxlens_sfu_server.Twcc.Feedback.{build_twcc_feedback}
use oxlens_sfu_server.Participant.{
  Participant, SocketAddr, PcType, publish_pc, subscribe_pc, EgressPacket, rtp, rtcp,
}
use oxlens_sfu_server.Room.{Pointer, Store, Room, write}
use oxlens_sfu_server.FloorOps.Effects.{video_ssrc}
use oxlens_sfu_server.Ingress.Reception.{clock_rate_audio, clock_rate_video}
use oxlens_sfu_server.Ingress.Feedback.{Transport}

abbrev pub Sent : Type 0
Sent = List (SocketAddr × List ℕ)

-- The length of the header with the CSRCs and the extension.
abbrev pub header_len : List ℕ → ℕ
header_len packet =
    let fixed = fixed_len packet in
    if byte_at packet 0 / 16 % 2 == 1 && leb (fixed + 4) (length packet)
    then fixed + (4 + read16 packet (fixed + 2) * 4)
    else fixed

-- `entry(ssrc).or_insert_with(..)`
abbrev pub stats_or_new : (ssrc pt : ℕ) → Option SendStats → SendStats
stats_or_new ssrc pt (some stats) = stats
stats_or_new ssrc pt none =
    Source.new ssrc (if is_audio_pt pt then clock_rate_audio else clock_rate_video)

-- Whether a packet counts: it has a header, and is not a retransmission.
abbrev pub is_counted : List ℕ → Bool
is_counted packet = leb 12 (length packet) && not (is_rtx_pt (byte_at packet 1 % 128))

abbrev pub sent_to : SocketAddr → Option (List ℕ) → Sent
sent_to addr none = []
sent_to addr (some encrypted) = (addr, encrypted) ∷ []

-- What the loops over the publishers find of one: its address and its video stream.
abbrev pub both : Option SocketAddr → Option ℕ → Option (SocketAddr × ℕ)
both none ssrc = none
both (some addr) none = none
both (some addr) (some ssrc) = some (addr, ssrc)

-- The encrypted bytes, if the encryption and the socket take them.
abbrev pub taken : Transport → SocketAddr → Option (List ℕ) → Option (List ℕ)
taken x addr none = none
taken x addr (some encrypted) = if x.send_to addr encrypted then some encrypted else none

-- The feedback that the recorder has made, if any.
abbrev pub send_plain : Transport → Pointer → SocketAddr → Option (List ℕ) → Sent
send_plain x at addr none = []
send_plain x at addr (some plain) = sent_to addr (taken x addr (x.encrypt_rtcp at publish_pc plain))

module _ {F : Type 0} where
  abbrev pub with_stats : Participant F → (ssrc : ℕ) → SendStats → Participant F
  with_stats p ssrc stats = record p {
    send_stats = λ q. if q == ssrc then some stats else p.send_stats q;
  }

  unfoldable pub note_sent : Participant F → List ℕ → (now : ℕ) → Participant F
  note_sent p packet now =
      let ssrc = read32 packet 8 in
      if is_counted packet
      then with_stats p ssrc (
          on_rtp_sent (stats_or_new ssrc (byte_at packet 1 % 128) (p.send_stats ssrc))
            (read32 packet 4) (length packet - header_len packet) now)
      else p

  module _ (x : Transport) (at : Pointer) (now : ℕ) where
    -- One packet of the queue; without an address it is dropped.
    abbrev pub send_packet : Participant F → EgressPacket → Option SocketAddr → Participant F × Sent
    send_packet p packet none = (p, [])
    send_packet p (rtp packet) (some addr) =
        (note_sent p packet now, sent_to addr (x.encrypt_rtp at subscribe_pc packet))
    send_packet p (rtcp packet) (some addr) =
        (p, sent_to addr (x.encrypt_rtcp at subscribe_pc packet))

    -- The loop over the packets that are in the queue.
    unfoldable pub send_queued : Participant F → List EgressPacket → Participant F × Sent
    send_queued p [] = (p, [])
    send_queued p (packet ∷ packets) =
        let (q, sent) = send_packet p packet p.subscribe.address in
        let rest = send_queued q packets in (rest.0, sent ++ rest.1)

    -- A round of the task: the queue that it finds is sent, and is empty.
    unfoldable pub run_egress_task : Participant F → Participant F × Sent
    run_egress_task p = send_queued (record p { egress = [] }) p.egress

  abbrev pub video_of : Participant F → Option (SocketAddr × ℕ)
  video_of p = if p.publish.is_ready then both p.publish.address (video_ssrc p.tracks) else none

  module _ (x : Transport) where
    abbrev pub count_pli : Participant F → Option (List ℕ) → Participant F
    count_pli p none = p
    count_pli p (some encrypted) = record p {
      pipeline = record p.pipeline { pub_pli_received = p.pipeline.pub_pli_received + 1 };
    }

    abbrev pub send_pli : Pointer → Participant F → Option (SocketAddr × ℕ) → Participant F × Sent
    send_pli at p none = (p, [])
    send_pli at p (some (addr, ssrc)) =
        let out = taken x addr (x.encrypt_rtcp at publish_pc (build_pli ssrc)) in
        (count_pli p out, sent_to addr out)

    abbrev pub send_remb :
        (bitrate : ℕ) → Pointer → Participant F → Option (SocketAddr × ℕ) → Participant F × Sent
    send_remb bitrate at p none = (p, [])
    send_remb bitrate at p (some (addr, ssrc)) =
        (p, sent_to addr (taken x addr (x.encrypt_rtcp at publish_pc (build_remb bitrate ssrc))))

    abbrev pub send_twcc : Pointer → Participant F → Option (SocketAddr × ℕ) → Participant F × Sent
    send_twcc at p none = (p, [])
    send_twcc at p (some (addr, ssrc)) =
        let (recorder, feedback) = build_twcc_feedback p.twcc_recorder ssrc in
        (record p { twcc_recorder = recorder }, send_plain x at addr feedback)

    -- The loop over the members of a room.
    unfoldable pub for_publishers :
        (wanted : Participant F → Bool)
        → (Pointer → Participant F → Option (SocketAddr × ℕ) → Participant F × Sent)
        → Store F
        → List (String × Pointer)
        → Store F × Sent
    for_publishers wanted send st [] = (st, [])
    for_publishers wanted send st (e ∷ es) =
        let (p, sent) =
          if wanted (st e.1) then send e.1 (st e.1) (video_of (st e.1)) else (st e.1, []) in
        let rest = for_publishers wanted send (write st e.1 p) es in (rest.0, sent ++ rest.1)

    unfoldable pub send_pli_to_publishers :
        (exclude_user : String) → Store F → Room → Store F × Sent
    send_pli_to_publishers exclude_user st r =
        for_publishers (λ p. not (same p.user_id exclude_user)) send_pli st r.participants

    -- One room in a round of the tasks.
    unfoldable pub send_remb_to_publishers : (bitrate : ℕ) → Store F → Room → Store F × Sent
    send_remb_to_publishers bitrate st r =
        for_publishers (λ p. true) (send_remb bitrate) st r.participants

    unfoldable pub send_twcc_to_publishers : Store F → Room → Store F × Sent
    send_twcc_to_publishers st r = for_publishers (λ p. true) send_twcc st r.participants
