-- ===== src/Ingress/RtcpTests.antt =====
-- src/transport/udp/ingress.rs: the witnesses of the theorems on the RTCP of a subscriber and on the
-- layers of a publisher.
use oxlens_sfu_server.Prelude.{
  ℕ, ◌≤◌, ◌≡◌, refl, ◌≢◌, true, false, none, some, List, [], ◌∷◌, arith, same, lookup, take, drop,
  read16, length,
}
use oxlens_sfu_server.Floor.{current_speaker}
use oxlens_sfu_server.Ptt.{reverse_seq}
use oxlens_sfu_server.RtpCache
use oxlens_sfu_server.Rtcp.Nack.{NackItem, expand_nack, lost_from}
use oxlens_sfu_server.Participant
use oxlens_sfu_server.Participant.TrackList.{find_ssrc}
use oxlens_sfu_server.Participant.{
  Participant, SocketAddr, v4, same_addr, publish_pc, MediaSession, EgressPacket, rtp,
  SubscribeLayerEntry,
}
use oxlens_sfu_server.Room.{conference}
use oxlens_sfu_server.Ingress.Shared.{send_publish}
use oxlens_sfu_server.Rtcp.Rtx.Laws.{IsHead}
use oxlens_sfu_server.Rtcp.Compound.{assemble_compound}
use oxlens_sfu_server.Participant.TrackList.{has_ssrc}
use oxlens_sfu_server.Room.{find_participant}
use oxlens_sfu_server.Ingress.Nack.{lookup_of, handle_nack_block, handle_item, answer_nack}
use oxlens_sfu_server.Ingress.Budget.{Answers, IsAnswer, handle_item-Answers}
use oxlens_sfu_server.Ingress.Escalation.{IsKept, handle_nack_block-Answers, escalate_then_nack}
use oxlens_sfu_server.Ingress.OriginalNumber.{Answerable, handle_item-original_number}
use oxlens_sfu_server.Ingress.Feedback.{Group, relay_group}
use oxlens_sfu_server.Ingress.Throttle.{relay_group-unthrottled}
use oxlens_sfu_server.FloorOps.Effects.{video_ssrc}
use oxlens_sfu_server.RtpCache.{slot}
use oxlens_sfu_server.Ingress.Layers.{serve_all}
use oxlens_sfu_server.Ingress.LayerEntry.{queued, chosen, advanced, watched}
use oxlens_sfu_server.Ingress.LayerLaws.{serve_all-at}
use oxlens_sfu_server.Ingress.Samples.{
  home, frame5, people, members, lounge, heard, talk, scene, lounge-IsSound, clear,
}

-- Bob asks for number 5 of alice's camera.
abbrev lost_frame : NackItem
lost_frame = record { media_ssrc = 9; pid = 5; blp = 0 }

handle_item-Answers_example :
    let s = scene (lounge conference) in
    Answers (IsAnswer s 1 lost_frame) 1 people (handle_item s 1 2000 lost_frame).store
handle_item-Answers_example = handle_item-Answers (scene (lounge conference)) 1 2000 lost_frame

abbrev nack : List ℕ
nack = 0x81 ∷ 205 ∷ 0 ∷ 3 ∷ 0 ∷ 0 ∷ 0 ∷ 1 ∷ 0 ∷ 0 ∷ 0 ∷ 9 ∷ 0 ∷ 5 ∷ 0 ∷ 0 ∷ []

handle_nack_block-Answers_example :
    Answers
      (IsKept people)
      1
      people
      (handle_nack_block (scene (lounge conference)) 1 2000 nack).store
handle_nack_block-Answers_example =
    handle_nack_block-Answers (scene (lounge conference)) 1 2000 nack

-- Two packets were asked for, and one was found.
escalate_then_nack_example :
    let t = answer_nack (scene (lounge conference)) 1 0 2000 9 2 (frame5 ∷ []) in
    handle_nack_block t 1 6999 nack ≡ t
escalate_then_nack_example =
    escalate_then_nack (scene (lounge conference)) 1 0 2000 9 2 (frame5 ∷ []) 6999 nack refl
      (omega arith)

abbrev pli : List ℕ
pli = 0x81 ∷ 206 ∷ 0 ∷ 2 ∷ 0 ∷ 0 ∷ 0 ∷ 1 ∷ 0 ∷ 0 ∷ 0 ∷ 9 ∷ []

abbrev plis : Group
plis = record { ssrc = 9; blocks = pli ∷ []; plis = 1 }

-- The last one went to alice one second ago.
relay_group-unthrottled_example :
    (relay_group clear (scene (lounge conference)) plis 2000).effects ≡ send_publish 0 home pli ∷ []
unfolding Participant.new find_participant has_ssrc assemble_compound
relay_group-unthrottled_example =
    relay_group-unthrottled clear (scene (lounge conference)) plis 2000 0 home pli [] pli refl refl
      refl refl refl refl refl

-- A keyframe of bob's comes, for which alice has no entry yet.
serve_all-at_example :
    let t = serve_all "bob" "h" frame5 true 77 50 1 (scene (lounge conference)) false members in
    ((t.store 0).egress ≡ queued [] (chosen "h" frame5 true (watched 77 none)))
    × ((t.store 0).subscribe_layers "bob"
        ≡ some (advanced "h" frame5 true 50 true (watched 77 none)))
    × (length t.effects ≤ 1)
unfolding Participant.new lookup same
serve_all-at_example =
    serve_all-at "bob" "h" frame5 true 77 50 1 (scene (lounge conference)) "alice" 0
      (lounge-IsSound conference) refl refl refl

-- Bob asks for number 105 of the virtual video, which is number 5 of alice's camera.
abbrev lost_virtual : NackItem
lost_virtual = record { media_ssrc = 2; pid = 105; blp = 0 }

abbrev answerable : Answerable (scene talk) 1 2000 lost_virtual 105 frame5
unfolding Participant.new find_participant has_ssrc lookup_of expand_nack lost_from current_speaker
    lookup same video_ssrc reverse_seq RtpCache.get RtpCache.store RtpCache.new slot find_ssrc
answerable = record {
  publisher = 0;
  rtx_ssrc = 1009;
  plain = refl;
  virtual = refl;
  single = refl;
  found = (refl, refl);
  heard = refl;
  cached = refl;
  other = omega arith;
  ranged = (omega arith, omega arith);
  affordable = omega arith;
  room_left = omega arith;
}

head5 : IsHead (take 12 frame5)
head5 = record { long = omega arith; whole = refl; bytes = omega arith }

handle_item-original_number_example :
    (bytes : List ℕ) × (((handle_item (scene talk) 1 2000 lost_virtual).store 1).egress
      ≡ rtp bytes ∷ [])
    × (read16 bytes 12 ≡ reverse_seq heard 105)
    × (read16 bytes 12 ≢ 105)
unfolding Participant.new reverse_seq
handle_item-original_number_example =
    handle_item-original_number (scene talk) 1 2000 lost_virtual 105 (take 12 frame5)
      (drop 12 frame5) answerable head5 (omega arith)
