-- ===== src/Ingress/Tests.antt =====
-- src/transport/udp/ingress.rs: the witnesses of the theorems on the RTP of a publisher.
use oxlens_sfu_server.Prelude.{
  ℕ, ◌≡◌, refl, ap, some-injective, inl, inr, Bool-cases, none, some, [], ◌∷◌, arith, if◌then◌else◌,
  same, same_iff, lookup, drop, read32, byte_at, ◌%◌,
}
use oxlens_sfu_server.Floor
use oxlens_sfu_server.Floor.{FloorInner, idle, taken, grant_next, current_speaker}
use oxlens_sfu_server.Floor.Queue.{QueueEntry, retain_others}
use oxlens_sfu_server.Participant
use oxlens_sfu_server.Participant.{
  Participant, SocketAddr, v4, same_addr, publish_pc, MediaSession, EgressPacket, rtp,
  SubscribeLayerEntry,
}
use oxlens_sfu_server.Room.{Room, conference}
use oxlens_sfu_server.Room.Sound.{IsSound, AddrOk, same_addr_iff}
use oxlens_sfu_server.FloorOps.{leave_floor, apply_action, flush_ptt_silence}
use oxlens_sfu_server.Ingress.Shared.{Scene}
use oxlens_sfu_server.Ingress.Payload.{rewrite_ptt, normalize_pt, find_pt}
use oxlens_sfu_server.Rtcp.Header.{parse_rtp_header, is_audio_pt, is_video_pt}
use oxlens_sfu_server.Ingress.HubInvariant.{IsSound-frame, AllSynced, handle_srtp-IsValid}
use oxlens_sfu_server.Hub.{Hub}
use oxlens_sfu_server.Hub.Index.{IsValid}
use oxlens_sfu_server.Ingress.Mbcp.{Texts}
use oxlens_sfu_server.FloorOps.Effects.{fold}
use oxlens_sfu_server.Ingress.Forwarding.{Gets}
use oxlens_sfu_server.Ingress.Retyped.{Retyped}
use oxlens_sfu_server.Ingress.Gate.{relay_rtp-gated, relay_rtp-conference, relay_rtp-virtual}
use oxlens_sfu_server.Ingress.Unswitched.{leave_then_relay}
use oxlens_sfu_server.Ingress.{relay_rtp, handle_srtp}
use oxlens_sfu_server.Ingress.Samples.{
  whole, home, camera, voice, alice, bob, people, members, lounge, talk, scene, clock,
  members-UserOk, lounge-IsSound, talk-IsSound, clear,
}

-- Bob does not hold the floor.
relay_rtp-gated_example : (relay_rtp whole (scene talk) 1 0 clock voice).store 0 ≡ people 0
unfolding Participant.new current_speaker same
relay_rtp-gated_example =
    relay_rtp-gated whole (scene talk) 1 0 clock voice 0 refl
      (λ e. ground (arith, ap (same "alice") (some-injective e))) (omega arith)

relay_rtp-conference_example :
    Retyped (camera ∷ []) voice voice
    × (111 ≡ byte_at voice 1 % 128)
    × ((relay_rtp whole (scene (lounge conference)) 0 0 clock voice).store 1 ≡ Gets bob voice)
unfolding normalize_pt find_pt parse_rtp_header is_video_pt Participant.new lookup same
relay_rtp-conference_example =
    relay_rtp-conference whole (scene (lounge conference)) 0 0 clock voice "bob" 1 refl
      (lounge-IsSound conference) (omega arith) refl refl refl

relay_rtp-virtual_example :
    let out = (rewrite_ptt talk voice (parse_rtp_header voice) "alice" 50).1 in
    (read32 out 8 ≡ 1)
    × (drop 12 out ≡ 0xaa ∷ [])
    × ((relay_rtp whole (scene talk) 0 0 clock voice).store 1 ≡ Gets bob out)
unfolding normalize_pt find_pt parse_rtp_header is_audio_pt is_video_pt Participant.new lookup same
    current_speaker
relay_rtp-virtual_example =
    relay_rtp-virtual whole (scene talk) 0 0 clock voice "bob" 1 refl talk-IsSound refl (refl, refl)
      refl (omega arith) (omega arith) (inl (refl, refl)) refl refl

abbrev bob_waits : QueueEntry
bob_waits = record { user_id = "bob"; priority = 0; enqueued_at = 2000 }

abbrev waiting : Room
waiting = record talk {
  floor = record { state = taken "alice" 0 1000 1000; queue = bob_waits ∷ []; prev_speaker = none };
}

abbrev left : Scene ℕ
left = scene (leave_floor people "alice" 4000 80 waiting).room

left-IsSound : IsSound people left.room
unfolding leave_floor Floor.on_participant_leave grant_next retain_others fold apply_action
    flush_ptt_silence same
left-IsSound = IsSound-frame people talk left.room refl talk-IsSound

leave_then_relay_example :
    (current_speaker left.room.floor ≡ some "bob")
    × ((relay_rtp whole left 1 0 clock voice).store 0 ≡ Gets alice voice)
unfolding leave_floor Floor.on_participant_leave grant_next retain_others fold apply_action
    flush_ptt_silence same current_speaker lookup Participant.new normalize_pt find_pt
    parse_rtp_header
leave_then_relay_example =
    leave_then_relay people "alice" 4000 80 waiting bob_waits [] whole left 1 0 clock voice "alice"
      0 refl refl refl refl refl left-IsSound refl refl refl refl

-- Alice's packets come from her address.
abbrev mapped : Room
mapped = record talk { by_addr = λ a. if same_addr home a then some (0, publish_pc) else none }

abbrev hub : Hub ℕ
hub = record {
  store = people;
  rooms = ("r", mapped) ∷ [];
  ufrag_index = λ u. none;
  addr_index = λ a. if same_addr home a then some "r" else none;
}

mapped-AddrOk : (a : SocketAddr) → AddrOk people members a (mapped.by_addr a)
unfolding Participant.new lookup same
mapped-AddrOk a = elim (Bool-cases (same_addr home a)) [
  | inl is ↦ rw is (ap some ((same_addr_iff home a).0 is), refl)
  | inr other ↦ rw other tt
]

hub-IsValid : IsValid hub
unfolding lookup
hub-IsValid id = elim (Bool-cases (same "r" id)) [
  | inl is ↦ rw is (
    (same_iff "r" id).0 is,
    record {
      unique = talk-IsSound.unique;
      users = members-UserOk;
      ufrags = λ u. tt;
      addrs = mapped-AddrOk;
    },
  )
  | inr other ↦ rw other tt
]

hub-AllSynced : AllSynced hub
unfolding lookup current_speaker
hub-AllSynced id = elim (Bool-cases (same "r" id)) [
  | inl is ↦ rw is (refl, refl)
  | inr other ↦ rw other tt
]

abbrev plain_texts : Texts
plain_texts = record {
  as_bytes = λ s. [];
  denied_text = λ reason speaker. [];
  queued_text = λ position priority queue_size. [];
}

handle_srtp-IsValid_example :
    let after = (handle_srtp plain_texts clear (λ gs. gs) whole hub 0 clock voice home).0 in
    IsValid after × AllSynced after
handle_srtp-IsValid_example =
    handle_srtp-IsValid plain_texts clear (λ gs. gs) whole hub 0 clock voice home hub-IsValid
      hub-AllSynced
