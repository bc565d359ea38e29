-- ===== src/Ingress/Mbcp.antt =====
-- src/transport/udp/ingress.rs: floor control over RTCP (`handle_mbcp_from_publish`), and what becomes
-- of the floor's actions there (`apply_mbcp_floor_actions`). Texts are bytes on the wire: the
-- conversion of a name and the two formatted messages are of Rust's standard library.
use oxlens_sfu_server.Prelude.{
  ℕ, String, Bool, true, false, Option, none, some, List, [], ◌∷◌, ◌==◌, if◌then◌else◌,
}
use oxlens_sfu_server.Floor
use oxlens_sfu_server.Floor.{
  FloorInner, FloorAction, granted, denied, queued, released, revoked, ping_ok, ping_denied,
  not_ptt_room, default_config,
}
use oxlens_sfu_server.Rtcp.Mbcp.{MbcpMessage, build_mbcp_app}
use oxlens_sfu_server.Participant.{Participant, rtcp, try_send}
use oxlens_sfu_server.Room.{Pointer, Room, RoomMode, conference, ptt, get_participant}
use oxlens_sfu_server.FloorOps.Effects.{
  floor_taken, floor_idle, floor_default_priority, new_packet, taken_body, idle_body, switch_both,
  clear_both, video_ssrc, with_floor,
}
use oxlens_sfu_server.Ingress.Shared.{
  Clock, Scene, Effect, cancel_pli, to_room, burst_to, emit, set_member, for_ready,
}

-- `as_bytes`, and the formats of the denial and of the place in the queue.
pub record Texts : Type 0 where
  pub as_bytes : String → List ℕ
  pub denied_text : (reason speaker : String) → List ℕ
  pub queued_text : (position priority queue_size : ℕ) → List ℕ

-- The subtypes of src/config.rs.
abbrev pub subtype_freq : ℕ
subtype_freq = 0

abbrev pub subtype_frel : ℕ
subtype_frel = 1

abbrev pub subtype_ftkn : ℕ
subtype_ftkn = 2

abbrev pub subtype_fidl : ℕ
subtype_fidl = 3

abbrev pub subtype_frvk : ℕ
subtype_frvk = 4

abbrev pub subtype_fpng : ℕ
subtype_fpng = 5

abbrev pub with_room : {F : Type 0} → Scene F → Room → Scene F
with_room s r = record s { room = r }

-- The loop before the actions of a release: the rewriters are cleared for each `released`, and
-- the frames that the audio rewriter makes are dropped.
abbrev pub is_released : FloorAction → Bool
is_released (released prev_speaker) = true
is_released (granted speaker priority duration_s) = false
is_released (denied reason current_speaker) = false
is_released (queued user_id position priority queue_size) = false
is_released (revoked prev_speaker cause) = false
is_released ping_ok = false
is_released ping_denied = false
is_released not_ptt_room = false

unfoldable pub clear_released : (instant : ℕ) → Room → List FloorAction → Room
clear_released instant r [] = r
clear_released instant r (a ∷ actions) =
    clear_released instant (if is_released a then clear_both r instant else r) actions

module _ {F : Type 0} where
  abbrev pub queue_rtcp : List ℕ → Participant F → Participant F
  queue_rtcp packet p = (try_send p (rtcp packet)).0

  unfoldable pub broadcast_mbcp_to_subscribers : Scene F → List ℕ → Scene F
  broadcast_mbcp_to_subscribers s packet = record s {
    store = for_ready (λ u. true) (queue_rtcp packet) s.store s.room.participants;
  }

  unfoldable pub send_mbcp_to_participant : Scene F → Pointer → List ℕ → Scene F
  send_mbcp_to_participant s at packet =
      if (s.store at).subscribe.is_ready
      then set_member s at (queue_rtcp packet (s.store at))
      else s

  -- `send_pli_burst`
  abbrev pub speaker_burst : Scene F → Option Pointer → List Effect
  speaker_burst s none = []
  speaker_burst s (some p) =
      burst_to p (s.store p) (s.store p).publish.address (video_ssrc (s.store p).tracks)
        (0 ∷ 500 ∷ 1500 ∷ [])

  -- The previous speaker, if it is there: its burst ends, and it is told.
  abbrev pub revoke_speaker : Scene F → List ℕ → Option Pointer → Scene F
  revoke_speaker s packet none = s
  revoke_speaker s packet (some p) = send_mbcp_to_participant (emit s (cancel_pli p ∷ [])) p packet

  module _ (x : Texts) (requester : Pointer) (instant : ℕ) where
    unfoldable pub mbcp_action : Scene F → FloorAction → Scene F
    mbcp_action s (granted speaker priority duration_s) =
        emit
          (broadcast_mbcp_to_subscribers
            (emit (with_room s (switch_both s.room speaker instant))
              (speaker_burst s (get_participant s.room speaker)))
            (build_mbcp_app subtype_ftkn 0 (some (x.as_bytes speaker))))
          (to_room (new_packet floor_taken 0 (taken_body s.room.id speaker priority)) ∷ [])
    mbcp_action s (denied reason current_speaker) =
        send_mbcp_to_participant s requester
          (build_mbcp_app subtype_frvk 0 (some (x.denied_text reason current_speaker)))
    mbcp_action s (queued user_id position priority queue_size) =
        send_mbcp_to_participant s requester
          (build_mbcp_app subtype_frvk 0 (some (x.queued_text position priority queue_size)))
    mbcp_action s (released prev_speaker) =
        emit
          (broadcast_mbcp_to_subscribers s
            (build_mbcp_app subtype_fidl 0 (some (x.as_bytes prev_speaker))))
          (to_room (new_packet floor_idle 0 (idle_body s.room.id prev_speaker none)) ∷ [])
    mbcp_action s (revoked prev_speaker cause) =
        let told =
          revoke_speaker s (build_mbcp_app subtype_frvk 0 (some (x.as_bytes cause)))
            (get_participant s.room prev_speaker) in
        emit
          (broadcast_mbcp_to_subscribers (with_room told (clear_both told.room instant))
            (build_mbcp_app subtype_fidl 0 (some (x.as_bytes prev_speaker))))
          (to_room (new_packet floor_idle 0 (idle_body s.room.id prev_speaker none)) ∷ [])
    mbcp_action s ping_ok = s
    mbcp_action s ping_denied = s
    mbcp_action s not_ptt_room = s

    unfoldable pub apply_mbcp_floor_actions : Scene F → List FloorAction → Scene F
    apply_mbcp_floor_actions s [] = s
    apply_mbcp_floor_actions s (a ∷ actions) = apply_mbcp_floor_actions (mbcp_action s a) actions

  module _ (x : Texts) (at : Pointer) (c : Clock) where
    abbrev pub floor_request_in : Scene F → FloorInner × List FloorAction → Scene F
    floor_request_in s asked =
        apply_mbcp_floor_actions x at c.instant (with_room s (with_floor s.room asked.0)) asked.1

    abbrev pub floor_release_in : Scene F → FloorInner × List FloorAction → Scene F
    floor_release_in s asked =
        apply_mbcp_floor_actions x at c.instant
          (with_room s (clear_released c.instant (with_floor s.room asked.0) asked.1)) asked.1

    -- A message of a subtype that is not a client's is ignored.
    unfoldable pub mbcp_message : Scene F → MbcpMessage → Scene F
    mbcp_message s msg =
        let user_id = (s.store at).user_id in
        if msg.subtype == subtype_freq
        then floor_request_in s
            (Floor.request default_config s.room.floor user_id floor_default_priority c.wall_ms)
        else if msg.subtype == subtype_frel
        then floor_release_in s (Floor.release s.room.floor user_id c.wall_ms)
        else if msg.subtype == subtype_fpng
        then with_room s (with_floor s.room (Floor.ping s.room.floor user_id c.wall_ms).0)
        else s

    unfoldable pub mbcp_messages : Scene F → List MbcpMessage → Scene F
    mbcp_messages s [] = s
    mbcp_messages s (msg ∷ msgs) = mbcp_messages (mbcp_message s msg) msgs

    abbrev pub mbcp_in : RoomMode → Scene F → List MbcpMessage → Scene F
    mbcp_in conference s msgs = s
    mbcp_in ptt s msgs = mbcp_messages s msgs

    unfoldable pub handle_mbcp_from_publish : Scene F → List MbcpMessage → Scene F
    handle_mbcp_from_publish s msgs = mbcp_in s.room.mode s msgs
