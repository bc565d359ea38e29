-- ===== src/Ingress/KeptFloor.antt =====
-- src/transport/udp/ingress.rs: floor control over RTCP keeps the participants and the indices.
use oxlens_sfu_server.Prelude.{
  ℕ, ◌≡◌, refl, ◌∙◌, Bool, true, false, Option, none, some, List, [], ◌∷◌, ◌==◌, if◌then◌else◌,
  same,
}
use oxlens_sfu_server.Floor
use oxlens_sfu_server.Floor.{
  FloorInner, FloorAction, granted, denied, queued, released, revoked, ping_ok, ping_denied,
  not_ptt_room, default_config,
}
use oxlens_sfu_server.Rtcp.Mbcp.{MbcpMessage, build_mbcp_app}
use oxlens_sfu_server.Participant.{Participant, rtcp}
use oxlens_sfu_server.Room.{Pointer, Room, RoomMode, conference, ptt, get_participant}
use oxlens_sfu_server.Room.Latch.{write-keeps}
use oxlens_sfu_server.FloorOps.Effects.{switch_both, clear_both, with_floor, floor_default_priority}
use oxlens_sfu_server.Ingress.Shared.{Clock, Scene, Effect, cancel_pli, emit}
use oxlens_sfu_server.Ingress.Mbcp.{
  Texts, with_room, queue_rtcp, send_mbcp_to_participant, broadcast_mbcp_to_subscribers,
  revoke_speaker, mbcp_action, apply_mbcp_floor_actions, clear_released, is_released, mbcp_message,
  mbcp_messages, mbcp_in, handle_mbcp_from_publish,
}
use oxlens_sfu_server.Ingress.MbcpSync.{handle_mbcp_from_publish-IsSynced}
use oxlens_sfu_server.Ingress.Kept.{identity, frame, Kept, try_send-identity, for_ready-identity}

clear_if-frame :
    (instant : ℕ) (r : Room) (b : Bool) → frame (if b then clear_both r instant else r) ≡ frame r
clear_if-frame instant r true = refl
clear_if-frame instant r false = refl

clear_released-frame :
    (instant : ℕ) (r : Room) (actions : List FloorAction)
    → frame (clear_released instant r actions) ≡ frame r
unfolding clear_released
clear_released-frame instant r [] = refl
clear_released-frame instant r (a ∷ actions) =
    clear_released-frame instant (if is_released a then clear_both r instant else r) actions
    ∙ clear_if-frame instant r (is_released a)

module _ {F : Type 0} where
  -- The parts of `Kept` that floor control keeps with every action.
  record Framed (s t : Scene F) : Type 0 where
    members : (q : Pointer) → identity (t.store q) ≡ identity (s.store q)
    indices : frame t.room ≡ frame s.room

  Framed-refl : (s : Scene F) → Framed s s
  Framed-refl s = record { members = λ q. refl; indices = refl }

  Framed-then : {s t u : Scene F} → Framed s t → Framed t u → Framed s u
  Framed-then a b = record {
    members = λ q. b.members q ∙ a.members q;
    indices = b.indices ∙ a.indices;
  }

  Framed-if : {s t u : Scene F} (b : Bool) → Framed s t → Framed s u → Framed s (if b then t else u)
  Framed-if true k l = k
  Framed-if false k l = l

  queue_rtcp-identity :
      (packet : List ℕ) (p : Participant F) → identity (queue_rtcp packet p) ≡ identity p
  queue_rtcp-identity packet p = try_send-identity p (rtcp packet)

  send-Framed :
      (s : Scene F) (p : Pointer) (packet : List ℕ) → Framed s (send_mbcp_to_participant s p packet)
  unfolding send_mbcp_to_participant
  send-Framed s p packet =
      let v = queue_rtcp packet (s.store p) in
      Framed-if (s.store p).subscribe.is_ready
        (record {
          members =
              λ q. write-keeps identity s.store p q v (queue_rtcp-identity packet (s.store p));
          indices = refl;
        })
        (Framed-refl s)

  -- A room with the same frame, and a broadcast in it.
  broadcast-Framed :
      (s : Scene F) (r : Room) (es : List Effect) (packet : List ℕ)
      → frame r ≡ frame s.room
      → Framed s (broadcast_mbcp_to_subscribers (record s { room = r; effects = es }) packet)
  unfolding broadcast_mbcp_to_subscribers
  broadcast-Framed s r es packet same = record {
    members =
        for_ready-identity (λ u. true) (queue_rtcp packet) (queue_rtcp-identity packet) s.store
          r.participants;
    indices = same;
  }

  Framed-emit : {s t : Scene F} (es : List Effect) → Framed s t → Framed s (emit t es)
  Framed-emit es k = record { members = k.members; indices = k.indices }

  revoke_speaker-Framed :
      (s : Scene F) (packet : List ℕ) (o : Option Pointer) → Framed s (revoke_speaker s packet o)
  revoke_speaker-Framed s packet none = Framed-refl s
  revoke_speaker-Framed s packet (some p) =
      Framed-then (Framed-emit (cancel_pli p ∷ []) (Framed-refl s))
        (send-Framed (emit s (cancel_pli p ∷ [])) p packet)

  module _ (x : Texts) (req : Pointer) (instant : ℕ) where
    mbcp_action-Framed : (s : Scene F) (a : FloorAction) → Framed s (mbcp_action x req instant s a)
    unfolding mbcp_action
    mbcp_action-Framed s (granted speaker priority duration_s) =
        Framed-emit _ (broadcast-Framed s (switch_both s.room speaker instant) _ _ refl)
    mbcp_action-Framed s (revoked prev_speaker cause) =
        let told =
          revoke_speaker s (build_mbcp_app 4 0 (some (x.as_bytes cause)))
            (get_participant s.room prev_speaker) in
        Framed-then (revoke_speaker-Framed s _ (get_participant s.room prev_speaker))
          (Framed-emit _ (broadcast-Framed told (clear_both told.room instant) told.effects _ refl))
    mbcp_action-Framed s (denied reason current_speaker) = send-Framed s req _
    mbcp_action-Framed s (queued user_id position priority queue_size) = send-Framed s req _
    mbcp_action-Framed s (released prev_speaker) =
        Framed-emit _ (broadcast-Framed s s.room s.effects _ refl)
    mbcp_action-Framed s ping_ok = Framed-refl s
    mbcp_action-Framed s ping_denied = Framed-refl s
    mbcp_action-Framed s not_ptt_room = Framed-refl s

    actions-Framed :
        (s : Scene F) (actions : List FloorAction)
        → Framed s (apply_mbcp_floor_actions x req instant s actions)
    unfolding apply_mbcp_floor_actions
    actions-Framed s [] = Framed-refl s
    actions-Framed s (a ∷ actions) =
        Framed-then (mbcp_action-Framed s a)
          (actions-Framed (mbcp_action x req instant s a) actions)

  with_room-Framed : (s : Scene F) (r : Room) → frame r ≡ frame s.room → Framed s (with_room s r)
  with_room-Framed s r same = record { members = λ q. refl; indices = same }

  module _ (x : Texts) (at : Pointer) (c : Clock) where
    mbcp_message-Framed : (s : Scene F) (msg : MbcpMessage) → Framed s (mbcp_message x at c s msg)
    unfolding mbcp_message
    mbcp_message-Framed s msg =
        let user_id = (s.store at).user_id in
        let f = s.room.floor in
        let asked = Floor.request default_config f user_id floor_default_priority c.wall_ms in
        let released = Floor.release f user_id c.wall_ms in
        let cleared = clear_released c.instant (with_floor s.room released.0) released.1 in
        Framed-if (msg.subtype == 0)
          (Framed-then (with_room-Framed s (with_floor s.room asked.0) refl)
            (actions-Framed x at c.instant (with_room s (with_floor s.room asked.0)) asked.1))
          (Framed-if (msg.subtype == 1)
            (Framed-then (with_room-Framed s cleared (clear_released-frame c.instant _ released.1))
              (actions-Framed x at c.instant (with_room s cleared) released.1))
            (Framed-if (msg.subtype == 5) (with_room-Framed s _ refl) (Framed-refl s)))

    mbcp_messages-Framed :
        (s : Scene F) (msgs : List MbcpMessage) → Framed s (mbcp_messages x at c s msgs)
    unfolding mbcp_messages
    mbcp_messages-Framed s [] = Framed-refl s
    mbcp_messages-Framed s (msg ∷ msgs) =
        Framed-then (mbcp_message-Framed s msg)
          (mbcp_messages-Framed (mbcp_message x at c s msg) msgs)

    mbcp_in-Framed :
        (m : RoomMode) (s : Scene F) (msgs : List MbcpMessage) → Framed s (mbcp_in x at c m s msgs)
    mbcp_in-Framed conference s msgs = Framed-refl s
    mbcp_in-Framed ptt s msgs = mbcp_messages-Framed s msgs

    pub handle_mbcp-Kept :
        (s : Scene F) (msgs : List MbcpMessage) → Kept s (handle_mbcp_from_publish x at c s msgs)
    unfolding handle_mbcp_from_publish
    handle_mbcp-Kept s msgs =
        let k = mbcp_in-Framed s.room.mode s msgs in
        record {
          members = k.members;
          indices = k.indices;
          synced = handle_mbcp_from_publish-IsSynced x at c s msgs;
        }
