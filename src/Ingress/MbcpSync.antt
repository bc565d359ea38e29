-- ===== src/Ingress/MbcpSync.antt =====
-- src/transport/udp/ingress.rs (`handle_mbcp_from_publish`): floor control over RTCP leaves the
-- rewriters on the speaker that holds the floor.
use oxlens_sfu_server.Prelude.{
  ℕ, String, ◌≡◌, refl, sym, ap, ◌∙◌, inl, inr, Bool-cases, Option, none, some, List, [], ◌∷◌, same,
  same_iff, subst, ltb, leb, ◌==◌, length,
}
use oxlens_sfu_server.Floor
use oxlens_sfu_server.Floor.Queue.{QueueEntry, has_user}
use oxlens_sfu_server.Floor.{
  FloorInner, FloorState, idle, taken, FloorAction, granted, denied, queued, released, revoked,
  ping_ok, ping_denied, not_ptt_room, current_speaker, default_config, request_taken, enqueue,
  grant_next,
}
use oxlens_sfu_server.Rtcp.Mbcp.{MbcpMessage}
use oxlens_sfu_server.Room.{Room, RoomMode, conference, ptt, Pointer, get_participant}
use oxlens_sfu_server.FloorOps.Effects.{switch_both, clear_both, with_floor, floor_default_priority}
use oxlens_sfu_server.FloorOps.Answers.{
  Floor_at, IsSynced, switch_both-Speaks, clear_both-Speaks, ping-IsSynced,
}
use oxlens_sfu_server.Ingress.Shared.{Clock, Scene, emit, cancel_pli}
use oxlens_sfu_server.Ingress.Mbcp.{
  Texts, with_room, send_mbcp_to_participant, broadcast_mbcp_to_subscribers, revoke_speaker,
  mbcp_action, apply_mbcp_floor_actions, clear_released, mbcp_message, mbcp_messages, mbcp_in,
  handle_mbcp_from_publish,
}

-- The room that an action leaves: only the rewriters hear of it.
unfoldable heard : (instant : ℕ) → Room → FloorAction → Room
heard instant r (granted speaker priority duration_s) = switch_both r speaker instant
heard instant r (revoked prev_speaker cause) = clear_both r instant
heard instant r (denied reason current_speaker) = r
heard instant r (queued user_id position priority queue_size) = r
heard instant r (released prev_speaker) = r
heard instant r ping_ok = r
heard instant r ping_denied = r
heard instant r not_ptt_room = r

unfoldable heard_all : (instant : ℕ) → Room → List FloorAction → Room
heard_all instant r [] = r
heard_all instant r (a ∷ actions) = heard_all instant (heard instant r a) actions

module _ {F : Type 0} (x : Texts) (req : Pointer) (instant : ℕ) where
  send-room :
      (s : Scene F) (p : Pointer) (packet : List ℕ)
      → (send_mbcp_to_participant s p packet).room ≡ s.room
  unfolding send_mbcp_to_participant
  send-room s p packet = elim (Bool-cases (s.store p).subscribe.is_ready) [
    | inl ready ↦ rw ready refl
    | inr not_yet ↦ rw not_yet refl
  ]

  revoke_speaker-room :
      (s : Scene F) (packet : List ℕ) (o : Option Pointer)
      → (revoke_speaker s packet o).room ≡ s.room
  revoke_speaker-room s packet none = refl
  revoke_speaker-room s packet (some p) = send-room (emit s (cancel_pli p ∷ [])) p packet

  mbcp_action-room :
      (s : Scene F) (a : FloorAction)
      → (mbcp_action x req instant s a).room ≡ heard instant s.room a
  unfolding mbcp_action heard broadcast_mbcp_to_subscribers
  mbcp_action-room s (granted speaker priority duration_s) = refl
  mbcp_action-room s (revoked prev_speaker cause) =
      ap (λ r. clear_both r instant) (revoke_speaker-room s _ (get_participant s.room prev_speaker))
  mbcp_action-room s (denied reason current_speaker) = send-room s req _
  mbcp_action-room s (queued user_id position priority queue_size) = send-room s req _
  mbcp_action-room s (released prev_speaker) = refl
  mbcp_action-room s ping_ok = refl
  mbcp_action-room s ping_denied = refl
  mbcp_action-room s not_ptt_room = refl

  actions-room :
      (s : Scene F) (actions : List FloorAction)
      → (apply_mbcp_floor_actions x req instant s actions).room ≡ heard_all instant s.room actions
  unfolding apply_mbcp_floor_actions heard_all
  actions-room s [] = refl
  actions-room s (a ∷ actions) =
      actions-room (mbcp_action x req instant s a) actions
      ∙ ap (λ r. heard_all instant r actions) (mbcp_action-room s a)

-- What the rewriters make of an answer of the floor.
module _ (user_id : String) (clock instant : ℕ) (r : Room) where
  abbrev RequestHeard : FloorInner × List FloorAction → Type 0
  RequestHeard g = IsSynced (heard_all instant (with_floor r g.0) g.1)

  abbrev ReleaseHeard : FloorInner × List FloorAction → Type 0
  ReleaseHeard g = IsSynced (heard_all instant (clear_released instant (with_floor r g.0) g.1) g.1)

  grant_next-ReleaseHeard :
      (q : List QueueEntry) (prev : Option String) (u : String)
      → ReleaseHeard (grant_next (Floor_at idle q prev) clock (released u))
  unfolding grant_next current_speaker heard_all heard clear_released
  grant_next-ReleaseHeard [] prev u = clear_both-Speaks r instant
  grant_next-ReleaseHeard (y ∷ ys) prev u =
      switch_both-Speaks (clear_both r instant) y.user_id instant

  release-ReleaseHeard :
      (s : FloorState) (q : List QueueEntry) (prev : Option String)
      → IsSynced (with_floor r (Floor_at s q prev))
      → ReleaseHeard (Floor.release (Floor_at s q prev) user_id clock)
  unfolding Floor.release current_speaker heard_all heard clear_released
  release-ReleaseHeard idle q prev v = clear_both-Speaks r instant
  release-ReleaseHeard (taken speaker p b l) q prev v = elim (Bool-cases (same speaker user_id)) [
    | inl mine ↦ rw mine (grant_next-ReleaseHeard q (some user_id) user_id)
    | inr other ↦ rw other v
  ]

  enqueue-RequestHeard :
      (priority : ℕ) (speaker : String) (p b l : ℕ) (q : List QueueEntry) (prev : Option String)
      → IsSynced (with_floor r (Floor_at (taken speaker p b l) q prev))
      → RequestHeard (
          enqueue default_config
            (Floor_at (taken speaker p b l) q prev)
            user_id
            priority
            clock
            speaker)
  unfolding enqueue current_speaker heard_all heard
  enqueue-RequestHeard priority speaker p b l q prev v = elim (Bool-cases (has_user user_id q)) [
    | inl waits ↦ rw waits v
    | inr new ↦ elim (Bool-cases (leb default_config.max_queue_size (length q))) [
      | inl full ↦ rw (new, full) v
      | inr room ↦ rw (new, room) v
    ]
  ]

  request-RequestHeard :
      (priority : ℕ) (s : FloorState) (q : List QueueEntry) (prev : Option String)
      → IsSynced (with_floor r (Floor_at s q prev))
      → RequestHeard (Floor.request default_config (Floor_at s q prev) user_id priority clock)
  unfolding Floor.request request_taken current_speaker heard_all heard
  request-RequestHeard priority idle q prev v = switch_both-Speaks r user_id instant
  request-RequestHeard priority (taken speaker p b l) q prev v =
      elim (Bool-cases (same speaker user_id)) [
        | inl mine ↦
            let e : some user_id ≡ some speaker =
              ap some (sym ((same_iff speaker user_id).0 mine)) in
            let now = switch_both-Speaks r user_id instant in rw mine (now.0 ∙ e, now.1 ∙ e)
        | inr other ↦ elim (Bool-cases (ltb p priority)) [
          | inl higher ↦
              rw (other, higher) (switch_both-Speaks (clear_both r instant) user_id instant)
          | inr lower ↦ rw (other, lower) (enqueue-RequestHeard priority speaker p b l q prev v)
        ]
      ]

module _ {F : Type 0} (x : Texts) (at : Pointer) (c : Clock) where
  mbcp_message-IsSynced :
      (s : Scene F) (msg : MbcpMessage)
      → IsSynced s.room
      → IsSynced (mbcp_message x at c s msg).room
  unfolding mbcp_message
  mbcp_message-IsSynced s msg v =
      let user_id = (s.store at).user_id in
      let f = s.room.floor in
      elim (Bool-cases (msg.subtype == 0)) [
        | inl freq ↦
            let asked = Floor.request default_config f user_id floor_default_priority c.wall_ms in
            rw freq (
              subst IsSynced
                (sym
                  (actions-room x at c.instant (with_room s (with_floor s.room asked.0)) asked.1))
                (request-RequestHeard user_id c.wall_ms c.instant s.room floor_default_priority
                  f.state f.queue f.prev_speaker v))
        | inr a ↦ elim (Bool-cases (msg.subtype == 1)) [
          | inl frel ↦
              let asked = Floor.release f user_id c.wall_ms in
              rw (a, frel)
                (subst IsSynced
                  (sym (
                    actions-room x at c.instant
                      (with_room s (clear_released c.instant (with_floor s.room asked.0) asked.1))
                      asked.1))
                  (release-ReleaseHeard user_id c.wall_ms c.instant s.room f.state f.queue
                    f.prev_speaker v))
          | inr b ↦ elim (Bool-cases (msg.subtype == 5)) [
            | inl fpng ↦
                rw (a, b, fpng)
                  (ping-IsSynced s.store user_id c.wall_ms c.instant 0 s.room f.state f.queue
                    f.prev_speaker v)
            | inr d ↦ rw (a, b, d) v
          ]
        ]
      ]

  mbcp_messages-IsSynced :
      (s : Scene F) (msgs : List MbcpMessage)
      → IsSynced s.room
      → IsSynced (mbcp_messages x at c s msgs).room
  unfolding mbcp_messages
  mbcp_messages-IsSynced s [] v = v
  mbcp_messages-IsSynced s (msg ∷ msgs) v =
      mbcp_messages-IsSynced (mbcp_message x at c s msg) msgs (mbcp_message-IsSynced s msg v)

  mbcp_in-IsSynced :
      (m : RoomMode) (s : Scene F) (msgs : List MbcpMessage)
      → IsSynced s.room
      → IsSynced (mbcp_in x at c m s msgs).room
  mbcp_in-IsSynced conference s msgs v = v
  mbcp_in-IsSynced ptt s msgs v = mbcp_messages-IsSynced s msgs v

  -- Whatever floor messages a participant sends over RTCP, and whatever state the floor is in: if
  -- the rewriters send on the speaker who holds the floor, they do so afterwards.
  pub handle_mbcp_from_publish-IsSynced :
      (s : Scene F) (msgs : List MbcpMessage)
      → IsSynced s.room
      → IsSynced (handle_mbcp_from_publish x at c s msgs).room
  unfolding handle_mbcp_from_publish
  handle_mbcp_from_publish-IsSynced s msgs v = mbcp_in-IsSynced s.room.mode s msgs v
