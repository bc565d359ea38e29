-- ===== src/Ingress/Layers.antt =====
-- src/transport/udp/ingress.rs: the video of a publisher with simulcast, which every subscriber gets in
-- its own layer (`fanout_simulcast_video`).
use oxlens_sfu_server.Prelude.{
  ℕ, String, Bool, true, false, not, ◌&&◌, ◌||◌, Option, none, some, List, [], ◌∷◌, same,
  if◌then◌else◌, and_then,
}
use oxlens_sfu_server.Simulcast
use oxlens_sfu_server.Simulcast.{SimulcastRewriter, needs_pli_retry, mark_pli_sent}
use oxlens_sfu_server.Rtcp.Header.{RtpHeader}
use oxlens_sfu_server.Participant.TrackList.{Track, find_ssrc}
use oxlens_sfu_server.Participant.{
  Participant, SubscribeLayerEntry, rtp, ensure_simulcast_video_ssrc,
}
use oxlens_sfu_server.Room.{Pointer}
use oxlens_sfu_server.FloorOps.Effects.{is_video}
use oxlens_sfu_server.Ingress.Payload.{is_keyframe}
use oxlens_sfu_server.Ingress.Shared.{Scene, Effect, burst_to, deliver, emit, set_member}

-- `t.rid.as_deref() == Some(rid)`
abbrev pub has_rid : Option String → String → Bool
has_rid none rid = false
has_rid (some r) rid = same r rid

-- `tracks.iter().find(|t| t.kind == Video && t.rid == Some(rid)).map(|t| t.ssrc)`
unfoldable pub layer_ssrc : String → List Track → Option ℕ
layer_ssrc rid [] = none
layer_ssrc rid (t ∷ ts) =
    let rest = layer_ssrc rid ts in
    if is_video t.kind && has_rid t.rid rid then some t.ssrc else rest

-- The entry of a subscriber for a publisher, made where there is none, and whether it was made.
unfoldable pub entry_for : (vssrc : ℕ) → Option SubscribeLayerEntry → SubscribeLayerEntry × Bool
entry_for vssrc (some sub) = (sub, false)
entry_for vssrc none = (record { rid = "h"; rewriter = Simulcast.new vssrc }, true)

-- The entry that a packet leaves, the packet for the subscriber, and whether a PLI is needed.
pub record Forwarded : Type 0 where
  pub entry : SubscribeLayerEntry
  pub packet : Option (List ℕ)
  pub need_pli : Bool

unfoldable pub forward :
    (sender_rid : String) (payload : List ℕ) (key : Bool) (now : ℕ)
    → SubscribeLayerEntry × Bool
    → Forwarded
forward sender_rid payload key now (sub, created) =
    let w = Simulcast.rewrite sub.rewriter payload key in
    let need_pli = created || (not w.2 && needs_pli_retry w.0 now) in
    if same sub.rid "pause" || not (same sender_rid sub.rid)
    then record { entry = sub; packet = none; need_pli = created }
    else record {
      entry = record sub { rewriter = if need_pli then mark_pli_sent w.0 now else w.0 };
      packet = if w.2 then some w.1 else none;
      need_pli = need_pli;
    }

module _ {F : Type 0} where
  abbrev pub deliver_some : Participant F → Option (List ℕ) → Participant F
  deliver_some p none = p
  deliver_some p (some packet) = deliver p (rtp packet)

  module _ (user_id sender_rid : String) (payload : List ℕ) (key : Bool) (vssrc now : ℕ) where
    abbrev pub forwarded_to : Participant F → Forwarded
    forwarded_to p =
        forward sender_rid payload key now (entry_for vssrc (p.subscribe_layers user_id))

    -- One subscriber that is ready.
    unfoldable pub serve : Participant F → Participant F
    serve p =
        deliver_some
          (record p {
            subscribe_layers =
                λ u. if same u user_id then some (forwarded_to p).entry else p.subscribe_layers u;
          })
          (forwarded_to p).packet

    -- The member is served unless it is the sender or is not ready.
    abbrev pub is_served : String → Participant F → Bool
    is_served u p = not (same u user_id) && p.subscribe.is_ready

    -- The burst for a subscriber's need, which is the first of this packet.
    abbrev pub burst_once : Pointer → Participant F → (needed pli_sent : Bool) → List Effect
    burst_once at p needed pli_sent =
        if needed && not pli_sent
        then burst_to at p p.publish.address (layer_ssrc "h" p.tracks) (0 ∷ 200 ∷ 500 ∷ 1500 ∷ [])
        else []

    unfoldable pub serve_all :
        Pointer → Scene F → (pli_sent : Bool) → List (String × Pointer) → Scene F
    serve_all at s pli_sent [] = s
    serve_all at s pli_sent (e ∷ es) =
        let p = s.store e.1 in
        let served = is_served e.0 p in
        let needed = served && (forwarded_to p).need_pli in
        serve_all at
          (emit (set_member s e.1 (if served then serve p else p))
            (burst_once at (s.store at) needed pli_sent))
          (pli_sent || needed) es

  -- A packet that is not of a simulcast track goes to nobody. The random SSRC is drawn by the
  -- caller, and is used only where there is none yet.
  abbrev pub fanout_layer :
      Scene F → Pointer → (payload : List ℕ) → RtpHeader → (drawn now : ℕ) → Option String → Scene F
  fanout_layer s at payload hdr drawn now none = s
  fanout_layer s at payload hdr drawn now (some sender_rid) =
      let e = ensure_simulcast_video_ssrc (s.store at) drawn in
      serve_all (s.store at).user_id sender_rid payload (is_keyframe hdr payload) e.1 now at
        (set_member s at e.0) false s.room.participants

  unfoldable pub fanout_simulcast_video :
      Scene F → Pointer → (payload : List ℕ) → RtpHeader → (drawn now : ℕ) → Scene F
  fanout_simulcast_video s at payload hdr drawn now =
      fanout_layer s at payload hdr drawn now
        (and_then (find_ssrc hdr.ssrc (s.store at).tracks) (λ t. t.rid))
