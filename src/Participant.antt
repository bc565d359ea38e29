-- ===== src/Participant.antt =====
-- src/room/participant.rs: the participant of a room, with its two media sessions and its tracks.
-- Mutexes and atomics hold plain values; the receiving ends of the channels, the WebSocket sender
-- and the handle of a running PLI task are left out. `F` stands for `f64`, which only the jitter
-- of the reception statistics uses.
pub mod TrackList
pub mod Tracks
use oxlens_sfu_server.Prelude.{
  ℕ, ◌+◌, ◌%◌, String, Bool, true, false, ◌&&◌, Option, none, some, List, [], ◌∷◌, ◌++◌, ltb, ◌==◌,
  if◌then◌else◌, length, add16, add32,
}
use oxlens_sfu_server.RtpCache
use oxlens_sfu_server.RtpCache.{RtpCache}
use oxlens_sfu_server.Simulcast.{SimulcastRewriter}
use oxlens_sfu_server.Terminator.{RecvStats}
use oxlens_sfu_server.Terminator.Source.{SendStats}
use oxlens_sfu_server.Twcc
use oxlens_sfu_server.Twcc.{TwccRecorder}
use TrackList.{
  TrackKind, audio, video, VideoCodec, vp8, Track, has_ssrc, find_ssrc, without_ssrc, mute_ssrc,
  first_codec,
}

-- `std::net::SocketAddr`: the address as the number that its octets make, and the port; for IPv6
-- the flow information and the scope too.
pub data SocketAddr : Type 0 where
  v4 : (ip port : ℕ) → SocketAddr
  v6 : (ip port flowinfo scope_id : ℕ) → SocketAddr

unfoldable pub same_addr : SocketAddr → SocketAddr → Bool
same_addr (v4 a p) (v4 b q) = a == b && p == q
same_addr (v6 a p f s) (v6 b q g t) = (a == b && p == q) && (f == g && s == t)
same_addr (v4 a p) (v6 b q g t) = false
same_addr (v6 a p f s) (v4 b q) = false

pub data PcType : Type 0 where
  publish_pc : PcType
  subscribe_pc : PcType

-- `is_ready` stands for the two SRTP contexts with their keys.
pub record MediaSession : Type 0 where
  pub ufrag : String
  pub ice_pwd : String
  pub address : Option SocketAddr
  pub is_ready : Bool

abbrev pub new_session : String → String → MediaSession
new_session ufrag ice_pwd = record {
  ufrag = ufrag;
  ice_pwd = ice_pwd;
  address = none;
  is_ready = false;
}

abbrev pub latch_address : MediaSession → SocketAddr → MediaSession
latch_address s addr = record s { address = some addr }

pub record PipelineStats : Type 0 where
  pub pub_rtp_in : ℕ
  pub pub_rtp_gated : ℕ
  pub pub_rtp_rewritten : ℕ
  pub pub_video_pending : ℕ
  pub pub_pli_received : ℕ
  pub sub_rtp_relayed : ℕ
  pub sub_rtp_dropped : ℕ
  pub sub_sr_relayed : ℕ
  pub sub_nack_sent : ℕ
  pub sub_rtx_received : ℕ

abbrev pub new_pipeline : PipelineStats
new_pipeline = record {
  pub_rtp_in = 0;
  pub_rtp_gated = 0;
  pub_rtp_rewritten = 0;
  pub_video_pending = 0;
  pub_pli_received = 0;
  sub_rtp_relayed = 0;
  sub_rtp_dropped = 0;
  sub_sr_relayed = 0;
  sub_nack_sent = 0;
  sub_rtx_received = 0;
}

pub data EgressPacket : Type 0 where
  rtp : List ℕ → EgressPacket
  rtcp : List ℕ → EgressPacket

pub record SubscribeLayerEntry : Type 0 where
  pub rid : String
  pub rewriter : SimulcastRewriter

pub record Participant (F : Type 0) : Type 0 where
  pub user_id : String
  pub room_id : String
  pub joined_at : ℕ
  pub last_seen : ℕ
  pub publish : MediaSession
  pub subscribe : MediaSession
  pub tracks : List Track
  pub rtp_cache : RtpCache
  pub rtx_ssrc_counter : ℕ
  pub rtx_seq : ℕ
  pub twcc_recorder : TwccRecorder
  pub recv_stats : ℕ → Option (RecvStats F)
  pub send_stats : ℕ → Option SendStats
  pub egress : List EgressPacket
  pub rtx_budget_used : ℕ
  pub last_audio_arrival_us : ℕ
  pub nack_suppress_until_ms : ℕ
  pub rtp_gap_suppress_until_ms : ℕ
  pub last_video_rtp_ms : ℕ
  pub last_pli_relay_ms : ℕ
  pub twcc_extmap_id : ℕ
  pub simulcast_video_ssrc : ℕ
  pub subscribe_layers : String → Option SubscribeLayerEntry
  pub pipeline : PipelineStats

-- `EGRESS_QUEUE_SIZE`
abbrev pub egress_queue_size : ℕ
egress_queue_size = 256

module _ {F : Type 0} where
  unfoldable pub new :
      (user_id room_id pub_ufrag pub_pwd sub_ufrag sub_pwd : String) (joined_at : ℕ) → Participant F
  new user_id room_id pub_ufrag pub_pwd sub_ufrag sub_pwd joined_at = record {
    user_id = user_id;
    room_id = room_id;
    joined_at = joined_at;
    last_seen = joined_at;
    publish = new_session pub_ufrag pub_pwd;
    subscribe = new_session sub_ufrag sub_pwd;
    tracks = [];
    rtp_cache = RtpCache.new;
    rtx_ssrc_counter = 0;
    rtx_seq = 0;
    twcc_recorder = Twcc.new;
    recv_stats = λ ssrc. none;
    send_stats = λ ssrc. none;
    egress = [];
    rtx_budget_used = 0;
    last_audio_arrival_us = 0;
    nack_suppress_until_ms = 0;
    rtp_gap_suppress_until_ms = 0;
    last_video_rtp_ms = 0;
    last_pli_relay_ms = 0;
    twcc_extmap_id = 0;
    simulcast_video_ssrc = 0;
    subscribe_layers = λ user_id. none;
    pipeline = new_pipeline;
  }

  abbrev pub touch : Participant F → ℕ → Participant F
  touch p ts = record p { last_seen = ts }

  abbrev pub session : Participant F → PcType → MediaSession
  session p publish_pc = p.publish
  session p subscribe_pc = p.subscribe

  -- `self.session(pc).latch_address(addr)`
  abbrev pub latch_session : Participant F → PcType → SocketAddr → Participant F
  latch_session p publish_pc addr = record p { publish = latch_address p.publish addr }
  latch_session p subscribe_pc addr = record p { subscribe = latch_address p.subscribe addr }

  -- The counter wraps like every `fetch_add`.
  unfoldable pub alloc_rtx_ssrc : Participant F → ℕ → Participant F × ℕ
  alloc_rtx_ssrc p media_ssrc = (
    record p { rtx_ssrc_counter = add32 p.rtx_ssrc_counter 1 },
    add32 (add32 media_ssrc 1000) p.rtx_ssrc_counter,
  )

  abbrev pub next_rtx_seq : Participant F → Participant F × ℕ
  next_rtx_seq p = (record p { rtx_seq = add16 p.rtx_seq 1 }, p.rtx_seq)

  abbrev pub push_track : Participant F → Track → Participant F
  push_track p t = record p { tracks = p.tracks ++ (t ∷ []) }

  -- The track as it is pushed: a video track takes the next RTX SSRC.
  abbrev pub push_kind : Participant F → Track → TrackKind → Participant F
  push_kind p t audio = push_track p (record t { rtx_ssrc = none; muted = false })
  push_kind p t video =
      push_track (alloc_rtx_ssrc p t.ssrc).0
        (record t { rtx_ssrc = some (alloc_rtx_ssrc p t.ssrc).1; muted = false })

  -- The RTX SSRC and the mute flag of the argument are not read.
  unfoldable pub add_track_full : Participant F → Track → Participant F
  add_track_full p t = if has_ssrc t.ssrc p.tracks then p else push_kind p t t.kind

  unfoldable pub add_track :
      Participant F → (ssrc : ℕ) → TrackKind → (track_id : String) → Participant F
  add_track p ssrc kind track_id = add_track_full p (record {
    ssrc = ssrc;
    kind = kind;
    track_id = track_id;
    rtx_ssrc = none;
    muted = false;
    rid = none;
    simulcast_group = none;
    video_codec = vp8;
    actual_pt = 0;
    actual_rtx_pt = 0;
  })

  unfoldable pub get_video_codec : Participant F → VideoCodec
  get_video_codec p = first_codec p.tracks

  unfoldable pub remove_track : Participant F → ℕ → Participant F × Option Track
  remove_track p ssrc = elim (find_ssrc ssrc p.tracks) [
    | none ↦ (p, none)
    | some t ↦ (record p { tracks = without_ssrc ssrc p.tracks }, some t)
  ]

  unfoldable pub set_track_muted : Participant F → ℕ → Bool → Participant F × Option TrackKind
  set_track_muted p ssrc muted = elim (find_ssrc ssrc p.tracks) [
    | none ↦ (p, none)
    | some t ↦ (record p { tracks = mute_ssrc ssrc muted p.tracks }, some t.kind)
  ]

  -- The random number is drawn by the caller; it is not 0.
  unfoldable pub ensure_simulcast_video_ssrc : Participant F → (drawn : ℕ) → Participant F × ℕ
  ensure_simulcast_video_ssrc p drawn =
      if p.simulcast_video_ssrc == 0
      then (record p { simulcast_video_ssrc = drawn }, drawn)
      else (p, p.simulcast_video_ssrc)

  -- `egress_tx.try_send(packet)`, and whether it succeeded.
  unfoldable pub try_send : Participant F → EgressPacket → Participant F × Bool
  try_send p packet =
      if ltb (length p.egress) egress_queue_size
      then (record p { egress = p.egress ++ (packet ∷ []) }, true)
      else (p, false)
