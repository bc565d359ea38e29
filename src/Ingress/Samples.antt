-- ===== src/Ingress/Samples.antt =====
-- src/transport/udp/ingress.rs: the rooms, members and packets that the tests are about.
use oxlens_sfu_server.Prelude.{
  ℕ, ◌+◌, refl, inl, inr, Bool-cases, true, false, none, some, List, [], ◌∷◌, ◌==◌, if◌then◌else◌,
  same, same_iff, lookup, Unique, String,
}
use oxlens_sfu_server.Floor.{idle, taken}
use oxlens_sfu_server.Ptt.{RewriteState, new_state, new_audio, new_video}
use oxlens_sfu_server.Simulcast
use oxlens_sfu_server.RtpCache
use oxlens_sfu_server.Terminator.{Float64}
use oxlens_sfu_server.Participant
use oxlens_sfu_server.Participant.TrackList.{Track, video, vp8}
use oxlens_sfu_server.Participant.{
  Participant, SocketAddr, v4, same_addr, publish_pc, MediaSession, EgressPacket, rtp,
  SubscribeLayerEntry,
}
use oxlens_sfu_server.Room.{Room, RoomMode, ptt, Store, Pointer}
use oxlens_sfu_server.Room.Sound.{IsSound, UserOk}
use oxlens_sfu_server.Ingress.Shared.{Clock, Scene}
use oxlens_sfu_server.Ingress.Feedback.{Transport}
use oxlens_sfu_server.RtpCache.{slot}

abbrev pub whole : Float64 ℕ
whole = record {
  from_nat = λ n. n;
  add = λ a b. a + b;
  minus = λ a b. a;
  div = λ a b. a;
  as_u32 = λ n. n;
}

abbrev pub home : SocketAddr
home = v4 167772161 40000

abbrev pub latched : String → MediaSession
latched ufrag = record { ufrag = ufrag; ice_pwd = "pwd"; address = some home; is_ready = true }

abbrev pub camera : Track
camera = record {
  ssrc = 9;
  kind = video;
  track_id = "camera";
  rtx_ssrc = some 1009;
  muted = false;
  rid = some "h";
  simulcast_group = none;
  video_codec = vp8;
  actual_pt = 0;
  actual_rtx_pt = 0;
}

-- Sequence number 5 of alice's camera.
abbrev pub frame5 : List ℕ
frame5 = 0x80 ∷ 96 ∷ 0 ∷ 5 ∷ 0 ∷ 0 ∷ 0 ∷ 1 ∷ 0 ∷ 0 ∷ 0 ∷ 9 ∷ 0xaa ∷ []

abbrev pub voice : List ℕ
voice = 0x80 ∷ 111 ∷ 0 ∷ 5 ∷ 0 ∷ 0 ∷ 0 ∷ 1 ∷ 0 ∷ 0 ∷ 0 ∷ 7 ∷ 0xaa ∷ []

abbrev pub layer : SubscribeLayerEntry
layer = record { rid = "h"; rewriter = Simulcast.new 77 }

abbrev pub alice : Participant ℕ
alice = record (Participant.new "alice" "r" "alice_pub" "pwd" "alice_sub" "pwd" 1000) {
  publish = latched "alice_pub";
  subscribe = latched "alice_sub";
  tracks = camera ∷ [];
  rtp_cache = RtpCache.store RtpCache.new 5 frame5;
  last_pli_relay_ms = 1000;
}

abbrev pub bob : Participant ℕ
bob = record (Participant.new "bob" "r" "bob_pub" "pwd" "bob_sub" "pwd" 1000) {
  publish = latched "bob_pub";
  subscribe = latched "bob_sub";
  subscribe_layers = λ u. if same u "alice" then some layer else none;
}

abbrev pub people : Store ℕ
people p = if p == 0 then alice else bob

abbrev pub members : List (String × Pointer)
members = ("alice", 0) ∷ ("bob", 1) ∷ []

abbrev pub lounge : RoomMode → Room
lounge mode = record {
  id = "r";
  name = "Lounge";
  capacity = 10;
  mode = mode;
  created_at = 0;
  simulcast_enabled = false;
  floor = record { state = idle; queue = []; prev_speaker = none };
  audio_rewriter = new_audio 1;
  audio_state = new_state;
  video_rewriter = new_video 2;
  video_state = new_state;
  participants = members;
  by_ufrag = λ u. none;
  by_addr = λ a. none;
  active_since = 0;
}

abbrev pub heard : RewriteState
heard = record new_state { speaker = some "alice"; virtual_base_seq = 100 }

-- Alice has the floor, and the rewriters are on her.
abbrev pub talk : Room
talk = record (lounge ptt) {
  floor = record { state = taken "alice" 0 1000 1000; queue = []; prev_speaker = none };
  audio_state = heard;
  video_state = heard;
}

abbrev pub scene : Room → Scene ℕ
scene r = record { store = people; room = r; effects = [] }

abbrev pub clock : Clock
clock = record { wall_ms = 2000; wall_us = 2000000; instant = 50 }

pub members-UserOk : (u : String) → UserOk people "r" u (lookup u members)
unfolding lookup same Participant.new
members-UserOk u = elim (Bool-cases (same "alice" u)) [
  | inl is ↦ rw is ((same_iff "alice" u).0 is, refl)
  | inr other ↦ elim (Bool-cases (same "bob" u)) [
    | inl is ↦ rw (other, is) ((same_iff "bob" u).0 is, refl)
    | inr nobody ↦ rw (other, nobody) tt
  ]
]

pub lounge-IsSound : (mode : RoomMode) → IsSound people (lounge mode)
unfolding lookup same Unique
lounge-IsSound mode = record {
  unique = (refl, (refl, tt));
  users = members-UserOk;
  ufrags = λ u. tt;
  addrs = λ a. tt;
}

pub talk-IsSound : IsSound people talk
unfolding lookup same Unique
talk-IsSound = record {
  unique = (refl, (refl, tt));
  users = members-UserOk;
  ufrags = λ u. tt;
  addrs = λ a. tt;
}

-- All that is sealed is taken.
abbrev pub clear : Transport
clear = record {
  decrypt_rtp = λ p pc bytes. some bytes;
  decrypt_rtcp = λ p pc bytes. some bytes;
  encrypt_rtp = λ p pc bytes. some bytes;
  encrypt_rtcp = λ p pc bytes. some bytes;
  send_to = λ addr bytes. true;
}
