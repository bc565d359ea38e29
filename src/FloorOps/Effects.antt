-- ===== src/FloorOps/Effects.antt =====
-- src/signaling/handler/floor_ops.rs: the packets, counters and other effects of the floor's handlers,
-- the parts of the handlers that read no participant, and the handlers that only answer.
use oxlens_sfu_server.Prelude.{
  ℕ, String, Bool, true, false, Option, none, some, List, [], ◌∷◌, ◌++◌, same, if◌then◌else◌,
}
use oxlens_sfu_server.Floor
use oxlens_sfu_server.Floor.{
  FloorInner, FloorAction, granted, denied, queued, released, revoked, ping_ok, ping_denied,
  not_ptt_room, default_config, query_queue_position, queue_size,
}
use oxlens_sfu_server.Ptt.{switch_speaker, clear_speaker}
use oxlens_sfu_server.Participant.TrackList.{Track, TrackKind, audio, video}
use oxlens_sfu_server.Participant.{SocketAddr}
use oxlens_sfu_server.Room.{Room, Pointer, get_participant}

-- The opcodes of the floor.
abbrev pub floor_request : ℕ
floor_request = 40

abbrev pub floor_release : ℕ
floor_release = 41

abbrev pub floor_queue_pos : ℕ
floor_queue_pos = 43

abbrev pub floor_taken : ℕ
floor_taken = 141

abbrev pub floor_idle : ℕ
floor_idle = 142

abbrev pub floor_revoke : ℕ
floor_revoke = 143

abbrev pub floor_ping : ℕ
floor_ping = 42

abbrev pub floor_default_priority : ℕ
floor_default_priority = 0

-- The JSON objects that the handlers make.
pub data Body : Type 0 where
  empty : Body
  granted_body : (speaker : String) (priority duration : ℕ) → Body
  queued_body : (position priority queue_size : ℕ) → Body
  position_body : (position priority queue_size : ℕ) → Body
  taken_body : (room_id speaker : String) (priority : ℕ) → Body
  idle_body : (room_id prev_speaker : String) (cause : Option String) → Body
  revoke_body : (room_id cause : String) → Body

-- `Packet::ok`, `Packet::new`, and `Packet::err`, whose message is the texts, joined.
pub data Packet : Type 0 where
  ok_packet : (op pid : ℕ) → Body → Packet
  new_packet : (op pid : ℕ) → Body → Packet
  err_packet : (op pid code : ℕ) → (message : List String) → Packet

-- The counters of the metrics that the handlers raise.
pub data Metric : Type 0 where
  ptt_floor_granted : Metric
  ptt_speaker_switches : Metric
  ptt_floor_revoked : Metric
  ptt_floor_preempted : Metric
  ptt_floor_queued : Metric
  ptt_floor_released : Metric
  ptt_floor_queue_pop : Metric

pub data Effect : Type 0 where
  count : Metric → Effect
  to_user : (user_id : String) → Packet → Effect
  to_room : Packet → Effect
  to_others : (exclude_user : String) → Packet → Effect
  pli_burst : Pointer → (ssrc : ℕ) → SocketAddr → Effect
  cancel_pli : Pointer → Effect
  -- A frame that is put into the participant's egress queue.
  frame_to : Pointer → List ℕ → Effect

pub record Outcome : Type 0 where
  pub room : Room
  pub effects : List Effect
  pub response : Packet

abbrev pub emit : Outcome → List Effect → Outcome
emit o es = record o { effects = o.effects ++ es }

-- The speakers of both rewriters are switched, or cleared.
abbrev pub switch_both : Room → String → (now : ℕ) → Room
switch_both r speaker now = record r {
  audio_state = switch_speaker r.audio_rewriter r.audio_state speaker now;
  video_state = switch_speaker r.video_rewriter r.video_state speaker now;
}

abbrev pub clear_both : Room → (now : ℕ) → Room
clear_both r now = record r {
  audio_state = (clear_speaker r.audio_rewriter r.audio_state now).0;
  video_state = (clear_speaker r.video_rewriter r.video_state now).0;
}

abbrev pub is_video : TrackKind → Bool
is_video audio = false
is_video video = true

-- `tracks.iter().find(|t| t.kind == TrackKind::Video).map(|t| t.ssrc)`
unfoldable pub video_ssrc : List Track → Option ℕ
video_ssrc [] = none
video_ssrc (t ∷ ts) = let rest = video_ssrc ts in if is_video t.kind then some t.ssrc else rest

abbrev pub burst_at : Pointer → Option SocketAddr → Option ℕ → List Effect
burst_at p (some addr) (some ssrc) = pli_burst p ssrc addr ∷ []
burst_at p (some addr) none = []
burst_at p none o = []

-- What is sent to a participant of the room, if it is there.
abbrev pub send_if : Option Pointer → String → Packet → List Effect
send_if none u packet = []
send_if (some p) u packet = to_user u packet ∷ []

abbrev pub cancel_if : Option Pointer → List Effect
cancel_if none = []
cancel_if (some p) = cancel_pli p ∷ []

abbrev pub preempted_count : String → List Effect
preempted_count cause = if same cause "preempted" then count ptt_floor_preempted ∷ [] else []

abbrev pub revoke_to : Room → String → String → List Effect
revoke_to r prev_speaker cause =
    cancel_if (get_participant r prev_speaker)
    ++ send_if (get_participant r prev_speaker) prev_speaker
        (new_packet floor_revoke 0 (revoke_body r.id cause))

unfoldable pub fold : (Outcome → FloorAction → Outcome) → Outcome → List FloorAction → Outcome
fold f o [] = o
fold f o (a ∷ actions) = fold f (f o a) actions

abbrev pub with_floor : Room → FloorInner → Room
with_floor r f = record r { floor = f }

abbrev pub refused : Room → Packet → Outcome
refused r packet = record { room = r; effects = []; response = packet }

abbrev pub accepted : (op pid : ℕ) → Room → Outcome
accepted op pid r = record { room = r; effects = []; response = ok_packet op pid empty }

abbrev pub ping_answer : (pid : ℕ) → FloorAction → Packet
ping_answer pid ping_ok = ok_packet floor_ping pid empty
ping_answer pid ping_denied = err_packet floor_ping pid 2021 ("not current speaker" ∷ [])
ping_answer pid not_ptt_room = err_packet floor_ping pid 2021 ("not current speaker" ∷ [])
ping_answer pid (granted speaker priority duration_s) =
    err_packet floor_ping pid 2021 ("not current speaker" ∷ [])
ping_answer pid (denied reason current_speaker) =
    err_packet floor_ping pid 2021 ("not current speaker" ∷ [])
ping_answer pid (queued user_id position priority queue_size) =
    err_packet floor_ping pid 2021 ("not current speaker" ∷ [])
ping_answer pid (released prev_speaker) =
    err_packet floor_ping pid 2021 ("not current speaker" ∷ [])
ping_answer pid (revoked prev_speaker cause) =
    err_packet floor_ping pid 2021 ("not current speaker" ∷ [])

unfoldable pub handle_floor_ping : (pid : ℕ) (user_id : String) (clock : ℕ) → Room → Outcome
handle_floor_ping pid user_id clock r =
    let asked = Floor.ping r.floor user_id clock in
    refused (with_floor r asked.0) (ping_answer pid asked.1)

abbrev pub position_answer : (pid : ℕ) → Room → Option (ℕ × ℕ) → Packet
position_answer pid r none = ok_packet floor_queue_pos pid (position_body 0 0 (queue_size r.floor))
position_answer pid r (some (position, priority)) =
    ok_packet floor_queue_pos pid (position_body position priority (queue_size r.floor))

unfoldable pub handle_floor_queue_pos : (pid : ℕ) (user_id : String) → Room → Outcome
handle_floor_queue_pos pid user_id r =
    refused r (position_answer pid r (query_queue_position r.floor user_id))
