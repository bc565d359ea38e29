-- ===== src/FloorOps.antt =====
-- src/signaling/handler/floor_ops.rs, src/signaling/handler/helpers.rs (`flush_ptt_silence`), the
-- floor's part of leaving in src/signaling/handler/room_ops.rs and of the timer in src/tasks.rs:
-- what becomes of the actions of the floor. What is sent, counted or started is a list of effects;
-- `now` is the clock of the rewriters, and `clock` the wall clock. JSON is left out: a packet has
-- a body with the source's fields.
pub mod Effects
pub mod Answers
pub mod Laws
mod Tests
use oxlens_sfu_server.Prelude.{
  ℕ, String, Bool, true, false, not, ◌&&◌, Option, none, some, List, [], ◌∷◌, ◌++◌, same,
  if◌then◌else◌, lookup, map,
}
use oxlens_sfu_server.Floor
use oxlens_sfu_server.Floor.{
  FloorInner, FloorAction, granted, denied, queued, released, revoked, ping_ok, ping_denied,
  not_ptt_room, default_config, query_queue_position, queue_size,
}
use oxlens_sfu_server.Ptt.{switch_speaker, clear_speaker}
use oxlens_sfu_server.Participant.TrackList.{Track, TrackKind, audio, video}
use oxlens_sfu_server.Participant.{Participant, SocketAddr, MediaSession}
use oxlens_sfu_server.Room.{
  Room, RoomMode, conference, ptt, Store, Pointer, get_participant, or_default,
}
use Effects.{
  floor_request, floor_release, floor_queue_pos, floor_taken, floor_idle, floor_revoke, floor_ping,
  floor_default_priority, Body, Packet, Metric, Effect, Outcome, emit, switch_both, clear_both,
  is_video, video_ssrc, burst_at, send_if, cancel_if, preempted_count, revoke_to, fold, with_floor,
  refused, accepted, ping_answer, handle_floor_ping, position_answer, handle_floor_queue_pos, empty,
  granted_body, queued_body, position_body, taken_body, idle_body, revoke_body, ok_packet,
  new_packet, err_packet, ptt_floor_granted, ptt_speaker_switches, ptt_floor_revoked,
  ptt_floor_preempted, ptt_floor_queued, ptt_floor_released, ptt_floor_queue_pop, count, to_user,
  to_room, to_others, pli_burst, cancel_pli, frame_to,
}

module _ {F : Type 0} (st : Store F) where
  -- The PLI burst for a new speaker.
  abbrev pub burst_for : Option Pointer → List Effect
  burst_for none = []
  burst_for (some p) =
      if (st p).publish.is_ready
      then burst_at p (st p).publish.address (video_ssrc (st p).tracks)
      else []

  unfoldable pub frames_for : List (List ℕ) → List (String × Pointer) → List Effect
  frames_for frames [] = []
  frames_for frames (e ∷ es) =
      let rest = frames_for frames es in
      if (st e.1).subscribe.is_ready then map (frame_to e.1) frames ++ rest else rest

  abbrev pub frames_of : Option (List (List ℕ)) → Room → List Effect
  frames_of none r = []
  frames_of (some frames) r = frames_for frames r.participants

  unfoldable pub flush_ptt_silence : Outcome → (now : ℕ) → Outcome
  flush_ptt_silence o now = record o {
    room = clear_both o.room now;
    effects =
        o.effects
        ++ frames_of (clear_speaker o.room.audio_rewriter o.room.audio_state now).1 o.room;
  }

  -- One action in the loop of `handle_floor_request`.
  unfoldable pub request_action :
      (pid : ℕ) (user_id : String) (now : ℕ) → Outcome → FloorAction → Outcome
  request_action pid user_id now o (granted speaker priority duration_s) = record o {
    room = switch_both o.room speaker now;
    effects =
        o.effects
        ++ (count ptt_floor_granted
            ∷ count ptt_speaker_switches
            ∷ (burst_for (get_participant o.room speaker)
                ++ (to_others user_id
                      (new_packet floor_taken 0 (taken_body o.room.id speaker priority))
                    ∷ [])));
    response =
        if same speaker user_id
        then ok_packet floor_request pid (granted_body speaker priority duration_s)
        else o.response;
  }
  request_action pid user_id now o (revoked prev_speaker cause) =
      emit o
        (count ptt_floor_revoked ∷ (preempted_count cause ++ revoke_to o.room prev_speaker cause))
  request_action pid user_id now o (queued queued_uid position priority queue_size) =
      record (emit o (count ptt_floor_queued ∷ [])) {
        response = ok_packet floor_request pid (queued_body position priority queue_size);
      }
  request_action pid user_id now o (denied reason current_speaker) = record o {
    response =
        err_packet floor_request pid 2010 (reason ∷ " (speaker=" ∷ current_speaker ∷ ")" ∷ []);
  }
  request_action pid user_id now o (released prev_speaker) = o
  request_action pid user_id now o ping_ok = o
  request_action pid user_id now o ping_denied = o
  request_action pid user_id now o not_ptt_room = o

  abbrev pub request_in :
      (pid : ℕ) (user_id : String) (priority : Option ℕ) (clock now : ℕ) → Room → RoomMode → Outcome
  request_in pid user_id priority clock now r conference =
      refused r (err_packet floor_request pid 2020 ("not a PTT room" ∷ []))
  request_in pid user_id priority clock now r ptt =
      let asked =
        Floor.request default_config r.floor user_id (or_default priority floor_default_priority)
          clock in
      fold (request_action pid user_id now) (accepted floor_request pid (with_floor r asked.0))
        asked.1

  -- `handle_floor_request`, in the room that the message names.
  unfoldable pub handle_floor_request :
      (pid : ℕ) (user_id : String) (priority : Option ℕ) (clock now : ℕ) → Room → Outcome
  handle_floor_request pid user_id priority clock now r =
      request_in pid user_id priority clock now r r.mode

  -- One action in `apply_floor_actions`.
  unfoldable pub apply_action :
      (op pid : ℕ) (user_id : String) (now : ℕ) → Outcome → FloorAction → Outcome
  apply_action op pid user_id now o (granted speaker priority duration_s) = record o {
    room = switch_both o.room speaker now;
    effects =
        o.effects
        ++ (count ptt_floor_granted
            ∷ count ptt_speaker_switches
            ∷ (burst_for (get_participant o.room speaker)
                ++ (to_room (new_packet floor_taken 0 (taken_body o.room.id speaker priority))
                    ∷ (if same speaker user_id
                        then []
                        else count ptt_floor_queue_pop
                          ∷ send_if (get_participant o.room speaker) speaker (
                              ok_packet floor_request 0
                                (granted_body speaker priority duration_s))))));
  }
  apply_action op pid user_id now o (denied reason current_speaker) = record o {
    response = err_packet op pid 2010 (reason ∷ " (speaker=" ∷ current_speaker ∷ ")" ∷ []);
  }
  apply_action op pid user_id now o (released prev_speaker) =
      emit o (to_room (new_packet floor_idle 0 (idle_body o.room.id prev_speaker none)) ∷ [])
  apply_action op pid user_id now o (revoked prev_speaker cause) = emit o (
      count ptt_floor_revoked
      ∷ (preempted_count cause
          ++ (revoke_to o.room prev_speaker cause
              ++ (to_room (new_packet floor_idle 0 (idle_body o.room.id prev_speaker (some cause)))
                  ∷ []))))
  apply_action op pid user_id now o (queued queued_uid position priority queue_size) = o
  apply_action op pid user_id now o ping_ok = o
  apply_action op pid user_id now o ping_denied = o
  apply_action op pid user_id now o not_ptt_room = o

  abbrev pub apply_floor_actions :
      (op pid : ℕ) (user_id : String) (now : ℕ) → Outcome → List FloorAction → Outcome
  apply_floor_actions op pid user_id now = fold (apply_action op pid user_id now)

  -- The first loop of `handle_floor_release`.
  unfoldable pub flush_action : (now : ℕ) → Outcome → FloorAction → Outcome
  flush_action now o (released prev_speaker) =
      flush_ptt_silence (emit o (count ptt_floor_released ∷ [])) now
  flush_action now o (granted speaker priority duration_s) = o
  flush_action now o (denied reason current_speaker) = o
  flush_action now o (queued user_id position priority queue_size) = o
  flush_action now o (revoked prev_speaker cause) = o
  flush_action now o ping_ok = o
  flush_action now o ping_denied = o
  flush_action now o not_ptt_room = o

  abbrev pub release_in : (pid : ℕ) (user_id : String) (clock now : ℕ) → Room → RoomMode → Outcome
  release_in pid user_id clock now r conference =
      refused r (err_packet floor_release pid 2020 ("not a PTT room" ∷ []))
  release_in pid user_id clock now r ptt =
      let asked = Floor.release r.floor user_id clock in
      apply_floor_actions floor_release pid user_id now
        (fold (flush_action now) (accepted floor_release pid (with_floor r asked.0)) asked.1)
        asked.1

  unfoldable pub handle_floor_release :
      (pid : ℕ) (user_id : String) (clock now : ℕ) → Room → Outcome
  handle_floor_release pid user_id clock now r = release_in pid user_id clock now r r.mode

  abbrev pub leave_actions : (user_id : String) (now : ℕ) → Outcome → List FloorAction → Outcome
  leave_actions user_id now o [] = o
  leave_actions user_id now o (a ∷ actions) =
      flush_ptt_silence (apply_floor_actions floor_release 0 user_id now o (a ∷ actions)) now

  abbrev pub leave_in : (user_id : String) (clock now : ℕ) → Room → RoomMode → Outcome
  leave_in user_id clock now r conference = accepted floor_release 0 r
  leave_in user_id clock now r ptt =
      let asked = Floor.on_participant_leave r.floor user_id clock in
      leave_actions user_id now (accepted floor_release 0 (with_floor r asked.0)) asked.1

  -- The floor's part of leaving a room: the burst is cancelled, the floor's actions are applied,
  -- and silence is flushed. The response of `apply_floor_actions` is not sent.
  unfoldable pub leave_floor : (user_id : String) (clock now : ℕ) → Room → Outcome
  leave_floor user_id clock now r =
      let left = leave_in user_id clock now r r.mode in
      record left { effects = cancel_if (get_participant r user_id) ++ left.effects }

  -- One action in the loop of `run_floor_timer`.
  unfoldable pub timer_action : (now : ℕ) → Outcome → FloorAction → Outcome
  timer_action now o (revoked prev_speaker cause) = record o {
    room = clear_both o.room now;
    effects =
        o.effects
        ++ (count ptt_floor_revoked
            ∷ (revoke_to o.room prev_speaker cause
                ++ (to_room
                      (new_packet floor_idle 0 (idle_body o.room.id prev_speaker (some cause)))
                    ∷ [])));
  }
  timer_action now o (granted speaker priority duration_s) = record o {
    room = switch_both o.room speaker now;
    effects =
        o.effects
        ++ (count ptt_floor_granted
            ∷ count ptt_speaker_switches
            ∷ count ptt_floor_queue_pop
            ∷ (burst_for (get_participant o.room speaker)
                ++ (send_if (get_participant o.room speaker) speaker
                      (ok_packet floor_request 0 (granted_body speaker priority duration_s))
                    ++ (to_room (new_packet floor_taken 0 (taken_body o.room.id speaker priority))
                        ∷ []))));
  }
  timer_action now o (denied reason current_speaker) = o
  timer_action now o (queued user_id position priority queue_size) = o
  timer_action now o (released prev_speaker) = o
  timer_action now o ping_ok = o
  timer_action now o ping_denied = o
  timer_action now o not_ptt_room = o

  abbrev pub timer_in : (clock now : ℕ) → Room → RoomMode → Outcome
  timer_in clock now r conference = accepted floor_release 0 r
  timer_in clock now r ptt =
      let asked = Floor.check_timers default_config r.floor clock clock in
      fold (timer_action now) (accepted floor_release 0 (with_floor r asked.0)) asked.1

  -- One room in a round of `run_floor_timer`; nobody is answered.
  unfoldable pub floor_timer : (clock now : ℕ) → Room → Outcome
  floor_timer clock now r = timer_in clock now r r.mode
