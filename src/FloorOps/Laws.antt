-- ===== src/FloorOps/Laws.antt =====
-- src/signaling/handler/floor_ops.rs, room_ops.rs and tasks.rs: the rewriters follow the floor, except
-- after the speaker has left.
use oxlens_sfu_server.Prelude.{
  ℕ, String, ◌≡◌, refl, sym, Bool, true, Option, none, some, List, [], ◌∷◌, arith, same, same_iff,
  some-injective, subst,
}
use oxlens_sfu_server.Floor
use oxlens_sfu_server.Floor.Queue.{QueueEntry, retain_others}
use oxlens_sfu_server.Floor.{
  FloorInner, FloorState, idle, taken, FloorAction, granted, denied, queued, released, revoked,
  current_speaker, default_config, request_taken, enqueue, grant_next, revoke,
}
use oxlens_sfu_server.Room
use oxlens_sfu_server.Room.{Room, RoomMode, conference, ptt, Store, or_default}
use oxlens_sfu_server.FloorOps.{
  request_in, handle_floor_request, apply_action, flush_ptt_silence, release_in,
  handle_floor_release, leave_in, leave_floor, timer_in, floor_timer,
}
use oxlens_sfu_server.FloorOps.Effects.{
  switch_both, with_floor, fold, handle_floor_ping, floor_default_priority,
}
use oxlens_sfu_server.FloorOps.Answers.{
  Floor_at, IsSynced, Speaks, check_timers-TimerOk, clear_both-Speaks, ping-IsSynced,
  release-ReleaseOk, request-RequestOk,
}

-- The calls that the handlers and the timer make in a room.
pub data FloorCall : Type 0 where
  asks : (pid : ℕ) (user_id : String) (priority : Option ℕ) (clock now : ℕ) → FloorCall
  lets_go : (pid : ℕ) (user_id : String) (clock now : ℕ) → FloorCall
  pings : (pid : ℕ) (user_id : String) (clock : ℕ) → FloorCall
  ticks : (clock now : ℕ) → FloorCall

module _ {F : Type 0} (st : Store F) where
  unfoldable pub floor_call : Room → FloorCall → Room
  floor_call r (asks pid user_id priority clock now) =
      (handle_floor_request st pid user_id priority clock now r).room
  floor_call r (lets_go pid user_id clock now) =
      (handle_floor_release st pid user_id clock now r).room
  floor_call r (pings pid user_id clock) = (handle_floor_ping pid user_id clock r).room
  floor_call r (ticks clock now) = (floor_timer st clock now r).room

  unfoldable pub floor_calls : Room → List FloorCall → Room
  floor_calls r [] = r
  floor_calls r (c ∷ cs) = floor_calls (floor_call r c) cs

  request_in-IsSynced :
      (pid : ℕ) (user_id : String) (priority : Option ℕ) (clock now : ℕ) (r : Room) (m : RoomMode)
      → IsSynced r
      → IsSynced (request_in st pid user_id priority clock now r m).room
  request_in-IsSynced pid user_id priority clock now r conference v = v
  request_in-IsSynced pid user_id priority clock now r ptt v =
      request-RequestOk st user_id clock now pid r (or_default priority floor_default_priority)
        r.floor.state r.floor.queue r.floor.prev_speaker v

  release_in-IsSynced :
      (pid : ℕ) (user_id : String) (clock now : ℕ) (r : Room) (m : RoomMode)
      → IsSynced r
      → IsSynced (release_in st pid user_id clock now r m).room
  release_in-IsSynced pid user_id clock now r conference v = v
  release_in-IsSynced pid user_id clock now r ptt v =
      release-ReleaseOk st user_id clock now pid r r.floor.state r.floor.queue r.floor.prev_speaker
        v

  timer_in-IsSynced :
      (clock now : ℕ) (r : Room) (m : RoomMode)
      → IsSynced r
      → IsSynced (timer_in st clock now r m).room
  timer_in-IsSynced clock now r conference v = v
  timer_in-IsSynced clock now r ptt v =
      check_timers-TimerOk st "" clock now 0 r r.floor.state r.floor.queue r.floor.prev_speaker v

  floor_call-IsSynced : (r : Room) (c : FloorCall) → IsSynced r → IsSynced (floor_call r c)
  unfolding floor_call handle_floor_request handle_floor_release handle_floor_ping floor_timer
  floor_call-IsSynced r (asks pid user_id priority clock now) v =
      request_in-IsSynced pid user_id priority clock now r r.mode v
  floor_call-IsSynced r (lets_go pid user_id clock now) v =
      release_in-IsSynced pid user_id clock now r r.mode v
  floor_call-IsSynced r (pings pid user_id clock) v =
      ping-IsSynced st user_id clock 0 pid r r.floor.state r.floor.queue r.floor.prev_speaker v
  floor_call-IsSynced r (ticks clock now) v = timer_in-IsSynced clock now r r.mode v

  floor_calls-keeps : (r : Room) (cs : List FloorCall) → IsSynced r → IsSynced (floor_calls r cs)
  unfolding floor_calls
  floor_calls-keeps r [] v = v
  floor_calls-keeps r (c ∷ cs) v = floor_calls-keeps (floor_call r c) cs (floor_call-IsSynced r c v)

  -- In a new room, after any requests, releases and pings of the floor and rounds of the timer, the
  -- audio and the video rewriter send on the packets of the speaker that holds the floor, and of
  -- nobody where it is idle.
  pub floor_calls-IsSynced :
      (id name : String) (capacity : Option ℕ) (mode : RoomMode) (created_at : ℕ)
      (simulcast_enabled : Bool) (audio_ssrc video_ssrc : ℕ) (cs : List FloorCall)
      → let r =
          floor_calls
            (Room.new id name capacity mode created_at simulcast_enabled audio_ssrc video_ssrc)
            cs in
        (r.audio_state.speaker ≡ current_speaker r.floor)
        × (r.video_state.speaker ≡ current_speaker r.floor)
  unfolding Room.new Floor.new current_speaker
  floor_calls-IsSynced id name capacity mode created_at simulcast_enabled audio_ssrc video_ssrc cs =
      floor_calls-keeps
        (Room.new id name capacity mode created_at simulcast_enabled audio_ssrc video_ssrc) cs
        (refl, refl)

  leave_in-mutes :
      (user_id : String) (clock now : ℕ) (r : Room) (s : FloorState) (q : List QueueEntry)
      (prev : Option String) (next : QueueEntry) (rest : List QueueEntry)
      → current_speaker (Floor_at s q prev) ≡ some user_id
      → retain_others user_id q ≡ next ∷ rest
      → let left = (leave_in st user_id clock now (with_floor r (Floor_at s q prev)) ptt).room in
        (current_speaker left.floor ≡ some next.user_id) × Speaks left none
  unfolding Floor.on_participant_leave grant_next current_speaker flush_ptt_silence fold
      apply_action
  leave_in-mutes user_id clock now r idle q prev next rest speaks waits =
      absurd (ground (arith, speaks))
  leave_in-mutes user_id clock now r (taken speaker p b l) q prev next rest speaks waits =
      let mine : same speaker user_id ≡ true =
        (same_iff speaker user_id).1 (some-injective speaks) in
      rw (mine, waits) (refl, clear_both-Speaks (switch_both r next.user_id now) now)

  -- The defect: when the speaker of a push-to-talk room leaves and somebody else waits, then the next
  -- one is granted the floor and the rewriters are switched to him, but the silence that is flushed
  -- afterwards clears them: he holds the floor, and both rewriters send on nobody's packets.
  pub leave_floor-mutes :
      (user_id : String) (clock now : ℕ) (r : Room) (next : QueueEntry) (rest : List QueueEntry)
      → r.mode ≡ ptt
      → current_speaker r.floor ≡ some user_id
      → retain_others user_id r.floor.queue ≡ next ∷ rest
      → let left = (leave_floor st user_id clock now r).room in
        (current_speaker left.floor ≡ some next.user_id)
        × (left.audio_state.speaker ≡ none)
        × (left.video_state.speaker ≡ none)
  unfolding leave_floor
  leave_floor-mutes user_id clock now r next rest in_ptt speaks waits =
      let x =
        leave_in-mutes user_id clock now r r.floor.state r.floor.queue r.floor.prev_speaker next
          rest speaks waits in
      let y =
        subst
          (λ m.
            let left = (leave_in st user_id clock now r m).room in
            (current_speaker left.floor ≡ some next.user_id) × Speaks left none)
          (sym in_ptt) x in
      (y.0, y.1.0, y.1.1)
