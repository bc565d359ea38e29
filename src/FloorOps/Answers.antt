-- ===== src/FloorOps/Answers.antt =====
-- src/signaling/handler/floor_ops.rs and src/tasks.rs: each answer of the floor leaves the rewriters on
-- the speaker that holds it.
use oxlens_sfu_server.Prelude.{
  ℕ, ◌-◌, String, ◌≡◌, refl, sym, ap, ◌∙◌, inl, inr, Bool-cases, Option, none, some, List, [], ◌∷◌,
  arith, same, same_iff, ltb, leb, length,
}
use oxlens_sfu_server.Floor
use oxlens_sfu_server.Floor.Queue.{QueueEntry, has_user}
use oxlens_sfu_server.Floor.{
  FloorInner, FloorState, idle, taken, FloorAction, granted, denied, queued, released, revoked,
  current_speaker, default_config, request_taken, enqueue, grant_next, revoke,
}
use oxlens_sfu_server.Ptt.{PttRewriter, RewriteState, switch_speaker, clear_speaker}
use oxlens_sfu_server.Room.{Room, Store}
use oxlens_sfu_server.FloorOps.{
  request_action, apply_action, flush_action, flush_ptt_silence, timer_action,
}
use oxlens_sfu_server.FloorOps.Effects.{
  switch_both, clear_both, with_floor, accepted, floor_request, floor_release, fold,
}

-- Both rewriters send on the packets of this speaker, or of nobody.
abbrev pub Speaks : Room → Option String → Type 0
Speaks r o = (r.audio_state.speaker ≡ o) × (r.video_state.speaker ≡ o)

-- The rewriters send on the speaker that holds the floor.
abbrev pub IsSynced : Room → Type 0
IsSynced r = Speaks r (current_speaker r.floor)

clear_speaker-speaker :
    (w : PttRewriter) (s : RewriteState) (now : ℕ) → (clear_speaker w s now).0.speaker ≡ none
unfolding clear_speaker
clear_speaker-speaker w s now = ground arith

pub switch_both-Speaks : (r : Room) (u : String) (now : ℕ) → Speaks (switch_both r u now) (some u)
unfolding switch_speaker
switch_both-Speaks r u now = (refl, refl)

pub clear_both-Speaks : (r : Room) (now : ℕ) → Speaks (clear_both r now) none
clear_both-Speaks r now = (
  clear_speaker-speaker r.audio_rewriter r.audio_state now,
  clear_speaker-speaker r.video_rewriter r.video_state now,
)

-- A room with a floor in the given state.
abbrev pub Floor_at : FloorState → List QueueEntry → Option String → FloorInner
Floor_at s q prev = record { state = s; queue = q; prev_speaker = prev }

module _ {F : Type 0} (st : Store F) (user_id : String) (clock now pid : ℕ) (r : Room) where
  -- What the handlers make of an answer of the floor.
  abbrev RequestOk : FloorInner × List FloorAction → Type 0
  RequestOk g =
      IsSynced
        (fold (request_action st pid user_id now) (accepted floor_request pid (with_floor r g.0))
          g.1).room

  abbrev ReleaseOk : FloorInner × List FloorAction → Type 0
  ReleaseOk g =
      IsSynced
        (fold (apply_action st floor_release pid user_id now)
          (fold (flush_action st now) (accepted floor_release pid (with_floor r g.0)) g.1) g.1).room

  abbrev TimerOk : FloorInner × List FloorAction → Type 0
  TimerOk g =
      IsSynced (fold (timer_action st now) (accepted floor_release 0 (with_floor r g.0)) g.1).room

  grant_next-ReleaseOk :
      (q : List QueueEntry) (prev : Option String) (u : String)
      → ReleaseOk (grant_next (Floor_at idle q prev) clock (released u))
  unfolding grant_next current_speaker fold flush_action apply_action flush_ptt_silence
  grant_next-ReleaseOk [] prev u = clear_both-Speaks r now
  grant_next-ReleaseOk (x ∷ xs) prev u = switch_both-Speaks (clear_both r now) x.user_id now

  pub release-ReleaseOk :
      (s : FloorState) (q : List QueueEntry) (prev : Option String)
      → IsSynced (with_floor r (Floor_at s q prev))
      → ReleaseOk (Floor.release (Floor_at s q prev) user_id clock)
  unfolding Floor.release current_speaker fold flush_action apply_action flush_ptt_silence
  release-ReleaseOk idle q prev v = clear_both-Speaks r now
  release-ReleaseOk (taken speaker p b l) q prev v = elim (Bool-cases (same speaker user_id)) [
    | inl mine ↦ rw mine (grant_next-ReleaseOk q (some user_id) user_id)
    | inr other ↦ rw other v
  ]

  revoke-TimerOk :
      (q : List QueueEntry) (prev : Option String) (u cause : String)
      → TimerOk (grant_next (Floor_at idle q prev) clock (revoked u cause))
  unfolding grant_next current_speaker fold timer_action
  revoke-TimerOk [] prev u cause = clear_both-Speaks r now
  revoke-TimerOk (x ∷ xs) prev u cause = switch_both-Speaks (clear_both r now) x.user_id now

  pub check_timers-TimerOk :
      (s : FloorState) (q : List QueueEntry) (prev : Option String)
      → IsSynced (with_floor r (Floor_at s q prev))
      → TimerOk (Floor.check_timers default_config (Floor_at s q prev) clock clock)
  unfolding Floor.check_timers revoke current_speaker fold
  check_timers-TimerOk idle q prev v = v
  check_timers-TimerOk (taken speaker p b l) q prev v =
      elim (Bool-cases (ltb default_config.max_burst_ms (clock - b))) [
        | inl long ↦ rw long (revoke-TimerOk q (some speaker) speaker "max burst exceeded")
        | inr short ↦ elim (Bool-cases (ltb default_config.ping_timeout_ms (clock - l))) [
          | inl lost ↦ rw (short, lost) (revoke-TimerOk q (some speaker) speaker "participant lost")
          | inr here ↦ rw (short, here) v
        ]
      ]

  enqueue-RequestOk :
      (priority : ℕ) (speaker : String) (p b l : ℕ) (q : List QueueEntry) (prev : Option String)
      → IsSynced (with_floor r (Floor_at (taken speaker p b l) q prev))
      → RequestOk (
          enqueue default_config
            (Floor_at (taken speaker p b l) q prev)
            user_id
            priority
            clock
            speaker)
  unfolding enqueue current_speaker fold request_action
  enqueue-RequestOk priority speaker p b l q prev v = elim (Bool-cases (has_user user_id q)) [
    | inl waits ↦ rw waits v
    | inr new ↦ elim (Bool-cases (leb default_config.max_queue_size (length q))) [
      | inl full ↦ rw (new, full) v
      | inr room ↦ rw (new, room) v
    ]
  ]

  request_taken-RequestOk :
      (priority : ℕ) (speaker : String) (p b l : ℕ) (q : List QueueEntry) (prev : Option String)
      → IsSynced (with_floor r (Floor_at (taken speaker p b l) q prev))
      → RequestOk (
          request_taken default_config
            (Floor_at (taken speaker p b l) q prev)
            user_id
            priority
            clock
            speaker
            p)
  unfolding request_taken enqueue current_speaker fold request_action
  request_taken-RequestOk priority speaker p b l q prev v =
      elim (Bool-cases (same speaker user_id)) [
        | inl mine ↦
            let e : some user_id ≡ some speaker =
              ap some (sym ((same_iff speaker user_id).0 mine)) in
            let heard = switch_both-Speaks r user_id now in rw mine (heard.0 ∙ e, heard.1 ∙ e)
        | inr other ↦ elim (Bool-cases (ltb p priority)) [
          | inl higher ↦ rw (other, higher) (switch_both-Speaks r user_id now)
          | inr lower ↦ rw (other, lower) (enqueue-RequestOk priority speaker p b l q prev v)
        ]
      ]

  pub request-RequestOk :
      (priority : ℕ) (s : FloorState) (q : List QueueEntry) (prev : Option String)
      → IsSynced (with_floor r (Floor_at s q prev))
      → RequestOk (Floor.request default_config (Floor_at s q prev) user_id priority clock)
  unfolding Floor.request current_speaker fold request_action
  request-RequestOk priority idle q prev v = switch_both-Speaks r user_id now
  request-RequestOk priority (taken speaker p b l) q prev v =
      request_taken-RequestOk priority speaker p b l q prev v

  pub ping-IsSynced :
      (s : FloorState) (q : List QueueEntry) (prev : Option String)
      → IsSynced (with_floor r (Floor_at s q prev))
      → IsSynced (with_floor r (Floor.ping (Floor_at s q prev) user_id clock).0)
  unfolding Floor.ping current_speaker
  ping-IsSynced idle q prev v = v
  ping-IsSynced (taken speaker p b l) q prev v = elim (Bool-cases (same speaker user_id)) [
    | inl mine ↦ rw mine v
    | inr other ↦ rw other v
  ]
