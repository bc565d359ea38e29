-- ===== src/Floor.antt =====
-- src/room/floor.rs: the floor controller of a push-to-talk room. Each method of
-- `FloorController` locks `FloorInner` for its whole length, so it is a function from the inner
-- state to the next one and the actions that it returns. `config` never changes and is an argument;
-- the times are arguments too, and so is the clock that `_try_grant_next` reads.
pub mod Queue
pub mod Order
pub mod Invariant
pub mod Valid
pub mod Announce
pub mod Arrival
pub mod Timers
pub mod Handover
pub mod Turns
pub mod Tenure
mod Tests
use oxlens_sfu_server.Prelude.{
  ℕ, ◌+◌, ◌-◌, ◌%◌, String, Bool, true, false, ◌&&◌, Option, none, some, List, [], ◌∷◌, ◌++◌, ltb,
  leb, if◌then◌else◌, length, same,
}
use Queue.{QueueEntry, has_user, place, retain_others, find_from, sort_queue}

pub data FloorState : Type 0 where
  idle : FloorState
  taken : (speaker : String) → (speaker_priority burst_start last_ping : ℕ) → FloorState

pub data FloorAction : Type 0 where
  granted : (speaker : String) → (priority duration_s : ℕ) → FloorAction
  denied : (reason current_speaker : String) → FloorAction
  queued : (user_id : String) → (position priority queue_size : ℕ) → FloorAction
  released : (prev_speaker : String) → FloorAction
  revoked : (prev_speaker cause : String) → FloorAction
  ping_ok ping_denied not_ptt_room : FloorAction

pub record FloorConfig : Type 0 where
  pub queuing_enabled : Bool
  pub max_queue_size : ℕ
  pub preemption_enabled : Bool
  pub max_burst_ms : ℕ
  pub ping_timeout_ms : ℕ

pub record FloorInner : Type 0 where
  pub state : FloorState
  pub queue : List QueueEntry
  pub prev_speaker : Option String

-- `FLOOR_DEFAULT_DURATION_S`
abbrev pub floor_default_duration_s : ℕ
floor_default_duration_s = 30

-- `impl Default for FloorConfig`, with the constants of src/config.rs.
abbrev pub default_config : FloorConfig
default_config = record {
  queuing_enabled = true;
  max_queue_size = 10;
  preemption_enabled = true;
  max_burst_ms = 30000;
  ping_timeout_ms = 5000;
}

-- The inner state of `with_config`.
unfoldable pub new : FloorInner
new = record { state = idle; queue = []; prev_speaker = none }

abbrev pub speaker_of : FloorState → Option String
speaker_of idle = none
speaker_of (taken u p b l) = some u

abbrev pub priority_of : FloorState → Option ℕ
priority_of idle = none
priority_of (taken u p b l) = some p

unfoldable pub current_speaker : FloorInner → Option String
current_speaker s = speaker_of s.state

unfoldable pub current_speaker_priority : FloorInner → Option ℕ
current_speaker_priority s = priority_of s.state

unfoldable pub last_speaker : FloorInner → Option String
last_speaker s = s.prev_speaker

-- The state and the action of a grant.
abbrev pub grant_to : FloorInner → String → ℕ → ℕ → FloorInner
grant_to s u p now = record s { state = taken u p now now; prev_speaker = none }

abbrev pub grant_action : String → ℕ → FloorAction
grant_action u p = granted u p floor_default_duration_s

-- `_try_grant_next`, joined with the `if let Some(grant) = .. { actions.push(grant) }` of its
-- callers: `first` is the action that they have collected before.
unfoldable pub grant_next : FloorInner → ℕ → FloorAction → FloorInner × List FloorAction
grant_next s clock first = elim s.queue [
  | [] ↦ (s, first ∷ [])
  | next ∷ rest ↦ (
    grant_to (record s { queue = rest }) next.user_id next.priority clock,
    first ∷ grant_action next.user_id next.priority ∷ [],
  )
]

-- The queueing part of `request`, in a taken floor. `as u8` and `as u16` wrap.
unfoldable pub enqueue :
    FloorConfig → FloorInner → String → ℕ → ℕ → String → FloorInner × List FloorAction
enqueue c s u p now speaker =
    if has_user u s.queue
    then (s, queued u ((place u s.queue + 1) % 256) p (length s.queue % 65536) ∷ [])
    else if leb c.max_queue_size (length s.queue)
    then (s, denied "queue full" speaker ∷ [])
    else let entry : QueueEntry = record { user_id = u; priority = p; enqueued_at = now } in
      let q = sort_queue (s.queue ++ (entry ∷ [])) in
      (record s { queue = q }, queued u ((place u q + 1) % 256) p (length q % 65536) ∷ [])

-- `request` where the floor is taken by `speaker` with `speaker_priority`.
unfoldable pub request_taken :
    FloorConfig → FloorInner → String → ℕ → ℕ → String → ℕ → FloorInner × List FloorAction
request_taken c s u p now speaker speaker_priority =
    if same speaker u
    then (s, grant_action u speaker_priority ∷ [])
    else if c.preemption_enabled && ltb speaker_priority p
    then (
      record s { state = taken u p now now; prev_speaker = some speaker },
      revoked speaker "preempted" ∷ grant_action u p ∷ [],
    )
    else if c.queuing_enabled
    then enqueue c s u p now speaker
    else (s, denied "channel busy" speaker ∷ [])

unfoldable pub request : FloorConfig → FloorInner → String → ℕ → ℕ → FloorInner × List FloorAction
request c s u p now = elim s.state [
  | idle ↦ (grant_to s u p now, grant_action u p ∷ [])
  | taken speaker speaker_priority burst_start last_ping ↦
      request_taken c s u p now speaker speaker_priority
]

unfoldable pub release : FloorInner → String → ℕ → FloorInner × List FloorAction
release s u clock = elim s.state [
  | idle ↦ (s, released u ∷ [])
  | taken speaker speaker_priority burst_start last_ping ↦
      if same speaker u
      then grant_next (record s { state = idle; prev_speaker = some u }) clock (released u)
      else (record s { queue = retain_others u s.queue }, [])
]

unfoldable pub ping : FloorInner → String → ℕ → FloorInner × FloorAction
ping s u now = elim s.state [
  | idle ↦ (s, ping_denied)
  | taken speaker speaker_priority burst_start last_ping ↦
      if same speaker u
      then (record s { state = taken speaker speaker_priority burst_start now }, ping_ok)
      else (s, ping_denied)
]

unfoldable pub query_queue_position : FloorInner → String → Option (ℕ × ℕ)
query_queue_position s u = elim (find_from 0 u s.queue) [
  | none ↦ none
  | some (i, p) ↦ some ((i + 1) % 256, p)
]

unfoldable pub queue_size : FloorInner → ℕ
queue_size s = length s.queue

unfoldable pub cancel_queue : FloorInner → String → FloorInner × Bool
cancel_queue s u =
    let q = retain_others u s.queue in (record s { queue = q }, ltb (length q) (length s.queue))

-- The floor is taken from `speaker` by the server.
unfoldable pub revoke : FloorInner → String → String → ℕ → FloorInner × List FloorAction
revoke s speaker cause clock =
    grant_next (record s { state = idle; prev_speaker = some speaker }) clock
      (revoked speaker cause)

-- `saturating_sub` is the `-` of the natural numbers.
unfoldable pub check_timers : FloorConfig → FloorInner → ℕ → ℕ → FloorInner × List FloorAction
check_timers c s now clock = elim s.state [
  | idle ↦ (s, [])
  | taken speaker speaker_priority burst_start last_ping ↦
      if ltb c.max_burst_ms (now - burst_start)
      then revoke s speaker "max burst exceeded" clock
      else if ltb c.ping_timeout_ms (now - last_ping)
      then revoke s speaker "participant lost" clock
      else (s, [])
]

unfoldable pub on_participant_leave : FloorInner → String → ℕ → FloorInner × List FloorAction
on_participant_leave s u clock =
    let s' = record s { queue = retain_others u s.queue } in
    elim s.state [
      | idle ↦ (s', [])
      | taken speaker speaker_priority burst_start last_ping ↦
          if same speaker u
          then grant_next (record s' { state = idle; prev_speaker = some u }) clock (released u)
          else (s', [])
    ]

-- The calls that the signalling handlers, the media path and the timer task make on a controller.
pub data Call : Type 0 where
  requests : (user_id : String) → (priority now : ℕ) → Call
  releases : (user_id : String) → (clock : ℕ) → Call
  pings : (user_id : String) → (now : ℕ) → Call
  cancels : (user_id : String) → Call
  checks : (now clock : ℕ) → Call
  leaves : (user_id : String) → (clock : ℕ) → Call

unfoldable pub step : FloorConfig → FloorInner → Call → FloorInner × List FloorAction
step c s (requests u p now) = request c s u p now
step c s (releases u clock) = release s u clock
step c s (pings u now) = let (s', a) = ping s u now in (s', a ∷ [])
step c s (cancels u) = let (s', b) = cancel_queue s u in (s', [])
step c s (checks now clock) = check_timers c s now clock
step c s (leaves u clock) = on_participant_leave s u clock

-- A history of calls: the last state, and all actions in order.
unfoldable pub run : FloorConfig → FloorInner → List Call → FloorInner × List FloorAction
run c s [] = (s, [])
run c s (k ∷ ks) = let (s', as') = step c s k in let (t, bs) = run c s' ks in (t, as' ++ bs)
