-- ===== src/Floor/Turns.antt =====
-- src/room/floor.rs: how long a waiting user waits for the floor. A speaker's turn ends when he
-- releases, leaves, or is revoked by one of the timers.
use oxlens_sfu_server.Prelude.{
  ℕ, suc, ◌+◌, ◌≤◌, ◌<◌, String, ◌≡◌, ◌≢◌, ◌⊎◌, true, some, List, [], ◌∷◌, same, if◌then◌else◌,
}
use oxlens_sfu_server.Floor.Queue.{QueueEntry, has_user}
use oxlens_sfu_server.Floor.{
  taken, FloorConfig, FloorInner, current_speaker, release, check_timers, on_participant_leave,
}

-- The ends of the speaker's turn: the state before and the state after.
pub data Ended (c : FloorConfig) : FloorInner → FloorInner → Type 0 where
  by_release :
      (s : FloorInner) (u : String) (clock : ℕ)
      → current_speaker s ≡ some u
      → Ended c s (release s u clock).0
  by_leave :
      (s : FloorInner) (u : String) (clock : ℕ)
      → current_speaker s ≡ some u
      → Ended c s (on_participant_leave s u clock).0
  by_timer :
      (s : FloorInner) (u : String) (sp b l now clock : ℕ)
      → s.state ≡ taken u sp b l
      → (b + c.max_burst_ms < now) ⊎ (l + c.ping_timeout_ms < now)
      → Ended c s (check_timers c s now clock).0

-- So many turns end, one after the other, and after none of them `v` comes to speak.
pub data Passed (c : FloorConfig) (v : String) : ℕ → FloorInner → FloorInner → Type 0 where
  none_ended : (s : FloorInner) → Passed c v 0 s s
  another :
      {n : ℕ} {s t w : FloorInner}
      → Ended c s t
      → current_speaker t ≢ some v
      → Passed c v n t w
      → Passed c v (suc n) s w

-- How many entries stand before the first of `v`.
unfoldable pub entries_ahead : String → List QueueEntry → ℕ
entries_ahead v [] = 0
entries_ahead v (e ∷ es) = let rest = entries_ahead v es in if same e.user_id v then 0 else rest + 1

-- `v` waits behind so many entries at most, and the floor is taken by somebody else.
pub record Waits (v : String) (ahead : ℕ) (s : FloorInner) : Type 0 where
  pub waiting : has_user v s.queue ≡ true
  pub in_front : entries_ahead v s.queue ≤ ahead
  pub speaker : String
  pub speaks : current_speaker s ≡ some speaker
  pub other : speaker ≢ v
