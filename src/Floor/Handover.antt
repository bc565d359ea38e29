-- ===== src/Floor/Handover.antt =====
-- src/room/floor.rs: who gets the floor when it comes free, and who no longer can.
use oxlens_sfu_server.Prelude.{
  ℕ, ◌<◌, String, ◌≡◌, refl, subst, ◌≢◌, inl, inr, true, false, Option, none, some, List, [], ◌∷◌,
  arith, All, Bool-cases, same, same_iff, same_self,
}
use oxlens_sfu_server.Floor.Queue.{QueueEntry, has_user, retain_others}
use oxlens_sfu_server.Floor.Order.{NotAfter, IsSorted, has_user-retain_others}
use oxlens_sfu_server.Floor.Valid.{IsValid}
use oxlens_sfu_server.Floor.{
  FloorState, idle, taken, FloorAction, released, FloorConfig, FloorInner, current_speaker,
  grant_next, grant_action, request_taken, request, release, on_participant_leave,
}

abbrev At : FloorInner → FloorState → FloorInner
At s st = record s { state = st }

-- In a valid state with a waiter, a speaker who releases hands the floor to the entry that stands
-- first: nobody behind it has a higher priority, or the same with an earlier request. The room
-- hears the release and the grant, and the others keep their places.
release_serves_first :
    (c : FloorConfig) (s : FloorInner) (u : String) (sp b l clock : ℕ) (e : QueueEntry)
    (es : List QueueEntry)
    → IsValid c s
    → s.state ≡ taken u sp b l
    → s.queue ≡ e ∷ es
    → (release s u clock ≡ (
      record { state = taken e.user_id e.priority clock clock; queue = es; prev_speaker = none },
      released u ∷ grant_action e.user_id e.priority ∷ [],
    ))
      × All (NotAfter e) es
unfolding release grant_next
release_serves_first c s u sp b l clock e es v st q =
    (ground (arith, same_self u), (subst IsSorted q v.sorted).0)

-- With nobody waiting the floor becomes idle, and the old speaker is remembered as the last one.
pub release-idle :
    (s : FloorInner) (u : String) (sp b l clock : ℕ)
    → s.state ≡ taken u sp b l
    → s.queue ≡ []
    → release s u clock
      ≡ (record { state = idle; queue = []; prev_speaker = some u }, released u ∷ [])
unfolding release grant_next
release-idle s u sp b l clock st q = ground (arith, same_self u)

-- Nobody named `u` speaks or waits.
abbrev pub IsGone : String → FloorInner → Type 0
IsGone u s = (current_speaker s ≢ some u) × (has_user u s.queue ≡ false)

grant_next-IsGone :
    (u : String) (q : List QueueEntry) (prev : Option String) (clock : ℕ) (a : FloorAction)
    → has_user u q ≡ false
    → IsGone u (grant_next (record { state = idle; queue = q; prev_speaker = prev }) clock a).0
unfolding grant_next current_speaker has_user
grant_next-IsGone u [] prev clock a h = (λ e. cc, refl)
grant_next-IsGone u (x ∷ xs) prev clock a h =
    (λ e. ground (arith, same_iff x.user_id u), ground arith)

retain_others-has_user : (u : String) (q : List QueueEntry) → has_user u (retain_others u q) ≡ false
retain_others-has_user u q = ground (arith, has_user-retain_others u u q, same_self u)

leave_at-IsGone :
    (s : FloorInner) (u : String) (clock : ℕ) (st : FloorState)
    → IsGone u (on_participant_leave (At s st) u clock).0
unfolding on_participant_leave current_speaker
leave_at-IsGone s u clock idle = (λ e. cc, retain_others-has_user u s.queue)
leave_at-IsGone s u clock (taken speaker sp b l) = elim (Bool-cases (same speaker u)) [
  | inl mine ↦ rw mine (
      grant_next-IsGone u (retain_others u s.queue) (some u) clock (released u)
        (retain_others-has_user u s.queue))
  | inr other ↦ rw other (λ e. ground (arith, same_iff speaker u), retain_others-has_user u s.queue)
]

-- A participant who leaves neither holds the floor nor waits for it afterwards.
leave-IsGone :
    (s : FloorInner) (u : String) (clock : ℕ) → IsGone u (on_participant_leave s u clock).0
leave-IsGone s u clock = leave_at-IsGone s u clock s.state

-- The defect: a waiting user who preempts the speaker keeps the queue entry. Where it stands first,
-- the release by that user is answered by a grant to the same user, at the old priority.
pub preempt_then_release :
    (c : FloorConfig) (s : FloorInner) (u speaker : String) (p sp b l now clock : ℕ)
    (e : QueueEntry) (es : List QueueEntry)
    → c.preemption_enabled ≡ true
    → s.state ≡ taken speaker sp b l
    → speaker ≢ u
    → sp < p
    → s.queue ≡ e ∷ es
    → e.user_id ≡ u
    → let r = release (request c s u p now).0 u clock in
      (current_speaker r.0 ≡ some u) × (r.1 ≡ released u ∷ grant_action u e.priority ∷ [])
unfolding request request_taken release grant_next current_speaker
preempt_then_release c s u speaker p sp b l now clock e es on st ne lt q mine =
    ground (arith, same_self u, same_iff speaker u)
