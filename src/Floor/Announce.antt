-- ===== src/Floor/Announce.antt =====
-- src/room/floor.rs: what the returned actions tell the room.
use oxlens_sfu_server.Prelude.{
  ℕ, String, ◌≡◌, refl, sym, ap, ◌∙◌, inl, inr, Option, none, some, List, [], ◌∷◌, ◌++◌, arith,
  Bool-cases, same, same_iff,
}
use oxlens_sfu_server.Floor.Queue.{QueueEntry, retain_others}
use oxlens_sfu_server.Floor.{
  FloorState, idle, taken, FloorAction, granted, denied, queued, released, revoked, ping_ok,
  ping_denied, not_ptt_room, FloorConfig, FloorInner, new, current_speaker, Call, requests,
  releases, pings, cancels, checks, leaves, grant_next, enqueue, request_taken, request, release,
  ping, cancel_queue, revoke, check_timers, on_participant_leave, step, run,
}

-- The speaker as a member of the room knows it, from the announced actions alone: a grant names
-- the new one, a release and a revocation leave the floor idle.
abbrev pub follow : Option String → FloorAction → Option String
follow o (granted u p d) = some u
follow o (released u) = none
follow o (revoked u cause) = none
follow o (denied r u) = o
follow o (queued u i p n) = o
follow o ping_ok = o
follow o ping_denied = o
follow o not_ptt_room = o

abbrev pub follow_all : Option String → List FloorAction → Option String
follow_all o [] = o
follow_all o (a ∷ as') = follow_all (follow o a) as'

follow_all-append :
    (o : Option String) (as' bs : List FloorAction)
    → follow_all o (as' ++ bs) ≡ follow_all (follow_all o as') bs
follow_all-append o [] bs = refl
follow_all-append o (a ∷ as') bs = follow_all-append (follow o a) as' bs

-- A call from the state `st`, as the room follows it.
abbrev At : FloorInner → FloorState → FloorInner
At s st = record s { state = st }

grant_next-follow :
    (q : List QueueEntry) (prev o : Option String) (clock : ℕ) (a : FloorAction)
    → follow o a ≡ none
    → let r = grant_next (record { state = idle; queue = q; prev_speaker = prev }) clock a in
      follow_all o r.1 ≡ current_speaker r.0
unfolding grant_next current_speaker
grant_next-follow [] prev o clock a e = e
grant_next-follow (x ∷ xs) prev o clock a e = refl

request-follow :
    (c : FloorConfig) (s : FloorInner) (u : String) (p now : ℕ) (st : FloorState)
    → let r = request c (At s st) u p now in
      follow_all (current_speaker (At s st)) r.1 ≡ current_speaker r.0
unfolding request request_taken enqueue current_speaker
request-follow c s u p now idle = refl
request-follow c s u p now (taken speaker sp b l) = ground (arith, same_iff speaker u)

release-follow :
    (s : FloorInner) (u : String) (clock : ℕ) (st : FloorState)
    → let r = release (At s st) u clock in
      follow_all (current_speaker (At s st)) r.1 ≡ current_speaker r.0
unfolding release current_speaker
release-follow s u clock idle = refl
release-follow s u clock (taken speaker sp b l) = elim (Bool-cases (same speaker u)) [
  | inl mine ↦ rw mine (grant_next-follow s.queue (some u) (some speaker) clock (released u) refl)
  | inr other ↦ rw other
]

ping-follow :
    (s : FloorInner) (u : String) (now : ℕ) (st : FloorState)
    → current_speaker (ping (At s st) u now).0 ≡ current_speaker (At s st)
unfolding ping current_speaker
ping-follow s u now idle = refl
ping-follow s u now (taken speaker sp b l) = ground arith

ping-follow_action :
    (s : FloorInner) (u : String) (now : ℕ) (o : Option String) (st : FloorState)
    → follow o (ping (At s st) u now).1 ≡ o
unfolding ping
ping-follow_action s u now o idle = refl
ping-follow_action s u now o (taken speaker sp b l) = ground arith

check_timers-follow :
    (c : FloorConfig) (s : FloorInner) (now clock : ℕ) (st : FloorState)
    → let r = check_timers c (At s st) now clock in
      follow_all (current_speaker (At s st)) r.1 ≡ current_speaker r.0
unfolding check_timers revoke current_speaker
check_timers-follow c s now clock idle = refl
check_timers-follow c s now clock (taken speaker sp b l) = ground (
  arith,
  grant_next-follow s.queue (some speaker) (some speaker) clock
      (revoked speaker "max burst exceeded") refl,
  grant_next-follow s.queue (some speaker) (some speaker) clock (revoked speaker "participant lost")
      refl,
)

leave-follow :
    (s : FloorInner) (u : String) (clock : ℕ) (st : FloorState)
    → let r = on_participant_leave (At s st) u clock in
      follow_all (current_speaker (At s st)) r.1 ≡ current_speaker r.0
unfolding on_participant_leave current_speaker
leave-follow s u clock idle = refl
leave-follow s u clock (taken speaker sp b l) = elim (Bool-cases (same speaker u)) [
  | inl mine ↦
      rw mine (
        grant_next-follow (retain_others u s.queue) (some u) (some speaker) clock (released u) refl)
  | inr other ↦ rw other
]

-- On every call the announced actions lead from the old speaker to the new one.
step-follow :
    (c : FloorConfig) (s : FloorInner) (k : Call)
    → follow_all (current_speaker s) (step c s k).1 ≡ current_speaker (step c s k).0
unfolding step cancel_queue current_speaker
step-follow c s (requests u p now) = request-follow c s u p now s.state
step-follow c s (releases u clock) = release-follow s u clock s.state
step-follow c s (pings u now) =
    ping-follow_action s u now (current_speaker s) s.state ∙ sym (ping-follow s u now s.state)
step-follow c s (cancels u) = refl
step-follow c s (checks now clock) = check_timers-follow c s now clock s.state
step-follow c s (leaves u clock) = leave-follow s u clock s.state

run_from-follow :
    (c : FloorConfig) (ks : List Call) (s : FloorInner)
    → follow_all (current_speaker s) (run c s ks).1 ≡ current_speaker (run c s ks).0
unfolding run
run_from-follow c [] s = refl
run_from-follow c (k ∷ ks) s =
    follow_all-append (current_speaker s) (step c s k).1 (run c (step c s k).0 ks).1
    ∙ ap (λ o. follow_all o (run c (step c s k).0 ks).1) (step-follow c s k)
    ∙ run_from-follow c ks (step c s k).0

-- Over any history of calls on a new controller, whoever applies the returned actions in order
-- (a grant names the speaker, a release or a revocation empties the floor, the rest changes
-- nothing) knows at its end exactly who holds the floor.
pub run-follow :
    (c : FloorConfig) (ks : List Call)
    → follow_all none (run c new ks).1 ≡ current_speaker (run c new ks).0
unfolding new current_speaker
run-follow c ks = run_from-follow c ks new
