-- ===== src/Floor/Invariant.antt =====
-- src/room/floor.rs: the invariant of `FloorInner`, kept by every call.
use oxlens_sfu_server.Prelude.{
  ℕ, ◌-◌, ◌≤◌, String, ◌≡◌, refl, ◌&&◌, inl, inr, Bool, true, false, List, [], ◌∷◌, arith, length,
  Bool-cases, same, leb, ltb,
}
use oxlens_sfu_server.Floor.Queue.{QueueEntry, has_user, retain_others}
use oxlens_sfu_server.Floor.Order.{
  All-retain_others, retain_others-IsSorted, retain_others-Distinct, length-retain_others,
}
use oxlens_sfu_server.Floor.{
  FloorState, idle, taken, FloorConfig, FloorInner, new, Call, requests, releases, pings, cancels,
  checks, leaves, enqueue, request_taken, request, release, ping, cancel_queue, revoke,
  check_timers, on_participant_leave, step, run,
}
use oxlens_sfu_server.Floor.Valid.{
  AtMost, AtMost-mono, Waits, IsValid, grant_next-IsValid, arrival-IsValid, arrival-Waits,
}

-- The state, with its own fields or with another queue and history.
abbrev At : FloorInner → FloorState → FloorInner
At s st = record s { state = st }

enqueue-IsValid :
    (c : FloorConfig) (s : FloorInner) (u : String) (p now : ℕ) (speaker : String) (sp b l : ℕ)
    → IsValid c (At s (taken speaker sp b l))
    → (c.preemption_enabled && ltb sp p) ≡ false
    → IsValid c (enqueue c (At s (taken speaker sp b l)) u p now speaker).0
unfolding enqueue
enqueue-IsValid c s u p now speaker sp b l v h = elim (Bool-cases (has_user u s.queue)) [
  | inl old ↦ rw old v
  | inr fresh ↦ elim (Bool-cases (leb c.max_queue_size (length s.queue))) [
    | inl full ↦ rw (fresh, full) v
    | inr room ↦
        rw (fresh, room)
          (arrival-IsValid c (At s (taken speaker sp b l)) _ v fresh (ground arith)
            (arrival-Waits c.preemption_enabled speaker sp b l s.queue _ v.waits h))
  ]
]

-- A speaker of at least the old priority is not outranked either.
preempt-Waits :
    (preempts : Bool) (u v : String) (sp p b l b' l' : ℕ) (q : List QueueEntry)
    → Waits preempts (taken u sp b l) q
    → sp ≤ p
    → Waits preempts (taken v p b' l') q
preempt-Waits true u v sp p b l b' l' q w h = AtMost-mono sp p q h w
preempt-Waits false u v sp p b l b' l' q w h = tt

request_taken-IsValid :
    (c : FloorConfig) (s : FloorInner) (u : String) (p now : ℕ) (speaker : String) (sp b l : ℕ)
    → IsValid c (At s (taken speaker sp b l))
    → IsValid c (request_taken c (At s (taken speaker sp b l)) u p now speaker sp).0
unfolding request_taken
request_taken-IsValid c s u p now speaker sp b l v = elim (Bool-cases (same speaker u)) [
  | inl mine ↦ rw mine v
  | inr other ↦ elim (Bool-cases (c.preemption_enabled && ltb sp p)) [
    | inl wins ↦
        rw (other, wins)
          (record {
            sorted = v.sorted;
            distinct = v.distinct;
            bounded = v.bounded;
            waits =
                preempt-Waits c.preemption_enabled speaker u sp p b l now now s.queue v.waits
                  (ground arith);
          })
    | inr loses ↦ elim (Bool-cases c.queuing_enabled) [
      | inl queues ↦
          simp (other, loses, queues) (enqueue-IsValid c s u p now speaker sp b l v loses)
      | inr busy ↦ simp (other, loses, busy) v
    ]
  ]
]

idle-Waits :
    (preempts : Bool) (u : String) (p now : ℕ) (q : List QueueEntry)
    → q ≡ []
    → Waits preempts (taken u p now now) q
idle-Waits true u p now [] e = tt
idle-Waits true u p now (x ∷ xs) e = absurd (cc)
idle-Waits false u p now q e = tt

request-at-IsValid :
    (c : FloorConfig) (s : FloorInner) (u : String) (p now : ℕ) (st : FloorState)
    → IsValid c (At s st)
    → IsValid c (request c (At s st) u p now).0
unfolding request
request-at-IsValid c s u p now idle v = record {
  sorted = v.sorted;
  distinct = v.distinct;
  bounded = v.bounded;
  waits = idle-Waits c.preemption_enabled u p now s.queue v.waits;
}
request-at-IsValid c s u p now (taken speaker sp b l) v =
    request_taken-IsValid c s u p now speaker sp b l v

retain_others-Waits :
    (preempts : Bool) (st : FloorState) (u : String) (q : List QueueEntry)
    → Waits preempts st q
    → Waits preempts st (retain_others u q)
unfolding retain_others
retain_others-Waits preempts idle u [] w = refl
retain_others-Waits preempts idle u (x ∷ xs) w = absurd (cc)
retain_others-Waits true (taken v p b l) u q w = All-retain_others (AtMost p) u q w
retain_others-Waits false (taken v p b l) u q w = tt

-- The queue without a user.
retain_others-IsValid :
    (c : FloorConfig) (s : FloorInner) (u : String)
    → IsValid c s
    → IsValid c (record s { queue = retain_others u s.queue })
retain_others-IsValid c s u v = record {
  sorted = retain_others-IsSorted u s.queue v.sorted;
  distinct = retain_others-Distinct u s.queue v.distinct;
  bounded = omega (arith, length-retain_others u s.queue, v.bounded);
  waits = retain_others-Waits c.preemption_enabled s.state u s.queue v.waits;
}

release-at-IsValid :
    (c : FloorConfig) (s : FloorInner) (u : String) (clock : ℕ) (st : FloorState)
    → IsValid c (At s st)
    → IsValid c (release (At s st) u clock).0
unfolding release
release-at-IsValid c s u clock idle v = v
release-at-IsValid c s u clock (taken speaker sp b l) v = elim (Bool-cases (same speaker u)) [
  | inl mine ↦ rw mine (grant_next-IsValid c _ clock _ s.queue v.sorted v.distinct v.bounded)
  | inr other ↦ rw other (retain_others-IsValid c (At s (taken speaker sp b l)) u v)
]

ping-at-IsValid :
    (c : FloorConfig) (s : FloorInner) (u : String) (now : ℕ) (st : FloorState)
    → IsValid c (At s st)
    → IsValid c (ping (At s st) u now).0
unfolding ping
ping-at-IsValid c s u now idle v = v
ping-at-IsValid c s u now (taken speaker sp b l) v = elim (Bool-cases (same speaker u)) [
  | inl mine ↦ rw mine (record {
    sorted = v.sorted;
    distinct = v.distinct;
    bounded = v.bounded;
    waits =
        preempt-Waits c.preemption_enabled speaker speaker sp sp b l b now s.queue v.waits
          (omega arith);
  })
  | inr other ↦ rw other v
]

check_timers-at-IsValid :
    (c : FloorConfig) (s : FloorInner) (now clock : ℕ) (st : FloorState)
    → IsValid c (At s st)
    → IsValid c (check_timers c (At s st) now clock).0
unfolding check_timers revoke
check_timers-at-IsValid c s now clock idle v = v
check_timers-at-IsValid c s now clock (taken speaker sp b l) v =
    let next : (cause : String)
        → IsValid c (revoke (At s (taken speaker sp b l)) speaker cause clock).0 =
      λ cause. grant_next-IsValid c _ clock _ s.queue v.sorted v.distinct v.bounded in
    elim (Bool-cases (ltb c.max_burst_ms (now - b))) [
      | inl long ↦ rw long (next "max burst exceeded")
      | inr short ↦ elim (Bool-cases (ltb c.ping_timeout_ms (now - l))) [
        | inl lost ↦ rw (short, lost) (next "participant lost")
        | inr alive ↦ rw (short, alive) v
      ]
    ]

leave_at-IsValid :
    (c : FloorConfig) (s : FloorInner) (u : String) (clock : ℕ) (st : FloorState)
    → IsValid c (At s st)
    → IsValid c (on_participant_leave (At s st) u clock).0
unfolding on_participant_leave
leave_at-IsValid c s u clock idle v = retain_others-IsValid c (At s idle) u v
leave_at-IsValid c s u clock (taken speaker sp b l) v =
    let rest = retain_others-IsValid c (At s (taken speaker sp b l)) u v in
    elim (Bool-cases (same speaker u)) [
      | inl mine ↦ rw mine (
          grant_next-IsValid c _ clock _ (retain_others u s.queue) rest.sorted rest.distinct
            rest.bounded)
      | inr other ↦ rw other rest
    ]

-- Every call keeps the invariant.
step-IsValid :
    (c : FloorConfig) (s : FloorInner) (k : Call) → IsValid c s → IsValid c (step c s k).0
unfolding step cancel_queue
step-IsValid c s (requests u p now) v = request-at-IsValid c s u p now s.state v
step-IsValid c s (releases u clock) v = release-at-IsValid c s u clock s.state v
step-IsValid c s (pings u now) v = ping-at-IsValid c s u now s.state v
step-IsValid c s (cancels u) v = retain_others-IsValid c s u v
step-IsValid c s (checks now clock) v = check_timers-at-IsValid c s now clock s.state v
step-IsValid c s (leaves u clock) v = leave_at-IsValid c s u clock s.state v

new-IsValid : (c : FloorConfig) → IsValid c new
unfolding new
new-IsValid c = record { sorted = tt; distinct = tt; bounded = omega arith; waits = refl }

run_from-IsValid :
    (c : FloorConfig) (ks : List Call) (s : FloorInner) → IsValid c s → IsValid c (run c s ks).0
unfolding run
run_from-IsValid c [] s v = v
run_from-IsValid c (k ∷ ks) s v = run_from-IsValid c ks (step c s k).0 (step-IsValid c s k v)

-- After any history of calls on a new controller the queue is sorted by falling priority and then
-- by request time, holds no user twice and is within `max_queue_size`; it is empty while the floor
-- is idle, and where preemption is enabled no waiting priority is above the speaker's.
pub run-IsValid : (c : FloorConfig) (ks : List Call) → IsValid c (run c new ks).0
run-IsValid c ks = run_from-IsValid c ks new (new-IsValid c)
