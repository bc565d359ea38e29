-- ===== src/Floor/Tests.antt =====
-- Runs of src/room/floor.rs on small inputs, and the theorems about it at concrete inputs.
use oxlens_sfu_server.Prelude.{
  ℕ, ◌+◌, String, ◌≡◌, refl, inl, none, some, List, [], ◌∷◌, arith, same, ne_of_not_same,
}
use oxlens_sfu_server.Floor.Queue.{QueueEntry, has_user, place, sort_queue}
use oxlens_sfu_server.Floor.Valid.{IsValid}
use oxlens_sfu_server.Floor.Invariant.{run-IsValid}
use oxlens_sfu_server.Floor.Announce.{follow_all, run-follow}
use oxlens_sfu_server.Floor.Arrival.{insert_last, count_ahead, request_waits}
use oxlens_sfu_server.Floor.Timers.{check_timers_alive}
use oxlens_sfu_server.Floor.Handover.{release-idle, preempt_then_release}
use oxlens_sfu_server.Floor.Tenure.{run-tenure}
use oxlens_sfu_server.Floor.{
  idle, taken, queued, released, default_config, FloorInner, new, current_speaker,
  query_queue_position, Call, requests, releases, pings, checks, leaves, grant_next, grant_action,
  request, release, check_timers, run, enqueue, request_taken, step,
}

abbrev waiting : String → ℕ → ℕ → QueueEntry
waiting u p t = record { user_id = u; priority = p; enqueued_at = t }

-- a speaks with priority 5; b and c wait.
abbrev contested : FloorInner
contested = record {
  state = taken "a" 5 100 100;
  queue = waiting "b" 2 110 ∷ waiting "c" 1 105 ∷ [];
  prev_speaker = none;
}

abbrev alone : FloorInner
alone = record { state = taken "a" 5 100 100; queue = []; prev_speaker = none }

abbrev history : List Call
history =
    requests "a" 5 100
    ∷ requests "c" 1 105
    ∷ requests "b" 2 110
    ∷ pings "a" 150
    ∷ releases "a" 200
    ∷ checks 6000 6000
    ∷ leaves "c" 6100
    ∷ []

history_speaker :
    current_speaker
      (run default_config new
        (requests "a" 5 100 ∷ requests "c" 1 105 ∷ requests "b" 2 110 ∷ releases "a" 200 ∷ [])).0
    ≡ some "b"
unfolding run step new request request_taken enqueue same has_user place sort_queue release
    grant_next current_speaker
history_speaker = refl

contested-IsValid : IsValid default_config contested
unfolding has_user same
contested-IsValid = record {
  sorted = ((inl (omega arith), tt), (tt, tt));
  distinct = (refl, (refl, tt));
  bounded = omega arith;
  waits = (omega arith, (omega arith, tt));
}

run-IsValid_example : IsValid default_config (run default_config new history).0
run-IsValid_example = run-IsValid default_config history

run-follow_example :
    follow_all none (run default_config new history).1
    ≡ current_speaker (run default_config new history).0
run-follow_example = run-follow default_config history

release-idle_example :
    release alone "a" 200
    ≡ (record { state = idle; queue = []; prev_speaker = some "a" }, released "a" ∷ [])
release-idle_example = release-idle alone "a" 5 100 100 200 refl refl

preempt_then_release_example :
    let r = release (request default_config contested "b" 9 150).0 "b" 200 in
    (current_speaker r.0 ≡ some "b") × (r.1 ≡ released "b" ∷ grant_action "b" 2 ∷ [])
unfolding same
preempt_then_release_example =
    preempt_then_release default_config contested "b" "a" 9 5 100 100 150 200 (waiting "b" 2 110)
      (waiting "c" 1 105 ∷ []) refl refl (ne_of_not_same "a" "b" refl) (omega arith) refl refl

-- c asks, a pings, and b leaves; the ping at 4000 carries a over the check at 8000.
abbrev busy : List Call
busy =
    requests "c" 1 150 ∷ pings "a" 4000 ∷ pings "b" 7000 ∷ checks 8000 8001 ∷ leaves "b" 8002 ∷ []

run-tenure_example : (run default_config contested busy).0.state ≡ taken "a" 5 100 4000
unfolding same
run-tenure_example =
    run-tenure default_config contested "a" 5 100 100 busy refl
      (omega arith, (omega arith, omega arith, (ne_of_not_same "b" "a" refl, tt)))

check_timers_alive_example : check_timers default_config contested 5000 5001 ≡ (contested, [])
check_timers_alive_example =
    check_timers_alive default_config contested "a" 5 100 100 5000 5001 refl (omega arith)
      (omega arith)

request_waits_example :
    (request default_config contested "d" 2 120 ≡ (
      record contested { queue = insert_last (waiting "d" 2 120) contested.queue },
      queued "d" (count_ahead (waiting "d" 2 120) contested.queue + 1) 2 3 ∷ [],
    ))
    × (query_queue_position
          (record contested { queue = insert_last (waiting "d" 2 120) contested.queue })
          "d"
        ≡ some (count_ahead (waiting "d" 2 120) contested.queue + 1, 2))
unfolding same has_user
request_waits_example =
    request_waits default_config contested "d" "a" 2 5 100 100 120 contested-IsValid (omega arith)
      refl (ne_of_not_same "a" "d" refl) refl refl refl (omega arith)
