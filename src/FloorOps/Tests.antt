-- ===== src/FloorOps/Tests.antt =====
-- src/signaling/handler/floor_ops.rs and room_ops.rs: tests, and the witnesses of the theorems.
use oxlens_sfu_server.Prelude.{ℕ, ◌≡◌, false, none, List, [], ◌∷◌}
use oxlens_sfu_server.Floor.{current_speaker}
use oxlens_sfu_server.Participant
use oxlens_sfu_server.Participant.{Participant}
use oxlens_sfu_server.Room
use oxlens_sfu_server.Room.{Room, ptt, Store}
use oxlens_sfu_server.FloorOps.Laws.{FloorCall, asks, ticks, floor_calls, floor_calls-IsSynced}

abbrev people : Store ℕ
people p = Participant.new "alice" "r" "alice_pub" "pwd" "alice_sub" "pwd" 1000

-- Alice speaks and bob waits; then the timer runs.
abbrev asking : List FloorCall
asking = asks 1 "alice" none 1000 50 ∷ asks 2 "bob" none 2000 60 ∷ ticks 3000 70 ∷ []

abbrev lounge : Room
lounge = Room.new "r" "Lounge" none ptt 0 false 1 2

abbrev busy : Room
busy = floor_calls people lounge asking

floor_calls-IsSynced_example :
    (busy.audio_state.speaker ≡ current_speaker busy.floor)
    × (busy.video_state.speaker ≡ current_speaker busy.floor)
floor_calls-IsSynced_example = floor_calls-IsSynced people "r" "Lounge" none ptt 0 false 1 2 asking
