-- ===== src/Hub/Tests.antt =====
-- src/room/room.rs (`RoomHub`): tests, and the witnesses of the theorems about it.
use oxlens_sfu_server.Prelude.{
  ℕ, arith, ◌≡◌, refl, true, false, Option, none, some, List, [], ◌∷◌, lookup, put, assign, erase,
  if◌then◌else◌, ◌==◌, same,
}
use oxlens_sfu_server.Participant
use oxlens_sfu_server.Participant.{
  SocketAddr, v4, same_addr, PcType, publish_pc, subscribe_pc, Participant, session,
}
use oxlens_sfu_server.Room
use oxlens_sfu_server.Room.{conference, LightResult, ok, err, Store, Pointer, Room}
use oxlens_sfu_server.Hub.{
  Hub, new, find_by_addr, find_by_ufrag, add_participant, remove_participant, latch_by_ufrag,
  reap_zombies, Call, create_room, enter, stun, run, call, create, reap_users, reap_room,
  reap_rooms, zombie_ids, forget,
}
use oxlens_sfu_server.Hub.Index.{RoomOk}
use oxlens_sfu_server.Hub.Runs.{calls-IsValid}
use oxlens_sfu_server.Hub.Lookups.{latch_by_ufrag-keeps_old}
use oxlens_sfu_server.Hub.Removal.{member, unless_zombie}
use oxlens_sfu_server.Hub.Reap.{reap_zombies-member}

-- Two participants of one room; their jitters are numbers.
abbrev people : Store ℕ
people p =
    if p == 0
    then Participant.new "alice" "r" "alice_pub" "pwd" "alice_sub" "pwd" 1000
    else Participant.new "bob" "r" "bob_pub" "pwd" "bob_sub" "pwd" 9000

abbrev home : SocketAddr
home = v4 167772161 40000

abbrev mobile : SocketAddr
mobile = v4 167772162 50000

abbrev joining : List Call
joining = create_room "r" "Lounge" none conference 0 true 1 2 ∷ enter 0 1000 ∷ enter 1 9000 ∷ []

abbrev latching : List Call
latching =
    create_room "r" "Lounge" none conference 0 true 1 2
    ∷ enter 0 1000
    ∷ enter 1 9000
    ∷ stun "alice_pub" home
    ∷ []

abbrev joined_hub : Hub ℕ
joined_hub = run (new people) joining

abbrev latched_hub : Hub ℕ
latched_hub = run (new people) latching

abbrev hub_of : Hub ℕ → Option (Hub ℕ × Pointer × PcType × Room) → Hub ℕ
hub_of h none = h
hub_of h (some (h2, p, pc, r)) = h2

abbrev room_of : Option (Hub ℕ × Pointer × PcType × Room) → Room
room_of none = Room.new "none" "none" none conference 0 false 0 0
room_of (some (h2, p, pc, r)) = r

abbrev mobile_hub : Hub ℕ
mobile_hub = hub_of latched_hub (latch_by_ufrag latched_hub "alice_pub" mobile)

abbrev mobile_room : Room
mobile_room = room_of (latch_by_ufrag latched_hub "alice_pub" mobile)

calls-IsValid_example : RoomOk latched_hub.store "r" (lookup "r" latched_hub.rooms)
calls-IsValid_example = calls-IsValid people latching "r"

latch_by_ufrag-keeps_old_example :
    (mobile_hub.addr_index home ≡ latched_hub.addr_index home) × (mobile_room.by_addr home ≡ none)
unfolding run call new create Room.new Room.add_participant add_participant latch_by_ufrag
    Room.latch find_by_addr lookup put assign same_addr same Participant.new
latch_by_ufrag-keeps_old_example =
    latch_by_ufrag-keeps_old latched_hub mobile_hub "alice_pub" mobile home 0 publish_pc mobile_room
      refl refl (λ e. ground (arith, e))

-- The old address is still there.
old_home : mobile_hub.addr_index home ≡ some "r"
unfolding run call new create Room.new Room.add_participant add_participant latch_by_ufrag
    Room.latch find_by_addr lookup put assign same_addr same Participant.new
old_home = refl

-- After 30 seconds, alice is reaped and bob is not.
reap_zombies-member_example :
    member (reap_zombies joined_hub 30000 25000).0 "r" "alice"
    ≡ unless_zombie joined_hub.store 30000 25000 (member joined_hub "r" "alice")
reap_zombies-member_example = reap_zombies-member people joining 30000 25000 "r" "alice"

abbrev after_reaping : List (Option Pointer)
after_reaping =
    member (reap_zombies joined_hub 30000 25000).0 "r" "alice"
    ∷ member (reap_zombies joined_hub 30000 25000).0 "r" "bob"
    ∷ []

only_bob_is_left : after_reaping ≡ none ∷ some 1 ∷ []
unfolding run call new create Room.new Room.add_participant add_participant latch_by_ufrag
    Room.latch find_by_addr lookup put assign same_addr same Participant.new find_by_ufrag
    remove_participant Room.remove_participant erase forget reap_zombies reap_rooms reap_room
    reap_users zombie_ids
only_bob_is_left = refl
