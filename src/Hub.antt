-- ===== src/Hub.antt =====
-- src/room/room.rs: all rooms (`RoomHub`), with the reverse indices from ICE names and addresses
-- to the ids of rooms. The rooms, which the code shares through `Arc`s, are updated in place under
-- their ids; the store holds every participant that the handlers make. The id of a new room is
-- drawn by the caller.
pub mod Index
pub mod Runs
pub mod Laws
pub mod Lookups
pub mod Removal
pub mod Reap
mod Tests
use oxlens_sfu_server.Prelude.{
  ℕ, ◌-◌, String, Bool, true, false, Option, none, some, List, [], ◌∷◌, ◌++◌, ltb, leb, ◌==◌, ◌&&◌,
  not, same, if◌then◌else◌, length, Map, insert, remove, lookup, erase, assign, put, map, and_then,
}
use oxlens_sfu_server.Participant.{
  SocketAddr, same_addr, PcType, publish_pc, subscribe_pc, Participant, touch,
}
use oxlens_sfu_server.Room
use oxlens_sfu_server.Room.{
  RoomMode, LightError, room_not_found, LightResult, ok, err, Pointer, Store, write, Room,
  remove_addr, latch,
}

pub record Hub (F : Type 0) : Type 0 where
  pub store : Store F
  pub rooms : List (String × Room)
  pub ufrag_index : Map String String
  pub addr_index : Map SocketAddr String

-- `last > 0 && now_ms.saturating_sub(last) > timeout_ms`
abbrev pub is_zombie : (now_ms timeout_ms last_seen : ℕ) → Bool
is_zombie now_ms timeout_ms last_seen = ltb 0 last_seen && ltb timeout_ms (now_ms - last_seen)

-- The participant that a room has found, with the room.
abbrev pub found_in : Room → Option (Pointer × PcType) → Option (Pointer × PcType × Room)
found_in r none = none
found_in r (some (p, pc)) = some (p, pc, r)

-- What is asked of the hub, in any order: the handlers' and the tasks' calls. A participant
-- that enters is made for the room it enters, and `seen` is `Participant::touch`.
pub data Call : Type 0 where
  create_room :
      (id name : String) (capacity : Option ℕ)
      → RoomMode
      → (created_at : ℕ) (simulcast_enabled : Bool) (audio_ssrc video_ssrc : ℕ) → Call
  enter : (p : Pointer) (now : ℕ) → Call
  leave : (room_id user_id : String) → Call
  stun : (ufrag : String) (addr : SocketAddr) → Call
  seen : (p : Pointer) (ts : ℕ) → Call
  reap : (now_ms timeout_ms : ℕ) → Call
  close_room : (room_id : String) → Call

module _ {F : Type 0} where
  -- The store has the participants that will join.
  unfoldable pub new : Store F → Hub F
  new st = record { store = st; rooms = []; ufrag_index = λ ufrag. none; addr_index = λ addr. none }

  unfoldable pub create :
      Hub F
      → (id name : String) (capacity : Option ℕ) → RoomMode
      → (created_at : ℕ) (simulcast_enabled : Bool) (audio_ssrc video_ssrc : ℕ) → Hub F
  create h id name capacity mode created_at simulcast_enabled audio_ssrc video_ssrc = record h {
    rooms =
        put id (Room.new id name capacity mode created_at simulcast_enabled audio_ssrc video_ssrc)
          h.rooms;
  }

  abbrev pub get : Hub F → String → Option Room
  get h room_id = lookup room_id h.rooms

  abbrev pub count : Hub F → ℕ
  count h = length h.rooms

  -- The indices without the names and addresses of the participant.
  unfoldable pub forget : Hub F → Pointer → Hub F
  forget h p = record h {
    ufrag_index =
        remove same (h.store p).subscribe.ufrag
          (remove same (h.store p).publish.ufrag h.ufrag_index);
    addr_index =
        remove_addr (h.store p).subscribe.address
          (remove_addr (h.store p).publish.address h.addr_index);
  }

  unfoldable pub forget_all : Hub F → List (String × Pointer) → Hub F
  forget_all h [] = h
  forget_all h (e ∷ es) = forget_all (forget h e.1) es

  abbrev pub remove_got : Hub F → String → Option Room → LightResult (Hub F × Room)
  remove_got h room_id none = err room_not_found
  remove_got h room_id (some r) =
      ok (forget_all (record h { rooms = erase room_id h.rooms }) r.participants, r)

  unfoldable pub remove_room : Hub F → String → LightResult (Hub F × Room)
  remove_room h room_id = remove_got h room_id (get h room_id)

  -- The rest of `add_participant`, after the room has answered.
  abbrev pub added : Hub F → String → Pointer → LightResult Room → LightResult (Hub F)
  added h room_id p (err e) = err e
  added h room_id p (ok r) = ok (record h {
    rooms = assign room_id r h.rooms;
    ufrag_index =
        insert same (h.store p).subscribe.ufrag room_id
          (insert same (h.store p).publish.ufrag room_id h.ufrag_index);
  })

  -- `self.get(room_id)?`, and what follows.
  abbrev pub add_in : Hub F → String → Pointer → (now : ℕ) → Option Room → LightResult (Hub F)
  add_in h room_id p now none = err room_not_found
  add_in h room_id p now (some r) = added h room_id p (Room.add_participant h.store r p now)

  unfoldable pub add_participant : Hub F → String → Pointer → (now : ℕ) → LightResult (Hub F)
  add_participant h room_id p now = add_in h room_id p now (get h room_id)

  abbrev pub removed : Hub F → String → LightResult (Room × Pointer) → LightResult (Hub F × Pointer)
  removed h room_id (err e) = err e
  removed h room_id (ok (r, p)) = ok (forget (record h { rooms = assign room_id r h.rooms }) p, p)

  abbrev pub remove_in : Hub F → String → String → Option Room → LightResult (Hub F × Pointer)
  remove_in h room_id user_id none = err room_not_found
  remove_in h room_id user_id (some r) =
      removed h room_id (Room.remove_participant h.store r user_id)

  unfoldable pub remove_participant : Hub F → String → String → LightResult (Hub F × Pointer)
  remove_participant h room_id user_id = remove_in h room_id user_id (get h room_id)

  abbrev pub latched :
      Hub F
      → String
      → SocketAddr
      → Option (Store F × Room × Pointer × PcType)
      → Option (Hub F × Pointer × PcType × Room)
  latched h room_id addr none = none
  latched h room_id addr (some (st, r, p, pc)) = some (
    record h {
      store = st;
      rooms = assign room_id r h.rooms;
      addr_index = insert same_addr addr room_id h.addr_index;
    },
    p,
    pc,
    r,
  )

  -- `self.rooms.get(&room_id)?`, and what follows.
  abbrev pub latch_in :
      Hub F → String → String → SocketAddr → Option Room → Option (Hub F × Pointer × PcType × Room)
  latch_in h ufrag room_id addr none = none
  latch_in h ufrag room_id addr (some r) = latched h room_id addr (latch h.store r ufrag addr)

  unfoldable pub latch_by_ufrag :
      Hub F → String → SocketAddr → Option (Hub F × Pointer × PcType × Room)
  latch_by_ufrag h ufrag addr =
      and_then (h.ufrag_index ufrag) (λ room_id. latch_in h ufrag room_id addr (get h room_id))

  unfoldable pub find_by_addr : Hub F → SocketAddr → Option (Pointer × PcType × Room)
  find_by_addr h addr =
      and_then (h.addr_index addr)
        (λ room_id. and_then (get h room_id) (λ r. found_in r (Room.get_by_addr r addr)))

  unfoldable pub find_by_ufrag : Hub F → String → Option (Pointer × PcType × Room)
  find_by_ufrag h ufrag =
      and_then (h.ufrag_index ufrag)
        (λ room_id. and_then (get h room_id) (λ r. found_in r (Room.get_by_ufrag r ufrag)))

  -- The users of a room that have been silent for too long.
  unfoldable pub zombie_ids :
      Store F → (now_ms timeout_ms : ℕ) → List (String × Pointer) → List String
  zombie_ids st now_ms timeout_ms [] = []
  zombie_ids st now_ms timeout_ms (e ∷ es) =
      let rest = zombie_ids st now_ms timeout_ms es in
      if is_zombie now_ms timeout_ms (st e.1).last_seen then e.0 ∷ rest else rest

  abbrev pub reaped :
      Hub F × List (String × Pointer)
      → String
      → LightResult (Hub F × Pointer)
      → Hub F × List (String × Pointer)
  reaped (h, out) room_id (err e) = (h, out)
  reaped (h, out) room_id (ok (h2, p)) = (h2, out ++ ((room_id, p) ∷ []))

  -- The loop over the zombies of a room, and that over the rooms.
  unfoldable pub reap_users :
      Hub F × List (String × Pointer) → String → List String → Hub F × List (String × Pointer)
  reap_users s room_id [] = s
  reap_users s room_id (u ∷ us) =
      reap_users (reaped s room_id (remove_participant s.0 room_id u)) room_id us

  unfoldable pub reap_room :
      (now_ms timeout_ms : ℕ)
      → Hub F × List (String × Pointer)
      → String
      → Option Room
      → Hub F × List (String × Pointer)
  reap_room now_ms timeout_ms s room_id none = s
  reap_room now_ms timeout_ms s room_id (some r) =
      reap_users s room_id (zombie_ids s.0.store now_ms timeout_ms r.participants)

  unfoldable pub reap_rooms :
      (now_ms timeout_ms : ℕ)
      → Hub F × List (String × Pointer)
      → List String
      → Hub F × List (String × Pointer)
  reap_rooms now_ms timeout_ms s [] = s
  reap_rooms now_ms timeout_ms s (id ∷ ids) =
      reap_rooms now_ms timeout_ms (reap_room now_ms timeout_ms s id (get s.0 id)) ids

  unfoldable pub reap_zombies : Hub F → (now_ms timeout_ms : ℕ) → Hub F × List (String × Pointer)
  reap_zombies h now_ms timeout_ms = reap_rooms now_ms timeout_ms (h, []) (map (λ e. e.0) h.rooms)

  -- The hub that a call leaves: an error leaves it as it was.
  abbrev pub after_add : Hub F → LightResult (Hub F) → Hub F
  after_add h (err e) = h
  after_add h (ok h2) = h2

  abbrev pub after_remove : {A : Type 0} → Hub F → LightResult (Hub F × A) → Hub F
  after_remove h (err e) = h
  after_remove h (ok (h2, a)) = h2

  abbrev pub after_latch : Hub F → Option (Hub F × Pointer × PcType × Room) → Hub F
  after_latch h none = h
  after_latch h (some (h2, p, pc, r)) = h2

  unfoldable pub call : Hub F → Call → Hub F
  call h (create_room id name capacity mode created_at simulcast_enabled audio_ssrc video_ssrc) =
      create h id name capacity mode created_at simulcast_enabled audio_ssrc video_ssrc
  call h (enter p now) = after_add h (add_participant h (h.store p).room_id p now)
  call h (leave room_id user_id) = after_remove h (remove_participant h room_id user_id)
  call h (stun ufrag addr) = after_latch h (latch_by_ufrag h ufrag addr)
  call h (seen p ts) = record h { store = write h.store p (touch (h.store p) ts) }
  call h (reap now_ms timeout_ms) = (reap_zombies h now_ms timeout_ms).0
  call h (close_room room_id) = after_remove h (remove_room h room_id)

  unfoldable pub run : Hub F → List Call → Hub F
  run h [] = h
  run h (c ∷ cs) = run (call h c) cs
