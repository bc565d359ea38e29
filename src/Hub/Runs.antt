-- ===== src/Hub/Runs.antt =====
-- src/room/room.rs (`RoomHub`): the calls that latch, reap and close, and every run of calls.
use oxlens_sfu_server.Prelude.{
  ℕ, String, ◌≡◌, refl, sym, ◌∙◌, ◌≢◌, Option, none, some, List, [], ◌∷◌, arith, lookup, map, erase,
  same_iff, subst, and_then,
}
use oxlens_sfu_server.Participant.{
  Participant, SocketAddr, PcType, publish_pc, subscribe_pc, session, touch, latch_session,
}
use oxlens_sfu_server.Room
use oxlens_sfu_server.Room.{LightResult, ok, err, Pointer, Store, Room, write, latch_found}
use oxlens_sfu_server.Room.Sound.{UfragOk, UserOk}
use oxlens_sfu_server.Room.Latch.{latched-IsSound}
use oxlens_sfu_server.Room.Writes.{write-IsSound, alike-IsSound}
use oxlens_sfu_server.Hub.{
  Hub, new, get, remove_room, remove_got, remove_participant, latched, latch_in, latch_by_ufrag,
  add_participant, reap_users, reap_room, reap_rooms, reap_zombies, reaped, zombie_ids, Call,
  create_room, enter, leave, stun, seen, reap, close_room, after_add, after_remove, after_latch,
  call, run,
}
use oxlens_sfu_server.Hub.Index.{
  RoomOk, IsValid, AddedOk, RemovedOk, LatchedOk, assign-RoomsOk, got, new-IsValid, create-IsValid,
  forget_all-IsValid, erase-IsValid, add_participant-IsValid, remove_participant-IsValid,
}

module _ {F : Type 0} where
  -- A write to a participant of one room leaves the others' indices right.
  write-RoomOk :
      (st : Store F) (p : Pointer) (w : Participant F) (id : String) (o : Option Room)
      → (st p).room_id ≢ id
      → RoomOk st id o
      → RoomOk (write st p w) id o
  write-RoomOk st p w id none elsewhere v = tt
  write-RoomOk st p w id (some r) elsewhere v =
      (v.0, write-IsSound st p w r v.1 (λ e. elsewhere (e ∙ v.0)))

  latched-IsValid :
      (h : Hub F) (id ufrag : String) (addr : SocketAddr) (r : Room) (o : Option (Pointer × PcType))
      → get h id ≡ some r
      → IsValid h
      → UfragOk h.store r.participants ufrag o
      → LatchedOk (latched h id addr (latch_found h.store r addr o))
  latched-IsValid h id ufrag addr r none found v entry = tt
  latched-IsValid h id ufrag addr r (some (p, pc)) found v entry =
      let w = latch_session (h.store p) pc addr in
      let ok_r = got h id r found v in
      let here : (h.store p).room_id ≡ id =
        (subst (UserOk h.store r.id (h.store p).user_id) entry.1
          (ok_r.1.users (h.store p).user_id)).1
        ∙ ok_r.0 in
      assign-RoomsOk (write h.store p w) h.rooms id r (Room.latched h.store r p pc addr) found
        (ok_r.0, latched-IsSound h.store p pc addr r entry.1 ok_r.1)
        (λ q other.
          write-RoomOk h.store p w q (lookup q h.rooms)
            (λ e. ground (arith, same_iff q id, sym e ∙ here)) (v q))

  latch_in-IsValid :
      (h : Hub F) (ufrag id : String) (addr : SocketAddr) (o : Option Room)
      → get h id ≡ o
      → IsValid h
      → LatchedOk (latch_in h ufrag id addr o)
  unfolding Room.latch
  latch_in-IsValid h ufrag id addr none found v = tt
  latch_in-IsValid h ufrag id addr (some r) found v =
      latched-IsValid h id ufrag addr r (r.by_ufrag ufrag) found v
        ((got h id r found v).1.ufrags ufrag)

  index-IsValid :
      (h : Hub F) (ufrag : String) (addr : SocketAddr) (o : Option String)
      → IsValid h
      → LatchedOk (and_then o (λ id. latch_in h ufrag id addr (get h id)))
  index-IsValid h ufrag addr none v = tt
  index-IsValid h ufrag addr (some id) v = latch_in-IsValid h ufrag id addr (get h id) refl v

  pub latch_by_ufrag-IsValid :
      (h : Hub F) (ufrag : String) (addr : SocketAddr)
      → IsValid h
      → LatchedOk (latch_by_ufrag h ufrag addr)
  unfolding latch_by_ufrag
  latch_by_ufrag-IsValid h ufrag addr v = index-IsValid h ufrag addr (h.ufrag_index ufrag) v

  got-IsValid :
      (h : Hub F) (id : String) (o : Option Room) → IsValid h → RemovedOk (remove_got h id o)
  got-IsValid h id none v = tt
  got-IsValid h id (some r) v =
      forget_all-IsValid (record h { rooms = erase id h.rooms }) r.participants
        (erase-IsValid h id v)

  reaped-IsValid :
      (s : Hub F × List (String × Pointer)) (id : String) (x : LightResult (Hub F × Pointer))
      → IsValid s.0
      → RemovedOk x
      → IsValid (reaped s id x).0
  reaped-IsValid s id (err e) v w = v
  reaped-IsValid s id (ok (h2, p)) v w = w

  reap_users-IsValid :
      (s : Hub F × List (String × Pointer)) (id : String) (us : List String)
      → IsValid s.0
      → IsValid (reap_users s id us).0
  unfolding reap_users
  reap_users-IsValid s id [] v = v
  reap_users-IsValid s id (u ∷ us) v =
      reap_users-IsValid (reaped s id (remove_participant s.0 id u)) id us (
        reaped-IsValid s id (remove_participant s.0 id u) v (remove_participant-IsValid s.0 id u v))

  pub reap_room-IsValid :
      (now_ms timeout_ms : ℕ) (s : Hub F × List (String × Pointer)) (id : String) (o : Option Room)
      → IsValid s.0
      → IsValid (reap_room now_ms timeout_ms s id o).0
  unfolding reap_room
  reap_room-IsValid now_ms timeout_ms s id none v = v
  reap_room-IsValid now_ms timeout_ms s id (some r) v =
      reap_users-IsValid s id (zombie_ids s.0.store now_ms timeout_ms r.participants) v

  reap_rooms-IsValid :
      (now_ms timeout_ms : ℕ) (s : Hub F × List (String × Pointer)) (ids : List String)
      → IsValid s.0
      → IsValid (reap_rooms now_ms timeout_ms s ids).0
  unfolding reap_rooms
  reap_rooms-IsValid now_ms timeout_ms s [] v = v
  reap_rooms-IsValid now_ms timeout_ms s (id ∷ ids) v =
      reap_rooms-IsValid now_ms timeout_ms (reap_room now_ms timeout_ms s id (get s.0 id)) ids
        (reap_room-IsValid now_ms timeout_ms s id (get s.0 id) v)

  touch-session :
      (p : Participant F) (ts : ℕ) (pc : PcType) → session (touch p ts) pc ≡ session p pc
  touch-session p ts publish_pc = refl
  touch-session p ts subscribe_pc = refl

  seen-RoomOk :
      (st : Store F) (p : Pointer) (ts : ℕ) (id : String) (o : Option Room)
      → RoomOk st id o
      → RoomOk (write st p (touch (st p) ts)) id o
  seen-RoomOk st p ts id none v = tt
  seen-RoomOk st p ts id (some r) v =
      (v.0, alike-IsSound st p (touch (st p) ts) refl refl (touch-session (st p) ts) r v.1)

  after_add-IsValid :
      (h : Hub F) (x : LightResult (Hub F)) → IsValid h → AddedOk x → IsValid (after_add h x)
  after_add-IsValid h (err e) v w = v
  after_add-IsValid h (ok h2) v w = w

  after_remove-IsValid :
      {A : Type 0} (h : Hub F) (x : LightResult (Hub F × A))
      → IsValid h
      → RemovedOk x
      → IsValid (after_remove h x)
  after_remove-IsValid h (err e) v w = v
  after_remove-IsValid h (ok (h2, a)) v w = w

  after_latch-IsValid :
      (h : Hub F) (x : Option (Hub F × Pointer × PcType × Room))
      → IsValid h
      → LatchedOk x
      → IsValid (after_latch h x)
  after_latch-IsValid h none v w = v
  after_latch-IsValid h (some (h2, p, pc, r)) v w = w

  pub call-IsValid : (h : Hub F) (c : Call) → IsValid h → IsValid (call h c)
  unfolding call latch_by_ufrag remove_room reap_zombies
  call-IsValid h
        (create_room id name capacity mode created_at simulcast_enabled audio_ssrc video_ssrc) v =
      create-IsValid h id name capacity mode created_at simulcast_enabled audio_ssrc video_ssrc v
  call-IsValid h (enter p now) v =
      after_add-IsValid h (add_participant h (h.store p).room_id p now) v
        (add_participant-IsValid h (h.store p).room_id p now refl v)
  call-IsValid h (leave room_id user_id) v =
      after_remove-IsValid h (remove_participant h room_id user_id) v
        (remove_participant-IsValid h room_id user_id v)
  call-IsValid h (stun ufrag addr) v =
      after_latch-IsValid h (latch_by_ufrag h ufrag addr) v
        (index-IsValid h ufrag addr (h.ufrag_index ufrag) v)
  call-IsValid h (seen p ts) v = λ id. seen-RoomOk h.store p ts id (lookup id h.rooms) (v id)
  call-IsValid h (reap now_ms timeout_ms) v =
      reap_rooms-IsValid now_ms timeout_ms (h, []) (map (λ e. e.0) h.rooms) v
  call-IsValid h (close_room room_id) v =
      after_remove-IsValid h (remove_room h room_id) v (got-IsValid h room_id (get h room_id) v)

  run-keeps : (h : Hub F) (cs : List Call) → IsValid h → IsValid (run h cs)
  unfolding run
  run-keeps h [] v = v
  run-keeps h (c ∷ cs) v = run-keeps (call h c) cs (call-IsValid h c v)

  -- In every run of calls from an empty hub, each room stands under its id, and its indices are
  -- right: nobody is listed twice; who is listed under a user is that user, made for that room;
  -- an entry under an ICE name leads to a listed participant whose session has that name; and an
  -- entry under an address leads to a listed participant whose session has latched on that address.
  pub calls-IsValid : (st : Store F) (cs : List Call) → IsValid (run (new st) cs)
  calls-IsValid st cs = run-keeps (new st) cs (new-IsValid st)
