-- ===== src/Hub/Laws.antt =====
-- src/room/room.rs (`RoomHub`): what lookups by address and by ICE name find.
use oxlens_sfu_server.Prelude.{
  String, ◌≡◌, refl, sym, ap, ◌∙◌, ◌≢◌, Option, none, some, List, lookup, lookup-erase, same_self,
  subst, and_then, lookup-assign_self, some-injective,
}
use oxlens_sfu_server.Participant.{SocketAddr, PcType, session}
use oxlens_sfu_server.Room
use oxlens_sfu_server.Room.{
  LightResult, ok, err, room_full, Pointer, Store, Room, add_unless, remove_found, latch_found,
  joined, parted,
}
use oxlens_sfu_server.Room.Sound.{IsMember, UfragOk, AddrOk, UserOk}
use oxlens_sfu_server.Hub.{
  Hub, new, get, found_in, find_by_addr, find_by_ufrag, removed, remove_in, remove_participant,
  forget, Call, run,
}
use oxlens_sfu_server.Hub.Index.{IsValid, RemovedOk, remove_participant-IsValid, got}
use oxlens_sfu_server.Hub.Runs.{calls-IsValid}

module _ {F : Type 0} where
  -- A participant that stands in the room that it was made for.
  abbrev pub IsListed : Hub F → Pointer → Room → Type 0
  IsListed h p r = (get h (h.store p).room_id ≡ some r) × IsMember h.store r.participants p

  abbrev pub IsLatched : Hub F → SocketAddr → Option (Pointer × PcType × Room) → Type 0
  IsLatched h addr none = Unit {0}
  IsLatched h addr (some (p, pc, r)) =
      ((session (h.store p) pc).address ≡ some addr) × IsListed h p r

  abbrev pub IsNamed : Hub F → String → Option (Pointer × PcType × Room) → Type 0
  IsNamed h ufrag none = Unit {0}
  IsNamed h ufrag (some (p, pc, r)) = ((session (h.store p) pc).ufrag ≡ ufrag) × IsListed h p r

  listed :
      (h : Hub F) (id : String) (p : Pointer) (r : Room)
      → get h id ≡ some r
      → IsValid h
      → IsMember h.store r.participants p
      → IsListed h p r
  listed h id p r found v m =
      let ok_r = got h id r found v in
      let here =
        (subst (UserOk h.store r.id (h.store p).user_id) m (ok_r.1.users (h.store p).user_id)).1 in
      (ap (λ x. get h x) (here ∙ ok_r.0) ∙ found, m)

  found_in-IsLatched :
      (h : Hub F) (id : String) (addr : SocketAddr) (r : Room) (o : Option (Pointer × PcType))
      → get h id ≡ some r
      → IsValid h
      → AddrOk h.store r.participants addr o
      → IsLatched h addr (found_in r o)
  found_in-IsLatched h id addr r none found v e = tt
  found_in-IsLatched h id addr r (some (p, pc)) found v e = (e.0, listed h id p r found v e.1)

  room-IsLatched :
      (h : Hub F) (id : String) (addr : SocketAddr) (o : Option Room)
      → get h id ≡ o
      → IsValid h
      → IsLatched h addr (and_then o (λ r. found_in r (Room.get_by_addr r addr)))
  room-IsLatched h id addr none found v = tt
  room-IsLatched h id addr (some r) found v =
      found_in-IsLatched h id addr r (r.by_addr addr) found v ((got h id r found v).1.addrs addr)

  index-IsLatched :
      (h : Hub F) (addr : SocketAddr) (o : Option String)
      → IsValid h
      → IsLatched h addr
          (and_then o (λ id. and_then (get h id) (λ r. found_in r (Room.get_by_addr r addr))))
  index-IsLatched h addr none v = tt
  index-IsLatched h addr (some id) v = room-IsLatched h id addr (get h id) refl v

  pub find_by_addr-IsLatched :
      (h : Hub F) (addr : SocketAddr) → IsValid h → IsLatched h addr (find_by_addr h addr)
  unfolding find_by_addr
  find_by_addr-IsLatched h addr v = index-IsLatched h addr (h.addr_index addr) v

  found_in-IsNamed :
      (h : Hub F) (id ufrag : String) (r : Room) (o : Option (Pointer × PcType))
      → get h id ≡ some r
      → IsValid h
      → UfragOk h.store r.participants ufrag o
      → IsNamed h ufrag (found_in r o)
  found_in-IsNamed h id ufrag r none found v e = tt
  found_in-IsNamed h id ufrag r (some (p, pc)) found v e = (e.0, listed h id p r found v e.1)

  room-IsNamed :
      (h : Hub F) (id ufrag : String) (o : Option Room)
      → get h id ≡ o
      → IsValid h
      → IsNamed h ufrag (and_then o (λ r. found_in r (Room.get_by_ufrag r ufrag)))
  room-IsNamed h id ufrag none found v = tt
  room-IsNamed h id ufrag (some r) found v =
      found_in-IsNamed h id ufrag r (r.by_ufrag ufrag) found v ((got h id r found v).1.ufrags ufrag)

  index-IsNamed :
      (h : Hub F) (ufrag : String) (o : Option String)
      → IsValid h
      → IsNamed h ufrag
          (and_then o (λ id. and_then (get h id) (λ r. found_in r (Room.get_by_ufrag r ufrag))))
  index-IsNamed h ufrag none v = tt
  index-IsNamed h ufrag (some id) v = room-IsNamed h id ufrag (get h id) refl v

  find_by_ufrag-IsNamed :
      (h : Hub F) (ufrag : String) → IsValid h → IsNamed h ufrag (find_by_ufrag h ufrag)
  unfolding find_by_ufrag
  find_by_ufrag-IsNamed h ufrag v = index-IsNamed h ufrag (h.ufrag_index ufrag) v

  -- After any run of calls, who a packet's address leads to (`find_by_addr`) has a session of that
  -- type that has latched on the address, and is listed under its user in the room it was made for,
  -- which is the room that is answered.
  find_by_addr_lem :
      (st : Store F) (cs : List Call) (addr : SocketAddr) (p : Pointer) (pc : PcType) (r : Room)
      → find_by_addr (run (new st) cs) addr ≡ some (p, pc, r)
      → ((session ((run (new st) cs).store p) pc).address ≡ some addr)
        × (get (run (new st) cs) ((run (new st) cs).store p).room_id ≡ some r)
        × (lookup ((run (new st) cs).store p).user_id r.participants ≡ some p)
  find_by_addr_lem st cs addr p pc r e =
      let h = run (new st) cs in
      let x : IsLatched h addr (some (p, pc, r)) =
        subst (IsLatched h addr) e (find_by_addr-IsLatched h addr (calls-IsValid st cs)) in
      (x.0, x.1.0, x.1.1)

  -- Who is removed is not listed any more.
  abbrev IsLeft : Hub F → String → String → Type 0
  IsLeft h id user_id = (r : Room) × (get h id ≡ some r) × (lookup user_id r.participants ≡ none)

  abbrev GoneOk : String → String → LightResult (Hub F × Pointer) → Type 0
  GoneOk id user_id (err e) = Unit {0}
  GoneOk id user_id (ok (h, p)) =
      ((h.store p).room_id ≡ id) × ((h.store p).user_id ≡ user_id) × IsLeft h id user_id

  found-GoneOk :
      (h : Hub F) (id user_id : String) (r : Room) (o : Option Pointer)
      → get h id ≡ some r
      → lookup user_id r.participants ≡ o
      → IsValid h
      → GoneOk id user_id (removed h id (remove_found h.store r user_id o))
  unfolding forget
  found-GoneOk h id user_id r none found is v = tt
  found-GoneOk h id user_id r (some p) found is v =
      let ok_r = got h id r found v in
      let who = subst (UserOk h.store r.id user_id) is (ok_r.1.users user_id) in
      let r2 = parted h.store r user_id p in
      (
        who.1 ∙ ok_r.0,
        who.0,
        (
          r2,
          lookup-assign_self id r2 r h.rooms found,
          rw (lookup-erase user_id user_id r.participants, same_self user_id) refl,
        ),
      )

  remove_in-GoneOk :
      (h : Hub F) (id user_id : String) (o : Option Room)
      → get h id ≡ o
      → IsValid h
      → GoneOk id user_id (remove_in h id user_id o)
  unfolding Room.remove_participant
  remove_in-GoneOk h id user_id none found v = tt
  remove_in-GoneOk h id user_id (some r) found v =
      found-GoneOk h id user_id r (lookup user_id r.participants) found refl v

  remove_participant-GoneOk :
      (h : Hub F) (id user_id : String)
      → IsValid h
      → GoneOk id user_id (remove_participant h id user_id)
  unfolding remove_participant
  remove_participant-GoneOk h id user_id v = remove_in-GoneOk h id user_id (get h id) refl v

  unlisted :
      (h : Hub F) (id user_id : String) (p : Pointer) (r : Room)
      → GoneOk id user_id (ok (h, p))
      → IsListed h p r
      → none ≡ some p
  unlisted h id user_id p r g l =
      let e : some g.2.0 ≡ some r = sym g.2.1 ∙ ap (get h) (sym g.0) ∙ l.0 in
      sym g.2.2
      ∙ ap (λ x. lookup user_id x.participants) (some-injective e)
      ∙ ap (λ u. lookup u r.participants) (sym g.1)
      ∙ l.1

  -- After any run of calls, when a participant is removed from a room, then no address and no ICE
  -- name leads to it any more.
  remove_participant-forgets :
      (st : Store F) (cs : List Call) (room_id user_id : String) (h : Hub F) (p : Pointer)
      (addr : SocketAddr) (ufrag : String) (pc : PcType) (r : Room)
      → remove_participant (run (new st) cs) room_id user_id ≡ ok (h, p)
      → (find_by_addr h addr ≢ some (p, pc, r)) × (find_by_ufrag h ufrag ≢ some (p, pc, r))
  remove_participant-forgets st cs room_id user_id h p addr ufrag pc r e =
      let h0 = run (new st) cs in
      let v0 = calls-IsValid st cs in
      let v : IsValid h = subst RemovedOk e (remove_participant-IsValid h0 room_id user_id v0) in
      let g : GoneOk room_id user_id (ok (h, p)) =
        subst (GoneOk room_id user_id) e (remove_participant-GoneOk h0 room_id user_id v0) in
      (
        λ f.
            (let x =
                unlisted h room_id user_id p r g
                  (subst (IsLatched h addr) f (find_by_addr-IsLatched h addr v)).1 in
              cc),
        λ f.
            (let x =
                unlisted h room_id user_id p r g
                  (subst (IsNamed h ufrag) f (find_by_ufrag-IsNamed h ufrag v)).1 in
              cc),
      )
