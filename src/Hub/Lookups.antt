-- ===== src/Hub/Lookups.antt =====
-- src/room/room.rs (`RoomHub`): what a call has put in is found, and what a NAT rebinding leaves.
use oxlens_sfu_server.Prelude.{
  ℕ, String, ◌≡◌, refl, ap, ◌∙◌, ◌≢◌, inl, inr, Bool, Bool-cases, true, false, Option, none, some,
  arith, lookup, same, same_iff, same_self, if◌then◌else◌, subst, and_then, lookup-assign_self,
  assign, leb, length, some-injective, insert,
}
use oxlens_sfu_server.Participant.{
  SocketAddr, same_addr, PcType, publish_pc, subscribe_pc, session, latch_session,
}
use oxlens_sfu_server.Room
use oxlens_sfu_server.Room.{
  LightResult, ok, err, room_full, Pointer, Store, write, Room, add_unless, latch_found, joined,
  without_old,
}
use oxlens_sfu_server.Room.Sound.{same_addr_iff}
use oxlens_sfu_server.Room.Latch.{latch_session-new, write_self}
use oxlens_sfu_server.Hub.{
  Hub, get, found_in, find_by_addr, find_by_ufrag, added, add_in, add_participant, latched,
  latch_in, latch_by_ufrag,
}

same_addr_self : (a : SocketAddr) → same_addr a a ≡ true
same_addr_self a = (same_addr_iff a a).1 refl

apart : (a b : SocketAddr) → a ≢ b → same_addr a b ≡ false
apart a b ne = elim (Bool-cases (same_addr a b)) [
  | inl is ↦ elim (ne ((same_addr_iff a b).0 is)) [ ]
  | inr other ↦ other
]

module _ {F : Type 0} where
  find_by_addr-some :
      (h : Hub F) (addr : SocketAddr) (id : String) (r : Room) (p : Pointer) (pc : PcType)
      → h.addr_index addr ≡ some id
      → get h id ≡ some r
      → r.by_addr addr ≡ some (p, pc)
      → find_by_addr h addr ≡ some (p, pc, r)
  unfolding find_by_addr
  find_by_addr-some h addr id r p pc index room entry =
      ap (λ o. and_then o (λ i. and_then (get h i) (λ x. found_in x (Room.get_by_addr x addr))))
        index
      ∙ ap (λ o. and_then o (λ x. found_in x (Room.get_by_addr x addr))) room
      ∙ ap (found_in r) entry

  find_by_ufrag-some :
      (h : Hub F) (ufrag id : String) (r : Room) (p : Pointer) (pc : PcType)
      → h.ufrag_index ufrag ≡ some id
      → get h id ≡ some r
      → r.by_ufrag ufrag ≡ some (p, pc)
      → find_by_ufrag h ufrag ≡ some (p, pc, r)
  unfolding find_by_ufrag
  find_by_ufrag-some h ufrag id r p pc index room entry =
      ap (λ o. and_then o (λ i. and_then (get h i) (λ x. found_in x (Room.get_by_ufrag x ufrag))))
        index
      ∙ ap (λ o. and_then o (λ x. found_in x (Room.get_by_ufrag x ufrag))) room
      ∙ ap (found_in r) entry

  -- The old address, where it is another one: the room forgets it, the hub does not.
  abbrev Stale : (before after : Hub F) → Pointer → PcType → Room → SocketAddr → Type 0
  Stale before after p pc r addr =
      (old : SocketAddr)
      → (session (before.store p) pc).address ≡ some old
      → old ≢ addr
      → (after.addr_index old ≡ before.addr_index old) × (r.by_addr old ≡ none)

  -- What holds of the hub and the answer of a latch.
  abbrev LatchOk : Hub F → SocketAddr → Option (Hub F × Pointer × PcType × Room) → Type 0
  LatchOk before addr none = Unit {0}
  LatchOk before addr (some (h, p, pc, r)) =
      (find_by_addr h addr ≡ some (p, pc, r))
      × (((session (h.store p) pc).address ≡ some addr) × Stale before h p pc r addr)

  stale :
      (h : Hub F) (id : String) (addr old : SocketAddr) (r : Room) (p : Pointer) (pc : PcType)
      (o : Option SocketAddr)
      → o ≡ some old
      → old ≢ addr
      → insert same_addr addr (p, pc) (without_old o addr r.by_addr) old ≡ none
  stale h id addr old r p pc none e ne = cc
  stale h id addr old r p pc (some b) e ne =
      let b_old : b ≡ old = some-injective e in
      rw (apart old addr ne, b_old, apart old addr ne, same_addr_self old) refl

  latched-LatchOk :
      (h : Hub F) (id : String) (addr : SocketAddr) (r : Room) (o : Option (Pointer × PcType))
      → get h id ≡ some r
      → LatchOk h addr (latched h id addr (latch_found h.store r addr o))
  latched-LatchOk h id addr r none found = tt
  latched-LatchOk h id addr r (some (p, pc)) found =
      let w = latch_session (h.store p) pc addr in
      let r2 = Room.latched h.store r p pc addr in
      let h2 = record h {
        store = write h.store p w;
        rooms = assign id r2 h.rooms;
        addr_index = insert same_addr addr id h.addr_index;
      } in
      (
        find_by_addr-some h2 addr id r2 p pc (rw (same_addr_self addr) refl)
            (lookup-assign_self id r2 r h.rooms found) (rw (same_addr_self addr) refl),
        (
          ap (λ x. (session x pc).address) (write_self h.store p w)
              ∙ latch_session-new (h.store p) pc addr,
          λ old e ne. (
            rw (apart old addr ne) refl,
            stale h id addr old r p pc (session (h.store p) pc).address e ne,
          ),
        ),
      )

  latch_in-LatchOk :
      (h : Hub F) (ufrag id : String) (addr : SocketAddr) (o : Option Room)
      → get h id ≡ o
      → LatchOk h addr (latch_in h ufrag id addr o)
  unfolding Room.latch
  latch_in-LatchOk h ufrag id addr none found = tt
  latch_in-LatchOk h ufrag id addr (some r) found =
      latched-LatchOk h id addr r (r.by_ufrag ufrag) found

  index-LatchOk :
      (h : Hub F) (ufrag : String) (addr : SocketAddr) (o : Option String)
      → LatchOk h addr (and_then o (λ id. latch_in h ufrag id addr (get h id)))
  index-LatchOk h ufrag addr none = tt
  index-LatchOk h ufrag addr (some id) = latch_in-LatchOk h ufrag id addr (get h id) refl

  latch_by_ufrag-LatchOk :
      (h : Hub F) (ufrag : String) (addr : SocketAddr)
      → LatchOk h addr (latch_by_ufrag h ufrag addr)
  unfolding latch_by_ufrag
  latch_by_ufrag-LatchOk h ufrag addr = index-LatchOk h ufrag addr (h.ufrag_index ufrag)

  -- When a STUN request has latched an address (`latch_by_ufrag`), the address leads to the
  -- participant, session and room that it answered (`find_by_addr`), and the session's address
  -- is that one.
  pub find_by_addr-latch_by_ufrag :
      (before h : Hub F) (ufrag : String) (addr : SocketAddr) (p : Pointer) (pc : PcType) (r : Room)
      → latch_by_ufrag before ufrag addr ≡ some (h, p, pc, r)
      → (find_by_addr h addr ≡ some (p, pc, r)) × ((session (h.store p) pc).address ≡ some addr)
  find_by_addr-latch_by_ufrag before h ufrag addr p pc r e =
      let x : LatchOk before addr (some (h, p, pc, r)) =
        subst (LatchOk before addr) e (latch_by_ufrag-LatchOk before ufrag addr) in
      (x.0, x.1.0)

  -- When a session that had latched on an address latches on another one, then the room forgets
  -- the old address, but the hub's index of addresses still has what it had under it.
  pub latch_by_ufrag-keeps_old :
      (before h : Hub F) (ufrag : String) (addr old : SocketAddr) (p : Pointer) (pc : PcType)
      (r : Room)
      → latch_by_ufrag before ufrag addr ≡ some (h, p, pc, r)
      → (session (before.store p) pc).address ≡ some old
      → old ≢ addr
      → (h.addr_index old ≡ before.addr_index old) × (r.by_addr old ≡ none)
  latch_by_ufrag-keeps_old before h ufrag addr old p pc r e =
      let x : LatchOk before addr (some (h, p, pc, r)) =
        subst (LatchOk before addr) e (latch_by_ufrag-LatchOk before ufrag addr) in
      x.1.1 old

  -- What holds of the hub after a participant has been added.
  abbrev NamedOk : Hub F → String → Pointer → LightResult (Hub F) → Type 0
  NamedOk before id p (err e) = Unit {0}
  NamedOk before id p (ok h) =
      (r : Room) × ((get h id ≡ some r)
        × ((find_by_ufrag h (before.store p).subscribe.ufrag ≡ some (p, subscribe_pc, r))
            × (find_by_ufrag h (before.store p).publish.ufrag ≡ some (p, publish_pc, r))))

  unless-NamedOk :
      (h : Hub F) (id : String) (r : Room) (p : Pointer) (now : ℕ) (o : Option Pointer)
      → get h id ≡ some r
      → (h.store p).publish.ufrag ≢ (h.store p).subscribe.ufrag
      → NamedOk h id p (added h id p (add_unless h.store r p now o))
  unless-NamedOk h id r p now (some q) found ne = tt
  unless-NamedOk h id r p now none found ne =
      let pub_name = (h.store p).publish.ufrag in
      let sub_name = (h.store p).subscribe.ufrag in
      let r2 = joined h.store r p now in
      let h2 = record h {
        rooms = assign id r2 h.rooms;
        ufrag_index = insert same sub_name id (insert same pub_name id h.ufrag_index);
      } in
      let room = lookup-assign_self id r2 r h.rooms found in
      let other : same pub_name sub_name ≡ false = ground (arith, ne, same_iff pub_name sub_name) in
      (
        r2,
        (
          room,
          (
            find_by_ufrag-some h2 sub_name id r2 p subscribe_pc (rw (same_self sub_name) refl) room
                (rw (same_self sub_name) refl),
            find_by_ufrag-some h2 pub_name id r2 p publish_pc (rw (other, same_self pub_name) refl)
                room (rw (other, same_self pub_name) refl),
          ),
        ),
      )

  full-NamedOk :
      (h : Hub F) (id : String) (r : Room) (p : Pointer) (now : ℕ) (full : Bool)
      (o : Option Pointer)
      → get h id ≡ some r
      → (h.store p).publish.ufrag ≢ (h.store p).subscribe.ufrag
      → NamedOk h id p (added h id p (if full then err room_full else add_unless h.store r p now o))
  full-NamedOk h id r p now true o found ne = tt
  full-NamedOk h id r p now false o found ne = unless-NamedOk h id r p now o found ne

  add_in-NamedOk :
      (h : Hub F) (id : String) (p : Pointer) (now : ℕ) (o : Option Room)
      → get h id ≡ o
      → (h.store p).publish.ufrag ≢ (h.store p).subscribe.ufrag
      → NamedOk h id p (add_in h id p now o)
  unfolding Room.add_participant
  add_in-NamedOk h id p now none found ne = tt
  add_in-NamedOk h id p now (some r) found ne =
      full-NamedOk h id r p now (leb r.capacity (length r.participants))
        (lookup (h.store p).user_id r.participants) found ne

  -- A participant that has been added, the ICE names of whose sessions differ, is found under
  -- both, each as its session, with the room that it was added to.
  find_by_ufrag-add_participant :
      (before h : Hub F) (room_id : String) (p : Pointer) (now : ℕ)
      → (before.store p).publish.ufrag ≢ (before.store p).subscribe.ufrag
      → add_participant before room_id p now ≡ ok h
      → (r : Room) × (get h room_id ≡ some r)
        × (find_by_ufrag h (before.store p).subscribe.ufrag ≡ some (p, subscribe_pc, r))
        × (find_by_ufrag h (before.store p).publish.ufrag ≡ some (p, publish_pc, r))
  unfolding add_participant
  find_by_ufrag-add_participant before h room_id p now ne e =
      let x =
        subst (NamedOk before room_id p) e
          (add_in-NamedOk before room_id p now (get before room_id) refl ne) in
      (x.0, x.1.0, x.1.1.0, x.1.1.1)
