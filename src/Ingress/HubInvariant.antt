-- ===== src/Ingress/HubInvariant.antt =====
-- src/transport/udp/ingress.rs (`handle_srtp`): whatever packet comes in, from whatever address, the
-- indices of all rooms stay right and the rewriters of each follow its floor.
use oxlens_sfu_server.Prelude.{
  Bool, ℕ, String, ◌≡◌, refl, ◌∙◌, sym, ap, subst, inl, inr, Bool-cases, Option, none, some, List,
  same, same_iff, lookup, assign, lookup-assign, Map, Unique, [],
}
use oxlens_sfu_server.Terminator.{Float64}
use oxlens_sfu_server.Participant.{SocketAddr, PcType, publish_pc, subscribe_pc, session, touch}
use oxlens_sfu_server.Room.{Pointer, Store, Room, write}
use oxlens_sfu_server.Room.Latch.{write-keeps}
use oxlens_sfu_server.Room.Sound.{IsSound, UserOk, UfragOk, AddrOk}
use oxlens_sfu_server.Room.Writes.{stores-IsSound}
use oxlens_sfu_server.Hub.{Hub, find_by_addr, get}
use oxlens_sfu_server.Hub.Index.{RoomOk, IsValid, got}
use oxlens_sfu_server.Hub.Laws.{IsLatched, find_by_addr-IsLatched}
use oxlens_sfu_server.FloorOps.Answers.{IsSynced}
use oxlens_sfu_server.Ingress.Shared.{Clock, Scene}
use oxlens_sfu_server.Ingress.Mbcp.{Texts}
use oxlens_sfu_server.Ingress.Feedback.{Transport, Group}
use oxlens_sfu_server.Ingress.Kept.{identity, frame}
use oxlens_sfu_server.Ingress.Invariant.{handle_from-Kept}
use oxlens_sfu_server.Ingress.{handle_from, handle_found, handle_srtp}

abbrev pub RoomSynced : Option Room → Type 0
RoomSynced none = Unit {0}
RoomSynced (some r) = IsSynced r

module _ {F : Type 0} where
  -- The rewriters of every room are on the speaker who holds its floor.
  abbrev pub AllSynced : Hub F → Type 0
  AllSynced h = (id : String) → RoomSynced (get h id)

  -- A store with the same participants.
  abbrev pub Alike : Store F → Store F → Type 0
  Alike st st2 = (q : Pointer) → identity (st2 q) ≡ identity (st q)

  session-Alike :
      (st st2 : Store F)
      → Alike st st2
      → (q : Pointer) (pc : PcType) → session (st2 q) pc ≡ session (st q) pc
  session-Alike st st2 same q publish_pc = ap (λ i. i.2) (same q)
  session-Alike st st2 same q subscribe_pc = ap (λ i. i.3) (same q)

  pub IsSound-Alike : (st st2 : Store F) (r : Room) → Alike st st2 → IsSound st r → IsSound st2 r
  IsSound-Alike st st2 r same =
      stores-IsSound st st2 (λ q. ap (λ i. i.0) (same q)) (λ q. ap (λ i. i.1) (same q))
        (session-Alike st st2 same) r

  -- `IsSound`, as it depends on the frame of the room only.
  abbrev FrameOk :
      Store F
      → String
        × List (String × Pointer)
        × Map String (Pointer × PcType)
        × Map SocketAddr (Pointer × PcType)
        × Bool
      → Type 0
  FrameOk st (id, es, by_ufrag, by_addr, simulcast) =
      Unique es
      × ((u : String) → UserOk st id u (lookup u es))
      × ((u : String) → UfragOk st es u (by_ufrag u))
      × ((a : SocketAddr) → AddrOk st es a (by_addr a))

  pub IsSound-frame :
      (st : Store F) (r r2 : Room) → frame r2 ≡ frame r → IsSound st r → IsSound st r2
  IsSound-frame st r r2 same v =
      let w : FrameOk st (frame r2) =
        subst (FrameOk st) (sym same) (v.unique, v.users, v.ufrags, v.addrs) in
      record { unique = w.0; users = w.1; ufrags = w.2; addrs = w.3 }

  -- What the hub's invariants say of the room under an id.
  abbrev BothOk : Store F → String → Option Room → Type 0
  BothOk st id o = RoomOk st id o × RoomSynced o

  BothOk-Alike :
      (st st2 : Store F) (id : String) (o : Option Room)
      → Alike st st2
      → BothOk st id o
      → BothOk st2 id o
  BothOk-Alike st st2 id none same v = v
  BothOk-Alike st st2 id (some r) same v = ((v.0.0, IsSound-Alike st st2 r same v.0.1), v.1)

  assign-BothOk :
      (st : Store F) (rooms : List (String × Room)) (id : String) (old r : Room)
      → lookup id rooms ≡ some old
      → BothOk st id (some r)
      → ((q : String) → BothOk st q (lookup q rooms))
      → (q : String) → BothOk st q (lookup q (assign id r rooms))
  assign-BothOk st rooms id old r found new others q =
      rw (lookup-assign id q r old rooms found) (elim (Bool-cases (same q id)) [
        | inl is ↦ rw (is, (same_iff q id).0 is) new
        | inr other ↦ rw other (others q)
      ])

  put_back-Ok :
      (h : Hub F) (id : String) (r : Room) (left : Scene F)
      → get h id ≡ some r
      → Alike h.store left.store
      → frame left.room ≡ frame r
      → (IsSynced r → IsSynced left.room)
      → IsValid h
      → AllSynced h
      → (q : String) → BothOk left.store q (lookup q (assign left.room.id left.room h.rooms))
  put_back-Ok h id r left found same framed synced v heard =
      let ok_r = got h id r found v in
      let named : left.room.id ≡ id = ap (λ f. f.0) framed ∙ ok_r.0 in
      let now : BothOk left.store id (some left.room) = (
        (
          named,
          IsSound-frame left.store r left.room framed
              (IsSound-Alike h.store left.store r same ok_r.1),
        ),
        synced (subst RoomSynced found (heard id)),
      ) in
      subst (λ k. (q : String) → BothOk left.store q (lookup q (assign k left.room h.rooms)))
        (sym named)
        (assign-BothOk left.store h.rooms id r left.room found now
          (λ q. BothOk-Alike h.store left.store q (lookup q h.rooms) same (v q, heard q)))

  module _ (x : Texts) (t : Transport) (order : List Group → List Group) (f : Float64 F) where
    found-Ok :
        (h : Hub F) (drawn : ℕ) (c : Clock) (buf : List ℕ) (addr : SocketAddr)
        (o : Option (Pointer × PcType × Room))
        → IsLatched h addr o
        → IsValid h
        → AllSynced h
        → let after = (handle_found x t order f h drawn c buf o).0 in
          IsValid after × AllSynced after
    found-Ok h drawn c buf addr none l v heard = (v, heard)
    found-Ok h drawn c buf addr (some (p, pc, r)) l v heard =
        let w = touch (h.store p) c.wall_ms in
        let touched : Scene F = record { store = write h.store p w; room = r; effects = [] } in
        let left = handle_from x t order f touched p drawn c pc buf in
        let k = handle_from-Kept x t order f touched p drawn c pc buf in
        let both =
          put_back-Ok h (h.store p).room_id r left l.1.0
            (λ q. k.members q ∙ write-keeps identity h.store p q w refl) k.indices k.synced v
            heard in
        (λ id. (both id).0, λ id. (both id).1)

    -- Whatever packet comes in, from whatever address, and whatever SRTP, the socket and the order
    -- of a hash map make of it: if in the hub every entry of every index is right and the rewriters
    -- of every room are on the speaker who holds its floor, then so it is afterwards.
    pub handle_srtp-IsValid :
        (h : Hub F) (drawn : ℕ) (c : Clock) (buf : List ℕ) (addr : SocketAddr)
        → IsValid h
        → AllSynced h
        → let after = (handle_srtp x t order f h drawn c buf addr).0 in
          IsValid after × AllSynced after
    unfolding handle_srtp
    handle_srtp-IsValid h drawn c buf addr v heard =
        found-Ok h drawn c buf addr (find_by_addr h addr) (find_by_addr-IsLatched h addr v) v heard
