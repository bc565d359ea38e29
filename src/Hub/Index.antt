-- ===== src/Hub/Index.antt =====
-- src/room/room.rs (`RoomHub`): in every order of calls, the indices of all rooms stay right.
use oxlens_sfu_server.Prelude.{
  ℕ, String, ◌≡◌, refl, sym, ◌∙◌, inl, inr, Bool, Bool-cases, true, false, Option, none, some, List,
  [], ◌∷◌, lookup, erase, assign, lookup-assign, lookup-put, lookup-erase, Unique, same, same_iff,
  if◌then◌else◌, subst, leb, length,
}
use oxlens_sfu_server.Participant.{PcType}
use oxlens_sfu_server.Room
use oxlens_sfu_server.Room.{
  RoomMode, LightResult, ok, err, Pointer, Store, Room, write, room_full, latch, add_unless,
  remove_found, latch_found, joined, parted,
}
use oxlens_sfu_server.Room.Sound.{IsSound, joined-IsSound, parted-IsSound}
use oxlens_sfu_server.Hub.{
  Hub, new, create, get, forget, forget_all, added, add_in, add_participant, removed, remove_in,
  remove_participant,
}

module _ {F : Type 0} where
  -- A room stands under its id, and its indices are right.
  abbrev pub RoomOk : Store F → String → Option Room → Type 0
  RoomOk st id none = Unit {0}
  RoomOk st id (some r) = (r.id ≡ id) × IsSound st r

  abbrev pub RoomsOk : Store F → List (String × Room) → Type 0
  RoomsOk st rooms = (id : String) → RoomOk st id (lookup id rooms)

  abbrev pub IsValid : Hub F → Type 0
  IsValid h = RoomsOk h.store h.rooms

  -- The room of an id, updated in place.
  pub assign-RoomsOk :
      (st : Store F) (rooms : List (String × Room)) (id : String) (old r : Room)
      → lookup id rooms ≡ some old
      → RoomOk st id (some r)
      → ((q : String) → same q id ≡ false → RoomOk st q (lookup q rooms))
      → RoomsOk st (assign id r rooms)
  assign-RoomsOk st rooms id old r found new others q =
      rw (lookup-assign id q r old rooms found) (elim (Bool-cases (same q id)) [
        | inl is ↦ rw (is, (same_iff q id).0 is) new
        | inr other ↦ rw other (others q other)
      ])

  pub new-IsValid : (st : Store F) → IsValid (new st)
  unfolding new lookup
  new-IsValid st id = tt

  pub create-IsValid :
      (h : Hub F) (id name : String) (capacity : Option ℕ) (mode : RoomMode) (created_at : ℕ)
      (simulcast_enabled : Bool) (audio_ssrc video_ssrc : ℕ)
      → IsValid h
      → IsValid (create h id name capacity mode created_at simulcast_enabled audio_ssrc video_ssrc)
  unfolding create Room.new lookup Unique
  create-IsValid h id name capacity mode created_at simulcast_enabled audio_ssrc video_ssrc v q =
      let empty =
        Room.new id name capacity mode created_at simulcast_enabled audio_ssrc video_ssrc in
      rw (lookup-put id q empty h.rooms) (elim (Bool-cases (same q id)) [
        | inl is ↦ rw is (
          sym ((same_iff q id).0 is),
          record { unique = tt; users = λ u. tt; ufrags = λ u. tt; addrs = λ a. tt },
        )
        | inr other ↦ rw other (v q)
      ])

  forget-IsValid : (h : Hub F) (p : Pointer) → IsValid h → IsValid (forget h p)
  unfolding forget
  forget-IsValid h p v = v

  pub forget_all-IsValid :
      (h : Hub F) (es : List (String × Pointer)) → IsValid h → IsValid (forget_all h es)
  unfolding forget_all
  forget_all-IsValid h [] v = v
  forget_all-IsValid h (e ∷ es) v = forget_all-IsValid (forget h e.1) es (forget-IsValid h e.1 v)

  pub erase-IsValid :
      (h : Hub F) (id : String) → IsValid h → IsValid (record h { rooms = erase id h.rooms })
  erase-IsValid h id v q =
      rw (lookup-erase id q h.rooms)
        (elim (Bool-cases (same q id)) [ inl is ↦ rw is tt | inr other ↦ rw other (v q) ])

  -- The hub that a call leaves: an error leaves it as it was.
  abbrev pub AddedOk : LightResult (Hub F) → Type 0
  AddedOk (err e) = Unit {0}
  AddedOk (ok h) = IsValid h

  abbrev pub RemovedOk : {A : Type 0} → LightResult (Hub F × A) → Type 0
  RemovedOk (err e) = Unit {0}
  RemovedOk (ok (h, a)) = IsValid h

  abbrev pub LatchedOk : Option (Hub F × Pointer × PcType × Room) → Type 0
  LatchedOk none = Unit {0}
  LatchedOk (some (h, p, pc, r)) = IsValid h

  -- A room that is assigned, where the store is the same.
  pub update-IsValid :
      (h : Hub F) (id : String) (old r : Room)
      → get h id ≡ some old
      → r.id ≡ id
      → IsSound h.store r
      → IsValid h
      → IsValid (record h { rooms = assign id r h.rooms })
  update-IsValid h id old r found same_id sound v =
      assign-RoomsOk h.store h.rooms id old r found (same_id, sound) (λ q other. v q)

  pub got :
      (h : Hub F) (id : String) (r : Room)
      → get h id ≡ some r
      → IsValid h
      → RoomOk h.store id (some r)
  got h id r found v = subst (RoomOk h.store id) found (v id)

  unless-IsValid :
      (h : Hub F) (id : String) (r : Room) (p : Pointer) (now : ℕ) (o : Option Pointer)
      → get h id ≡ some r
      → (h.store p).room_id ≡ id
      → IsValid h
      → lookup (h.store p).user_id r.participants ≡ o
      → AddedOk (added h id p (add_unless h.store r p now o))
  unless-IsValid h id r p now (some q) found here v fresh = tt
  unless-IsValid h id r p now none found here v fresh =
      let ok_r = got h id r found v in
      update-IsValid h id r (joined h.store r p now) found ok_r.0
        (joined-IsSound h.store r p now fresh (here ∙ sym ok_r.0) ok_r.1) v

  full-IsValid :
      (h : Hub F) (id : String) (r : Room) (p : Pointer) (now : ℕ) (full : Bool)
      → get h id ≡ some r
      → (h.store p).room_id ≡ id
      → IsValid h
      → AddedOk (
          added h id p (
            if full
            then err room_full
            else add_unless h.store r p now (lookup (h.store p).user_id r.participants)))
  full-IsValid h id r p now true found here v = tt
  full-IsValid h id r p now false found here v =
      unless-IsValid h id r p now (lookup (h.store p).user_id r.participants) found here v refl

  add_in-IsValid :
      (h : Hub F) (id : String) (p : Pointer) (now : ℕ) (o : Option Room)
      → get h id ≡ o
      → (h.store p).room_id ≡ id
      → IsValid h
      → AddedOk (add_in h id p now o)
  unfolding Room.add_participant
  add_in-IsValid h id p now none found here v = tt
  add_in-IsValid h id p now (some r) found here v =
      full-IsValid h id r p now (leb r.capacity (length r.participants)) found here v

  pub add_participant-IsValid :
      (h : Hub F) (id : String) (p : Pointer) (now : ℕ)
      → (h.store p).room_id ≡ id
      → IsValid h
      → AddedOk (add_participant h id p now)
  unfolding add_participant
  add_participant-IsValid h id p now here v = add_in-IsValid h id p now (get h id) refl here v

  found-IsValid :
      (h : Hub F) (id user_id : String) (r : Room) (o : Option Pointer)
      → get h id ≡ some r
      → lookup user_id r.participants ≡ o
      → IsValid h
      → RemovedOk (removed h id (remove_found h.store r user_id o))
  found-IsValid h id user_id r none found is v = tt
  found-IsValid h id user_id r (some p) found is v =
      let ok_r = got h id r found v in
      let r2 = parted h.store r user_id p in
      forget-IsValid (record h { rooms = assign id r2 h.rooms }) p
        (update-IsValid h id r r2 found ok_r.0 (parted-IsSound h.store r user_id p is ok_r.1) v)

  remove_in-IsValid :
      (h : Hub F) (id user_id : String) (o : Option Room)
      → get h id ≡ o
      → IsValid h
      → RemovedOk (remove_in h id user_id o)
  unfolding Room.remove_participant
  remove_in-IsValid h id user_id none found v = tt
  remove_in-IsValid h id user_id (some r) found v =
      found-IsValid h id user_id r (lookup user_id r.participants) found refl v

  pub remove_participant-IsValid :
      (h : Hub F) (id user_id : String) → IsValid h → RemovedOk (remove_participant h id user_id)
  unfolding remove_participant
  remove_participant-IsValid h id user_id v = remove_in-IsValid h id user_id (get h id) refl v
