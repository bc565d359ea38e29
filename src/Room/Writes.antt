-- ===== src/Room/Writes.antt =====
-- src/room/room.rs: a write to a participant that leaves a room's indices right.
use oxlens_sfu_server.Prelude.{
  String, ◌≡◌, refl, sym, ap, ◌∙◌, ◌≢◌, inl, inr, Bool-cases, Option, none, some, List, arith, ◌==◌,
  lookup, subst,
}
use oxlens_sfu_server.Participant.{SocketAddr, PcType, Participant, session}
use oxlens_sfu_server.Room.{Pointer, Store, write, Room}
use oxlens_sfu_server.Room.Sound.{IsMember, UfragOk, AddrOk, UserOk, IsSound}
use oxlens_sfu_server.Room.Latch.{write-keeps}

-- A write to a participant of another room changes nothing for a room's indices.
module _ {F : Type 0} (st : Store F) (p : Pointer) (w : Participant F) (r : Room) (v : IsSound st r)
    (elsewhere : (st p).room_id ≢ r.id) where
  apart : (q : Pointer) → IsMember st r.participants q → write st p w q ≡ st q
  apart q m =
      let here : (st q).room_id ≡ r.id =
        (subst (UserOk st r.id (st q).user_id) m (v.users (st q).user_id)).1 in
      elim (Bool-cases (q == p)) [
        | inl is ↦
            let e : q ≡ p = ground arith in
            elim (elsewhere (ap (λ x. (st x).room_id) (sym e) ∙ here)) [ ]
        | inr other ↦ rw other refl
      ]

  apart-IsMember :
      (q : Pointer) → IsMember st r.participants q → IsMember (write st p w) r.participants q
  apart-IsMember q m = ap (λ x. lookup x.user_id r.participants) (apart q m) ∙ m

  apart-UserOk :
      (user_id : String) (o : Option Pointer)
      → lookup user_id r.participants ≡ o
      → UserOk st r.id user_id o
      → UserOk (write st p w) r.id user_id o
  apart-UserOk user_id none found h = tt
  apart-UserOk user_id (some q) found h =
      let m : IsMember st r.participants q = ap (λ u. lookup u r.participants) h.0 ∙ found in
      (ap (λ x. x.user_id) (apart q m) ∙ h.0, ap (λ x. x.room_id) (apart q m) ∙ h.1)

  apart-UfragOk :
      (ufrag : String) (o : Option (Pointer × PcType))
      → UfragOk st r.participants ufrag o
      → UfragOk (write st p w) r.participants ufrag o
  apart-UfragOk ufrag none h = tt
  apart-UfragOk ufrag (some (q, side)) h =
      (ap (λ x. (session x side).ufrag) (apart q h.1) ∙ h.0, apart-IsMember q h.1)

  apart-AddrOk :
      (a : SocketAddr) (o : Option (Pointer × PcType))
      → AddrOk st r.participants a o
      → AddrOk (write st p w) r.participants a o
  apart-AddrOk a none h = tt
  apart-AddrOk a (some (q, side)) h =
      (ap (λ x. (session x side).address) (apart q h.1) ∙ h.0, apart-IsMember q h.1)

  pub write-IsSound : IsSound (write st p w) r
  write-IsSound = record {
    unique = v.unique;
    users = λ user_id. apart-UserOk user_id (lookup user_id r.participants) refl (v.users user_id);
    ufrags = λ ufrag. apart-UfragOk ufrag (r.by_ufrag ufrag) (v.ufrags ufrag);
    addrs = λ a. apart-AddrOk a (r.by_addr a) (v.addrs a);
  }

-- Nor does a change of the store that keeps every user, room and session.
module _ {F : Type 0} (st st2 : Store F) (user : (q : Pointer) → (st2 q).user_id ≡ (st q).user_id)
    (room : (q : Pointer) → (st2 q).room_id ≡ (st q).room_id)
    (sides : (q : Pointer) (pc : PcType) → session (st2 q) pc ≡ session (st q) pc) where
  alike-IsMember :
      (es : List (String × Pointer)) (q : Pointer) → IsMember st es q → IsMember st2 es q
  alike-IsMember es q m = ap (λ u. lookup u es) (user q) ∙ m

  alike-UserOk :
      (room_id user_id : String) (o : Option Pointer)
      → UserOk st room_id user_id o
      → UserOk st2 room_id user_id o
  alike-UserOk room_id user_id none h = tt
  alike-UserOk room_id user_id (some q) h = (user q ∙ h.0, room q ∙ h.1)

  alike-UfragOk :
      (es : List (String × Pointer)) (ufrag : String) (o : Option (Pointer × PcType))
      → UfragOk st es ufrag o
      → UfragOk st2 es ufrag o
  alike-UfragOk es ufrag none h = tt
  alike-UfragOk es ufrag (some (q, side)) h =
      (ap (λ x. x.ufrag) (sides q side) ∙ h.0, alike-IsMember es q h.1)

  alike-AddrOk :
      (es : List (String × Pointer)) (a : SocketAddr) (o : Option (Pointer × PcType))
      → AddrOk st es a o
      → AddrOk st2 es a o
  alike-AddrOk es a none h = tt
  alike-AddrOk es a (some (q, side)) h =
      (ap (λ x. x.address) (sides q side) ∙ h.0, alike-IsMember es q h.1)

  pub stores-IsSound : (r : Room) → IsSound st r → IsSound st2 r
  stores-IsSound r v = record {
    unique = v.unique;
    users = λ user_id. alike-UserOk r.id user_id (lookup user_id r.participants) (v.users user_id);
    ufrags = λ ufrag. alike-UfragOk r.participants ufrag (r.by_ufrag ufrag) (v.ufrags ufrag);
    addrs = λ a. alike-AddrOk r.participants a (r.by_addr a) (v.addrs a);
  }

-- Nor does a write that keeps the user, the room and the sessions.
pub alike-IsSound :
    {F : Type 0} (st : Store F) (p : Pointer) (w : Participant F)
    → w.user_id ≡ (st p).user_id
    → w.room_id ≡ (st p).room_id
    → ((pc : PcType) → session w pc ≡ session (st p) pc)
    → (r : Room) → IsSound st r
    → IsSound (write st p w) r
alike-IsSound st p w user room sides =
    stores-IsSound st (write st p w) (λ q. write-keeps (λ v. v.user_id) st p q w user)
      (λ q. write-keeps (λ v. v.room_id) st p q w room)
      (λ q pc. write-keeps (λ v. session v pc) st p q w (sides pc))
