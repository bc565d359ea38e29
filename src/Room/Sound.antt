-- ===== src/Room/Sound.antt =====
-- src/room/room.rs: every entry of a room's indices is right about the participant it leads to.
use oxlens_sfu_server.Prelude.{
  ℕ, String, ◌≡◌, refl, sym, ap, ◌∙◌, ◌≢◌, ◌↔◌, inl, inr, Bool-cases, true, false, Option, none,
  some, List, [], ◌∷◌, ◌++◌, arith, same, same_iff, same_self, Map, insert, remove, lookup, erase,
  Unique, append-Unique, erase-Unique, lookup-append, lookup-append_none, lookup-erase,
  Option-cases, some-injective, insert-keeps, remove-keeps,
}
use oxlens_sfu_server.Participant.{
  SocketAddr, v4, v6, same_addr, PcType, publish_pc, subscribe_pc, session,
}
use oxlens_sfu_server.Room.{Pointer, Store, Room, remove_addr, joined, parted}

pub same_addr_iff : (a b : SocketAddr) → (same_addr a b ≡ true) ↔ (a ≡ b)
unfolding same_addr
same_addr_iff (v4 a p) (v4 b q) = ground arith
same_addr_iff (v6 a p f s) (v6 b q g t) = ground arith
same_addr_iff (v4 a p) (v6 b q g t) = ground arith
same_addr_iff (v6 a p f s) (v4 b q) = ground arith

remove_addr-keeps :
    (P : SocketAddr → Option (Pointer × PcType) → Type 0) (a : Option SocketAddr)
    (m : Map SocketAddr (Pointer × PcType)) (q : SocketAddr)
    → P q none
    → (a ≢ some q → P q (m q))
    → P q (remove_addr a m q)
remove_addr-keeps P none m q gone old = old (λ e. cc)
remove_addr-keeps P (some b) m q gone old =
    remove-keeps P same_addr b m q gone
      (λ other. old (λ e. ground (arith, same_addr_iff q b, some-injective e)))

module _ {F : Type 0} where
  -- The pointer is that of a member: it is found under the user that it leads to.
  abbrev pub IsMember : Store F → List (String × Pointer) → Pointer → Type 0
  IsMember st es p = lookup (st p).user_id es ≡ some p

  -- An entry under an ICE name leads to a member, whose session has that name.
  abbrev pub UfragOk :
      Store F → List (String × Pointer) → String → Option (Pointer × PcType) → Type 0
  UfragOk st es ufrag none = Unit {0}
  UfragOk st es ufrag (some (p, pc)) = ((session (st p) pc).ufrag ≡ ufrag) × IsMember st es p

  -- An entry under an address leads to a member, whose session has latched on that address.
  abbrev pub AddrOk :
      Store F → List (String × Pointer) → SocketAddr → Option (Pointer × PcType) → Type 0
  AddrOk st es addr none = Unit {0}
  AddrOk st es addr (some (p, pc)) = ((session (st p) pc).address ≡ some addr) × IsMember st es p

  -- Who is listed under a user is that user, in this room.
  abbrev pub UserOk : Store F → String → String → Option Pointer → Type 0
  UserOk st room_id user_id none = Unit {0}
  UserOk st room_id user_id (some p) = ((st p).user_id ≡ user_id) × ((st p).room_id ≡ room_id)

  pub record IsSound (st : Store F) (r : Room) : Type 0 where
    pub unique : Unique r.participants
    pub users : (user_id : String) → UserOk st r.id user_id (lookup user_id r.participants)
    pub ufrags : (ufrag : String) → UfragOk st r.participants ufrag (r.by_ufrag ufrag)
    pub addrs : (addr : SocketAddr) → AddrOk st r.participants addr (r.by_addr addr)

  -- A new member.
  joined-IsMember :
      (st : Store F) (es : List (String × Pointer)) (p q : Pointer)
      → IsMember st es q
      → IsMember st (es ++ (((st p).user_id, p) ∷ [])) q
  joined-IsMember st es p q m = lookup-append (st q).user_id es _ q m

  joined_self :
      (st : Store F) (es : List (String × Pointer)) (p : Pointer)
      → lookup (st p).user_id es ≡ none
      → IsMember st (es ++ (((st p).user_id, p) ∷ [])) p
  joined_self st es p fresh =
      lookup-append_none (st p).user_id es ((st p).user_id, p) fresh
      ∙ rw (same_self (st p).user_id) refl

  joined-users :
      (st : Store F) (room_id : String) (es : List (String × Pointer)) (p : Pointer)
      (user_id : String)
      → lookup (st p).user_id es ≡ none
      → (st p).room_id ≡ room_id
      → UserOk st room_id user_id (lookup user_id es)
      → UserOk st room_id user_id (lookup user_id (es ++ (((st p).user_id, p) ∷ [])))
  joined-users st room_id es p user_id fresh here h = elim (Option-cases (lookup user_id es)) [
    | inr (q, found) ↦ rw (lookup-append user_id es _ q found) (rw found at h)
    | inl missing ↦
        rw (lookup-append_none user_id es ((st p).user_id, p) missing)
          (elim (Bool-cases (same (st p).user_id user_id)) [
            | inl is ↦ rw is ((same_iff (st p).user_id user_id).0 is, here)
            | inr not ↦ rw not tt
          ])
  ]

  joined-UfragOk :
      (st : Store F) (es : List (String × Pointer)) (p : Pointer) (ufrag : String)
      (o : Option (Pointer × PcType))
      → UfragOk st es ufrag o
      → UfragOk st (es ++ (((st p).user_id, p) ∷ [])) ufrag o
  joined-UfragOk st es p ufrag none h = tt
  joined-UfragOk st es p ufrag (some (q, pc)) h = (h.0, joined-IsMember st es p q h.1)

  joined-AddrOk :
      (st : Store F) (es : List (String × Pointer)) (p : Pointer) (addr : SocketAddr)
      (o : Option (Pointer × PcType))
      → AddrOk st es addr o
      → AddrOk st (es ++ (((st p).user_id, p) ∷ [])) addr o
  joined-AddrOk st es p addr none h = tt
  joined-AddrOk st es p addr (some (q, pc)) h = (h.0, joined-IsMember st es p q h.1)

  -- Joining keeps the indices right.
  pub joined-IsSound :
      (st : Store F) (r : Room) (p : Pointer) (now : ℕ)
      → lookup (st p).user_id r.participants ≡ none
      → (st p).room_id ≡ r.id
      → IsSound st r
      → IsSound st (joined st r p now)
  joined-IsSound st r p now fresh here v = record {
    unique = append-Unique r.participants ((st p).user_id, p) fresh v.unique;
    users = λ user_id. joined-users st r.id r.participants p user_id fresh here (v.users user_id);
    ufrags = λ ufrag.
        let es = r.participants ++ (((st p).user_id, p) ∷ []) in
        let self = joined_self st r.participants p fresh in
        insert-keeps (UfragOk st es) same (st p).subscribe.ufrag
          (insert same (st p).publish.ufrag (p, publish_pc) r.by_ufrag) (p, subscribe_pc) ufrag
          ((same_iff ufrag (st p).subscribe.ufrag).0) (refl, self)
          (insert-keeps (UfragOk st es) same (st p).publish.ufrag r.by_ufrag (p, publish_pc) ufrag
            ((same_iff ufrag (st p).publish.ufrag).0) (refl, self)
            (joined-UfragOk st r.participants p ufrag (r.by_ufrag ufrag) (v.ufrags ufrag)));
    addrs = λ addr. joined-AddrOk st r.participants p addr (r.by_addr addr) (v.addrs addr);
  }

  -- Parting: what is left leads to others.
  parted-users :
      (st : Store F) (room_id k user_id : String) (es : List (String × Pointer))
      → UserOk st room_id user_id (lookup user_id es)
      → UserOk st room_id user_id (lookup user_id (erase k es))
  parted-users st room_id k user_id es h =
      rw (lookup-erase k user_id es)
        (elim (Bool-cases (same user_id k)) [ inl is ↦ rw is tt | inr not ↦ rw not h ])

  other-user :
      (st : Store F) (es : List (String × Pointer)) (k : String) (p q : Pointer)
      → lookup k es ≡ some p
      → q ≢ p
      → IsMember st es q
      → same (st q).user_id k ≡ false
  other-user st es k p q found ne m = elim (Bool-cases (same (st q).user_id k)) [
    | inr other ↦ other
    | inl is ↦
        elim (ne (
          some-injective
            (sym m ∙ ap (λ u. lookup u es) ((same_iff (st q).user_id k).0 is) ∙ found))) [ ]
  ]

  parted-IsMember :
      (st : Store F) (es : List (String × Pointer)) (k : String) (p q : Pointer)
      → lookup k es ≡ some p
      → q ≢ p
      → IsMember st es q
      → IsMember st (erase k es) q
  parted-IsMember st es k p q found ne m =
      rw (lookup-erase k (st q).user_id es, other-user st es k p q found ne m) m

  parted-UfragOk :
      (st : Store F) (es : List (String × Pointer)) (k ufrag : String) (p : Pointer)
      (o : Option (Pointer × PcType))
      → lookup k es ≡ some p
      → same ufrag (st p).publish.ufrag ≡ false
      → same ufrag (st p).subscribe.ufrag ≡ false
      → UfragOk st es ufrag o
      → UfragOk st (erase k es) ufrag o
  parted-UfragOk st es k ufrag p none found np ns h = tt
  parted-UfragOk st es k ufrag p (some (q, publish_pc)) found np ns h = (
    h.0,
    parted-IsMember st es k p q found
        (λ e.
          ground
            (arith, same_iff ufrag (st p).publish.ufrag, h.0, ap (λ x. (st x).publish.ufrag) e))
        h.1,
  )
  parted-UfragOk st es k ufrag p (some (q, subscribe_pc)) found np ns h = (
    h.0,
    parted-IsMember st es k p q found
        (λ e.
          ground
            (arith, same_iff ufrag (st p).subscribe.ufrag, h.0, ap (λ x. (st x).subscribe.ufrag) e))
        h.1,
  )

  parted-AddrOk :
      (st : Store F) (es : List (String × Pointer)) (k : String) (addr : SocketAddr) (p : Pointer)
      (o : Option (Pointer × PcType))
      → lookup k es ≡ some p
      → (st p).publish.address ≢ some addr
      → (st p).subscribe.address ≢ some addr
      → AddrOk st es addr o
      → AddrOk st (erase k es) addr o
  parted-AddrOk st es k addr p none found np ns h = tt
  parted-AddrOk st es k addr p (some (q, publish_pc)) found np ns h = (
    h.0,
    parted-IsMember st es k p q found (λ e. np (sym (ap (λ x. (st x).publish.address) e) ∙ h.0))
        h.1,
  )
  parted-AddrOk st es k addr p (some (q, subscribe_pc)) found np ns h = (
    h.0,
    parted-IsMember st es k p q found (λ e. ns (sym (ap (λ x. (st x).subscribe.address) e) ∙ h.0))
        h.1,
  )

  -- Parting keeps the indices right.
  pub parted-IsSound :
      (st : Store F) (r : Room) (k : String) (p : Pointer)
      → lookup k r.participants ≡ some p
      → IsSound st r
      → IsSound st (parted st r k p)
  parted-IsSound st r k p found v = record {
    unique = erase-Unique k r.participants v.unique;
    users = λ user_id. parted-users st r.id k user_id r.participants (v.users user_id);
    ufrags = λ ufrag.
        let es = erase k r.participants in
        remove-keeps (UfragOk st es) same (st p).subscribe.ufrag
          (remove same (st p).publish.ufrag r.by_ufrag) ufrag tt
          (λ ns. remove-keeps (UfragOk st es) same (st p).publish.ufrag r.by_ufrag ufrag tt (λ np.
            parted-UfragOk st r.participants k ufrag p (r.by_ufrag ufrag) found np ns
              (v.ufrags ufrag)));
    addrs = λ addr.
        let es = erase k r.participants in
        remove_addr-keeps (AddrOk st es) (st p).subscribe.address
          (remove_addr (st p).publish.address r.by_addr) addr tt
          (λ ns. remove_addr-keeps (AddrOk st es) (st p).publish.address r.by_addr addr tt (λ np.
            parted-AddrOk st r.participants k addr p (r.by_addr addr) found np ns (v.addrs addr)));
  }
