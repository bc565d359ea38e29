-- ===== src/Room/Latch.antt =====
-- src/room/room.rs: latching an address keeps a room's indices right, and forgets the old address.
use oxlens_sfu_server.Prelude.{
  String, ◌≡◌, refl, sym, ap, ◌∙◌, ◌≢◌, inl, inr, Bool-cases, false, Option, none, some, List,
  arith, ◌==◌, Map, lookup, remove-keeps, some-injective,
}
use oxlens_sfu_server.Participant.{
  SocketAddr, same_addr, PcType, publish_pc, subscribe_pc, Participant, session, latch_session,
}
use oxlens_sfu_server.Room.{Pointer, Store, write, Room, without_old, latched}
use oxlens_sfu_server.Room.Sound.{same_addr_iff, IsMember, UfragOk, AddrOk, UserOk, IsSound}

without_old-keeps :
    (P : SocketAddr → Option (Pointer × PcType) → Type 0) (a : Option SocketAddr)
    (addr : SocketAddr) (m : Map SocketAddr (Pointer × PcType)) (q : SocketAddr)
    → same_addr q addr ≡ false
    → P q none
    → (a ≢ some q → P q (m q))
    → P q (without_old a addr m q)
without_old-keeps P none addr m q far gone old = old (λ e. cc)
without_old-keeps P (some b) addr m q far gone old = elim (Bool-cases (same_addr b addr)) [
  | inl here ↦
      rw here
        (old (λ e. ground (arith, same_addr_iff b addr, same_addr_iff q addr, some-injective e)))
  | inr other ↦ rw other (
      remove-keeps P same_addr b m q gone
        (λ apart. old (λ e. ground (arith, same_addr_iff q b, some-injective e))))
]

module _ {F : Type 0} where
  -- What latching changes of a participant.
  latch_session-user_id :
      (v : Participant F) (pc : PcType) (addr : SocketAddr)
      → (latch_session v pc addr).user_id ≡ v.user_id
  latch_session-user_id v publish_pc addr = refl
  latch_session-user_id v subscribe_pc addr = refl

  latch_session-room_id :
      (v : Participant F) (pc : PcType) (addr : SocketAddr)
      → (latch_session v pc addr).room_id ≡ v.room_id
  latch_session-room_id v publish_pc addr = refl
  latch_session-room_id v subscribe_pc addr = refl

  latch_session-ufrag :
      (v : Participant F) (pc side : PcType) (addr : SocketAddr)
      → (session (latch_session v pc addr) side).ufrag ≡ (session v side).ufrag
  latch_session-ufrag v publish_pc publish_pc addr = refl
  latch_session-ufrag v publish_pc subscribe_pc addr = refl
  latch_session-ufrag v subscribe_pc publish_pc addr = refl
  latch_session-ufrag v subscribe_pc subscribe_pc addr = refl

  pub latch_session-new :
      (v : Participant F) (pc : PcType) (addr : SocketAddr)
      → (session (latch_session v pc addr) pc).address ≡ some addr
  latch_session-new v publish_pc addr = refl
  latch_session-new v subscribe_pc addr = refl

  latch_session-others :
      (v : Participant F) (pc side : PcType) (addr a : SocketAddr)
      → (session v pc).address ≢ some a
      → (session v side).address ≡ some a
      → (session (latch_session v pc addr) side).address ≡ some a
  latch_session-others v publish_pc publish_pc addr a ne h = elim (ne h) [ ]
  latch_session-others v publish_pc subscribe_pc addr a ne h = h
  latch_session-others v subscribe_pc publish_pc addr a ne h = h
  latch_session-others v subscribe_pc subscribe_pc addr a ne h = elim (ne h) [ ]

  -- A field that a write keeps at its pointer is kept at every pointer.
  pub write-keeps :
      {A : Type 0} (get : Participant F → A) (st : Store F) (p q : Pointer) (v : Participant F)
      → get v ≡ get (st p)
      → get (write st p v q) ≡ get (st q)
  write-keeps get st p q v h = elim (Bool-cases (q == p)) [
    | inl here ↦ rw here (h ∙ ap (λ x. get (st x)) (ground arith))
    | inr other ↦ rw other refl
  ]

  pub write_self : (st : Store F) (p : Pointer) (v : Participant F) → write st p v p ≡ v
  write_self st p v = ground arith

module _ {F : Type 0} (st : Store F) (p : Pointer) (pc : PcType) (addr : SocketAddr) where
  abbrev after : Store F
  after = write st p (latch_session (st p) pc addr)

  after-IsMember :
      (es : List (String × Pointer)) (q : Pointer) → IsMember st es q → IsMember after es q
  after-IsMember es q m =
      ap (λ u. lookup u es)
        (write-keeps (λ v. v.user_id) st p q (latch_session (st p) pc addr)
          (latch_session-user_id (st p) pc addr))
      ∙ m

  after-UserOk :
      (room_id user_id : String) (o : Option Pointer)
      → UserOk st room_id user_id o
      → UserOk after room_id user_id o
  after-UserOk room_id user_id none h = tt
  after-UserOk room_id user_id (some q) h = (
    write-keeps (λ v. v.user_id) st p q (latch_session (st p) pc addr)
          (latch_session-user_id (st p) pc addr)
        ∙ h.0,
    write-keeps (λ v. v.room_id) st p q (latch_session (st p) pc addr)
          (latch_session-room_id (st p) pc addr)
        ∙ h.1,
  )

  after-UfragOk :
      (es : List (String × Pointer)) (ufrag : String) (o : Option (Pointer × PcType))
      → UfragOk st es ufrag o
      → UfragOk after es ufrag o
  after-UfragOk es ufrag none h = tt
  after-UfragOk es ufrag (some (q, side)) h = (
    write-keeps (λ v. (session v side).ufrag) st p q (latch_session (st p) pc addr)
          (latch_session-ufrag (st p) pc side addr)
        ∙ h.0,
    after-IsMember es q h.1,
  )

  after-AddrOk :
      (es : List (String × Pointer)) (a : SocketAddr) (o : Option (Pointer × PcType))
      → (session (st p) pc).address ≢ some a
      → AddrOk st es a o
      → AddrOk after es a o
  after-AddrOk es a none ne h = tt
  after-AddrOk es a (some (q, side)) ne h = elim (Bool-cases (q == p)) [
    | inl here ↦
        let e : q ≡ p = ground arith in
        (
          rw here (
              latch_session-others (st p) pc side addr a ne
                (ap (λ x. (session (st x) side).address) (sym e) ∙ h.0)),
          after-IsMember es q h.1,
        )
    | inr other ↦ (rw other h.0, after-IsMember es q h.1)
  ]

  -- Latching keeps the indices right.
  pub latched-IsSound :
      (r : Room)
      → IsMember st r.participants p
      → IsSound st r
      → IsSound after (latched st r p pc addr)
  latched-IsSound r member v = record {
    unique = v.unique;
    users = λ user_id. after-UserOk r.id user_id (lookup user_id r.participants) (v.users user_id);
    ufrags = λ ufrag. after-UfragOk r.participants ufrag (r.by_ufrag ufrag) (v.ufrags ufrag);
    addrs = λ a.
        let old = (session (st p) pc).address in
        elim (Bool-cases (same_addr a addr)) [
          | inl here ↦
              rw (here, (same_addr_iff a addr).0 here)
                (
                  ap (λ x. (session x pc).address) (write_self st p (latch_session (st p) pc addr))
                      ∙ latch_session-new (st p) pc addr,
                  after-IsMember r.participants p member,
                )
          | inr far ↦ rw far (
              without_old-keeps (AddrOk after r.participants) old addr r.by_addr a far tt
                (λ ne. after-AddrOk r.participants a (r.by_addr a) ne (v.addrs a)))
        ];
  }
