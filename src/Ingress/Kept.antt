-- ===== src/Ingress/Kept.antt =====
-- src/transport/udp/ingress.rs: what no handler of a packet touches: who the participants are and with
-- which sessions, and the indices of the room; and what it keeps: the rewriters on the speaker.
use oxlens_sfu_server.Prelude.{
  ◌+◌, String, ◌≡◌, refl, ◌∙◌, inl, inr, Bool-cases, Bool, true, false, List, [], ◌∷◌, ◌++◌, ltb,
  length, Map, if◌then◌else◌,
}
use oxlens_sfu_server.Participant.{
  Participant, SocketAddr, PcType, MediaSession, EgressPacket, try_send,
}
use oxlens_sfu_server.Room.{Pointer, Store, Room, write}
use oxlens_sfu_server.Room.Latch.{write-keeps}
use oxlens_sfu_server.FloorOps.Answers.{IsSynced}
use oxlens_sfu_server.Ingress.Shared.{Scene, Effect, set_member, emit, deliver, visit, for_ready}

-- Who a participant is, with its sessions.
abbrev pub identity : {F : Type 0} → Participant F → String × String × MediaSession × MediaSession
identity p = (p.user_id, p.room_id, p.publish, p.subscribe)

-- The name of a room, its members, its indices, and whether it has simulcast.
abbrev pub frame :
    Room
    → String
      × List (String × Pointer)
      × Map String (Pointer × PcType)
      × Map SocketAddr (Pointer × PcType)
      × Bool
frame r = (r.id, r.participants, r.by_ufrag, r.by_addr, r.simulcast_enabled)

module _ {F : Type 0} where
  pub record Kept (s t : Scene F) : Type 0 where
    pub members : (q : Pointer) → identity (t.store q) ≡ identity (s.store q)
    pub indices : frame t.room ≡ frame s.room
    pub synced : IsSynced s.room → IsSynced t.room

  pub Kept-refl : (s : Scene F) → Kept s s
  Kept-refl s = record { members = λ q. refl; indices = refl; synced = λ v. v }

  pub Kept-then : {s t u : Scene F} → Kept s t → Kept t u → Kept s u
  Kept-then a b = record {
    members = λ q. b.members q ∙ a.members q;
    indices = b.indices ∙ a.indices;
    synced = λ v. b.synced (a.synced v);
  }

  -- A new store, with the same participants in it.
  pub Kept-store :
      (s : Scene F) (st : Store F) (es : List Effect)
      → ((q : Pointer) → identity (st q) ≡ identity (s.store q))
      → Kept s (record s { store = st; effects = es })
  Kept-store s st es same = record { members = same; indices = refl; synced = λ v. v }

  pub Kept-set :
      (s : Scene F) (p : Pointer) (v : Participant F)
      → identity v ≡ identity (s.store p)
      → Kept s (set_member s p v)
  Kept-set s p v same =
      Kept-store s (write s.store p v) s.effects (λ q. write-keeps identity s.store p q v same)

  pub Kept-emit : (s : Scene F) (es : List Effect) → Kept s (emit s es)
  Kept-emit s es = Kept-store s s.store (s.effects ++ es) (λ q. refl)

  pub Kept-if : {s t u : Scene F} (b : Bool) → Kept s t → Kept s u → Kept s (if b then t else u)
  Kept-if true k l = k
  Kept-if false k l = l

  pub identity-if :
      (p q r : Participant F) (b : Bool)
      → identity q ≡ identity p
      → identity r ≡ identity p
      → identity (if b then q else r) ≡ identity p
  identity-if p q r true e f = e
  identity-if p q r false e f = f

  pub try_send-identity :
      (p : Participant F) (packet : EgressPacket) → identity (try_send p packet).0 ≡ identity p
  unfolding try_send
  try_send-identity p packet = elim (Bool-cases (ltb (length p.egress) 256)) [
    | inl fits ↦ rw fits refl
    | inr full ↦ rw full refl
  ]

  pub deliver-identity :
      (p : Participant F) (packet : EgressPacket) → identity (deliver p packet) ≡ identity p
  unfolding deliver
  deliver-identity p packet =
      let q = (try_send p packet).0 in
      identity-if p
        (record q {
          pipeline = record q.pipeline { sub_rtp_relayed = q.pipeline.sub_rtp_relayed + 1 };
        })
        (record q {
          pipeline = record q.pipeline { sub_rtp_dropped = q.pipeline.sub_rtp_dropped + 1 };
        })
        (try_send p packet).1 (try_send-identity p packet) (try_send-identity p packet)

  pub for_ready-identity :
      (wanted : String → Bool) (f : Participant F → Participant F)
      → ((p : Participant F) → identity (f p) ≡ identity p)
      → (st : Store F) (es : List (String × Pointer)) (q : Pointer)
      → identity (for_ready wanted f st es q) ≡ identity (st q)
  unfolding for_ready visit
  for_ready-identity wanted f same st [] q = refl
  for_ready-identity wanted f same st (e ∷ es) q =
      for_ready-identity wanted f same (write st e.1 (visit wanted f e.0 (st e.1))) es q
      ∙ write-keeps identity st e.1 q (visit wanted f e.0 (st e.1))
          (identity-if (st e.1) (f (st e.1)) (st e.1) _ (same (st e.1)) refl)

  pub for_ready-Kept :
      (s : Scene F) (wanted : String → Bool) (f : Participant F → Participant F)
      → ((p : Participant F) → identity (f p) ≡ identity p)
      → Kept s (record s { store = for_ready wanted f s.store s.room.participants })
  for_ready-Kept s wanted f same =
      Kept-store s (for_ready wanted f s.store s.room.participants) s.effects
        (for_ready-identity wanted f same s.store s.room.participants)
