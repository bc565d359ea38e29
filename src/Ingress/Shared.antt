-- ===== src/Ingress/Shared.antt =====
-- src/transport/udp/ingress.rs: what the handlers of packets share: the room with the store, what
-- they start or send beside the egress queues, and the loop over the members of a room. The global
-- counters and the logs are left out; the counters of a participant are kept.
use oxlens_sfu_server.Prelude.{
  ℕ, ◌+◌, String, Bool, ◌&&◌, Option, none, some, List, [], ◌∷◌, ◌++◌, if◌then◌else◌,
}
use oxlens_sfu_server.Participant.{Participant, SocketAddr, EgressPacket, try_send}
use oxlens_sfu_server.Room.{Pointer, Store, Room, write}
use oxlens_sfu_server.FloorOps.Effects.{Packet}

-- The clocks, as the handler reads them: the wall clock in milliseconds and in microseconds, and
-- the monotonic clock in nanoseconds.
pub record Clock : Type 0 where
  pub wall_ms : ℕ
  pub wall_us : ℕ
  pub instant : ℕ

-- A burst of PLIs for a stream of the publisher, at the given delays; its end; a packet to an
-- address of the publisher, before encryption; a message on the WebSocket of every member.
pub data Effect : Type 0 where
  pli_burst : Pointer → (ssrc : ℕ) → SocketAddr → (delays : List ℕ) → Effect
  cancel_pli : Pointer → Effect
  send_publish : Pointer → SocketAddr → List ℕ → Effect
  to_room : Packet → Effect

pub record Scene (F : Type 0) : Type 0 where
  pub store : Store F
  pub room : Room
  pub effects : List Effect

module _ {F : Type 0} where
  abbrev pub set_member : Scene F → Pointer → Participant F → Scene F
  set_member s p v = record s { store = write s.store p v }

  abbrev pub emit : Scene F → List Effect → Scene F
  emit s es = record s { effects = s.effects ++ es }

  -- `if participant.is_publish_ready()`, with an address and an SSRC: a burst.
  unfoldable pub burst_to :
      Pointer → Participant F → Option SocketAddr → Option ℕ → (delays : List ℕ) → List Effect
  burst_to p v (some addr) (some ssrc) delays =
      if v.publish.is_ready then pli_burst p ssrc addr delays ∷ [] else []
  burst_to p v (some addr) none delays = []
  burst_to p v none ssrc delays = []

  -- A packet into the egress queue, with the participant's counter for the outcome.
  unfoldable pub deliver : Participant F → EgressPacket → Participant F
  deliver p packet =
      let (q, sent) = try_send p packet in
      if sent
      then record q {
        pipeline = record q.pipeline { sub_rtp_relayed = q.pipeline.sub_rtp_relayed + 1 };
      }
      else record q {
        pipeline = record q.pipeline { sub_rtp_dropped = q.pipeline.sub_rtp_dropped + 1 };
      }

  -- What one round of the loop makes of a member: nothing where it is not wanted or not ready.
  unfoldable pub visit :
      (wanted : String → Bool)
      → (Participant F → Participant F)
      → String
      → Participant F
      → Participant F
  visit wanted f user_id p = if wanted user_id && p.subscribe.is_ready then f p else p

  -- `for entry in room.participants.iter()`
  unfoldable pub for_ready :
      (wanted : String → Bool)
      → (Participant F → Participant F)
      → Store F
      → List (String × Pointer)
      → Store F
  for_ready wanted f st [] = st
  for_ready wanted f st (e ∷ es) =
      for_ready wanted f (write st e.1 (visit wanted f e.0 (st e.1))) es
