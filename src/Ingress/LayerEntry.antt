-- ===== src/Ingress/LayerEntry.antt =====
-- src/transport/udp/ingress.rs (`fanout_simulcast_video`): what a packet of a layer brings one
-- subscriber, by its entry for the publisher.
use oxlens_sfu_server.Prelude.{
  ℕ, String, ◌≡◌, refl, inl, inr, Bool-cases, Bool, true, false, not, ◌&&◌, ◌||◌, Option, none,
  some, List, [], ◌∷◌, ◌++◌, same, ltb, length, if◌then◌else◌,
}
use oxlens_sfu_server.Simulcast
use oxlens_sfu_server.Simulcast.{needs_pli_retry, mark_pli_sent}
use oxlens_sfu_server.Participant.{
  Participant, SubscribeLayerEntry, rtp, EgressPacket, try_send, egress_queue_size,
}
use oxlens_sfu_server.Ingress.Shared.{deliver}
use oxlens_sfu_server.Ingress.Layers.{entry_for, forward, deliver_some}

-- A queue behind a packet that may be.
abbrev pub queued : List EgressPacket → Option (List ℕ) → List EgressPacket
queued es none = es
queued es (some packet) = if ltb (length es) egress_queue_size then es ++ (rtp packet ∷ []) else es

pub deliver_some-egress :
    {F : Type 0} (p : Participant F) (o : Option (List ℕ))
    → (deliver_some p o).egress ≡ queued p.egress o
unfolding deliver try_send
deliver_some-egress p none = refl
deliver_some-egress p (some packet) = elim (Bool-cases (ltb (length p.egress) egress_queue_size)) [
  | inl fits ↦ rw fits refl
  | inr full ↦ rw full refl
]

-- What a subscriber is to get, by its entry for the publisher: nothing of another layer or in a
-- pause, and of its own layer what its rewriter lets through.
abbrev pub chosen :
    (sender_rid : String) (payload : List ℕ) (key : Bool) → SubscribeLayerEntry → Option (List ℕ)
chosen sender_rid payload key sub =
    let w = Simulcast.rewrite sub.rewriter payload key in
    if same sub.rid "pause" || not (same sender_rid sub.rid)
    then none
    else if w.2
    then some w.1
    else none

-- The layer that a subscriber watches at first is the highest, with a new rewriter.
abbrev pub watched : (vssrc : ℕ) → Option SubscribeLayerEntry → SubscribeLayerEntry
watched vssrc (some sub) = sub
watched vssrc none = record { rid = "h"; rewriter = Simulcast.new vssrc }

abbrev pub is_new : Option SubscribeLayerEntry → Bool
is_new none = true
is_new (some sub) = false

-- The subscriber's entry when the packet is done with: the rewriter as the packet leaves it, with
-- the time where a keyframe is asked for, at first or again.
abbrev pub advanced :
    (sender_rid : String) (payload : List ℕ) (key : Bool) (now : ℕ) (created : Bool)
    → SubscribeLayerEntry
    → SubscribeLayerEntry
advanced sender_rid payload key now created sub =
    let w = Simulcast.rewrite sub.rewriter payload key in
    if same sub.rid "pause" || not (same sender_rid sub.rid)
    then sub
    else if created || (not w.2 && needs_pli_retry w.0 now)
    then record sub { rewriter = mark_pli_sent w.0 now }
    else record sub { rewriter = w.0 }

pub forward-advanced :
    (sender_rid : String) (payload : List ℕ) (key : Bool) (now : ℕ) (sub : SubscribeLayerEntry)
    (created : Bool)
    → (forward sender_rid payload key now (sub, created)).entry
      ≡ advanced sender_rid payload key now created sub
unfolding forward
forward-advanced sender_rid payload key now sub created =
    let w = Simulcast.rewrite sub.rewriter payload key in
    elim (Bool-cases (same sub.rid "pause" || not (same sender_rid sub.rid))) [
      | inl away ↦ rw away refl
      | inr here ↦ elim (Bool-cases (created || (not w.2 && needs_pli_retry w.0 now))) [
        | inl again ↦ rw (here, again) refl
        | inr done ↦ rw (here, done) refl
      ]
    ]

pub deliver_some-layers :
    {F : Type 0} (p : Participant F) (o : Option (List ℕ))
    → (deliver_some p o).subscribe_layers ≡ p.subscribe_layers
unfolding deliver try_send
deliver_some-layers p none = refl
deliver_some-layers p (some packet) = elim (Bool-cases (ltb (length p.egress) egress_queue_size)) [
  | inl fits ↦ rw fits refl
  | inr full ↦ rw full refl
]

pub forward-chosen :
    (sender_rid : String) (payload : List ℕ) (key : Bool) (now : ℕ) (sub : SubscribeLayerEntry)
    (created : Bool)
    → (forward sender_rid payload key now (sub, created)).packet ≡ chosen sender_rid payload key sub
unfolding forward
forward-chosen sender_rid payload key now sub created =
    elim (Bool-cases (same sub.rid "pause" || not (same sender_rid sub.rid))) [
      | inl away ↦ rw away refl
      | inr here ↦ rw here refl
    ]

pub entry_for-watched :
    (vssrc : ℕ) (o : Option SubscribeLayerEntry) → entry_for vssrc o ≡ (watched vssrc o, is_new o)
unfolding entry_for
entry_for-watched vssrc none = refl
entry_for-watched vssrc (some sub) = refl
