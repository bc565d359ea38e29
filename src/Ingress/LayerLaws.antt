-- ===== src/Ingress/LayerLaws.antt =====
-- src/transport/udp/ingress.rs (`fanout_simulcast_video`): what each subscriber gets of a publisher's
-- layers, and how often a keyframe is asked for.
use oxlens_sfu_server.Prelude.{
  ℕ, ◌+◌, ◌≤◌, String, ◌≡◌, refl, ◌∙◌, ap, subst, inl, inr, Bool-cases, Bool, true, false, not,
  ◌&&◌, ◌||◌, Option, none, some, List, [], ◌∷◌, ◌++◌, arith, same, same_iff, lookup, length,
  length-append, if◌then◌else◌,
}
use oxlens_sfu_server.Participant.{Participant, SocketAddr}
use oxlens_sfu_server.Room.{Pointer}
use oxlens_sfu_server.Room.Sound.{UserOk, IsSound}
use oxlens_sfu_server.Ingress.Shared.{Scene, Effect, burst_to, emit, set_member, visit, for_ready}
use oxlens_sfu_server.Ingress.Loop.{for_ready-at}
use oxlens_sfu_server.Ingress.Layers.{
  forward, forwarded_to, serve, serve_all, is_served, burst_once, layer_ssrc,
}
use oxlens_sfu_server.Ingress.LayerEntry.{
  watched, is_new, entry_for-watched, queued, deliver_some-egress, deliver_some-layers, chosen,
  forward-chosen, advanced, forward-advanced,
}

module _ {F : Type 0} (user_id sender_rid : String) (payload : List ℕ) (key : Bool) (vssrc now : ℕ)
    (at : Pointer) where
  serve_all-store :
      (s : Scene F) (pli_sent : Bool) (es : List (String × Pointer))
      → (serve_all user_id sender_rid payload key vssrc now at s pli_sent es).store
        ≡ for_ready
            (λ u. not (same u user_id))
            (serve user_id sender_rid payload key vssrc now)
            s.store
            es
  unfolding serve_all for_ready visit
  serve_all-store s pli_sent [] = refl
  serve_all-store s pli_sent (e ∷ es) =
      let p = s.store e.1 in
      let served = is_served user_id sender_rid payload key vssrc now e.0 p in
      let needed = served && (forwarded_to user_id sender_rid payload key vssrc now p).need_pli in
      let v = if served then serve user_id sender_rid payload key vssrc now p else p in
      let once =
        burst_once user_id sender_rid payload key vssrc now at (s.store at) needed pli_sent in
      serve_all-store (emit (set_member s e.1 v) once) (pli_sent || needed) es

  burst_to-length :
      (p : Participant F) (addr : Option SocketAddr) (ssrc : Option ℕ) (delays : List ℕ)
      → length (burst_to at p addr ssrc delays) ≤ 1
  unfolding burst_to
  burst_to-length p (some addr) (some ssrc) delays = elim (Bool-cases p.publish.is_ready) [
    | inl ready ↦ rw ready (omega arith)
    | inr not_yet ↦ rw not_yet (omega arith)
  ]
  burst_to-length p (some addr) none delays = omega arith
  burst_to-length p none ssrc delays = omega arith

  once-length :
      (es : List Effect) (p : Participant F) (needed pli_sent : Bool)
      → length (es ++ burst_once user_id sender_rid payload key vssrc now at p needed pli_sent)
          + (if pli_sent || needed then 0 else 1)
        ≤ length es + (if pli_sent then 0 else 1)
  once-length es p true false =
      let delays : List ℕ = 0 ∷ 200 ∷ 500 ∷ 1500 ∷ [] in
      omega (
        arith,
        length-append es (burst_to at p p.publish.address (layer_ssrc "h" p.tracks) delays),
        burst_to-length p p.publish.address (layer_ssrc "h" p.tracks) delays,
      )
  once-length es p true true = omega (arith, length-append es [])
  once-length es p false true = omega (arith, length-append es [])
  once-length es p false false = omega (arith, length-append es [])

  -- Once a burst has been started, there is no other; before, there is one at most.
  serve_all-bursts :
      (s : Scene F) (pli_sent : Bool) (es : List (String × Pointer))
      → length (serve_all user_id sender_rid payload key vssrc now at s pli_sent es).effects
        ≤ length s.effects + (if pli_sent then 0 else 1)
  unfolding serve_all
  serve_all-bursts s pli_sent [] = ground arith
  serve_all-bursts s pli_sent (e ∷ es) =
      let p = s.store e.1 in
      let served = is_served user_id sender_rid payload key vssrc now e.0 p in
      let needed = served && (forwarded_to user_id sender_rid payload key vssrc now p).need_pli in
      let v = if served then serve user_id sender_rid payload key vssrc now p else p in
      let once =
        burst_once user_id sender_rid payload key vssrc now at (s.store at) needed pli_sent in
      let rest = serve_all-bursts (emit (set_member s e.1 v) once) (pli_sent || needed) es in
      let here = once-length s.effects (s.store at) needed pli_sent in omega (arith, rest, here)

  serve-egress :
      (p : Participant F)
      → (serve user_id sender_rid payload key vssrc now p).egress
        ≡ queued p.egress
            (chosen sender_rid payload key (watched vssrc (p.subscribe_layers user_id)))
  unfolding serve
  serve-egress p =
      let o = p.subscribe_layers user_id in
      deliver_some-egress _ (forwarded_to user_id sender_rid payload key vssrc now p).packet
      ∙ ap (λ e. queued p.egress (forward sender_rid payload key now e).packet)
          (entry_for-watched vssrc o)
      ∙ ap (queued p.egress)
          (forward-chosen sender_rid payload key now (watched vssrc o) (is_new o))

  serve-layers :
      (p : Participant F)
      → let o = p.subscribe_layers user_id in
        (serve user_id sender_rid payload key vssrc now p).subscribe_layers user_id
        ≡ some (advanced sender_rid payload key now (is_new o) (watched vssrc o))
  unfolding serve
  serve-layers p =
      let o = p.subscribe_layers user_id in
      let entry = (forwarded_to user_id sender_rid payload key vssrc now p).entry in
      ap (λ f. f user_id)
        (deliver_some-layers _ (forwarded_to user_id sender_rid payload key vssrc now p).packet)
      ∙ ap (λ b. if b then some entry else o) ((same_iff user_id user_id).1 refl)
      ∙ ap (λ e. some (forward sender_rid payload key now e).entry) (entry_for-watched vssrc o)
      ∙ ap some (forward-advanced sender_rid payload key now (watched vssrc o) (is_new o))

  -- A member that is ready and is not the sender is served.
  serve_all-served :
      (s : Scene F) (u : String) (q : Pointer)
      → IsSound s.store s.room
      → lookup u s.room.participants ≡ some q
      → same u user_id ≡ false
      → (s.store q).subscribe.is_ready ≡ true
      → (serve_all user_id sender_rid payload key vssrc now at s false s.room.participants).store q
        ≡ serve user_id sender_rid payload key vssrc now (s.store q)
  unfolding visit
  serve_all-served s u q v found other ready =
      let served = serve user_id sender_rid payload key vssrc now (s.store q) in
      ap (λ st. st q) (serve_all-store s false s.room.participants)
      ∙ for_ready-at (λ w. not (same w user_id)) (serve user_id sender_rid payload key vssrc now)
          (λ p. (s.store p).user_id) s.store s.room.participants u q
          (λ w p there. (subst (UserOk s.store s.room.id w) there (v.users w)).0) v.unique found
      ∙ ap (λ b. if not b && (s.store q).subscribe.is_ready then served else s.store q) other
      ∙ ap (λ b. if b then served else s.store q) ready

  -- In a room with right indices, when the packet of a publisher's layer is handed out: the queue of
  -- each other member that is ready grows by what its rewriter makes of the packet, if it watches
  -- this layer, is not paused and the rewriter lets the packet through, and if the queue is not
  -- full; else it stays. A member that has no entry for the publisher yet watches the layer "h" with
  -- a new rewriter. What the packet makes of the rewriter is kept for the next packet. Whatever the
  -- members need, one burst of PLIs is started at most.
  pub serve_all-at :
      (s : Scene F) (u : String) (q : Pointer)
      → IsSound s.store s.room
      → lookup u s.room.participants ≡ some q
      → same u user_id ≡ false
      → (s.store q).subscribe.is_ready ≡ true
      → let t = serve_all user_id sender_rid payload key vssrc now at s false s.room.participants in
        let o = (s.store q).subscribe_layers user_id in
        ((t.store q).egress
          ≡ queued (s.store q).egress (chosen sender_rid payload key (watched vssrc o)))
        × ((t.store q).subscribe_layers user_id
            ≡ some (advanced sender_rid payload key now (is_new o) (watched vssrc o)))
        × (length t.effects ≤ length s.effects + 1)
  serve_all-at s u q v found other ready =
      let served = serve_all-served s u q v found other ready in
      (
        ap (λ p. p.egress) served ∙ serve-egress (s.store q),
        ap (λ p. p.subscribe_layers user_id) served ∙ serve-layers (s.store q),
        serve_all-bursts s false s.room.participants,
      )
