-- ===== src/Ingress/Throttle.antt =====
-- src/transport/udp/ingress.rs (`relay_subscribe_rtcp_blocks`): what the throttle leaves of PLIs.
use oxlens_sfu_server.Prelude.{
  ℕ, ◌≡◌, refl, ◌∙◌, ap, true, some, List, [], ◌∷◌, ◌++◌, arith, if◌then◌else◌,
}
use oxlens_sfu_server.Rtcp.Compound.{assemble_compound}
use oxlens_sfu_server.Participant.{SocketAddr, publish_pc}
use oxlens_sfu_server.Room.{Pointer, find_by_track_ssrc}
use oxlens_sfu_server.Ingress.Shared.{Scene, send_publish, set_member}
use oxlens_sfu_server.Ingress.Feedback.{
  Transport, Group, is_other, without_pli, is_throttled, noted_pli, send_encrypted, send_blocks,
  relay_to_addr, relay_to_publisher, relay_group,
}

is_other_lem : (block : List ℕ) → is_other block ≡ true
is_other_lem block = ground arith

-- No block is filtered out, as seven bits are never 206.
without_pli_lem : (blocks : List (List ℕ)) → without_pli blocks ≡ blocks
unfolding without_pli
without_pli_lem [] = refl
without_pli_lem (b ∷ bs) = rw (is_other_lem b) (ap (λ x. b ∷ x) (without_pli_lem bs))

module _ {F : Type 0} (x : Transport) where
  send_blocks-effects :
      (s : Scene F) (p : Pointer) (addr : SocketAddr) (plis : ℕ) (b : List ℕ) (bs : List (List ℕ))
      (encrypted : List ℕ)
      → x.encrypt_rtcp p publish_pc (assemble_compound (b ∷ bs)) ≡ some encrypted
      → x.send_to addr encrypted ≡ true
      → (send_blocks x s p addr plis (b ∷ bs)).effects
        ≡ s.effects ++ (send_publish p addr (assemble_compound (b ∷ bs)) ∷ [])
  send_blocks-effects s p addr plis b bs encrypted sealed taken =
      ap (λ o. (send_encrypted x s p addr (assemble_compound (b ∷ bs)) plis o).effects) sealed
      ∙ rw taken refl

  -- The defect: where the throttle holds the PLIs of a group back, as the last one went to the
  -- publisher less than three seconds ago, the publisher still gets the whole group, its PLIs
  -- included: the filter compares seven bits of the payload type with 206, and removes nothing.
  pub relay_group-unthrottled :
      (s : Scene F) (g : Group) (now_ms : ℕ) (p : Pointer) (addr : SocketAddr) (b : List ℕ)
      (bs : List (List ℕ)) (encrypted : List ℕ)
      → find_by_track_ssrc s.store s.room g.ssrc ≡ some p
      → (s.store p).publish.is_ready ≡ true
      → (s.store p).publish.address ≡ some addr
      → g.blocks ≡ b ∷ bs
      → is_throttled (s.store p) g now_ms ≡ true
      → x.encrypt_rtcp p publish_pc (assemble_compound (b ∷ bs)) ≡ some encrypted
      → x.send_to addr encrypted ≡ true
      → (relay_group x s g now_ms).effects
        ≡ s.effects ++ (send_publish p addr (assemble_compound (b ∷ bs)) ∷ [])
  unfolding relay_group
  relay_group-unthrottled s g now_ms p addr b bs encrypted found ready latched is held sealed
        taken =
      let noted = set_member s p (noted_pli (s.store p) g now_ms) in
      ap (λ o. (relay_to_publisher x s g now_ms o).effects) found
      ∙ ap
          (λ y. (if y then relay_to_addr x s p g now_ms (s.store p).publish.address else s).effects)
          ready
      ∙ ap (λ o. (relay_to_addr x s p g now_ms o).effects) latched
      ∙ ap
          (λ y.
            (send_blocks x noted p addr (if y then 0 else g.plis)
              (if y then without_pli g.blocks else g.blocks)).effects)
          held
      ∙ ap (λ blocks. (send_blocks x noted p addr 0 blocks).effects) (without_pli_lem g.blocks ∙ is)
      ∙ send_blocks-effects noted p addr 0 b bs encrypted sealed taken
