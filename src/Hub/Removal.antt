-- ===== src/Hub/Removal.antt =====
-- src/room/room.rs (`RoomHub::remove_participant` and the loop over the zombies of a room): who is listed
-- after a removal.
use oxlens_sfu_server.Prelude.{
  ℕ, String, ◌≡◌, refl, sym, ap, ◌∙◌, inl, inr, Bool, Bool-cases, true, false, Option, none, some,
  List, [], ◌∷◌, arith, lookup, map, ◌&&◌, ◌||◌, same, same_iff, same_self, if◌then◌else◌, and_then,
  lookup-assign, lookup-erase, Unique,
}
use oxlens_sfu_server.Room
use oxlens_sfu_server.Room.{LightResult, ok, err, Pointer, Store, Room, remove_found, parted}
use oxlens_sfu_server.Hub.{
  Hub, get, is_zombie, removed, remove_in, remove_participant, forget, zombie_ids, reaped,
  reap_users, reap_room, after_remove,
}

unfoldable pub elem : String → List String → Bool
elem u [] = false
elem u (x ∷ xs) = same u x || elem u xs

pub no_room :
    (id u : String) (rooms : List (String × Room))
    → elem id (map (λ e. e.0) rooms) ≡ false
    → and_then (lookup id rooms) (λ r. lookup u r.participants) ≡ none
unfolding elem lookup
no_room id u [] h = refl
no_room id u (e ∷ es) h =
    let off : same e.0 id ≡ false = ground (arith, h, same_iff e.0 id, same_iff id e.0) in
    let rest : elem id (map (λ x. x.0) es) ≡ false = ground (arith, h) in
    rw off (no_room id u es rest)

module _ {F : Type 0} where
  -- Who is listed in a room under a user.
  abbrev pub member : Hub F → (room_id user_id : String) → Option Pointer
  member h room_id user_id = and_then (get h room_id) (λ r. lookup user_id r.participants)

  -- A participant, unless it has been silent for too long.
  abbrev pub unless_zombie : Store F → (now_ms timeout_ms : ℕ) → Option Pointer → Option Pointer
  unless_zombie st now_ms timeout_ms none = none
  unless_zombie st now_ms timeout_ms (some p) =
      if is_zombie now_ms timeout_ms (st p).last_seen then none else some p

  abbrev pub zombie_at : Store F → (now_ms timeout_ms : ℕ) → Option Pointer → Bool
  zombie_at st now_ms timeout_ms none = false
  zombie_at st now_ms timeout_ms (some p) = is_zombie now_ms timeout_ms (st p).last_seen

  pub elem-zombie_ids :
      (st : Store F) (now_ms timeout_ms : ℕ) (u : String) (es : List (String × Pointer))
      → Unique es
      → elem u (zombie_ids st now_ms timeout_ms es) ≡ zombie_at st now_ms timeout_ms (lookup u es)
  unfolding elem zombie_ids lookup Unique
  elem-zombie_ids st now_ms timeout_ms u [] v = refl
  elem-zombie_ids st now_ms timeout_ms u (e ∷ es) v =
      let ih = elem-zombie_ids st now_ms timeout_ms u es v.1 in
      elim (Bool-cases (same e.0 u)) [
        | inl is ↦
            let gone : lookup u es ≡ none =
              ap (λ x. lookup x es) (sym ((same_iff e.0 u).0 is)) ∙ v.0 in
            let rest : elem u (zombie_ids st now_ms timeout_ms es) ≡ false = rw gone at ih in
            elim (Bool-cases (is_zombie now_ms timeout_ms (st e.1).last_seen)) [
              | inl z ↦ rw (is, z) (rw (sym ((same_iff e.0 u).0 is), same_self e.0) refl)
              | inr z ↦ rw (is, z) rest
            ]
        | inr other ↦
            let off : same u e.0 ≡ false = ground (arith, other, same_iff u e.0, same_iff e.0 u) in
            elim (Bool-cases (is_zombie now_ms timeout_ms (st e.1).last_seen)) [
              | inl z ↦ rw (other, z, off) ih
              | inr z ↦ rw (other, z) ih
            ]
      ]

  pub member-got :
      (h : Hub F) (id id2 u : String) (o : Option Room)
      → get h id ≡ o
      → same id2 id ≡ true
      → member h id2 u ≡ and_then o (λ r. lookup u r.participants)
  member-got h id id2 u o found is =
      ap (λ i. member h i u) ((same_iff id2 id).0 is)
      ∙ ap (λ x. and_then x (λ r. lookup u r.participants)) found

  -- Nobody is listed, so nobody goes.
  pub nobody :
      (h : Hub F) (id id2 k u : String) (o : Option Room)
      → get h id ≡ o
      → and_then o (λ r. lookup k r.participants) ≡ none
      → member h id2 u ≡ (if same id2 id && same u k then none else member h id2 u)
  nobody h id id2 k u o found gone = elim (Bool-cases (same id2 id)) [
    | inr other ↦ rw other refl
    | inl is ↦ elim (Bool-cases (same u k)) [
      | inr other ↦ rw (is, other) refl
      | inl whose ↦
          rw (is, whose)
            (member-got h id id2 u o found is
              ∙ ap (λ x. and_then o (λ r. lookup x r.participants)) ((same_iff u k).0 whose)
              ∙ gone)
    ]
  ]

  found-member :
      (h : Hub F) (id k : String) (r : Room) (o : Option Pointer) (id2 u : String)
      → get h id ≡ some r
      → lookup k r.participants ≡ o
      → member (after_remove h (removed h id (remove_found h.store r k o))) id2 u
        ≡ (if same id2 id && same u k then none else member h id2 u)
  unfolding forget
  found-member h id k r none id2 u found is = nobody h id id2 k u (some r) found is
  found-member h id k r (some p) id2 u found is =
      let r2 = parted h.store r k p in
      ap (λ o. and_then o (λ x. lookup u x.participants)) (lookup-assign id id2 r2 r h.rooms found)
      ∙ elim (Bool-cases (same id2 id)) [
        | inr other ↦ rw other refl
        | inl here ↦ rw here (
            lookup-erase k u r.participants
            ∙ ap (λ o. if same u k then none else o)
                (sym (member-got h id id2 u (some r) found here)))
      ]

  in-member :
      (h : Hub F) (id k : String) (o : Option Room) (id2 u : String)
      → get h id ≡ o
      → member (after_remove h (remove_in h id k o)) id2 u
        ≡ (if same id2 id && same u k then none else member h id2 u)
  unfolding Room.remove_participant
  in-member h id k none id2 u found = nobody h id id2 k u none found refl
  in-member h id k (some r) id2 u found =
      found-member h id k r (lookup k r.participants) id2 u found refl

  remove_participant-member :
      (h : Hub F) (id k id2 u : String)
      → member (after_remove h (remove_participant h id k)) id2 u
        ≡ (if same id2 id && same u k then none else member h id2 u)
  unfolding remove_participant
  remove_participant-member h id k id2 u = in-member h id k (get h id) id2 u refl

  reaped_lem :
      (s : Hub F × List (String × Pointer)) (id : String) (x : LightResult (Hub F × Pointer))
      → (reaped s id x).0 ≡ after_remove s.0 x
  reaped_lem s id (err e) = refl
  reaped_lem s id (ok (h, p)) = refl

  pub reap_users-member :
      (s : Hub F × List (String × Pointer)) (id : String) (us : List String) (id2 u : String)
      → member (reap_users s id us).0 id2 u
        ≡ (if same id2 id && elem u us then none else member s.0 id2 u)
  unfolding reap_users elem
  reap_users-member s id [] id2 u = ground arith
  reap_users-member s id (k ∷ us) id2 u =
      let x = remove_participant s.0 id k in
      reap_users-member (reaped s id x) id us id2 u
      ∙ ap (λ h. if same id2 id && elem u us then none else member h id2 u) (reaped_lem s id x)
      ∙ ap (λ o. if same id2 id && elem u us then none else o)
          (remove_participant-member s.0 id k id2 u)
      ∙ ground arith

  -- Removing writes nothing to the store.
  removed-store :
      (h : Hub F) (id k : String) (r : Room) (o : Option Pointer)
      → (after_remove h (removed h id (remove_found h.store r k o))).store ≡ h.store
  unfolding forget
  removed-store h id k r none = refl
  removed-store h id k r (some p) = refl

  remove_in-store :
      (h : Hub F) (id k : String) (o : Option Room)
      → (after_remove h (remove_in h id k o)).store ≡ h.store
  unfolding Room.remove_participant
  remove_in-store h id k none = refl
  remove_in-store h id k (some r) = removed-store h id k r (lookup k r.participants)

  reap_users-store :
      (s : Hub F × List (String × Pointer)) (id : String) (us : List String)
      → (reap_users s id us).0.store ≡ s.0.store
  unfolding reap_users remove_participant
  reap_users-store s id [] = refl
  reap_users-store s id (k ∷ us) =
      reap_users-store (reaped s id (remove_participant s.0 id k)) id us
      ∙ ap (λ h. h.store) (reaped_lem s id (remove_participant s.0 id k))
      ∙ remove_in-store s.0 id k (get s.0 id)

  pub reap_room-store :
      (now_ms timeout_ms : ℕ) (s : Hub F × List (String × Pointer)) (id : String) (o : Option Room)
      → (reap_room now_ms timeout_ms s id o).0.store ≡ s.0.store
  unfolding reap_room
  reap_room-store now_ms timeout_ms s id none = refl
  reap_room-store now_ms timeout_ms s id (some r) =
      reap_users-store s id (zombie_ids s.0.store now_ms timeout_ms r.participants)
