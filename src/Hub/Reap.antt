-- ===== src/Hub/Reap.antt =====
-- src/room/room.rs (`RoomHub::reap_zombies`): who is left when the silent participants are removed.
use oxlens_sfu_server.Prelude.{
  ℕ, String, ◌≡◌, refl, sym, ap, ◌∙◌, inl, inr, Bool, Bool-cases, true, false, Option, none, some,
  List, [], ◌∷◌, map, ◌||◌, same, if◌then◌else◌,
}
use oxlens_sfu_server.Room.{Pointer, Store, Room}
use oxlens_sfu_server.Hub.{
  Hub, new, get, is_zombie, zombie_ids, reap_room, reap_rooms, reap_zombies, Call, run,
}
use oxlens_sfu_server.Hub.Index.{IsValid, got}
use oxlens_sfu_server.Hub.Runs.{calls-IsValid, reap_room-IsValid}
use oxlens_sfu_server.Hub.Removal.{
  elem, elem-zombie_ids, member, member-got, no_room, reap_room-store, reap_users-member,
  unless_zombie, zombie_at,
}

module _ {F : Type 0} where
  -- Taking away the zombies of one room.
  without_zombie :
      (st : Store F) (now_ms timeout_ms : ℕ) (o : Option Pointer)
      → (if zombie_at st now_ms timeout_ms o then none else o)
        ≡ unless_zombie st now_ms timeout_ms o
  without_zombie st now_ms timeout_ms none = refl
  without_zombie st now_ms timeout_ms (some p) = refl

  unless_zombie-again :
      (st : Store F) (now_ms timeout_ms : ℕ) (o : Option Pointer)
      → unless_zombie st now_ms timeout_ms (unless_zombie st now_ms timeout_ms o)
        ≡ unless_zombie st now_ms timeout_ms o
  unless_zombie-again st now_ms timeout_ms none = refl
  unless_zombie-again st now_ms timeout_ms (some p) =
      elim (Bool-cases (is_zombie now_ms timeout_ms (st p).last_seen)) [
        | inl z ↦ rw z refl
        | inr z ↦ rw z (rw z refl)
      ]

  room-member :
      (now_ms timeout_ms : ℕ) (s : Hub F × List (String × Pointer)) (id id2 u : String)
      (o : Option Room)
      → get s.0 id ≡ o
      → IsValid s.0
      → member (reap_room now_ms timeout_ms s id o).0 id2 u ≡ (
          if same id2 id
          then unless_zombie s.0.store now_ms timeout_ms (member s.0 id2 u)
          else member s.0 id2 u)
  unfolding reap_room
  room-member now_ms timeout_ms s id id2 u none found v = elim (Bool-cases (same id2 id)) [
    | inr other ↦ rw other refl
    | inl here ↦ rw here (
        member-got s.0 id id2 u none found here
        ∙ ap (unless_zombie s.0.store now_ms timeout_ms)
            (sym (member-got s.0 id id2 u none found here)))
  ]
  room-member now_ms timeout_ms s id id2 u (some r) found v =
      let zs = zombie_ids s.0.store now_ms timeout_ms r.participants in
      reap_users-member s id zs id2 u ∙ elim (Bool-cases (same id2 id)) [
        | inr other ↦ rw other refl
        | inl here ↦ rw here (
            let m = member-got s.0 id id2 u (some r) found here in
            ap (λ b. if b then none else member s.0 id2 u)
              (elem-zombie_ids s.0.store now_ms timeout_ms u r.participants
                  (got s.0 id r found v).1.unique
                ∙ ap (zombie_at s.0.store now_ms timeout_ms) (sym m))
            ∙ without_zombie s.0.store now_ms timeout_ms (member s.0 id2 u))
      ]

  twice :
      (st : Store F) (now_ms timeout_ms : ℕ) (here later : Bool) (o : Option Pointer)
      → (if later
          then unless_zombie st now_ms timeout_ms
              (if here then unless_zombie st now_ms timeout_ms o else o)
          else (if here then unless_zombie st now_ms timeout_ms o else o))
        ≡ (if here || later then unless_zombie st now_ms timeout_ms o else o)
  twice st now_ms timeout_ms true true o = unless_zombie-again st now_ms timeout_ms o
  twice st now_ms timeout_ms true false o = refl
  twice st now_ms timeout_ms false true o = refl
  twice st now_ms timeout_ms false false o = refl

  reap_rooms-member :
      (now_ms timeout_ms : ℕ) (s : Hub F × List (String × Pointer)) (ids : List String)
      (id2 u : String)
      → IsValid s.0
      → member (reap_rooms now_ms timeout_ms s ids).0 id2 u ≡ (
          if elem id2 ids
          then unless_zombie s.0.store now_ms timeout_ms (member s.0 id2 u)
          else member s.0 id2 u)
  unfolding reap_rooms elem
  reap_rooms-member now_ms timeout_ms s [] id2 u v = refl
  reap_rooms-member now_ms timeout_ms s (id ∷ ids) id2 u v =
      let s2 = reap_room now_ms timeout_ms s id (get s.0 id) in
      reap_rooms-member now_ms timeout_ms s2 ids id2 u
        (reap_room-IsValid now_ms timeout_ms s id (get s.0 id) v)
      ∙ ap
          (λ st.
            if elem id2 ids
            then unless_zombie st now_ms timeout_ms (member s2.0 id2 u)
            else member s2.0 id2 u)
          (reap_room-store now_ms timeout_ms s id (get s.0 id))
      ∙ ap (λ o. if elem id2 ids then unless_zombie s.0.store now_ms timeout_ms o else o)
          (room-member now_ms timeout_ms s id id2 u (get s.0 id) refl v)
      ∙ twice s.0.store now_ms timeout_ms (same id2 id) (elem id2 ids) (member s.0 id2 u)

  -- After any run of calls, reaping with a time and a timeout leaves listed in every room, under
  -- every user, who was listed there, unless he was seen before (`last_seen` is not 0) and the
  -- time passed since is more than the timeout: then nobody is.
  pub reap_zombies-member :
      (st : Store F) (cs : List Call) (now_ms timeout_ms : ℕ) (room_id user_id : String)
      → member (reap_zombies (run (new st) cs) now_ms timeout_ms).0 room_id user_id
        ≡ unless_zombie
            (run (new st) cs).store
            now_ms
            timeout_ms
            (member (run (new st) cs) room_id user_id)
  unfolding reap_zombies
  reap_zombies-member st cs now_ms timeout_ms room_id user_id =
      let h = run (new st) cs in
      let ids = map (λ e. e.0) h.rooms in
      reap_rooms-member now_ms timeout_ms (h, []) ids room_id user_id (calls-IsValid st cs)
      ∙ elim (Bool-cases (elem room_id ids)) [
        | inl there ↦ rw there refl
        | inr missing ↦ rw missing (
            no_room room_id user_id h.rooms missing
            ∙ ap (unless_zombie h.store now_ms timeout_ms)
                (sym (no_room room_id user_id h.rooms missing)))
      ]
