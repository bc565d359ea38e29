-- ===== src/Ingress/Loop.antt =====
-- src/transport/udp/ingress.rs: what the loop over the members of a room makes of each of them.
use oxlens_sfu_server.Prelude.{
  String, ◌≡◌, refl, ◌≢◌, ◌∙◌, sym, ap, inl, inr, Bool, none, some, List, [], ◌∷◌, arith, same,
  same_iff, same_self, if◌then◌else◌, lookup, Unique, Bool-cases, some-injective, subst,
}
use oxlens_sfu_server.Participant.{Participant}
use oxlens_sfu_server.Room.{Pointer, Store, write}
use oxlens_sfu_server.Room.Latch.{write_self}
use oxlens_sfu_server.Ingress.Shared.{visit, for_ready}

-- Every user that is found has the name of the participant it leads to.
abbrev pub Names : (Pointer → String) → List (String × Pointer) → Type 0
Names name es = (u : String) (p : Pointer) → lookup u es ≡ some p → name p ≡ u

-- Who is found behind the first entry is found in the whole list.
lookup-tail :
    (e : String × Pointer) (es : List (String × Pointer)) (u : String) (p : Pointer)
    → lookup e.0 es ≡ none
    → lookup u es ≡ some p
    → lookup u (e ∷ es) ≡ some p
unfolding lookup
lookup-tail e es u p fresh found = elim (Bool-cases (same e.0 u)) [
  | inl is ↦ absurd (ground (arith, ap (λ x. lookup x es) ((same_iff e.0 u).0 is), fresh, found))
  | inr other ↦ rw other found
]

Names-head :
    (name : Pointer → String) (e : String × Pointer) (es : List (String × Pointer))
    → Names name (e ∷ es)
    → name e.1 ≡ e.0
unfolding lookup
Names-head name e es n = n e.0 e.1 (rw (same_self e.0) refl)

pub write_ne :
    {F : Type 0} (st : Store F) (p q : Pointer) (v : Participant F) → q ≢ p → write st p v q ≡ st q
write_ne st p q v ne = ground arith

module _ {F : Type 0} (wanted : String → Bool) (f : Participant F → Participant F) where
  -- A participant that the list does not lead to is not touched.
  pub for_ready-others :
      (st : Store F) (es : List (String × Pointer)) (q : Pointer)
      → ((u : String) → lookup u es ≢ some q)
      → Unique es
      → for_ready wanted f st es q ≡ st q
  unfolding for_ready lookup Unique
  for_ready-others st [] q off u = refl
  for_ready-others st (e ∷ es) q off u =
      for_ready-others (write st e.1 (visit wanted f e.0 (st e.1))) es q
        (λ v found. off v (lookup-tail e es v q u.0 found)) u.1
      ∙ write_ne st e.1 q (visit wanted f e.0 (st e.1))
          (λ is. off e.0 (rw (same_self e.0) (ap some (sym is))))

  pub for_ready-at :
      (name : Pointer → String) (st : Store F) (es : List (String × Pointer)) (u : String)
      (q : Pointer)
      → Names name es
      → Unique es
      → lookup u es ≡ some q
      → for_ready wanted f st es q ≡ visit wanted f u (st q)
  unfolding for_ready lookup Unique
  for_ready-at name st [] u q n un found = absurd (ground arith)
  for_ready-at name st (e ∷ es) u q n un found = elim (Bool-cases (same e.0 u)) [
    | inl is ↦
        let this : e.1 ≡ q =
          some-injective (sym (ap (λ b. if b then some e.1 else lookup u es) is) ∙ found) in
        subst (λ x. for_ready wanted f st (e ∷ es) x ≡ visit wanted f u (st x)) this
          (for_ready-others (write st e.1 (visit wanted f e.0 (st e.1))) es e.1
              (λ v there.
                let e0 =
                  sym (n v e.1 (lookup-tail e es v e.1 un.0 there)) ∙ Names-head name e es n in
                ground (arith, ap (λ x. lookup x es) e0, un.0, there))
              un.1
            ∙ write_self st e.1 (visit wanted f e.0 (st e.1))
            ∙ ap (λ x. visit wanted f x (st e.1)) ((same_iff e.0 u).0 is))
    | inr other ↦
        let there : lookup u es ≡ some q =
          sym (ap (λ b. if b then some e.1 else lookup u es) other) ∙ found in
        let ne : q ≢ e.1 = λ is.
          let e0 = sym (Names-head name e es n) ∙ ap name (sym is) ∙ n u q found in
          ground (arith, same_iff e.0 u, e0, other) in
        for_ready-at name (write st e.1 (visit wanted f e.0 (st e.1))) es u q
          (λ v p h. n v p (lookup-tail e es v p un.0 h)) un.1 there
        ∙ ap (visit wanted f u) (write_ne st e.1 q (visit wanted f e.0 (st e.1)) ne)
  ]
