-- ===== src/Stun/Fuel.antt =====
-- src/transport/stun.rs: the loops of `parse` and `find_attr_offset` end by themselves.
use oxlens_sfu_server.Prelude.{
  ℕ, zero, suc, ◌+◌, ◌≤◌, ◌<◌, ◌≡◌, refl, sym, ◌∙◌, none, List, [], ◌∷◌, arith, length, drop,
  read16,
}
use oxlens_sfu_server.Rtcp.Mbcp.{padded}
use oxlens_sfu_server.Stun.{attributes_from, offset_from}
use oxlens_sfu_server.Stun.Response.{length-drop, attributes_from-nil}

offset_from-nil : (n offset target : ℕ) → offset_from n offset [] target ≡ none
unfolding offset_from
offset_from-nil zero offset target = refl
offset_from-nil (suc n) offset target = refl

-- A round leaves fewer bytes.
shorter :
    (n step b : ℕ) (rest : List ℕ)
    → length (b ∷ rest) ≤ suc n
    → 0 < step
    → length (drop step (b ∷ rest)) ≤ n
shorter n step b rest h positive = omega (arith, length-drop step (b ∷ rest))

attributes_from-enough :
    (n m : ℕ) (rest : List ℕ)
    → length rest ≤ n
    → length rest ≤ m
    → attributes_from n rest ≡ attributes_from m rest
unfolding attributes_from
attributes_from-enough n m [] hn hm = attributes_from-nil n ∙ sym (attributes_from-nil m)
attributes_from-enough zero m (b ∷ rest) hn hm = absurd (omega arith)
attributes_from-enough (suc n) zero (b ∷ rest) hn hm = absurd (omega arith)
attributes_from-enough (suc n) (suc m) (b ∷ rest) hn hm =
    let step = 4 + padded (read16 (b ∷ rest) 2) in
    rw
      (attributes_from-enough n m (drop step (b ∷ rest)) (shorter n step b rest hn (omega arith))
        (shorter m step b rest hm (omega arith)))
      refl

offset_from-enough :
    (n m offset : ℕ) (rest : List ℕ) (target : ℕ)
    → length rest ≤ n
    → length rest ≤ m
    → offset_from n offset rest target ≡ offset_from m offset rest target
unfolding offset_from
offset_from-enough n m offset [] target hn hm =
    offset_from-nil n offset target ∙ sym (offset_from-nil m offset target)
offset_from-enough zero m offset (b ∷ rest) target hn hm = absurd (omega arith)
offset_from-enough (suc n) zero offset (b ∷ rest) target hn hm = absurd (omega arith)
offset_from-enough (suc n) (suc m) offset (b ∷ rest) target hn hm =
    let step = 4 + padded (read16 (b ∷ rest) 2) in
    rw
      (offset_from-enough n m (offset + step) (drop step (b ∷ rest)) target
        (shorter n step b rest hn (omega arith)) (shorter m step b rest hm (omega arith)))
      refl

-- As many rounds as there are bytes are enough for the loops of `parse` and `find_attr_offset`: with
-- any greater number of rounds they return the same.
pub attributes_from-fuel :
    (n offset : ℕ) (rest : List ℕ) (target : ℕ)
    → length rest ≤ n
    → (attributes_from n rest ≡ attributes_from (length rest) rest)
      × (offset_from n offset rest target ≡ offset_from (length rest) offset rest target)
attributes_from-fuel n offset rest target h = (
  attributes_from-enough n (length rest) rest h (omega arith),
  offset_from-enough n (length rest) offset rest target h (omega arith),
)
