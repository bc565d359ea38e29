-- ===== src/Prelude/Maps.antt =====
-- Maps with Boolean key tests: association lists under texts, where the order or the number of
-- entries matters, and functions, where only lookups do. No code of the repository is modelled here.
use Prim.Native.String.{String}
use mathlib.Core.Path.{◌≡◌, refl, ap, ◌∙◌}
use mathlib.Core.Logic.{◌≢◌, inl, inr}
use mathlib.Core.Bool.{Bool, true, false}
use mathlib.Core.Option.{Option, none, some}
use mathlib.Core.List.{List, [], ◌∷◌, ◌++◌}
use native.Mathlib.Omega.{arith}
use oxlens_sfu_server.Prelude.Tests.{same, same_iff, if◌then◌else◌, Bool-cases, Option-cases}

-- A hash map of which only the lookups matter.
abbrev pub Map {ℓ κ} : Type ℓ → Type κ → Type (ℓ ⊔ κ)
Map K V = K → Option V

module _ {ℓ κ} {K : Type ℓ} {V : Type κ} (test : K → K → Bool) where
  abbrev pub insert : K → V → Map K V → Map K V
  insert k v m q = if test q k then some v else m q

  abbrev pub remove : K → Map K V → Map K V
  remove k m q = if test q k then none else m q

-- What holds of every entry still does when one is put in or taken out.
module _ {ℓ κ ι} {K : Type ℓ} {V : Type κ} (P : K → Option V → Type ι) (test : K → K → Bool) (k : K)
    (m : Map K V) where
  pub insert-keeps :
      (v : V) (q : K)
      → (test q k ≡ true → q ≡ k)
      → P k (some v)
      → P q (m q)
      → P q (insert test k v m q)
  insert-keeps v q sound new old = elim (Bool-cases (test q k)) [
    | inl here ↦ rw here (rw (sound here) new)
    | inr other ↦ rw other old
  ]

  pub remove-keeps : (q : K) → P q none → (test q k ≡ false → P q (m q)) → P q (remove test k m q)
  remove-keeps q gone old = elim (Bool-cases (test q k)) [
    | inl here ↦ rw here gone
    | inr other ↦ rw other (old other)
  ]

-- `?` in a function that returns an `Option`
abbrev pub and_then {ℓ κ} : {A : Type ℓ} {B : Type κ} → Option A → (A → Option B) → Option B
and_then none f = none
and_then (some a) f = f a

pub some-injective {ℓ} : {A : Type ℓ} {a b : A} → some a ≡ some b → a ≡ b
some-injective {a = a} e = ap (λ o. elim o [ none ↦ a | some x ↦ x ]) e

module _ {ℓ} {V : Type ℓ} where
  unfoldable pub lookup : String → List (String × V) → Option V
  lookup k [] = none
  lookup k (e ∷ es) = let rest = lookup k es in if same e.0 k then some e.1 else rest

  unfoldable pub erase : String → List (String × V) → List (String × V)
  erase k [] = []
  erase k (e ∷ es) = let rest = erase k es in if same e.0 k then rest else e ∷ rest

  -- The value under a key that is there.
  unfoldable pub assign : String → V → List (String × V) → List (String × V)
  assign k v [] = []
  assign k v (e ∷ es) = let rest = assign k v es in if same e.0 k then (e.0, v) ∷ rest else e ∷ rest

  pub lookup-append :
      (k : String) (es fs : List (String × V)) (v : V)
      → lookup k es ≡ some v
      → lookup k (es ++ fs) ≡ some v
  unfolding lookup
  lookup-append k [] fs v h = cc
  lookup-append k (e ∷ es) fs v h = ground (arith, lookup-append k es fs v)

  pub lookup-append_none :
      (k : String) (es : List (String × V)) (e : String × V)
      → lookup k es ≡ none
      → lookup k (es ++ (e ∷ [])) ≡ (if same e.0 k then some e.1 else none)
  unfolding lookup
  lookup-append_none k [] e h = refl
  lookup-append_none k (f ∷ es) e h = ground (arith, lookup-append_none k es e)

  pub lookup-append_other :
      (k : String) (es : List (String × V)) (e : String × V)
      → same e.0 k ≡ false
      → lookup k (es ++ (e ∷ [])) ≡ lookup k es
  unfolding lookup
  lookup-append_other k [] e h = rw h refl
  lookup-append_other k (f ∷ es) e h = rw (lookup-append_other k es e h) refl

  pub lookup-erase :
      (k q : String) (es : List (String × V))
      → lookup q (erase k es) ≡ (if same q k then none else lookup q es)
  unfolding lookup erase
  lookup-erase k q [] = ground arith
  lookup-erase k q (e ∷ es) =
      grind (arith, lookup-erase k q es, same_iff e.0 k, same_iff e.0 q, same_iff q k)

  pub lookup-assign_self :
      (k : String) (v old : V) (es : List (String × V))
      → lookup k es ≡ some old
      → lookup k (assign k v es) ≡ some v
  unfolding lookup assign
  lookup-assign_self k v old [] h = cc
  lookup-assign_self k v old (e ∷ es) h = ground (arith, lookup-assign_self k v old es)

  pub lookup-assign_ne :
      (k q : String) (v : V) (es : List (String × V))
      → q ≢ k
      → lookup q (assign k v es) ≡ lookup q es
  unfolding lookup assign
  lookup-assign_ne k q v [] h = refl
  lookup-assign_ne k q v (e ∷ es) h =
      grind (arith, lookup-assign_ne k q v es h, same_iff e.0 k, same_iff e.0 q)

  pub lookup-assign :
      (k q : String) (v old : V) (es : List (String × V))
      → lookup k es ≡ some old
      → lookup q (assign k v es) ≡ (if same q k then some v else lookup q es)
  lookup-assign k q v old es found = elim (Bool-cases (same q k)) [
    | inl is ↦ rw is (
        ap (λ x. lookup x (assign k v es)) ((same_iff q k).0 is)
        ∙ lookup-assign_self k v old es found)
    | inr other ↦ rw other (lookup-assign_ne k q v es (λ e. ground (arith, same_iff q k)))
  ]

  -- `insert` of a hash map: under a new key, or in place.
  abbrev pub put_at : String → V → List (String × V) → Option V → List (String × V)
  put_at k v es (some old) = assign k v es
  put_at k v es none = es ++ ((k, v) ∷ [])

  unfoldable pub put : String → V → List (String × V) → List (String × V)
  put k v es = put_at k v es (lookup k es)

  pub lookup-put :
      (k q : String) (v : V) (es : List (String × V))
      → lookup q (put k v es) ≡ (if same q k then some v else lookup q es)
  unfolding put
  lookup-put k q v es = elim (Option-cases (lookup k es)) [
    | inl missing ↦ rw (ap (put_at k v es) missing) (elim (Bool-cases (same q k)) [
      | inl is ↦ ground (
        arith,
        same_iff q k,
        same_iff k q,
        ap (λ x. lookup x es) ((same_iff q k).0 is),
        lookup-append_none q es (k, v),
      )
      | inr other ↦
          rw other (lookup-append_other q es (k, v) (ground (arith, same_iff q k, same_iff k q)))
    ])
    | inr (old, found) ↦ rw (ap (put_at k v es) found) (lookup-assign k q v old es found)
  ]

  -- No key is there twice.
  unfoldable pub Unique : List (String × V) → Type ℓ
  Unique [] = Unit {ℓ}
  Unique (e ∷ es) = (lookup e.0 es ≡ none) × Unique es

  pub append-Unique :
      (es : List (String × V)) (e : String × V)
      → lookup e.0 es ≡ none
      → Unique es
      → Unique (es ++ (e ∷ []))
  unfolding Unique lookup
  append-Unique [] e fresh u = (refl, tt)
  append-Unique (f ∷ es) e fresh u = elim (Bool-cases (same f.0 e.0)) [
    | inl is ↦ ground (arith, fresh, is)
    | inr other ↦
        let rest : lookup e.0 es ≡ none = ground (arith, fresh, other) in
        (
          lookup-append_other f.0 es e (ground (arith, other, same_iff f.0 e.0, same_iff e.0 f.0))
              ∙ u.0,
          append-Unique es e rest u.1,
        )
  ]

  pub erase-Unique : (k : String) (es : List (String × V)) → Unique es → Unique (erase k es)
  unfolding Unique erase
  erase-Unique k [] u = tt
  erase-Unique k (e ∷ es) u = elim (Bool-cases (same e.0 k)) [
    | inl is ↦ rw is (erase-Unique k es u.1)
    | inr other ↦ rw other (rw (lookup-erase k e.0 es, other) u.0, erase-Unique k es u.1)
  ]
