-- ===== src/Stun/Attributes.antt =====
-- src/transport/stun.rs: what the loops of `parse` and `find_attr_offset` make of an attribute.
use oxlens_sfu_server.Prelude.{
  ℕ, suc, ◌+◌, ◌-◌, ◌/◌, ◌%◌, ◌<◌, ◌≡◌, refl, sym, ap, ◌∙◌, false, some, List, ◌∷◌, ◌++◌,
  append_assoc, arith, ltb, ◌==◌, if◌then◌else◌, length, take, drop, replicate, length-append,
  length-replicate, take-length-append, drop-length-append, from_be16,
}
use oxlens_sfu_server.Rtcp.Mbcp.{padded}
use oxlens_sfu_server.Stun.{attributes_from, attr_bytes, offset_from}

-- A 16-bit number.
pub from_be16-be16 : (v : ℕ) → v < 65536 → from_be16 (v / 256 % 256) (v % 256) ≡ v
from_be16-be16 v h = omega arith

drop_four : (k a b c d : ℕ) (xs : List ℕ) → drop (4 + k) (a ∷ b ∷ c ∷ d ∷ xs) ≡ drop k xs
drop_four k a b c d xs = let e : 4 + k ≡ suc (suc (suc (suc k))) = omega arith in rw e refl

-- The value with its padding.
abbrev body : List ℕ → List ℕ
body value = value ++ replicate ((4 - length value % 4) % 4) 0

length-body : (value : List ℕ) → length (body value) ≡ padded (length value)
length-body value =
    let k = (4 - length value % 4) % 4 in
    let pad : length {A = ℕ} (replicate k 0) ≡ k = length-replicate k 0 in
    omega (arith, length-append value (replicate k 0), pad)

pub length-attr_bytes :
    (t : ℕ) (value : List ℕ) → length (attr_bytes t value) ≡ 4 + padded (length value)
unfolding attr_bytes
length-attr_bytes t value = omega (arith, length-body value)

-- An attribute and what follows it, byte by byte.
abbrev bytes_then : ℕ → List ℕ → List ℕ → List ℕ
bytes_then t value rest =
    (t / 256 % 256)
    ∷ (t % 256)
    ∷ (length value / 256 % 256)
    ∷ (length value % 256)
    ∷ (body value ++ rest)

take-body : (value rest : List ℕ) → take (length value) (body value ++ rest) ≡ value
take-body value rest =
    ap (take (length value)) (append_assoc value (replicate ((4 - length value % 4) % 4) 0) rest)
    ∙ take-length-append value (replicate ((4 - length value % 4) % 4) 0 ++ rest)

drop-body : (value rest : List ℕ) → drop (padded (length value)) (body value ++ rest) ≡ rest
drop-body value rest =
    ap (λ n. drop n (body value ++ rest)) (sym (length-body value))
    ∙ drop-length-append (body value) rest

-- The loop of `parse` takes one attribute.
pub attributes_from-attr_bytes :
    (n t : ℕ) (value rest : List ℕ)
    → t < 65536
    → length value < 65536
    → attributes_from (suc n) (attr_bytes t value ++ rest)
      ≡ record { attr_type = t; value = value } ∷ attributes_from n rest
unfolding attributes_from attr_bytes
attributes_from-attr_bytes n t value rest ht hv =
    let len = from_be16-be16 (length value) hv in
    let ty = from_be16-be16 t ht in
    let size : length (body value ++ rest) ≡ padded (length value) + length rest =
      length-append (body value) rest ∙ ap (λ k. k + length rest) (length-body value) in
    let long : ltb (length (bytes_then t value rest)) 4 ≡ false = ground (arith, size) in
    let enough : ltb (length (bytes_then t value rest)) (4 + length value) ≡ false =
      ground (arith, size) in
    rw
      (
        ty,
        len,
        long,
        enough,
        take-body value rest,
        drop_four (padded (length value)) (t / 256 % 256) (t % 256) (length value / 256 % 256)
            (length value % 256) (body value ++ rest),
        drop-body value rest,
      )
      refl

-- The loop of `find_attr_offset` stops at an attribute of the type, and skips one of another.
pub offset_from-attr_bytes :
    (n offset t target : ℕ) (value rest : List ℕ)
    → t < 65536
    → length value < 65536
    → offset_from (suc n) offset (attr_bytes t value ++ rest) target ≡ (
        if t == target
        then some offset
        else offset_from n (offset + (4 + padded (length value))) rest target)
unfolding offset_from attr_bytes
offset_from-attr_bytes n offset t target value rest ht hv =
    let len = from_be16-be16 (length value) hv in
    let ty = from_be16-be16 t ht in
    let long : ltb (length (bytes_then t value rest)) 4 ≡ false = ground arith in
    rw
      (
        ty,
        len,
        long,
        drop_four (padded (length value)) (t / 256 % 256) (t % 256) (length value / 256 % 256)
            (length value % 256) (body value ++ rest),
        drop-body value rest,
      )
      refl
