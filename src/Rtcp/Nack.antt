-- ===== src/Rtcp/Nack.antt =====
-- src/transport/udp/rtcp.rs: the lost packets that a Generic NACK names (`expand_nack`), and the
-- items of a NACK (`parse_rtcp_nack`).
use oxlens_sfu_server.Prelude.{
  ℕ, zero, suc, ◌+◌, ◌*◌, ◌/◌, ◌%◌, ◌^◌, ◌≤◌, ◌<◌, min, ◌≡◌, refl, ◌≢◌, subst, inl, inr, Bool, true,
  false, ◌&&◌, ◌||◌, List, [], ◌∷◌, ◌++◌, arith, leb, ◌==◌, if◌then◌else◌, length, byte_at, read16,
  read32, add16, u16_mod, Bool-cases,
}

-- `blp & (1 << i) != 0`
abbrev pub bit : ℕ → ℕ → Bool
bit blp i = blp / 2 ^ i % 2 == 1

-- The loop of `expand_nack`, with `n` rounds left, at bit `i`.
unfoldable pub lost_from : ℕ → (i pid blp : ℕ) → List ℕ
lost_from zero i pid blp = []
lost_from (suc n) i pid blp =
    let rest = lost_from n (i + 1) pid blp in if bit blp i then add16 pid (i + 1) ∷ rest else rest

unfoldable pub expand_nack : ℕ → ℕ → List ℕ
expand_nack pid blp = pid ∷ lost_from 16 0 pid blp

-- Whether a sequence number is in a list.
unfoldable pub names : ℕ → List ℕ → Bool
names s [] = false
names s (x ∷ xs) = x == s || names s xs

-- `struct NackItem`
pub record NackItem : Type 0 where
  pub media_ssrc : ℕ
  pub pid : ℕ
  pub blp : ℕ

-- The inner loop: four bytes of FCI for each item, up to `stop`.
unfoldable pub fci_items : ℕ → List ℕ → (ssrc off stop : ℕ) → List NackItem
fci_items zero buf ssrc off stop = []
fci_items (suc fuel) buf ssrc off stop =
    let rest = fci_items fuel buf ssrc (off + 4) stop in
    let item : NackItem = record {
      media_ssrc = ssrc;
      pid = read16 buf off;
      blp = read16 buf (off + 2);
    } in
    if leb (off + 4) stop then item ∷ rest else []

-- `(length_words + 1) * 4`, the length of the packet at `offset`. It is never 0.
abbrev pub pkt_len : List ℕ → ℕ → ℕ
pkt_len buf offset = (read16 buf (offset + 2) + 1) * 4

-- The items of the packet at `offset`: none unless it is a Generic NACK (PT 205, FMT 1) with room
-- for the two SSRCs.
unfoldable pub items_at : List ℕ → ℕ → List NackItem
items_at buf offset =
    if byte_at buf (offset + 1) == 205
      && (byte_at buf offset % 32 == 1 && leb (offset + 12) (length buf))
    then fci_items (length buf) buf (read32 buf (offset + 8)) (offset + 12)
        (min (offset + pkt_len buf offset) (length buf))
    else []

-- The outer loop.
unfoldable pub nack_items_from : ℕ → List ℕ → ℕ → List NackItem
nack_items_from zero buf offset = []
nack_items_from (suc fuel) buf offset =
    let rest = nack_items_from fuel buf (offset + pkt_len buf offset) in
    if leb (offset + 4) (length buf) then items_at buf offset ++ rest else []

unfoldable pub parse_rtcp_nack : List ℕ → List NackItem
parse_rtcp_nack buf = nack_items_from (length buf) buf 0

neq : (a b : ℕ) → a ≢ b → (a == b) ≡ false
neq a b h = ground arith

eq_self : (a : ℕ) → (a == a) ≡ true
eq_self a = ground arith

names-lost_from_before :
    (n i j pid blp : ℕ)
    → j < i
    → i + n ≤ 16
    → pid < u16_mod
    → names (add16 pid (j + 1)) (lost_from n i pid blp) ≡ false
unfolding names lost_from
names-lost_from_before zero i j pid blp h k hp = refl
names-lost_from_before (suc n) i j pid blp h k hp =
    ground (arith, names-lost_from_before n (i + 1) j pid blp)

names-lost_from_here :
    (n i pid blp : ℕ)
    → i + suc n ≤ 16
    → pid < u16_mod
    → names (add16 pid (i + 1)) (lost_from (suc n) i pid blp) ≡ bit blp i
unfolding names lost_from
names-lost_from_here n i pid blp k hp = ground (arith, names-lost_from_before n (i + 1) i pid blp)

names-lost_from :
    (n i j pid blp : ℕ)
    → i ≤ j
    → j < i + n
    → i + n ≤ 16
    → pid < u16_mod
    → names (add16 pid (j + 1)) (lost_from n i pid blp) ≡ bit blp j
unfolding names lost_from
names-lost_from zero i j pid blp h l k hp = absurd (omega arith)
names-lost_from (suc n) i j pid blp h l k hp = elim (Bool-cases (i == j)) [
  | inl this ↦
      let e : i ≡ j = ground arith in
      subst (λ t. names (add16 pid (t + 1)) (lost_from (suc n) i pid blp) ≡ bit blp t) e
        (names-lost_from_here n i pid blp k hp)
  | inr later ↦
      let ne : i ≢ j = ground arith in
      let rest = names-lost_from n (i + 1) j pid blp (omega arith) (omega arith) (omega arith) hp in
      elim (Bool-cases (bit blp i)) [
        | inl lost ↦ rw lost (rw (neq (add16 pid (i + 1)) (add16 pid (j + 1)) (omega arith)) rest)
        | inr here ↦ rw here rest
      ]
]

names-lost_from_pid :
    (n i pid blp : ℕ) → i + n ≤ 16 → pid < u16_mod → names pid (lost_from n i pid blp) ≡ false
unfolding names lost_from
names-lost_from_pid zero i pid blp k hp = refl
names-lost_from_pid (suc n) i pid blp k hp = ground (arith, names-lost_from_pid n (i + 1) pid blp)

-- For a packet identifier of 16 bits: of the seventeen numbers from it on, the expansion of a NACK
-- names the first, and each later one exactly if its bit of the mask is set: number `pid + j + 1`
-- by bit `j`, on the circle of 16 bits. The identifier is not named a second time.
expand_nack_lem :
    (pid blp j : ℕ)
    → pid < u16_mod
    → j < 16
    → (names pid (expand_nack pid blp) ≡ true)
      × (names (add16 pid (j + 1)) (expand_nack pid blp) ≡ bit blp j)
      × (names pid (lost_from 16 0 pid blp) ≡ false)
unfolding expand_nack names
expand_nack_lem pid blp j hp hj = (
  rw (eq_self pid),
  rw (neq pid (add16 pid (j + 1)) (omega arith))
      (names-lost_from 16 0 j pid blp (omega arith) (omega arith) (omega arith) hp),
  names-lost_from_pid 16 0 pid blp (omega arith) hp,
)
