-- ===== src/RtpCache/Laws.antt =====
-- src/room/participant.rs: the ring refines a window on the history of stored packets.
use oxlens_sfu_server.Prelude.{
  ℕ, zero, suc, ◌%◌, ◌≤◌, ◌<◌, ◌≡◌, refl, ◌≢◌, ◌∙◌, Option, none, some, List, [], ◌∷◌, ◌++◌, arith,
  length, sub16, u16_mod, get_elem?, replicate, length-set, length-replicate, get_elem?-set_self,
  get_elem?-set_ne, read16, ◌==◌, if◌then◌else◌, All,
}
use oxlens_sfu_server.RtpCache.{RtpCache, rtp_cache_size, new, store, slot, get}

-- The cache has its slots.
abbrev pub IsWhole : RtpCache → Type 0
IsWhole c = length c.slots ≡ rtp_cache_size

pub new-IsWhole : IsWhole new
unfolding new
new-IsWhole = length-replicate {A = Option (List ℕ)} rtp_cache_size none

store-IsWhole : (c : RtpCache) (seq : ℕ) (p : List ℕ) → IsWhole c → IsWhole (store c seq p)
unfolding store
store-IsWhole c seq p v = length-set c.slots (seq % rtp_cache_size) (some p) ∙ v

slot-store_self :
    (c : RtpCache) (seq q : ℕ) (p : List ℕ)
    → IsWhole c
    → seq % rtp_cache_size ≡ q % rtp_cache_size
    → slot (store c seq p) q ≡ some p
unfolding slot store
slot-store_self c seq q p v e =
    rw (← e, slot)
      (rw (get_elem?-set_self c.slots (seq % rtp_cache_size) (some p) (omega arith), slot))

slot-store_ne :
    (c : RtpCache) (seq q : ℕ) (p : List ℕ)
    → seq % rtp_cache_size ≢ q % rtp_cache_size
    → slot (store c seq p) q ≡ slot c q
unfolding slot store
slot-store_ne c seq q p ne =
    rw (get_elem?-set_ne c.slots (seq % rtp_cache_size) (q % rtp_cache_size) (some p) ne, slot)

-- The packets that were stored, the last one first, each under the number in its own header, as
-- the receive path stores them.
abbrev pub IsHistory : List (List ℕ) → Type 0
IsHistory [] = Unit {0}
IsHistory (p ∷ ps) = (12 ≤ length p) × IsHistory ps

unfoldable pub store_all : List (List ℕ) → RtpCache
store_all [] = new
store_all (p ∷ ps) = store (store_all ps) (read16 p 2) p

-- What the cache promises: the last packet stored in the slot of `seq`, if it has that number.
unfoldable pub recall : List (List ℕ) → ℕ → Option (List ℕ)
recall [] seq = none
recall (p ∷ ps) seq =
    let older = recall ps seq in
    if read16 p 2 % rtp_cache_size == seq % rtp_cache_size
    then (if read16 p 2 == seq then some p else none)
    else older

store_all-IsWhole : (ps : List (List ℕ)) → IsWhole (store_all ps)
unfolding store_all
store_all-IsWhole [] = new-IsWhole
store_all-IsWhole (p ∷ ps) = store-IsWhole (store_all ps) (read16 p 2) p (store_all-IsWhole ps)

get_elem?-replicate :
    (n i : ℕ) → i < n → get_elem? (replicate {A = Option (List ℕ)} n none) i ≡ some none
get_elem?-replicate zero i h = absurd (omega arith)
get_elem?-replicate (suc n) zero h = refl
get_elem?-replicate (suc n) (suc i) h = get_elem?-replicate n i (omega arith)

slot-new : (seq : ℕ) → slot new seq ≡ none
unfolding slot new
slot-new seq = rw (get_elem?-replicate rtp_cache_size (seq % rtp_cache_size) (omega arith), slot)

-- After any history of packets, a lookup returns the newest packet that was stored in the slot of
-- the number, and only if it is the packet of that very number.
pub get-store_all :
    (ps : List (List ℕ)) (seq : ℕ) → IsHistory ps → get (store_all ps) seq ≡ recall ps seq
unfolding get store_all recall
get-store_all [] seq h = rw (slot-new seq, get)
get-store_all (p ∷ ps) seq h = ground (
  arith,
  get-store_all ps seq h.1,
  slot-store_self (store_all ps) (read16 p 2) seq p (store_all-IsWhole ps),
  slot-store_ne (store_all ps) (read16 p 2) seq p,
)

-- Numbers that come 1 to 511 after `seq`, on the circle of 16 bits.
abbrev pub IsRecent : ℕ → List ℕ → Type 0
IsRecent seq p =
    (read16 p 2 < u16_mod)
    × (1 ≤ sub16 (read16 p 2) seq)
    × (sub16 (read16 p 2) seq < rtp_cache_size)

recall-recent :
    (newer older : List (List ℕ)) (p : List ℕ)
    → read16 p 2 < u16_mod
    → All (IsRecent (read16 p 2)) newer
    → recall (newer ++ (p ∷ older)) (read16 p 2) ≡ some p
unfolding recall
recall-recent [] older p hp h = ground arith
recall-recent (q ∷ qs) older p hp h =
    let other : read16 q 2 % rtp_cache_size ≢ read16 p 2 % rtp_cache_size = omega (arith, h.0) in
    ground (arith, recall-recent qs older p hp h.1)

append-IsHistory : (ps qs : List (List ℕ)) → IsHistory ps → IsHistory qs → IsHistory (ps ++ qs)
append-IsHistory [] qs h k = k
append-IsHistory (p ∷ ps) qs h k = (h.0, append-IsHistory ps qs h.1 k)

-- A packet can be sent again as long as only packets with the 511 numbers behind its own have been
-- stored since: the lookup of its number returns it, whatever the cache held before.
get-recent :
    (newer older : List (List ℕ)) (p : List ℕ)
    → IsHistory newer
    → IsHistory older
    → 12 ≤ length p
    → read16 p 2 < u16_mod
    → All (IsRecent (read16 p 2)) newer
    → get (store_all (newer ++ (p ∷ older))) (read16 p 2) ≡ some p
get-recent newer older p hn ho long hp recent =
    get-store_all (newer ++ (p ∷ older)) (read16 p 2)
      (append-IsHistory newer (p ∷ older) hn (long, ho))
    ∙ recall-recent newer older p hp recent
