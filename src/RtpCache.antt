-- ===== src/RtpCache.antt =====
-- src/room/participant.rs: `RtpCache`, the ring of the last video packets of a publisher, from
-- which lost packets are sent again. `store` on `&mut self` returns the new cache.
pub mod Laws
mod Tests
use oxlens_sfu_server.Prelude.{
  ℕ, ◌%◌, Option, none, some, List, ltb, ◌==◌, if◌then◌else◌, length, get_elem?, set, replicate,
  read16,
}

-- `RTP_CACHE_SIZE`
abbrev pub rtp_cache_size : ℕ
rtp_cache_size = 512

pub record RtpCache : Type 0 where
  pub slots : List (Option (List ℕ))

unfoldable pub new : RtpCache
new = record { slots = replicate rtp_cache_size none }

unfoldable pub store : RtpCache → ℕ → List ℕ → RtpCache
store c seq packet = record { slots = set c.slots (seq % rtp_cache_size) (some packet) }

-- `self.slots[idx].as_ref()`; the index is in range, as there are `rtp_cache_size` slots.
unfoldable pub slot : RtpCache → ℕ → Option (List ℕ)
slot c seq = elim (get_elem? c.slots (seq % rtp_cache_size)) [ none ↦ none | some s ↦ s ]

abbrev pub seq_of : List ℕ → Option ℕ
seq_of packet = if ltb (length packet) 12 then none else some (read16 packet 2)

unfoldable pub slot_seq : RtpCache → ℕ → Option ℕ
unfolding slot
slot_seq c seq = elim (slot c seq) [ none ↦ none | some packet ↦ seq_of packet ]

unfoldable pub get : RtpCache → ℕ → Option (List ℕ)
get c seq = elim (slot c seq) [
  | none ↦ none
  | some packet ↦ elim (seq_of packet) [
    | none ↦ none
    | some cached ↦ if cached == seq then some packet else none
  ]
]
