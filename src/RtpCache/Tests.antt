-- ===== src/RtpCache/Tests.antt =====
-- `RtpCache` of src/room/participant.rs: the theorems at concrete inputs.
use oxlens_sfu_server.Prelude.{ℕ, ◌≡◌, refl, Option, List, [], ◌∷◌, arith}
use oxlens_sfu_server.RtpCache.{get}
use oxlens_sfu_server.RtpCache.Laws.{store_all, recall, get-store_all}

-- A packet with sequence number 256 * hi + lo.
abbrev packet : ℕ → ℕ → List ℕ
packet hi lo = 0x80 ∷ 96 ∷ hi ∷ lo ∷ 0 ∷ 0 ∷ 0 ∷ 0 ∷ 0 ∷ 0 ∷ 0 ∷ 0 ∷ 7 ∷ []

recall_evicted : recall (packet 3 4 ∷ packet 1 4 ∷ []) 260 ≡ Option.none
unfolding recall
recall_evicted = refl

get-store_all_example :
    get (store_all (packet 3 4 ∷ packet 1 4 ∷ [])) 260 ≡ recall (packet 3 4 ∷ packet 1 4 ∷ []) 260
get-store_all_example = get-store_all (packet 3 4 ∷ packet 1 4 ∷ []) 260 (omega arith)
