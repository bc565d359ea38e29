-- ===== src/Floor/Queue.antt =====
-- src/room/floor.rs: the waiting queue of the floor controller (`QueueEntry`, the calls on
-- `inner.queue`, and the comparison by which it is sorted).
use oxlens_sfu_server.Prelude.{
  ℕ, suc, ◌+◌, String, Bool, false, ◌&&◌, ◌||◌, Option, none, some, List, [], ◌∷◌, ltb, ◌==◌,
  if◌then◌else◌, same,
}

-- `struct QueueEntry`. `priority` is a `u8`, `enqueued_at` a time in milliseconds.
pub record QueueEntry : Type 0 where
  pub user_id : String
  pub priority : ℕ
  pub enqueued_at : ℕ

-- `queue.iter().any(|e| e.user_id == user_id)`
unfoldable pub has_user : String → List QueueEntry → Bool
has_user u [] = false
has_user u (e ∷ es) = same e.user_id u || has_user u es

-- `queue.iter().position(|e| e.user_id == user_id)`
unfoldable pub position : String → List QueueEntry → Option ℕ
position u [] = none
position u (e ∷ es) =
    let rest = position u es in
    if same e.user_id u then some 0 else elim rest [ none ↦ none | some i ↦ some (suc i) ]

-- `.position(..).unwrap()`; the callers use it only where the user is queued.
unfoldable pub place : String → List QueueEntry → ℕ
unfolding position
place u es = elim (position u es) [ none ↦ 0 | some i ↦ i ]

-- `queue.retain(|e| e.user_id != user_id)`
unfoldable pub retain_others : String → List QueueEntry → List QueueEntry
retain_others u [] = []
retain_others u (e ∷ es) =
    let rest = retain_others u es in if same e.user_id u then rest else e ∷ rest

-- `queue.iter().enumerate().find(|(_, e)| e.user_id == user_id).map(|(i, e)| ((i + 1) as u8,
-- e.priority))`, from index `i` on.
unfoldable pub find_from : ℕ → String → List QueueEntry → Option (ℕ × ℕ)
find_from i u [] = none
find_from i u (e ∷ es) =
    let rest = find_from (i + 1) u es in if same e.user_id u then some (i, e.priority) else rest

-- `b.priority.cmp(&a.priority).then(a.enqueued_at.cmp(&b.enqueued_at)) == Ordering::Less`: higher
-- priorities first, then earlier requests.
unfoldable pub before : QueueEntry → QueueEntry → Bool
before a b =
    ltb b.priority a.priority || (a.priority == b.priority && ltb a.enqueued_at b.enqueued_at)

-- `queue.sort_by(..)` is a stable sort: an entry goes behind those that come strictly before it,
-- and stays ahead of the equal ones that stood behind it.
unfoldable pub insert_entry : QueueEntry → List QueueEntry → List QueueEntry
insert_entry e [] = e ∷ []
insert_entry e (x ∷ xs) =
    let rest = insert_entry e xs in if before x e then x ∷ rest else e ∷ x ∷ xs

unfoldable pub sort_queue : List QueueEntry → List QueueEntry
unfolding insert_entry before
sort_queue [] = []
sort_queue (e ∷ es) = insert_entry e (sort_queue es)
