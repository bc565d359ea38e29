-- ===== src/Floor/Arrival.antt =====
-- src/room/floor.rs: where a request that must wait is put, and the position that it is told.
use oxlens_sfu_server.Prelude.{
  ℕ, suc, ◌+◌, ◌≤◌, ◌<◌, String, ◌≡◌, refl, sym, ◌≢◌, ap, ◌∙◌, inl, inr, true, false, ◌&&◌, some,
  List, [], ◌∷◌, ◌++◌, arith, length, All, Bool-cases, same_iff, same_self, ltb, if◌then◌else◌,
}
use oxlens_sfu_server.Floor.Queue.{
  QueueEntry, has_user, position, place, find_from, before, insert_entry, sort_queue,
}
use oxlens_sfu_server.Floor.Order.{NotAfter, IsSorted}
use oxlens_sfu_server.Floor.Valid.{IsValid}
use oxlens_sfu_server.Floor.{
  taken, queued, FloorConfig, FloorInner, query_queue_position, enqueue, request_taken, request,
}

-- The place by priority, then by arrival: behind every entry that the new one does not beat.
unfoldable pub insert_last : QueueEntry → List QueueEntry → List QueueEntry
insert_last e [] = e ∷ []
insert_last e (x ∷ xs) = let rest = insert_last e xs in if before e x then e ∷ x ∷ xs else x ∷ rest

-- How many entries go ahead of a new one.
unfoldable pub count_ahead : QueueEntry → List QueueEntry → ℕ
count_ahead e [] = 0
count_ahead e (x ∷ xs) = let rest = count_ahead e xs in if before e x then rest else suc rest

NotAfter-before : (a b : QueueEntry) → NotAfter a b → before b a ≡ false
unfolding before
NotAfter-before a b h = ground arith

before-NotAfter-trans : (e x y : QueueEntry) → before e x ≡ true → NotAfter x y → before e y ≡ true
unfolding before
before-NotAfter-trans e x y h k = ground arith

before-asym : (a b : QueueEntry) → before a b ≡ true → before b a ≡ false
unfolding before
before-asym a b h = ground arith

-- An entry that nothing in the list beats goes to its front.
insert_entry-front :
    (x : QueueEntry) (es : List QueueEntry)
    → All (λ y. before y x ≡ false) es
    → insert_entry x es ≡ x ∷ es
unfolding insert_entry
insert_entry-front x [] h = refl
insert_entry-front x (y ∷ ys) h = rw h.0

All-insert_last :
    (P : QueueEntry → Type 0) (e : QueueEntry) (es : List QueueEntry)
    → P e
    → All P es
    → All P (insert_last e es)
unfolding insert_last
All-insert_last P e [] h k = (h, tt)
All-insert_last P e (x ∷ xs) h k = elim (Bool-cases (before e x)) [
  | inl lt ↦ rw lt (h, k)
  | inr ge ↦ rw ge (k.0, All-insert_last P e xs h k.1)
]

All-not_before :
    (x : QueueEntry) (es : List QueueEntry) → All (NotAfter x) es → All (λ y. before y x ≡ false) es
All-not_before x [] h = tt
All-not_before x (y ∷ ys) h = (NotAfter-before x y h.0, All-not_before x ys h.1)

-- An entry that beats `x` beats all behind `x`, so it is put in front of them.
insert_last-front :
    (e x : QueueEntry) (es : List QueueEntry)
    → before e x ≡ true
    → All (NotAfter x) es
    → insert_last e es ≡ e ∷ es
unfolding insert_last
insert_last-front e x [] h k = refl
insert_last-front e x (y ∷ ys) h k = rw (before-NotAfter-trans e x y h k.0)

insert_last-nil : (e : QueueEntry) → insert_last e [] ≡ e ∷ []
unfolding insert_last
insert_last-nil e = refl

insert_last-cons :
    (e x : QueueEntry) (es : List QueueEntry)
    → before e x ≡ false
    → insert_last e (x ∷ es) ≡ x ∷ insert_last e es
unfolding insert_last
insert_last-cons e x es h = rw h

insert_beaten :
    (e x : QueueEntry) (es : List QueueEntry)
    → before e x ≡ true
    → All (NotAfter x) es
    → insert_entry x (insert_last e es) ≡ insert_last e (x ∷ es)
unfolding insert_entry insert_last
insert_beaten e x es h k =
    ground (arith, insert_last-front e x es h k, insert_entry-front x es (All-not_before x es k))

-- Sorting after the `push` is putting the entry in its place.
sort_queue-insert_last :
    (q : List QueueEntry) (e : QueueEntry)
    → IsSorted q
    → sort_queue (q ++ (e ∷ [])) ≡ insert_last e q
unfolding sort_queue
sort_queue-insert_last [] e o = insert_entry-front e [] tt ∙ sym (insert_last-nil e)
sort_queue-insert_last (x ∷ xs) e o =
    ap (insert_entry x) (sort_queue-insert_last xs e o.1) ∙ elim (Bool-cases (before e x)) [
      | inl lt ↦ insert_beaten e x xs lt o.0
      | inr ge ↦
          insert_entry-front x (insert_last e xs)
            (All-insert_last (λ y. before y x ≡ false) e xs ge (All-not_before x xs o.0))
          ∙ sym (insert_last-cons e x xs ge)
    ]

count_ahead-le : (e : QueueEntry) (q : List QueueEntry) → count_ahead e q ≤ length q
unfolding count_ahead
count_ahead-le e [] = omega arith
count_ahead-le e (x ∷ xs) = ground (arith, count_ahead-le e xs)

-- Where an entry beats the first of an ordered queue, it beats them all.
count_ahead-front :
    (e x : QueueEntry) (es : List QueueEntry)
    → before e x ≡ true
    → All (NotAfter x) es
    → count_ahead e es ≡ 0
unfolding count_ahead
count_ahead-front e x [] h k = refl
count_ahead-front e x (y ∷ ys) h k =
    rw (before-NotAfter-trans e x y h k.0) (count_ahead-front e x ys h k.1)

position-insert_last :
    (e : QueueEntry) (q : List QueueEntry)
    → IsSorted q
    → has_user e.user_id q ≡ false
    → position e.user_id (insert_last e q) ≡ some (count_ahead e q)
unfolding position insert_last count_ahead has_user
position-insert_last e [] o h = ground (arith, same_self e.user_id)
position-insert_last e (x ∷ xs) o h =
    ground (arith, position-insert_last e xs o.1, same_self e.user_id, count_ahead-front e x xs)

find_from-insert_last :
    (i : ℕ) (e : QueueEntry) (q : List QueueEntry)
    → IsSorted q
    → has_user e.user_id q ≡ false
    → find_from i e.user_id (insert_last e q) ≡ some (i + count_ahead e q, e.priority)
unfolding find_from insert_last count_ahead has_user
find_from-insert_last i e [] o h = ground (arith, same_self e.user_id)
find_from-insert_last i e (x ∷ xs) o h =
    ground
      (arith, find_from-insert_last (i + 1) e xs o.1, same_self e.user_id, count_ahead-front e x xs)

place-insert_last :
    (e : QueueEntry) (q : List QueueEntry)
    → IsSorted q
    → has_user e.user_id q ≡ false
    → place e.user_id (insert_last e q) ≡ count_ahead e q
unfolding place
place-insert_last e q o h = rw (position-insert_last e q o h, place)

length-insert_last :
    (e : QueueEntry) (q : List QueueEntry) → length (insert_last e q) ≡ suc (length q)
unfolding insert_last
length-insert_last e [] = refl
length-insert_last e (x ∷ xs) = ground (arith, length-insert_last e xs)

abbrev entry_of : String → ℕ → ℕ → QueueEntry
entry_of u p now = record { user_id = u; priority = p; enqueued_at = now }

-- In a valid state with queueing on: a request by a user who neither has the floor nor waits, and
-- does not preempt, on a queue with room and for at most 255 entries, is put behind exactly the
-- waiters of a higher priority or of the same priority and no later request. It is told 1 + the
-- number of those, and the new size of the queue; a query of the position answers the same and the
-- priority; the speaker is not disturbed.
pub request_waits :
    (c : FloorConfig) (s : FloorInner) (u speaker : String) (p sp b l now : ℕ)
    → IsValid c s
    → c.max_queue_size ≤ 255
    → s.state ≡ taken speaker sp b l
    → speaker ≢ u
    → (c.preemption_enabled && ltb sp p) ≡ false
    → c.queuing_enabled ≡ true
    → has_user u s.queue ≡ false
    → length s.queue < c.max_queue_size
    → let ahead = count_ahead (entry_of u p now) s.queue in
      let t = record s { queue = insert_last (entry_of u p now) s.queue } in
      (request c s u p now ≡ (t, queued u (ahead + 1) p (length s.queue + 1) ∷ []))
      × (query_queue_position t u ≡ some (ahead + 1, p))
unfolding request request_taken enqueue query_queue_position
request_waits c s u speaker p sp b l now v small st ne loses queues fresh room = (
  ground (
    arith,
    same_iff speaker u,
    sort_queue-insert_last s.queue (entry_of u p now) v.sorted,
    place-insert_last (entry_of u p now) s.queue v.sorted fresh,
    length-insert_last (entry_of u p now) s.queue,
    count_ahead-le (entry_of u p now) s.queue,
  ),
  ground (
    arith,
    find_from-insert_last 0 (entry_of u p now) s.queue v.sorted fresh,
    count_ahead-le (entry_of u p now) s.queue,
  ),
)
