-- ===== src/Floor/Valid.antt =====
-- src/room/floor.rs: the well-formed states of `FloorInner`, and how grants and arrivals keep the queue
-- well formed.
use oxlens_sfu_server.Prelude.{
  ℕ, ◌≤◌, ◌<◌, String, ◌≡◌, refl, ◌&&◌, Option, Bool, true, false, List, [], ◌∷◌, ◌++◌, arith,
  length, length-append, All, All-append, ltb,
}
use oxlens_sfu_server.Floor.Queue.{QueueEntry, has_user, sort_queue}
use oxlens_sfu_server.Floor.Order.{
  IsSorted, Distinct, All-sort_queue, sort_queue-IsSorted, sort_queue-Distinct, length-sort_queue,
  append-Distinct,
}
use oxlens_sfu_server.Floor.{
  FloorState, idle, taken, FloorAction, FloorConfig, FloorInner, grant_next,
}

abbrev pub AtMost : ℕ → QueueEntry → Type 0
AtMost p e = e.priority ≤ p

-- How the queue fits the state: nobody waits for an idle floor, and where preemption is on nobody
-- waits who outranks the speaker.
abbrev pub Waits : Bool → FloorState → List QueueEntry → Type 0
Waits preempts idle q = q ≡ []
Waits true (taken u p b l) q = All (AtMost p) q
Waits false (taken u p b l) q = Unit {0}

-- The queue is in order, holds nobody twice, is within its limit, and fits the state.
pub record IsValid (c : FloorConfig) (s : FloorInner) : Type 0 where
  pub sorted : IsSorted s.queue
  pub distinct : Distinct s.queue
  pub bounded : length s.queue ≤ c.max_queue_size
  pub waits : Waits c.preemption_enabled s.state s.queue

pub AtMost-mono : (p q : ℕ) (es : List QueueEntry) → p ≤ q → All (AtMost p) es → All (AtMost q) es
AtMost-mono p q [] h k = tt
AtMost-mono p q (e ∷ es) h k = (omega arith, AtMost-mono p q es h k.1)

-- What stands behind an entry does not outrank it.
sorted-AtMost :
    (e : QueueEntry) (es : List QueueEntry) → IsSorted (e ∷ es) → All (AtMost e.priority) es
sorted-AtMost e [] h = tt
sorted-AtMost e (x ∷ xs) h = (ground arith, sorted-AtMost e xs (h.0.1, h.1.1))

-- A grant from the queue, by the queue and by whether preemption is on.
grant_next-Waits :
    (preempts : Bool) (prev : Option String) (clock : ℕ) (a : FloorAction) (q : List QueueEntry)
    → IsSorted q
    → let t = (grant_next (record { state = idle; queue = q; prev_speaker = prev }) clock a).0 in
      Waits preempts t.state t.queue
unfolding grant_next
grant_next-Waits preempts prev clock a [] o = refl
grant_next-Waits true prev clock a (x ∷ xs) o = sorted-AtMost x xs o
grant_next-Waits false prev clock a (x ∷ xs) o = tt

pub grant_next-IsValid :
    (c : FloorConfig) (prev : Option String) (clock : ℕ) (a : FloorAction) (q : List QueueEntry)
    → IsSorted q
    → Distinct q
    → length q ≤ c.max_queue_size
    → IsValid c (grant_next (record { state = idle; queue = q; prev_speaker = prev }) clock a).0
unfolding grant_next
grant_next-IsValid c prev clock a [] o d b = record {
  sorted = tt;
  distinct = tt;
  bounded = b;
  waits = refl;
}
grant_next-IsValid c prev clock a (x ∷ xs) o d b = record {
  sorted = o.1;
  distinct = d.1;
  bounded = omega arith;
  waits = grant_next-Waits c.preemption_enabled prev clock a (x ∷ xs) o;
}

-- The queue after an arrival.
pub arrival-IsValid :
    (c : FloorConfig) (s : FloorInner) (e : QueueEntry)
    → IsValid c s
    → has_user e.user_id s.queue ≡ false
    → length s.queue < c.max_queue_size
    → Waits c.preemption_enabled s.state (sort_queue (s.queue ++ (e ∷ [])))
    → IsValid c (record s { queue = sort_queue (s.queue ++ (e ∷ [])) })
arrival-IsValid c s e v fresh room w = record {
  sorted = sort_queue-IsSorted (s.queue ++ (e ∷ []));
  distinct = sort_queue-Distinct (s.queue ++ (e ∷ [])) (append-Distinct s.queue e fresh v.distinct);
  bounded =
      omega
        (arith, length-sort_queue (s.queue ++ (e ∷ [])), length-append s.queue (e ∷ []), v.bounded);
  waits = w;
}

pub arrival-Waits :
    (preempts : Bool) (u : String) (sp b l : ℕ) (q : List QueueEntry) (e : QueueEntry)
    → Waits preempts (taken u sp b l) q
    → (preempts && ltb sp e.priority) ≡ false
    → Waits preempts (taken u sp b l) (sort_queue (q ++ (e ∷ [])))
arrival-Waits false u sp b l q e w h = tt
arrival-Waits true u sp b l q e w h =
    All-sort_queue (AtMost sp) (q ++ (e ∷ []))
      (All-append (AtMost sp) q (e ∷ []) w (ground arith, tt))
