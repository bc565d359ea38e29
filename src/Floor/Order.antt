-- ===== src/Floor/Order.antt =====
-- src/room/floor.rs: what the calls on `inner.queue` keep: the order that `sort_by` sets up, that
-- no user stands in the queue twice, and its length.
use oxlens_sfu_server.Prelude.{
  suc, ◌≤◌, ◌<◌, String, ◌≡◌, refl, ◌⊎◌, inl, inr, ap, ◌∙◌, if◌then◌else◌, true, false, ◌||◌, List,
  [], ◌∷◌, ◌++◌, arith, length, All, same, same_iff, same_comm, Bool-cases,
}
use oxlens_sfu_server.Floor.Queue.{
  QueueEntry, has_user, retain_others, before, insert_entry, sort_queue,
}

-- `a` may stand ahead of `b`: a higher priority, or the same and no later a request.
abbrev pub NotAfter : QueueEntry → QueueEntry → Type 0
NotAfter a b =
    (b.priority < a.priority) ⊎ ((a.priority ≡ b.priority) × (a.enqueued_at ≤ b.enqueued_at))

-- Each entry may stand ahead of all behind it.
abbrev pub IsSorted : List QueueEntry → Type 0
IsSorted [] = Unit {0}
IsSorted (e ∷ es) = All (NotAfter e) es × IsSorted es

-- No user stands in the list twice.
abbrev pub Distinct : List QueueEntry → Type 0
Distinct [] = Unit {0}
Distinct (e ∷ es) = (has_user e.user_id es ≡ false) × Distinct es

NotAfter-trans : (a b c : QueueEntry) → NotAfter a b → NotAfter b c → NotAfter a c
NotAfter-trans a b c h k = ground arith

before-NotAfter : (a b : QueueEntry) → before a b ≡ true → NotAfter a b
unfolding before
before-NotAfter a b h = ground arith

not_before-NotAfter : (a b : QueueEntry) → before a b ≡ false → NotAfter b a
unfolding before
not_before-NotAfter a b h = ground arith

All-NotAfter :
    (a b : QueueEntry) (es : List QueueEntry)
    → NotAfter a b
    → All (NotAfter b) es
    → All (NotAfter a) es
All-NotAfter a b [] h k = tt
All-NotAfter a b (e ∷ es) h k = (NotAfter-trans a b e h k.0, All-NotAfter a b es h k.1)

All-insert_entry :
    (P : QueueEntry → Type 0) (e : QueueEntry) (es : List QueueEntry)
    → P e
    → All P es
    → All P (insert_entry e es)
unfolding insert_entry
All-insert_entry P e [] h k = (h, tt)
All-insert_entry P e (x ∷ xs) h k = elim (Bool-cases (before x e)) [
  | inl lt ↦ rw lt (k.0, All-insert_entry P e xs h k.1)
  | inr ge ↦ rw ge (h, k)
]

insert_entry-IsSorted :
    (e : QueueEntry) (es : List QueueEntry) → IsSorted es → IsSorted (insert_entry e es)
unfolding insert_entry
insert_entry-IsSorted e [] h = (tt, tt)
insert_entry-IsSorted e (x ∷ xs) h = elim (Bool-cases (before x e)) [
  | inl lt ↦ rw lt (
    All-insert_entry (NotAfter x) e xs (before-NotAfter x e lt) h.0,
    insert_entry-IsSorted e xs h.1,
  )
  | inr ge ↦
      let ahead = not_before-NotAfter x e ge in rw ge ((ahead, All-NotAfter e x xs ahead h.0), h)
]

-- `sort_by` leaves the queue in order, whatever it held.
pub sort_queue-IsSorted : (es : List QueueEntry) → IsSorted (sort_queue es)
unfolding sort_queue
sort_queue-IsSorted [] = tt
sort_queue-IsSorted (e ∷ es) = insert_entry-IsSorted e (sort_queue es) (sort_queue-IsSorted es)

pub All-sort_queue :
    (P : QueueEntry → Type 0) (es : List QueueEntry) → All P es → All P (sort_queue es)
unfolding sort_queue
All-sort_queue P [] h = tt
All-sort_queue P (e ∷ es) h = All-insert_entry P e (sort_queue es) h.0 (All-sort_queue P es h.1)

has_user-insert_entry :
    (u : String) (e : QueueEntry) (es : List QueueEntry)
    → has_user u (insert_entry e es) ≡ (same e.user_id u || has_user u es)
unfolding insert_entry has_user
has_user-insert_entry u e [] = refl
has_user-insert_entry u e (x ∷ xs) = ground (arith, has_user-insert_entry u e xs)

has_user-sort_queue :
    (u : String) (es : List QueueEntry) → has_user u (sort_queue es) ≡ has_user u es
unfolding sort_queue has_user
has_user-sort_queue u [] = refl
has_user-sort_queue u (e ∷ es) =
    has_user-insert_entry u e (sort_queue es)
    ∙ ap (◌||◌ (same e.user_id u)) (has_user-sort_queue u es)

insert_entry-Distinct :
    (e : QueueEntry) (es : List QueueEntry)
    → has_user e.user_id es ≡ false
    → Distinct es
    → Distinct (insert_entry e es)
unfolding insert_entry has_user
insert_entry-Distinct e [] h d = (refl, tt)
insert_entry-Distinct e (x ∷ xs) h d = ground (
  arith,
  insert_entry-Distinct e xs,
  has_user-insert_entry x.user_id e xs,
  same_comm e.user_id x.user_id,
)

pub sort_queue-Distinct : (es : List QueueEntry) → Distinct es → Distinct (sort_queue es)
unfolding sort_queue
sort_queue-Distinct [] d = tt
sort_queue-Distinct (e ∷ es) d =
    insert_entry-Distinct e (sort_queue es) (has_user-sort_queue e.user_id es ∙ d.0)
      (sort_queue-Distinct es d.1)

length-insert_entry :
    (e : QueueEntry) (es : List QueueEntry) → length (insert_entry e es) ≡ suc (length es)
unfolding insert_entry
length-insert_entry e [] = refl
length-insert_entry e (x ∷ xs) = ground (arith, length-insert_entry e xs)

pub length-sort_queue : (es : List QueueEntry) → length (sort_queue es) ≡ length es
unfolding sort_queue
length-sort_queue [] = refl
length-sort_queue (e ∷ es) =
    omega (arith, length-insert_entry e (sort_queue es), length-sort_queue es)

has_user-append :
    (u : String) (es fs : List QueueEntry)
    → has_user u (es ++ fs) ≡ (has_user u es || has_user u fs)
unfolding has_user
has_user-append u [] fs = refl
has_user-append u (e ∷ es) fs = ground (arith, has_user-append u es fs)

pub append-Distinct :
    (es : List QueueEntry) (e : QueueEntry)
    → has_user e.user_id es ≡ false
    → Distinct es
    → Distinct (es ++ (e ∷ []))
unfolding has_user
append-Distinct [] e h d = (refl, tt)
append-Distinct (x ∷ xs) e h d = ground (
  arith,
  append-Distinct xs e,
  has_user-append x.user_id xs (e ∷ []),
  same_comm e.user_id x.user_id,
)

pub All-retain_others :
    (P : QueueEntry → Type 0) (u : String) (es : List QueueEntry)
    → All P es
    → All P (retain_others u es)
unfolding retain_others
All-retain_others P u [] h = tt
All-retain_others P u (e ∷ es) h = elim (Bool-cases (same e.user_id u)) [
  | inl mine ↦ rw mine (All-retain_others P u es h.1)
  | inr other ↦ rw other (h.0, All-retain_others P u es h.1)
]

pub retain_others-IsSorted :
    (u : String) (es : List QueueEntry) → IsSorted es → IsSorted (retain_others u es)
unfolding retain_others
retain_others-IsSorted u [] h = tt
retain_others-IsSorted u (e ∷ es) h = elim (Bool-cases (same e.user_id u)) [
  | inl mine ↦ rw mine (retain_others-IsSorted u es h.1)
  | inr other ↦ rw other (All-retain_others (NotAfter e) u es h.0, retain_others-IsSorted u es h.1)
]

-- `retain` removes the user, and nobody else.
pub has_user-retain_others :
    (v u : String) (es : List QueueEntry)
    → has_user v (retain_others u es) ≡ (if same u v then false else has_user v es)
unfolding retain_others has_user
has_user-retain_others v u [] = ground arith
has_user-retain_others v u (e ∷ es) =
    ground (
      arith,
      has_user-retain_others v u es,
      same_iff e.user_id u,
      same_iff u v,
      same_iff e.user_id v,
    )

pub retain_others-Distinct :
    (u : String) (es : List QueueEntry) → Distinct es → Distinct (retain_others u es)
unfolding retain_others
retain_others-Distinct u [] d = tt
retain_others-Distinct u (e ∷ es) d =
    ground (arith, retain_others-Distinct u es d.1, has_user-retain_others e.user_id u es)

pub length-retain_others :
    (u : String) (es : List QueueEntry) → length (retain_others u es) ≤ length es
unfolding retain_others
length-retain_others u [] = omega arith
length-retain_others u (e ∷ es) = ground (arith, length-retain_others u es)
