-- ===== src/Twcc/Recorder.antt =====
-- src/transport/udp/twcc.rs: what the recorder of arrival times remembers.
use oxlens_sfu_server.Prelude.{
  ℕ, ◌%◌, ◌<◌, ◌≡◌, ◌≢◌, ◌∙◌, ap, subst, inl, inr, Bool-cases, Option, none, some, List, arith,
  length, length-set, set, get_elem?, get_elem?-set_self, get_elem?-set_ne, ◌==◌, if◌then◌else◌,
}
use oxlens_sfu_server.Twcc.{
  ArrivalEntry, TwccRecorder, recorder_capacity, note_arrival, in_slot, get,
}

-- The recorder has its slots.
abbrev pub IsWhole : TwccRecorder → Type 0
IsWhole r = length r.arrivals ≡ recorder_capacity

note_arrival-arrivals :
    (r : TwccRecorder) (seq arrival : ℕ)
    → (note_arrival r seq arrival).arrivals
      ≡ set r.arrivals
          (seq % recorder_capacity)
          (some (record { twcc_seq = seq; arrival = arrival }))
unfolding note_arrival
note_arrival-arrivals r seq arrival = ground arith

get_elem?-set :
    (xs : List (Option ArrivalEntry)) (i j : ℕ) (v : Option ArrivalEntry)
    → i < length xs
    → get_elem? (set xs i v) j ≡ (if j == i then some v else get_elem? xs j)
get_elem?-set xs i j v h = elim (Bool-cases (j == i)) [
  | inl shared ↦
      let e : i ≡ j = ground arith in
      rw shared (subst (λ k. get_elem? (set xs i v) k ≡ some v) e (get_elem?-set_self xs i v h))
  | inr apart ↦ let ne : i ≢ j = ground arith in rw apart (get_elem?-set_ne xs i j v ne)
]

in_slot-entry :
    (q seq arrival : ℕ) (old : Option (Option ArrivalEntry))
    → let entry : ArrivalEntry = record { twcc_seq = seq; arrival = arrival } in
      let shared = q % recorder_capacity == seq % recorder_capacity in
      in_slot q (if shared then some (some entry) else old)
      ≡ (if q == seq then some entry else if shared then none else in_slot q old)
in_slot-entry q seq arrival old = ground arith

-- After an arrival is noted in a recorder with all its slots, its number is looked up with its
-- time; the other numbers of its slot are forgotten, and all other numbers keep what they had. The
-- recorder keeps its slots.
get-note_arrival :
    (r : TwccRecorder) (seq arrival q : ℕ)
    → IsWhole r
    → (get (note_arrival r seq arrival) q ≡ (
        if q == seq
        then some (record { twcc_seq = seq; arrival = arrival })
        else if q % recorder_capacity == seq % recorder_capacity
        then none
        else get r q))
      × IsWhole (note_arrival r seq arrival)
unfolding get
get-note_arrival r seq arrival q whole =
    let at = seq % recorder_capacity in
    let entry : ArrivalEntry = record { twcc_seq = seq; arrival = arrival } in
    let kept = note_arrival-arrivals r seq arrival in
    let found =
      get_elem?-set r.arrivals at (q % recorder_capacity) (some entry) (omega (arith, whole)) in
    (
      ap (λ xs. in_slot q (get_elem? xs (q % recorder_capacity))) kept
          ∙ ap (in_slot q) found
          ∙ in_slot-entry q seq arrival (get_elem? r.arrivals (q % recorder_capacity)),
      ap length kept ∙ length-set r.arrivals at (some entry) ∙ whole,
    )
