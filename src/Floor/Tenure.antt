-- ===== src/Floor/Tenure.antt =====
-- src/room/floor.rs: how long a speaker may keep the floor, over any history of calls.
use oxlens_sfu_server.Prelude.{
  ℕ, ◌+◌, ◌≤◌, String, ◌≡◌, ◌≢◌, List, [], ◌∷◌, arith, same, same_iff, if◌then◌else◌,
}
use oxlens_sfu_server.Floor.{
  taken, FloorConfig, FloorInner, request_taken, enqueue, request, release, ping, cancel_queue,
  check_timers, on_participant_leave, Call, requests, releases, pings, cancels, checks, leaves,
  step, run,
}

-- In these calls nobody else has a higher priority than the speaker's, he does not release or leave,
-- and each check of the timers falls within the burst that began at `b` and within the timeout of
-- his last ping, at `l` or later.
abbrev pub Undisturbed : FloorConfig → (u : String) → (sp b l : ℕ) → List Call → Type 0
Undisturbed c u sp b l [] = Unit {0}
Undisturbed c u sp b l (requests v p now ∷ ks) = (p ≤ sp) × Undisturbed c u sp b l ks
Undisturbed c u sp b l (releases v clock ∷ ks) = (v ≢ u) × Undisturbed c u sp b l ks
Undisturbed c u sp b l (pings v now ∷ ks) = Undisturbed c u sp b (if same v u then now else l) ks
Undisturbed c u sp b l (cancels v ∷ ks) = Undisturbed c u sp b l ks
Undisturbed c u sp b l (checks now clock ∷ ks) =
    (now ≤ b + c.max_burst_ms) × (now ≤ l + c.ping_timeout_ms) × Undisturbed c u sp b l ks
Undisturbed c u sp b l (leaves v clock ∷ ks) = (v ≢ u) × Undisturbed c u sp b l ks

-- The time of the speaker's last ping.
abbrev pub last_ping_of : (u : String) → (l : ℕ) → List Call → ℕ
last_ping_of u l [] = l
last_ping_of u l (requests v p now ∷ ks) = last_ping_of u l ks
last_ping_of u l (releases v clock ∷ ks) = last_ping_of u l ks
last_ping_of u l (pings v now ∷ ks) = last_ping_of u (if same v u then now else l) ks
last_ping_of u l (cancels v ∷ ks) = last_ping_of u l ks
last_ping_of u l (checks now clock ∷ ks) = last_ping_of u l ks
last_ping_of u l (leaves v clock ∷ ks) = last_ping_of u l ks

module _ (c : FloorConfig) (s : FloorInner) (u : String) (sp b l : ℕ)
    (st : s.state ≡ taken u sp b l) where
  request-tenure :
      (v : String) (p now : ℕ) → p ≤ sp → (request c s v p now).0.state ≡ taken u sp b l
  unfolding request request_taken enqueue
  request-tenure v p now h = ground (arith, st, h)

  release-tenure : (v : String) (clock : ℕ) → v ≢ u → (release s v clock).0.state ≡ taken u sp b l
  unfolding release
  release-tenure v clock ne = ground (arith, st, same_iff u v, ne)

  ping-tenure :
      (v : String) (now : ℕ) → (ping s v now).0.state ≡ taken u sp b (if same v u then now else l)
  unfolding ping
  ping-tenure v now = ground (arith, st, same_iff u v, same_iff v u)

  check-tenure :
      (now clock : ℕ)
      → now ≤ b + c.max_burst_ms
      → now ≤ l + c.ping_timeout_ms
      → (check_timers c s now clock).0.state ≡ taken u sp b l
  unfolding check_timers
  check-tenure now clock hb hl = ground (arith, st, hb, hl)

  leave-tenure :
      (v : String) (clock : ℕ) → v ≢ u → (on_participant_leave s v clock).0.state ≡ taken u sp b l
  unfolding on_participant_leave
  leave-tenure v clock ne = ground (arith, st, same_iff u v, ne)

-- Over any history of calls in which nobody asks with a higher priority than the speaker's, the
-- speaker does not release or leave, and each check of the timers falls within the burst limit and
-- within the timeout of the speaker's last ping: he keeps the floor with his priority. The start of
-- his burst is not moved by pings or requests, and the last ping noted is his, nobody else's.
pub run-tenure :
    (c : FloorConfig) (s : FloorInner) (u : String) (sp b l : ℕ) (ks : List Call)
    → s.state ≡ taken u sp b l
    → Undisturbed c u sp b l ks
    → (run c s ks).0.state ≡ taken u sp b (last_ping_of u l ks)
unfolding run step cancel_queue
run-tenure c s u sp b l [] st h = st
run-tenure c s u sp b l (requests v p now ∷ ks) st h =
    run-tenure c (request c s v p now).0 u sp b l ks (request-tenure c s u sp b l st v p now h.0)
      h.1
run-tenure c s u sp b l (releases v clock ∷ ks) st h =
    run-tenure c (release s v clock).0 u sp b l ks (release-tenure c s u sp b l st v clock h.0) h.1
run-tenure c s u sp b l (pings v now ∷ ks) st h =
    run-tenure c (ping s v now).0 u sp b (if same v u then now else l) ks
      (ping-tenure c s u sp b l st v now) h
run-tenure c s u sp b l (cancels v ∷ ks) st h = run-tenure c (cancel_queue s v).0 u sp b l ks st h
run-tenure c s u sp b l (checks now clock ∷ ks) st h =
    run-tenure c (check_timers c s now clock).0 u sp b l ks
      (check-tenure c s u sp b l st now clock h.0 h.1) h.2
run-tenure c s u sp b l (leaves v clock ∷ ks) st h =
    run-tenure c (on_participant_leave s v clock).0 u sp b l ks
      (leave-tenure c s u sp b l st v clock h.0) h.1
