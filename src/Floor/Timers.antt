-- ===== src/Floor/Timers.antt =====
-- src/room/floor.rs: the two timers of a talk burst (`check_timers`) and the ping that feeds one.
use oxlens_sfu_server.Prelude.{
  ℕ, ◌+◌, ◌-◌, ◌≤◌, ◌<◌, String, ◌≡◌, ◌≢◌, ◌⊎◌, some, [], arith, same_iff, same_self, ltb,
  if◌then◌else◌,
}
use oxlens_sfu_server.Floor.{
  idle, taken, revoked, ping_ok, ping_denied, FloorConfig, FloorInner, current_speaker, ping,
  grant_next, revoke, check_timers,
}

-- The cause that the timer task announces: the burst limit is looked at first.
abbrev pub cause_of : FloorConfig → (now burst_start : ℕ) → String
cause_of c now b = if ltb c.max_burst_ms (now - b) then "max burst exceeded" else "participant lost"

-- A burst past its limit, or a speaker who has not pinged within the timeout, loses the floor: the
-- revocation names the speaker and the cause, and is followed by the grant to the next waiter; if
-- there is none, the floor is idle and the speaker is remembered.
pub check_timers_expired :
    (c : FloorConfig) (s : FloorInner) (u : String) (sp b l now clock : ℕ)
    → s.state ≡ taken u sp b l
    → (b + c.max_burst_ms < now) ⊎ (l + c.ping_timeout_ms < now)
    → check_timers c s now clock
      ≡ grant_next
          (record { state = idle; queue = s.queue; prev_speaker = some u })
          clock
          (revoked u (cause_of c now b))
unfolding check_timers revoke
check_timers_expired c s u sp b l now clock st late = ground arith

-- A speaker within both limits keeps the floor, and the check changes nothing.
pub check_timers_alive :
    (c : FloorConfig) (s : FloorInner) (u : String) (sp b l now clock : ℕ)
    → s.state ≡ taken u sp b l
    → now ≤ b + c.max_burst_ms
    → now ≤ l + c.ping_timeout_ms
    → check_timers c s now clock ≡ (s, [])
unfolding check_timers
check_timers_alive c s u sp b l now clock st burst alive = ground arith

-- A ping by the speaker at `t` holds off the ping timeout until `t + ping_timeout_ms`, whatever the
-- time of the ping before; only the burst limit can end the floor earlier. A ping by anybody else
-- is denied and changes nothing.
ping-check_timers :
    (c : FloorConfig) (s : FloorInner) (u v : String) (sp b l t now clock : ℕ)
    → s.state ≡ taken u sp b l
    → now ≤ b + c.max_burst_ms
    → now ≤ t + c.ping_timeout_ms
    → v ≢ u
    → ((ping s u t).1 ≡ ping_ok)
      × (check_timers c (ping s u t).0 now clock ≡ ((ping s u t).0, []))
      × (current_speaker (ping s u t).0 ≡ some u)
      × (ping s v t ≡ (s, ping_denied))
unfolding check_timers ping current_speaker
ping-check_timers c s u v sp b l t now clock st burst alive ne = (
  ground (arith, same_self u),
  ground (arith, same_self u),
  ground (arith, same_self u),
  ground (arith, same_iff u v),
)
