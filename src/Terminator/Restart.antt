-- ===== src/Terminator/Restart.antt =====
-- src/transport/udp/rtcp_terminator.rs: when the statistics start again after a jump of the sequence
-- numbers.
use oxlens_sfu_server.Prelude.{ℕ, ◌+◌, ◌-◌, ◌≤◌, ◌<◌, ◌≡◌, refl, ◌≢◌, true, arith, u16_mod, sub16}
use oxlens_sfu_server.Terminator.{
  Float64, RecvStats, init_seq, counted, update, max_dropout, max_misorder,
}

-- The number is too far from the highest one to be late or early.
abbrev pub IsFar : (max_seq seq : ℕ) → Type 0
IsFar max_seq seq = (max_dropout ≤ sub16 seq max_seq) × (sub16 seq max_seq ≤ 65535 - max_misorder)

module _ {F : Type 0} (f : Float64 F) where
  update-far :
      (s : RecvStats F) (seq rtp_ts arrival_ms : ℕ)
      → s.initialized ≡ true
      → s.seq_probation ≡ 0
      → seq < 65535
      → seq ≢ s.bad_seq
      → IsFar s.max_seq seq
      → update f s seq rtp_ts arrival_ms ≡ record s { bad_seq = seq + 1 }
  unfolding update
  update-far s seq rtp_ts arrival_ms run passed hs fresh far = ground arith

  update-waited :
      (s : RecvStats F) (seq rtp_ts arrival_ms : ℕ)
      → s.initialized ≡ true
      → s.seq_probation ≡ 0
      → seq ≡ s.bad_seq
      → IsFar s.max_seq seq
      → update f s seq rtp_ts arrival_ms ≡ counted f (init_seq f s seq) rtp_ts arrival_ms
  unfolding update
  update-waited s seq rtp_ts arrival_ms run passed e far = ground arith

  -- In a stream that runs, a packet whose number is far from the highest one, below 65535 and not
  -- the one waited for, is not counted: the next number is waited for, and nothing else changes. If
  -- the packet with that number follows, and is far too, the statistics start again at it.
  update-restarts :
      (s : RecvStats F) (seq rtp_ts arrival_ms rtp_ts' arrival_ms' : ℕ)
      → s.initialized ≡ true
      → s.seq_probation ≡ 0
      → seq < 65535
      → seq ≢ s.bad_seq
      → IsFar s.max_seq seq
      → IsFar s.max_seq (seq + 1)
      → let waits = update f s seq rtp_ts arrival_ms in
        let next = update f waits (seq + 1) rtp_ts' arrival_ms' in
        (waits ≡ record s { bad_seq = seq + 1 })
        × (next.base_seq ≡ seq + 1)
        × (next.max_seq ≡ seq + 1)
        × (next.cycles ≡ 0)
        × (next.received ≡ 1)
  update-restarts s seq rtp_ts arrival_ms rtp_ts' arrival_ms' run passed hs fresh far far' =
      let waits = update-far s seq rtp_ts arrival_ms run passed hs fresh far in
      let next =
        update-waited (record s { bad_seq = seq + 1 }) (seq + 1) rtp_ts' arrival_ms' run passed refl
          far' in
      rw (waits, next) (refl, refl, refl, refl, refl)

  -- In a stream that runs, after a packet with number 65535, far from the highest one and not the
  -- one waited for, the packet with number 0 follows on the circle. If it is far too, it is not
  -- counted either: 65536 was waited for, and the statistics do not start again but wait for number
  -- 1.
  pub update-misses_restart :
      (s : RecvStats F) (rtp_ts arrival_ms rtp_ts' arrival_ms' : ℕ)
      → s.initialized ≡ true
      → s.seq_probation ≡ 0
      → s.max_seq < u16_mod
      → s.bad_seq ≢ 65535
      → IsFar s.max_seq 65535
      → IsFar s.max_seq 0
      → update f (update f s 65535 rtp_ts arrival_ms) 0 rtp_ts' arrival_ms'
        ≡ record s { bad_seq = 1 }
  unfolding update
  update-misses_restart s rtp_ts arrival_ms rtp_ts' arrival_ms' run passed hm fresh far far' =
      ground arith
