-- ===== src/Egress/Tests.antt =====
-- src/transport/udp/egress.rs: the witness of the theorem about it.
use oxlens_sfu_server.Rtcp.Header.{is_audio_pt, is_rtx_pt}
use oxlens_sfu_server.Terminator.Source
use oxlens_sfu_server.Terminator.Source.{on_rtp_sent}
use oxlens_sfu_server.Prelude.{ℕ, ◌≡◌, refl, true, some, List, [], ◌∷◌}
use oxlens_sfu_server.Participant
use oxlens_sfu_server.Participant.{Participant, SocketAddr, v4, rtp, rtcp}
use oxlens_sfu_server.Ingress.Feedback.{Transport}
use oxlens_sfu_server.Egress.{run_egress_task, send_queued, note_sent}
use oxlens_sfu_server.Egress.Laws.{counted, Drained, run_egress_task-Drained}

abbrev mobile : SocketAddr
mobile = v4 167772162 50000

-- All that is sealed is taken.
abbrev clear : Transport
clear = record {
  decrypt_rtp = λ p pc bytes. some bytes;
  decrypt_rtcp = λ p pc bytes. some bytes;
  encrypt_rtp = λ p pc bytes. some bytes;
  encrypt_rtcp = λ p pc bytes. some bytes;
  send_to = λ addr bytes. true;
}

abbrev voice : List ℕ
voice = 0x80 ∷ 111 ∷ 0 ∷ 5 ∷ 0 ∷ 0 ∷ 0 ∷ 1 ∷ 0 ∷ 0 ∷ 0 ∷ 7 ∷ 0xaa ∷ []

abbrev bob : Participant ℕ
bob = record (Participant.new "bob" "r" "bob_pub" "pwd" "bob_sub" "pwd" 1000) {
  subscribe = record { ufrag = "bob_sub"; ice_pwd = "pwd"; address = some mobile; is_ready = true };
  egress = rtp voice ∷ rtcp (0x80 ∷ 201 ∷ 0 ∷ 1 ∷ 0 ∷ 0 ∷ 0 ∷ 1 ∷ []) ∷ rtp voice ∷ [];
}

run_egress_task-Drained_example :
    Drained clear 1 50
      (record bob { egress = [] })
      mobile
      bob.egress
      (run_egress_task clear 1 50 bob)
run_egress_task-Drained_example = run_egress_task-Drained clear 1 50 bob mobile refl

-- Two packets of stream 7 are counted.
counts_two : counted ((run_egress_task clear 1 50 bob).0.send_stats 7) ≡ 2
unfolding run_egress_task send_queued note_sent is_audio_pt is_rtx_pt on_rtp_sent Source.new
    Participant.new
counts_two = refl
