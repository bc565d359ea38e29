-- ===== src/Lib.antt =====
-- oxlens-sfu-server: a selective forwarding unit for audio and video over WebRTC, with
-- push-to-talk rooms. A publisher's packets come in over UDP, are decrypted, and are forwarded
-- to the subscribers of the room. In a push-to-talk room one participant at a time holds the
-- floor, and all speakers are sent on as one stream under a virtual SSRC.
--
-- The parts that are modelled, and how they interact:
--
-- - Floor (src/room/floor.rs): `FloorController`. The state of the mutex (`FloorInner`) is a
--   record, each method is a function from the state to the new state and the returned
--   actions. `Call`, `step` and `run` are any history of calls. Floor/Queue is the queue of
--   waiters; Floor/Order, Valid, Invariant, Announce, Arrival, Timers, Handover, Turns and
--   Tenure are its laws. The server turns the actions into messages and into switches of the two rewriters.
-- - Ptt (src/room/ptt_rewriter.rs): `PttRewriter`, which gives the packets of changing
--   speakers the SSRC, sequence numbers and timestamps of one stream, and flushes silence at a
--   release. Laws in Ptt/Gate, Output, Continuity and Silence.
-- - Keyframe (src/room/ptt_rewriter.rs): the detectors that say whether a packet starts a key
--   frame, for VP8 and H264, with the search through aggregation packets in Keyframe/Units.
-- - Simulcast and RtpCache (src/room/participant.rs): `SimulcastRewriter`, which does the same
--   over switches of the simulcast layer, and `RtpCache`, the ring of sent packets that
--   answers NACKs.
-- - Rtcp (src/transport/udp/rtcp.rs): parsing and building: Rtcp/Header the RTP header,
--   Rtcp/Nack the NACKs, Rtcp/Compound the compound packets, Rtcp/Rtx the retransmissions,
--   Rtcp/Mbcp the floor messages in APP packets, Rtcp/Feedback PLI and REMB. A subscriber's
--   NACK is expanded, mapped back by the rewriters' `reverse_seq`, looked up in the cache and
--   sent again as RTX.
-- - Terminator (src/transport/udp/rtcp_terminator.rs): the reception statistics of a
--   publisher's stream (`RecvStats`) and the receiver reports made from them
--   (Terminator/Report), the sending statistics and sender reports (Terminator/Source) and
--   their translation (Terminator/Sender). Laws in Terminator/Losses and Restart.
-- - Twcc (src/transport/udp/twcc.rs): the recorder of arrival times and the transport-wide
--   feedback (Twcc/Feedback), with laws in Twcc/Recorder, Reports, Chunks and Size.
-- - Participant (src/room/participant.rs): the participant of a room with its two media
--   sessions, tracks (Participant/TrackList) and counters. Laws in Participant/Tracks.
-- - Room and Hub (src/room/room.rs): `Room`, with its indices by user, ICE name and address,
--   and `RoomHub`, with the reverse indices to the ids of rooms. `Hub.Call`, `call` and `run`
--   are any history of calls. Room/Sound, Latch and Writes say that a room's indices are
--   right, Hub/Index and Runs that they stay so, Hub/Laws, Lookups, Removal and Reap what the
--   lookups find and whom the reaper removes.
-- - Stun (src/transport/stun.rs): STUN messages, with laws in Stun/Attributes, Response,
--   MappedAddress, Xor, Verify and Fuel. Stun/Handle is what becomes of a packet: `classify`
--   (src/transport/demux.rs), `handle_stun_packet` (src/transport/ice.rs) and `handle_stun`
--   (src/transport/udp/mod.rs), which latches addresses in the hub.
-- - FloorOps (src/signaling/handler/floor_ops.rs, helpers.rs and room_ops.rs, src/tasks.rs):
--   what the handlers, leaving a room and the timer make of the actions of the floor: switches
--   of the two rewriters and a list of effects (packets sent, PLI bursts, counters). The
--   packets and effects are in FloorOps/Effects, the laws in Answers and Laws. `floor_calls`
--   is any history of them in a room.
-- - Ingress (src/transport/udp/ingress.rs): `handle_srtp`, what becomes of a packet of a
--   participant. Ingress itself composes the parts: Payload the payload types, the gate and
--   the rewriters (`prepare_fanout_payload`), Reception the statistics and the watch for gaps,
--   Layers the fan-out with simulcast, Mbcp the floor messages over RTCP, SenderReports the
--   relay of sender reports, Nack and Retransmission the answer to a NACK, Feedback the relay
--   of PLIs and bandwidth estimates to the publishers. A `Scene` is a room with what has been
--   done to the outside: packets put into egress queues, PLI bursts, messages. Gate says what
--   a packet of a publisher becomes, Retyped what the payload type changes of it, LayerEntry
--   and LayerLaws what a packet of a layer does, Budget, Escalation, OriginalNumber, Throttle and
--   Unswitched the other laws of the parts; Kept and its companions show that no step of the
--   pipeline touches who the members are, Invariant and HubInvariant that the rooms stay
--   valid.
-- - Egress (src/transport/udp/egress.rs): the task that empties a subscriber's queue, with its
--   sending statistics, and the PLIs, bandwidth estimates and TWCC feedback that the server
--   sends to the publishers of its rooms. Laws in Egress/Laws.
-- - Prelude: shared names, lists, bytes and words; nothing of the program. The modules named
--   Tests run the definitions on concrete inputs and apply the theorems to them.
--
-- Conventions. Numbers are natural; a word of 16 or 32 bits wraps by an explicit remainder,
-- and a subtraction that the source guards or saturates stops at 0. A buffer is a list of
-- bytes. The clock is an argument of the operations that read it: milliseconds where the code
-- reads the time of day, nanoseconds where it takes an `Instant`; a packet's clocks are read
-- once, at its arrival. Locks are left out: every operation holds one lock over its whole
-- body, so that a history of calls is a list. Random start values are arguments. A participant
-- that the code shares through an `Arc` is a pointer into a store; the store is a function
-- from pointers to participants, which holds all that are made in a run, so that making one is
-- choosing its pointer. A hash map that is only looked up is a function; one that is iterated
-- is an association list, in the order of insertion. HMAC-SHA1 and CRC-32 are parameters; of
-- the first it is assumed that its values have twenty bytes. So are the conversions between
-- texts and bytes of Rust's standard library. The floating-point arithmetic of the jitter is a
-- parameter (`Float64`), with nothing assumed of it.
--
-- Fuel. The loops over compound packets, NACK items and header extensions run on fuel, which
-- is the length of the buffer: each round takes one byte at least. For compound packets
-- Rtcp/Compound/Laws shows that more fuel changes nothing, for STUN attributes Stun/Fuel. The
-- halving of the REMB mantissa has fuel 64, for rates of 64 bits; its laws show that the
-- mantissa then fits.
--
-- Not modelled: the loop over the statistics that sends the receiver reports, the sockets and
-- their workers, DTLS and SRTP, the other signaling handlers and timer tasks, metrics,
-- telemetry and start-up. They are input and output, asynchronous tasks or calls of libraries
-- around the parts above. The decryption and encryption of SRTP, the texts that a formatter
-- makes, and the order in which the groups of a subscriber's RTCP blocks leave their hash map,
-- are parameters of the parts that use them. A session's SRTP contexts are a flag that says
-- whether their keys are installed; the delays within a burst of PLIs are left out, and so are
-- logs and counters of the whole server.

pub mod Prelude
pub mod Floor
pub mod Ptt
pub mod Keyframe
pub mod Simulcast
pub mod RtpCache
pub mod Rtcp
pub mod Terminator
pub mod Twcc
pub mod Participant
pub mod Room
pub mod Hub
pub mod Stun
pub mod FloorOps
pub mod Ingress
pub mod Egress
