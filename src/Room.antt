-- ===== src/Room.antt =====
-- src/room/room.rs: a room (`Room`) with its indices of participants by user, by ICE name and by
-- address. An `Arc<Participant>` is a pointer into a store, which all rooms share; the floor and
-- the rewriters are the models of their modules. The indices by ICE name and address are only
-- looked up, so they are functions.
pub mod Sound
pub mod Latch
pub mod Writes
use oxlens_sfu_server.Prelude.{
  ℕ, String, Bool, true, false, Option, none, some, List, [], ◌∷◌, ◌++◌, min, leb, ◌==◌, ◌&&◌, not,
  same, if◌then◌else◌, length, Map, insert, remove, lookup, erase, map,
}
use oxlens_sfu_server.Floor
use oxlens_sfu_server.Floor.{FloorInner}
use oxlens_sfu_server.Ptt.{PttRewriter, RewriteState, new_audio, new_video, new_state}
use oxlens_sfu_server.Participant.TrackList.{has_ssrc}
use oxlens_sfu_server.Participant.{
  SocketAddr, same_addr, PcType, publish_pc, subscribe_pc, MediaSession, Participant, session,
  latch_session,
}

-- src/config.rs: `enum RoomMode`
pub data RoomMode : Type 0 where
  conference : RoomMode
  ptt : RoomMode

-- src/error.rs: the errors that are answered, with their codes.
pub data LightError : Type 0 where
  not_authenticated : LightError
  invalid_token : LightError
  already_identified : LightError
  room_not_found : LightError
  room_full : LightError
  already_in_room : LightError
  not_in_room : LightError
  room_name_required : LightError
  invalid_opcode : LightError
  invalid_payload : LightError
  missing_pid : LightError
  sdp_parse_error : LightError
  dtls_handshake_failed : LightError
  srtp_error : LightError
  internal : String → LightError

unfoldable pub code : LightError → ℕ
code not_authenticated = 1001
code invalid_token = 1002
code already_identified = 1003
code room_not_found = 2001
code room_full = 2002
code already_in_room = 2003
code not_in_room = 2004
code room_name_required = 2005
code invalid_opcode = 3001
code invalid_payload = 3002
code missing_pid = 3003
code sdp_parse_error = 4001
code dtls_handshake_failed = 4002
code srtp_error = 4003
code (internal what) = 9001

pub data LightResult (A : Type 0) : Type 0 where
  ok : A → LightResult A
  err : LightError → LightResult A

-- ROOM_DEFAULT_CAPACITY and ROOM_MAX_CAPACITY
abbrev pub room_default_capacity : ℕ
room_default_capacity = 1000

abbrev pub room_max_capacity : ℕ
room_max_capacity = 1000

abbrev pub Pointer : Type 0
Pointer = ℕ

abbrev pub Store : Type 0 → Type 0
Store F = Pointer → Participant F

abbrev pub write : {F : Type 0} → Store F → Pointer → Participant F → Store F
write st p v q = if q == p then v else st q

pub record Room : Type 0 where
  pub id : String
  pub name : String
  pub capacity : ℕ
  pub mode : RoomMode
  pub created_at : ℕ
  pub simulcast_enabled : Bool
  pub floor : FloorInner
  pub audio_rewriter : PttRewriter
  pub audio_state : RewriteState
  pub video_rewriter : PttRewriter
  pub video_state : RewriteState
  pub participants : List (String × Pointer)
  pub by_ufrag : Map String (Pointer × PcType)
  pub by_addr : Map SocketAddr (Pointer × PcType)
  pub active_since : ℕ

abbrev pub or_default : Option ℕ → ℕ → ℕ
or_default none d = d
or_default (some n) d = n

-- A push-to-talk room has no simulcast.
abbrev pub simulcast_in : RoomMode → Bool → Bool
simulcast_in conference enabled = enabled
simulcast_in ptt enabled = false

-- The virtual SSRCs are drawn by the caller.
unfoldable pub new :
    (id name : String) (capacity : Option ℕ)
    → RoomMode
    → (created_at : ℕ) (simulcast_enabled : Bool) (audio_ssrc video_ssrc : ℕ) → Room
new id name capacity mode created_at simulcast_enabled audio_ssrc video_ssrc = record {
  id = id;
  name = name;
  capacity = min (or_default capacity room_default_capacity) room_max_capacity;
  mode = mode;
  created_at = created_at;
  simulcast_enabled = simulcast_in mode simulcast_enabled;
  floor = Floor.new;
  audio_rewriter = new_audio audio_ssrc;
  audio_state = new_state;
  video_rewriter = new_video video_ssrc;
  video_state = new_state;
  participants = [];
  by_ufrag = λ ufrag. none;
  by_addr = λ addr. none;
  active_since = 0;
}

-- `by_addr.remove(&addr)`, where there is an address.
abbrev pub remove_addr : {V : Type 0} → Option SocketAddr → Map SocketAddr V → Map SocketAddr V
remove_addr none m = m
remove_addr (some addr) m = remove same_addr addr m

-- `by_addr` without the old address of the session, if it is another one.
abbrev pub without_old :
    Option SocketAddr
    → SocketAddr
    → Map SocketAddr (Pointer × PcType)
    → Map SocketAddr (Pointer × PcType)
without_old none addr m = m
without_old (some old) addr m = if same_addr old addr then m else remove same_addr old m

abbrev pub get_participant : Room → String → Option Pointer
get_participant r user_id = lookup user_id r.participants

abbrev pub get_by_ufrag : Room → String → Option (Pointer × PcType)
get_by_ufrag r ufrag = r.by_ufrag ufrag

abbrev pub get_by_addr : Room → SocketAddr → Option (Pointer × PcType)
get_by_addr r addr = r.by_addr addr

abbrev pub participant_count : Room → ℕ
participant_count r = length r.participants

abbrev pub all_participants : Room → List Pointer
all_participants r = map (λ e. e.1) r.participants

-- `filter(|e| e.key() != exclude_user)`
unfoldable pub others : String → List (String × Pointer) → List Pointer
others exclude_user [] = []
others exclude_user (e ∷ es) =
    let rest = others exclude_user es in if same e.0 exclude_user then rest else e.1 ∷ rest

abbrev pub other_participants : Room → String → List Pointer
other_participants r exclude_user = others exclude_user r.participants

module _ {F : Type 0} where
  -- The room with the participant in its indices.
  abbrev pub joined : Store F → Room → Pointer → (now : ℕ) → Room
  joined st r p now = record r {
    by_ufrag =
        insert same (st p).subscribe.ufrag (p, subscribe_pc)
          (insert same (st p).publish.ufrag (p, publish_pc) r.by_ufrag);
    participants = r.participants ++ (((st p).user_id, p) ∷ []);
    active_since = if r.active_since == 0 then now else r.active_since;
  }

  abbrev pub add_unless : Store F → Room → Pointer → (now : ℕ) → Option Pointer → LightResult Room
  add_unless st r p now (some q) = err already_in_room
  add_unless st r p now none = ok (joined st r p now)

  unfoldable pub add_participant : Store F → Room → Pointer → (now : ℕ) → LightResult Room
  add_participant st r p now =
      if leb r.capacity (length r.participants)
      then err room_full
      else add_unless st r p now (lookup (st p).user_id r.participants)

  -- The room without the participant in any index.
  abbrev pub parted : Store F → Room → String → Pointer → Room
  parted st r user_id p = record r {
    participants = erase user_id r.participants;
    by_ufrag = remove same (st p).subscribe.ufrag (remove same (st p).publish.ufrag r.by_ufrag);
    by_addr = remove_addr (st p).subscribe.address (remove_addr (st p).publish.address r.by_addr);
  }

  abbrev pub remove_found : Store F → Room → String → Option Pointer → LightResult (Room × Pointer)
  remove_found st r user_id none = err not_in_room
  remove_found st r user_id (some p) = ok (parted st r user_id p, p)

  unfoldable pub remove_participant : Store F → Room → String → LightResult (Room × Pointer)
  remove_participant st r user_id = remove_found st r user_id (lookup user_id r.participants)

  abbrev pub latched : Store F → Room → Pointer → PcType → SocketAddr → Room
  latched st r p pc addr = record r {
    by_addr =
        insert same_addr addr (p, pc) (without_old (session (st p) pc).address addr r.by_addr);
  }

  abbrev pub latch_found :
      Store F
      → Room
      → SocketAddr
      → Option (Pointer × PcType)
      → Option (Store F × Room × Pointer × PcType)
  latch_found st r addr none = none
  latch_found st r addr (some (p, pc)) =
      some (write st p (latch_session (st p) pc addr), latched st r p pc addr, p, pc)

  unfoldable pub latch :
      Store F → Room → (ufrag : String) → SocketAddr → Option (Store F × Room × Pointer × PcType)
  latch st r ufrag addr = latch_found st r addr (r.by_ufrag ufrag)

  -- The first participant that passes a test.
  unfoldable pub find_participant :
      (Participant F → Bool) → Store F → List (String × Pointer) → Option Pointer
  find_participant test st [] = none
  find_participant test st (e ∷ es) =
      let rest = find_participant test st es in if test (st e.1) then some e.1 else rest

  abbrev pub find_by_track_ssrc : Store F → Room → ℕ → Option Pointer
  find_by_track_ssrc st r ssrc = find_participant (λ p. has_ssrc ssrc p.tracks) st r.participants

  abbrev pub find_publisher_by_vssrc : Store F → Room → ℕ → Option Pointer
  find_publisher_by_vssrc st r vssrc =
      if vssrc == 0
      then none
      else find_participant (λ p. p.simulcast_video_ssrc == vssrc) st r.participants
