-- ===== src/Messaging/ReadPump/Identity.antt =====
-- What of a frame the server believes.
use krampus.Prelude.{String, false, some, ◌≡◌, refl, ap, sym, ◌∙◌}
use krampus.Prelude.Int.{ℤ}
use krampus.Domain.Message.{Message, GoLib, set_timestamp}
use krampus.Messaging.Limits.{RateLib}
use krampus.Messaging.ReadPump.{Decoder, Session, Server, Turn, is_ack, claimed, accept, read_frame}

-- `msg` as a client may send it, with any identity.
abbrev pub pretending : String → String → String → ℤ → Message → Message
pretending id user room time msg = record msg {
  id = id;
  user_id = user;
  room_id = room;
  timestamp = time;
}

same_claim :
    (s : Session) (turn : Turn) (id user room : String) (time : ℤ) (msg : Message)
    → claimed s turn (pretending id user room time msg) ≡ claimed s turn msg
unfolding claimed set_timestamp
same_claim s turn id user room time msg = refl

accepted_frame :
    (lib : GoLib) (decoder : Decoder) {rate : RateLib} (s : Session) (turn : Turn) (w : Server rate)
    (payload : String) (msg : Message)
    → decoder.decode payload ≡ some msg
    → is_ack msg.type ≡ false
    → read_frame lib decoder s turn payload w ≡ accept lib decoder s turn (claimed s turn msg) w
unfolding read_frame
accepted_frame lib decoder s turn w payload msg h a = simp (h, a, read_frame)

-- A frame that is no acknowledgement does the same whatever id, user, room and time it names: those
-- are the server's. So no client speaks for another, and a frame that is sent again is a new message.
pub read_frame_identity :
    (lib : GoLib) (decoder : Decoder) {rate : RateLib} (s : Session) (turn : Turn) (w : Server rate)
    (honest other : String) (msg : Message) (id user room : String) (time : ℤ)
    → decoder.decode honest ≡ some msg
    → decoder.decode other ≡ some (pretending id user room time msg)
    → is_ack msg.type ≡ false
    → (read_frame lib decoder s turn honest w ≡ read_frame lib decoder s turn other w)
      × (read_frame lib decoder s turn honest w ≡ accept lib decoder s turn (claimed s turn msg) w)
      × ((claimed s turn msg).user_id ≡ s.user_id)
      × ((claimed s turn msg).room_id ≡ s.room_id)
      × ((claimed s turn msg).id ≡ turn.uuid)
unfolding claimed set_timestamp
read_frame_identity lib decoder s turn w honest other msg id user room time h o a =
    let first = accepted_frame lib decoder s turn w honest msg h a in
    let second = accepted_frame lib decoder s turn w other (pretending id user room time msg) o a in
    (
      first
          ∙ sym (
              second
              ∙ ap (λ m. accept lib decoder s turn m w) (same_claim s turn id user room time msg)),
      first,
      refl,
      refl,
      refl,
    )
