-- ===== src/Messaging/ReadPump/Acknowledged.antt =====
-- What an acknowledgement frame changes.
use krampus.Prelude.{
  ℕ, String, true, none, some, ◌≡◌, ◌≢◌, refl, inl, inr, arith, Bool-cases, if◌then◌else◌, eq_iff,
  str_eq,
}
use krampus.Domain.Message.{
  Message, GoLib, AckPayload, DeliveryStatus, sent, delivered, read, failed,
}
use krampus.Storage.Fault.{Fault}
use krampus.Storage.Status.{StatusRow, find_status-upsert, mark_delivered, mark_read}
use krampus.Realtime.Delivery.{World, handle_ack}
use krampus.Realtime.Delivery.Acks.{ack_of, status_of, status_row, handle_ack_replaces}
use krampus.Messaging.Limits.{RateLib}
use krampus.Messaging.ReadPump.{
  Decoder, Session, Server, Turn, is_ack, with_status, read_ack, read_frame,
}

-- An acknowledgement, accepted or not, touches the rows of its user only, and no connection.
handle_ack_others :
    (fault : Fault) (now t : ℕ) (u m : String) (status : DeliveryStatus) (w : World)
    (m' u' : String)
    → u ≢ u'
    → let w' = (handle_ack fault now u (ack_of m status t) w).1 in
      (status_of m' u' w' ≡ status_of m' u' w) × (w'.manager ≡ w.manager)
unfolding handle_ack mark_delivered mark_read
handle_ack_others fault now t u m sent w m' u' ne = (refl, refl)
handle_ack_others fault now t u m failed w m' u' ne = (refl, refl)
handle_ack_others (some x) now t u m delivered w m' u' ne = (refl, refl)
handle_ack_others (some x) now t u m read w m' u' ne = (refl, refl)
handle_ack_others none now t u m delivered w m' u' ne = (
  ground (
    arith,
    find_status-upsert m' u' (status_row m u delivered (some now) none) w.statuses,
    eq_iff u u',
  ),
  refl,
)
handle_ack_others none now t u m read w m' u' ne = (
  ground (
    arith,
    find_status-upsert m' u' (status_row m u read none (some now)) w.statuses,
    eq_iff u u',
  ),
  refl,
)

-- the row that a frame of a type leaves
abbrev pub acknowledged : String → String → String → ℕ → StatusRow
acknowledged t m u now =
    if str_eq t "ack_read"
    then status_row m u read none (some now)
    else status_row m u delivered (some now) none

handle_ack_own :
    (now : ℕ) (u t : String) (ack : AckPayload) (w : World)
    → status_of ack.message_id u (handle_ack none now u (with_status t ack) w).1
      ≡ some (acknowledged t ack.message_id u now)
handle_ack_own now u t ack w = elim (Bool-cases (str_eq t "ack_read")) [
  | inl e ↦ simp e (handle_ack_replaces now ack.timestamp u ack.message_id w).1
  | inr e ↦ simp e (handle_ack_replaces now ack.timestamp u ack.message_id w).0
]

read_frame-ack :
    (lib : GoLib) (decoder : Decoder) {rate : RateLib} (s : Session) (turn : Turn) (w : Server rate)
    (payload : String) (msg : Message) (ack : AckPayload)
    → decoder.decode payload ≡ some msg
    → is_ack msg.type ≡ true
    → decoder.decode_ack msg.payload ≡ some ack
    → read_frame lib decoder s turn payload w ≡ record w {
      world =
          (handle_ack turn.ack_fault (turn.clock 1) s.user_id (with_status msg.type ack) w.world).1;
    }
unfolding read_frame read_ack
read_frame-ack lib decoder s turn w payload msg ack d a k = simp (d, a, k, read_frame, read_ack)

-- An acknowledgement frame records for the user of the session, whatever user or status it names, the
-- status that its type says, unless the database refuses; it changes no row of another user, no
-- connection, and nothing of the message service.
pub read_frame_acknowledges :
    (lib : GoLib) (decoder : Decoder) {rate : RateLib} (s : Session) (turn : Turn) (w : Server rate)
    (payload : String) (msg : Message) (ack : AckPayload)
    → decoder.decode payload ≡ some msg
    → is_ack msg.type ≡ true
    → decoder.decode_ack msg.payload ≡ some ack
    → let w' = read_frame lib decoder s turn payload w in
      (turn.ack_fault ≡ none
        → status_of ack.message_id s.user_id w'.world
          ≡ some (acknowledged msg.type ack.message_id s.user_id (turn.clock 1)))
      × ((m' u' : String)
          → s.user_id ≢ u'
          → (status_of m' u' w'.world ≡ status_of m' u' w.world)
            × (w'.world.manager ≡ w.world.manager))
      × (w'.service ≡ w.service)
read_frame_acknowledges lib decoder s turn w payload msg ack d a k =
    rw (read_frame-ack lib decoder s turn w payload msg ack d a k) (
      λ e. simp e (handle_ack_own (turn.clock 1) s.user_id msg.type ack w.world),
      λ m' u' ne.
          handle_ack_others turn.ack_fault (turn.clock 1) ack.timestamp s.user_id ack.message_id
            (with_status msg.type ack).status w.world m' u' ne,
      refl,
    )
