-- ===== src/Chat/Access.antt =====
-- `CanSendMessage`, `isRoomMember`, `isCallActive` and `validateRoom` of
-- internal/chat/service/roomService.go.
use krampus.Prelude.{
  String, Bool, true, false, ◌&&◌, ◌||◌, not, [], ◌∷◌, ◌++◌, str_eq, leb, ◌==◌, if◌then◌else◌,
  length, contains, In, In→contains, contains→In, ◌≡◌, ◌≢◌, ◌⊎◌, ◌↔◌, inl, inr, arith, eq_iff, ◌≤◌,
  Bool-cases, sym, ◌∙◌,
}
use krampus.Domain.Room.{Room, RoomSettings}
use krampus.Domain.Errors.{plain, Result, ok, err}
use Prim.Native.String.{◌++◌ as text_append}

-- `isRoomMember`
abbrev pub is_room_member : Room → String → Bool
is_room_member room user = contains user room.members

-- `isCallActive`
unfoldable pub is_call_active : Room → Bool
is_call_active room =
    if not (str_eq room.type "video_call") then false else leb 2 (length room.members)

-- `CanSendMessage` for the user id `user`
unfoldable pub can_send_message : Room → String → String → Bool
unfolding is_call_active
can_send_message room user msg_type =
    if not (is_room_member room user)
    then str_eq msg_type "system"
    else if str_eq room.type "personal"
    then true
    else if str_eq room.type "private"
    then true
    else if str_eq room.type "group"
    then true
    else if str_eq room.type "video_call"
    then is_call_active room
    else if room.settings.read_only && not (str_eq msg_type "system")
    then false
    else if not room.settings.allow_files && str_eq msg_type "file"
    then false
    else true

-- the types that the `switch` of `validateRoom` lets through
abbrev pub is_known_type : String → Bool
is_known_type t =
    str_eq t "personal" || (str_eq t "private" || (str_eq t "group" || str_eq t "video_call"))

-- `validateRoom`, which may change the members of the room
unfoldable pub validate_room : Room → Result Room
validate_room room =
    if str_eq room.id ""
    then err (plain "room ID cannot be empty")
    else if str_eq room.owner_id ""
    then err (plain "room must have an owner")
    else if not (is_known_type room.type)
    then err (plain (text_append "invalid room type: " room.type))
    else if str_eq room.type "group" && length room.members == 0
    then ok (record room { members = room.members ++ room.owner_id ∷ [] })
    else ok room

-- For the types that `validateRoom` accepts, only membership and the size of a call decide.
can_send_known :
    (room : Room) (user msg_type : String)
    → is_known_type room.type ≡ true
    → can_send_message room user msg_type ≡ (
        if contains user room.members
        then (if str_eq room.type "video_call" then leb 2 (length room.members) else true)
        else str_eq msg_type "system")
unfolding can_send_message
can_send_known room user msg_type known = ground (
  arith,
  eq_iff room.type "video_call",
  eq_iff room.type "personal",
  eq_iff room.type "private",
  eq_iff room.type "group",
  eq_iff "video_call" "personal",
  eq_iff "video_call" "private",
  eq_iff "video_call" "group",
)

-- In a room of a type that `validateRoom` accepts, a member may send anything, but to a call only
-- with two members or more; somebody else may send system messages only. Nothing else decides.
pub can_send_message_iff :
    (room : Room) (user msg_type : String)
    → is_known_type room.type ≡ true
    → (can_send_message room user msg_type ≡ true) ↔ (
        (In user room.members × (room.type ≢ "video_call"))
        ⊎ (In user room.members × (2 ≤ length room.members))
        ⊎ ((¬ In user room.members) × (msg_type ≡ "system")))
can_send_message_iff room user msg_type known =
    let same = can_send_known room user msg_type known in
    let member = contains→In user room.members in
    let listed = In→contains user room.members in
    (
      λ h. elim (Bool-cases (contains user room.members)) [
        | inl m ↦ elim (Bool-cases (str_eq room.type "video_call")) [
          | inl v ↦ inr (inl (member m, ground arith))
          | inr v ↦ inl (member m, ground (arith, eq_iff room.type "video_call"))
        ]
        | inr m ↦ inr (inr (λ i. cc (listed i), ground (arith, eq_iff msg_type "system")))
      ],
      elim [
        | inl (m, t) ↦ ground (arith, listed m, eq_iff room.type "video_call")
        | inr (inl (m, t)) ↦ ground (arith, listed m)
        | inr (inr (n, t)) ↦ elim (Bool-cases (contains user room.members)) [
          | inl m ↦ absurd (n (member m))
          | inr m ↦ ground (arith, eq_iff msg_type "system")
        ]
      ],
    )

-- The settings of a room of a type that `validateRoom` accepts are never looked at: `read_only` and
-- `allow_files` forbid nothing.
pub settings_ignored :
    (room : Room) (s : RoomSettings) (user msg_type : String)
    → is_known_type room.type ≡ true
    → can_send_message (record room { settings = s }) user msg_type
      ≡ can_send_message room user msg_type
settings_ignored room s user msg_type known =
    can_send_known (record room { settings = s }) user msg_type known
    ∙ sym (can_send_known room user msg_type known)

-- `validateRoom` accepts exactly the rooms with an id, an owner and a known type. What it returns is
-- the room itself, but for an empty group its owner becomes the only member.
pub validate_room_iff :
    (room out : Room)
    → (validate_room room ≡ ok out) ↔ (
        (room.id ≢ "")
        × (room.owner_id ≢ "")
        × (is_known_type room.type ≡ true)
        × (out ≡ (
            if str_eq room.type "group" && length room.members == 0
            then record room { members = room.members ++ room.owner_id ∷ [] }
            else room)))
unfolding validate_room
validate_room_iff room out = (
  λ h. (
    ground (arith, eq_iff room.id ""),
    ground (arith, eq_iff room.owner_id ""),
    ground (arith),
    ground (arith),
  ),
  λ (i, o, t, e). ground (arith, eq_iff room.id "", eq_iff room.owner_id ""),
)
