-- ===== src/Domain/Room.antt =====
-- internal/chat/domain and internal/user/domain: rooms and users.
use krampus.Prelude.{ℕ, String, Bool, List, Option}

pub record RoomSettings : Type 0 where
  pub read_only : Bool
  pub moderate_msgs : Bool
  pub allow_files : Bool
  pub max_members : ℕ
  pub auto_archive : Bool

pub record Room : Type 0 where
  pub id : String
  pub type : String
  pub owner_id : String
  pub name : String
  pub members : List String
  pub created_at : ℕ
  pub updated_at : ℕ
  pub settings : RoomSettings
  pub avatar : String

pub data ChatUserStatus : Type 0 where
  online away offline dnd : ChatUserStatus

-- `User`; the fields `Metadata` and `Firstname`, `Lastname`, `Avatar` are only stored.
pub record User : Type 0 where
  pub id : ℕ
  pub username : String
  pub firstname : String
  pub lastname : String
  pub email : String
  pub password_hash : String
  pub avatar : String
  pub two_fa_enabled : Bool
  pub created_at : ℕ
  pub last_active : ℕ
  -- `none` is the zero value, the empty text
  pub status : Option ChatUserStatus
  pub permissions : List String
