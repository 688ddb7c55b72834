-- ===== src/Storage/Status.antt =====
-- internal/message/storage/deliveryStatusRepository.go over sql/queries (UpsertDeliveryStatus).
use krampus.Prelude.{
  ℕ, String, Bool, ◌&&◌, Option, none, some, List, [], ◌∷◌, str_eq, if◌then◌else◌, ◌≡◌, refl, arith,
  eq_iff,
}
use krampus.Domain.Errors.{Result}
use krampus.Domain.Message.{DeliveryStatus, delivered, read}
use krampus.Storage.Fault.{Fault, exec}

pub record StatusRow : Type 0 where
  pub message_id : String
  pub user_id : String
  pub status : DeliveryStatus
  pub delivered_at : Option ℕ
  pub read_at : Option ℕ

abbrev pub same_key : String → String → StatusRow → Bool
same_key m u r = str_eq r.message_id m && str_eq r.user_id u

-- INSERT … ON CONFLICT(message_id, user_id) DO UPDATE
unfoldable pub upsert : StatusRow → List StatusRow → List StatusRow
upsert r [] = r ∷ []
upsert r (s ∷ rows) =
    let rest = upsert r rows in if same_key r.message_id r.user_id s then r ∷ rows else s ∷ rest

unfoldable pub find_status : String → String → List StatusRow → Option StatusRow
find_status m u [] = none
find_status m u (s ∷ rows) =
    let rest = find_status m u rows in if same_key m u s then some s else rest

-- `UpdateStatus`
unfoldable pub update_status :
    Fault → String → String → DeliveryStatus → List StatusRow → Result (Unit {0}) × List StatusRow
update_status fault m u s rows = exec fault rows (
    upsert (record { message_id = m; user_id = u; status = s; delivered_at = none; read_at = none })
      rows)

-- `MarkDelivered`
unfoldable pub mark_delivered :
    Fault → String → String → ℕ → List StatusRow → Result (Unit {0}) × List StatusRow
mark_delivered fault m u at rows = exec fault rows (
    upsert
      (record {
        message_id = m;
        user_id = u;
        status = delivered;
        delivered_at = some at;
        read_at = none;
      })
      rows)

-- `MarkRead`
unfoldable pub mark_read :
    Fault → String → String → ℕ → List StatusRow → Result (Unit {0}) × List StatusRow
mark_read fault m u at rows = exec fault rows (
    upsert
      (record {
        message_id = m;
        user_id = u;
        status = read;
        delivered_at = none;
        read_at = some at;
      })
      rows)

pub find_status-upsert :
    (m u : String) (r : StatusRow) (rows : List StatusRow)
    → find_status m u (upsert r rows) ≡ (if same_key m u r then some r else find_status m u rows)
unfolding find_status upsert
find_status-upsert m u r [] = refl
find_status-upsert m u r (s ∷ rows) = ground (
  arith,
  find_status-upsert m u r rows,
  eq_iff r.message_id m,
  eq_iff r.user_id u,
  eq_iff s.message_id m,
  eq_iff s.user_id u,
  eq_iff s.message_id r.message_id,
  eq_iff s.user_id r.user_id,
)
