-- ===== src/Chat/Users/Permissions.antt =====
-- What `ValidateUserPermissions` and `UpdateLastActivity` answer.
use krampus.Prelude.{
  ℕ, String, none, some, List, [], ◌∷◌, ◌≡◌, ◌≢◌, ◌↔◌, refl, sym, ◌∙◌, arith, inl, inr, In, All,
  contains→In, In→contains, Option-cases,
}
use krampus.Prelude.Dict.{lookup}
use krampus.Domain.Errors.{ok}
use krampus.Domain.Message.{GoLib}
use krampus.Domain.Room.{User}
use krampus.Storage.Cache.{cached}
use krampus.Storage.Fault.{Fault}
use krampus.Chat.Users.{
  UserWorld, UserFaults, get_user, stored_user, find_row, check_permissions,
  validate_user_permissions, update_last_activity, touch,
}

check_permissions-ok :
    (owned required : List String)
    → All (λ p. In p owned) required
    → check_permissions owned required ≡ ok tt
unfolding check_permissions
check_permissions-ok owned [] h = refl
check_permissions-ok owned (p ∷ required) h =
    ground (arith, In→contains p owned, h.0, check_permissions-ok owned required h.1)

ok-check_permissions :
    (owned required : List String)
    → check_permissions owned required ≡ ok tt
    → All (λ p. In p owned) required
unfolding check_permissions
ok-check_permissions owned [] e = tt
ok-check_permissions owned (p ∷ required) e =
    (ground (arith, contains→In p owned), ok-check_permissions owned required (ground arith))

validate_hit :
    (lib : GoLib) (faults : UserFaults) (id : String) (required : List String) (w : UserWorld)
    (user : User)
    → cached faults.cache_get id w.cache ≡ some user
    → (validate_user_permissions lib faults id required w).0
      ≡ check_permissions user.permissions required
unfolding validate_user_permissions get_user
validate_hit lib faults id required w user e = rw (e, validate_user_permissions, get_user)

stored_user_without_permissions :
    (lib : GoLib) (fault : Fault) (id : String) (table : List User) (user : User)
    → stored_user lib fault id table ≡ some user
    → user.permissions ≡ []
unfolding stored_user
stored_user_without_permissions lib (some e) id table user h = cc
stored_user_without_permissions lib none id table user h = elim (Option-cases (lib.parse_int id)) [
  | inl e ↦ ground (arith, e)
  | inr (n, e) ↦ elim (Option-cases (find_row n table)) [
    | inl f ↦ ground (arith, e, f)
    | inr (u, f) ↦ ground (arith, e, f)
  ]
]

nothing_owned :
    (owned required : List String)
    → owned ≡ []
    → required ≢ []
    → check_permissions owned required ≢ ok tt
unfolding check_permissions
nothing_owned owned [] e h a = h refl
nothing_owned owned (p ∷ required) e h a =
    ground (arith, (ok-check_permissions owned (p ∷ required) a).0)

validate_miss :
    (lib : GoLib) (faults : UserFaults) (id : String) (required : List String) (w : UserWorld)
    → cached faults.cache_get id w.cache ≡ none
    → required ≢ []
    → (validate_user_permissions lib faults id required w).0 ≢ ok tt
unfolding validate_user_permissions get_user
validate_miss lib faults id required w e h =
    elim (Option-cases (stored_user lib faults.db id w.table)) [
      | inl f ↦ rw (e, f, validate_user_permissions, get_user) (λ a. cc)
      | inr (user, f) ↦
          rw (e, f, validate_user_permissions, get_user)
            (nothing_owned user.permissions required
              (stored_user_without_permissions lib faults.db id w.table user f) h)
    ]

-- `ValidateUserPermissions` accepts a user that the cache answers with exactly if every required
-- permission is one of the user's. A user that the table answers with has none there, whatever the
-- table says: anything required is refused.
pub validate_user_permissions_lem :
    (lib : GoLib) (faults : UserFaults) (id : String) (required : List String) (w : UserWorld)
    → ((user : User)
        → cached faults.cache_get id w.cache ≡ some user
        → ((validate_user_permissions lib faults id required w).0 ≡ ok tt)
          ↔ All (λ p. In p user.permissions) required)
      × (cached faults.cache_get id w.cache ≡ none
          → required ≢ []
          → (validate_user_permissions lib faults id required w).0 ≢ ok tt)
validate_user_permissions_lem lib faults id required w = (
  λ user e. (
    λ a.
        ok-check_permissions user.permissions required
          (sym (validate_hit lib faults id required w user e) ∙ a),
    λ h.
        validate_hit lib faults id required w user e
        ∙ check_permissions-ok user.permissions required h,
  ),
  validate_miss lib faults id required w,
)

touched :
    (now : ℕ) (id : String) (w : UserWorld) (user : User)
    → lookup id w.cache ≡ some user
    → touch now id w ≢ none
unfolding touch
touched now id w user e = rw (e, touch) (λ a. cc)

-- Where the database answers and the cache has no entry for the user, `UpdateLastActivity` panics:
-- it writes through the `nil` that the cache answered with.
pub update_last_activity_panics :
    (lib : GoLib) (faults : UserFaults) (now n : ℕ) (id : String) (w : UserWorld)
    → lib.parse_int id ≡ some n
    → faults.db ≡ none
    → faults.cache_get ≡ none
    → (update_last_activity lib faults now id w ≡ none) ↔ (lookup id w.cache ≡ none)
unfolding update_last_activity touch
update_last_activity_panics lib faults now n id w p d c =
    rw (p, d, c, update_last_activity)
      (elim (Option-cases (lookup id w.cache)) [
        | inl e ↦ (λ a. e, λ a. rw (e, touch) refl)
        | inr (user, e) ↦ (λ a. absurd (touched now id w user e a), λ a. cc (a, e))
      ])
