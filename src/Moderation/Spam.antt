-- ===== src/Moderation/Spam.antt =====
-- `SpamProtector` of internal/moderation/service/spam.go. Each call runs under its lock.
pub mod Window
use krampus.Prelude.{
  ℕ, ◌-◌, String, Bool, true, false, Option, none, some, List, [], ◌∷◌, ◌++◌, if◌then◌else◌, ltb,
  leb, filter, length,
}
use krampus.Prelude.Dict.{Dict, lookup, insert}
use krampus.Domain.Message.{minute}

-- `NewSpamProtector`
abbrev pub new_spam_protector : Dict (List ℕ)
new_spam_protector = []

abbrev pub or_nil : Option (List ℕ) → List ℕ
or_nil none = []
or_nil (some ts) = ts

-- `now.Sub(t) < time.Minute`
unfoldable pub is_recent : ℕ → ℕ → Bool
is_recent now t = ltb (now - t) minute

abbrev pub message_limit : ℕ
message_limit = 20

-- `Allow` at the time `now`
unfoldable pub allow : ℕ → String → Dict (List ℕ) → Bool × Dict (List ℕ)
unfolding is_recent
allow now user last_messages =
    let filtered = filter (is_recent now) (or_nil (lookup user last_messages)) in
    if leb message_limit (length filtered)
    then (false, last_messages)
    else (true, insert user (filtered ++ now ∷ []) last_messages)
