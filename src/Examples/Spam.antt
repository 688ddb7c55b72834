-- ===== src/Examples/Spam.antt =====
-- The theorem on the spam protector, after one message.
use krampus.Prelude.{ℕ, List, ◌≤◌, [], ◌∷◌, ◌≡◌, if◌then◌else◌, ltb, filter, length, arith}
use krampus.Moderation.Spam.{is_recent, message_limit, allow}
use krampus.Moderation.Spam.Window.{before, mine, allow_limits}

allow_limits_example :
    let (allowed, m) = allow 5 "ann" [] in
    let accepted : List ℕ = if allowed then 5 ∷ [] else [] in
    (length (filter (is_recent 7) accepted) ≤ message_limit)
    × ((allow 7 "ann" m).0 ≡ ltb (length (filter (is_recent 7) accepted)) message_limit)
allow_limits_example = allow_limits "ann" 7 (mine 5 before (omega arith)) (omega arith)
