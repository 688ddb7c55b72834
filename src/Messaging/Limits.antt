-- ===== src/Messaging/Limits.antt =====
-- `RateLimiter` of internal/message/service/rateLimiterService.go. The token buckets of
-- golang.org/x/time/rate are a parameter.
pub mod Cleanup
use krampus.Prelude.{
  ℕ, ◌-◌, ◌*◌, String, Bool, true, Option, none, some, List, [], ◌∷◌, if◌then◌else◌, str_eq, ltb,
}
use Prim.Native.String.{◌++◌ as text_append}
use krampus.Prelude.Dict.{Dict, lookup, insert, delete}
use krampus.Domain.Errors.{Error, Result, ok, err, new_error, rate_limit}
use krampus.Domain.Message.{minute}

-- `rate.NewLimiter(rate.Limit(r), b)`, and `Allow` at a time
pub record RateLib : Type 1 where
  pub Limiter : Type 0
  pub new_limiter : ℕ → ℕ → Limiter
  pub allow : ℕ → Limiter → Bool × Limiter

pub record RateLimiter (lib : RateLib) : Type 0 where
  pub limiters : Dict lib.Limiter
  pub last_used : Dict ℕ

-- `NewRateLimiter`
unfoldable pub new_rate_limiter : (lib : RateLib) → RateLimiter lib
new_rate_limiter lib = record { limiters = []; last_used = [] }

-- `createLimiter`
unfoldable pub create_limiter : (lib : RateLib) → String → lib.Limiter
create_limiter lib t =
    if str_eq t "text"
    then lib.new_limiter 10 10
    else if str_eq t "command"
    then lib.new_limiter 2 2
    else if str_eq t "typing"
    then lib.new_limiter 5 5
    else if str_eq t "file"
    then lib.new_limiter 1 3
    else lib.new_limiter 50 50

abbrev pub limiter_key : String → String → String
limiter_key user t = text_append user (text_append ":" t)

-- the limiter of the map, or a new one
abbrev pub or_new : (lib : RateLib) → String → Option lib.Limiter → lib.Limiter
unfolding create_limiter
or_new lib t none = create_limiter lib t
or_new lib t (some l) = l

-- `Check` at the time `now`
unfoldable pub check :
    (lib : RateLib) → ℕ → String → String → RateLimiter lib → Result (Unit {0}) × RateLimiter lib
unfolding or_new
check lib now user t rl =
    let key = limiter_key user t in
    let (allowed, l) = lib.allow now (or_new lib t (lookup key rl.limiters)) in
    let rl' : RateLimiter lib = record {
      limiters = insert key l rl.limiters;
      last_used = insert key now rl.last_used;
    } in
    (if allowed then ok tt else err (new_error rate_limit "rate exceeded"), rl')

-- `time.Since(rl.lastUsed[key]) > 10*time.Minute`; a missing key is the zero time, long ago
unfoldable pub is_stale : ℕ → Option ℕ → Bool
is_stale now none = true
is_stale now (some t) = ltb (10 * minute) (now - t)

-- the loop of `Cleanup` over the entries of a map, with deletions on the way
unfoldable pub sweep : (lib : RateLib) → ℕ → Dict lib.Limiter → RateLimiter lib → RateLimiter lib
unfolding is_stale
sweep lib now [] rl = rl
sweep lib now ((key, l) ∷ entries) rl =
    let swept : RateLimiter lib = record {
      limiters = delete key rl.limiters;
      last_used = delete key rl.last_used;
    } in
    sweep lib now entries (if is_stale now (lookup key rl.last_used) then swept else rl)

-- `Cleanup` at the time `now`
unfoldable pub cleanup : (lib : RateLib) → ℕ → RateLimiter lib → RateLimiter lib
unfolding sweep
cleanup lib now rl = sweep lib now rl.limiters rl
