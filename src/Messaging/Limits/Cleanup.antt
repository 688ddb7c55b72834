-- ===== src/Messaging/Limits/Cleanup.antt =====
-- What `Cleanup` forgets.
use krampus.Prelude.{
  ℕ, String, Bool, true, false, none, [], ◌∷◌, inl, inr, ◌≡◌, refl, if◌then◌else◌, str_eq, arith,
  eq_iff, Bool-cases,
}
use krampus.Prelude.Dict.{Dict, lookup, delete, lookup-delete}
use krampus.Messaging.Limits.{RateLib, RateLimiter, is_stale, sweep, cleanup}

abbrev is_key : String → {V : Type 0} → Dict V → Bool
is_key k [] = false
is_key k ((j, v) ∷ m) = let rest = is_key k m in if str_eq j k then true else rest

is_stale-none : (now : ℕ) → is_stale now none ≡ true
unfolding is_stale
is_stale-none now = refl

-- What both maps hold of a key after the loop over some entries.
sweep_lem :
    (lib : RateLib) (now : ℕ) (entries : Dict lib.Limiter) (rl : RateLimiter lib) (k : String)
    → let gone = if is_key k entries then is_stale now (lookup k rl.last_used) else false in
      (lookup k (sweep lib now entries rl).limiters ≡ (if gone then none else lookup k rl.limiters))
      × (lookup k (sweep lib now entries rl).last_used
          ≡ (if gone then none else lookup k rl.last_used))
unfolding sweep
sweep_lem lib now [] rl k = (refl, refl)
sweep_lem lib now ((j, l) ∷ entries) rl k =
    let swept : RateLimiter lib = record {
      limiters = delete j rl.limiters;
      last_used = delete j rl.last_used;
    } in
    let ih = sweep_lem lib now entries in
    elim (Bool-cases (is_stale now (lookup j rl.last_used))) [
      | inl e ↦ (
        ground (
          arith,
          e,
          eq_iff j k,
          (ih rl k).0,
          (ih swept k).0,
          lookup-delete j k rl.limiters,
          lookup-delete j k rl.last_used,
          is_stale-none now,
        ),
        ground (
          arith,
          e,
          eq_iff j k,
          (ih rl k).1,
          (ih swept k).1,
          lookup-delete j k rl.limiters,
          lookup-delete j k rl.last_used,
          is_stale-none now,
        ),
      )
      | inr e ↦ (
        ground (
          arith,
          e,
          eq_iff j k,
          (ih rl k).0,
          (ih swept k).0,
          lookup-delete j k rl.limiters,
          lookup-delete j k rl.last_used,
          is_stale-none now,
        ),
        ground (
          arith,
          e,
          eq_iff j k,
          (ih rl k).1,
          (ih swept k).1,
          lookup-delete j k rl.limiters,
          lookup-delete j k rl.last_used,
          is_stale-none now,
        ),
      )
    ]

is_key-lookup : {V : Type 0} (k : String) (m : Dict V) → is_key k m ≡ false → lookup k m ≡ none
unfolding lookup
is_key-lookup k [] h = refl
is_key-lookup k ((j, v) ∷ m) h = ground (arith, is_key-lookup k m)

-- `Cleanup` forgets a limiter exactly if it was last used more than ten minutes ago, with the time
-- of its last use; everything else stays.
pub lookup-cleanup :
    (lib : RateLib) (now : ℕ) (rl : RateLimiter lib) (k : String)
    → lookup k (cleanup lib now rl).limiters
      ≡ (if is_stale now (lookup k rl.last_used) then none else lookup k rl.limiters)
unfolding cleanup
lookup-cleanup lib now rl k =
    ground (arith, (sweep_lem lib now rl.limiters rl k).0, is_key-lookup k rl.limiters)
