-- ===== src/Events/Snapshots.antt =====
-- snapshot_repository.go, snapshot.go and idempotency.go: the aggregate_snapshots and processed_events
-- tables.
use krampus.Prelude.{
  ℕ, String, Bool, false, none, some, List, [], ◌∷◌, ◌≡◌, inl, inr, refl, if◌then◌else◌, str_eq,
  str_eq_refl, arith, Bool-cases, eq_iff,
}
use krampus.Domain.Errors.{Result, ok, err, plain}
use krampus.Storage.Fault.{Fault, exec}

-- `Snapshot`
pub record Snapshot : Type 0 where
  pub id : ℕ
  pub aggregate_type : String
  pub aggregate_id : String
  pub last_sequence : ℕ
  pub snapshot : String
  pub created_at : ℕ

-- the unique index on aggregate_type and aggregate_id
abbrev pub is_snapshot_of : String → String → Snapshot → Bool
is_snapshot_of t id s = if str_eq s.aggregate_type t then str_eq s.aggregate_id id else false

-- the INSERT of `Save` with its ON CONFLICT clause; `id` and `now` are the defaults of the table
unfoldable pub upsert_snapshot : ℕ → ℕ → Snapshot → List Snapshot → List Snapshot
upsert_snapshot id now s [] = record s { id = id; created_at = now } ∷ []
upsert_snapshot id now s (row ∷ rows) =
    let rest = upsert_snapshot id now s rows in
    if is_snapshot_of s.aggregate_type s.aggregate_id row
    then record row { last_sequence = s.last_sequence; snapshot = s.snapshot; created_at = now }
      ∷ rows
    else row ∷ rest

-- `SnapshotRepository.Save`
unfoldable pub save_snapshot :
    Fault → ℕ → ℕ → Snapshot → List Snapshot → Result (Unit {0}) × List Snapshot
unfolding upsert_snapshot
save_snapshot fault id now s rows = exec fault rows (upsert_snapshot id now s rows)

unfoldable pub find_snapshot : String → String → List Snapshot → Result Snapshot
find_snapshot t id [] = err (plain "sql: no rows in result set")
find_snapshot t id (row ∷ rows) =
    let rest = find_snapshot t id rows in if is_snapshot_of t id row then ok row else rest

-- `SnapshotRepository.Get`
unfoldable pub get_snapshot : Fault → String → String → List Snapshot → Result Snapshot
unfolding find_snapshot
get_snapshot (some text) t id rows = err (plain text)
get_snapshot none t id rows = find_snapshot t id rows

upsert_snapshot-find_snapshot :
    (id now : ℕ) (s : Snapshot) (rows : List Snapshot)
    → (r : Snapshot) × (find_snapshot s.aggregate_type s.aggregate_id
          (upsert_snapshot id now s rows)
        ≡ ok r)
      × (r.last_sequence ≡ s.last_sequence)
      × (r.snapshot ≡ s.snapshot)
unfolding find_snapshot upsert_snapshot
upsert_snapshot-find_snapshot id now s [] = (
  record s { id = id; created_at = now },
  ground (arith, str_eq_refl s.aggregate_type, str_eq_refl s.aggregate_id),
  refl,
  refl,
)
upsert_snapshot-find_snapshot id now s (row ∷ rows) =
    elim (Bool-cases (is_snapshot_of s.aggregate_type s.aggregate_id row)) [
      | inl c ↦
          rw (c, upsert_snapshot)
            (
              record row {
                last_sequence = s.last_sequence;
                snapshot = s.snapshot;
                created_at = now;
              },
              ground (arith, c),
              refl,
              refl,
            )
      | inr c ↦
          let rest = upsert_snapshot-find_snapshot id now s rows in
          (rest.0, ground (arith, c, rest.1), rest.2, rest.3)
    ]

upsert_snapshot-find_snapshot_ne :
    (id now : ℕ) (s : Snapshot) (t key : String) (rows : List Snapshot)
    → ¬ ((s.aggregate_type ≡ t) × (s.aggregate_id ≡ key))
    → find_snapshot t key (upsert_snapshot id now s rows) ≡ find_snapshot t key rows
unfolding find_snapshot upsert_snapshot
upsert_snapshot-find_snapshot_ne id now s t key [] h =
    ground (arith, eq_iff s.aggregate_type t, eq_iff s.aggregate_id key, h)
upsert_snapshot-find_snapshot_ne id now s t key (row ∷ rows) h = ground (
  arith,
  eq_iff s.aggregate_type t,
  eq_iff s.aggregate_id key,
  h,
  eq_iff row.aggregate_type t,
  eq_iff row.aggregate_id key,
  eq_iff row.aggregate_type s.aggregate_type,
  eq_iff row.aggregate_id s.aggregate_id,
  upsert_snapshot-find_snapshot_ne id now s t key rows h,
)

-- After `Save` of a snapshot that does not fail, `Get` of its aggregate finds a row with its sequence
-- number and its contents, and `Get` of another aggregate answers as before.
pub get_snapshot-save_snapshot :
    (id now : ℕ) (s : Snapshot) (t key : String) (rows : List Snapshot)
    → ¬ ((s.aggregate_type ≡ t) × (s.aggregate_id ≡ key))
    → ((r : Snapshot) × (get_snapshot none s.aggregate_type s.aggregate_id
            (save_snapshot none id now s rows).1
          ≡ ok r)
        × (r.last_sequence ≡ s.last_sequence)
        × (r.snapshot ≡ s.snapshot))
      × (get_snapshot none t key (save_snapshot none id now s rows).1
          ≡ get_snapshot none t key rows)
unfolding get_snapshot save_snapshot
get_snapshot-save_snapshot id now s t key rows h = (
  upsert_snapshot-find_snapshot id now s rows,
  upsert_snapshot-find_snapshot_ne id now s t key rows h,
)
