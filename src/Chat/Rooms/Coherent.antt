-- ===== src/Chat/Rooms/Coherent.antt =====
-- The cache against the table.
use krampus.Prelude.{
  ℕ, zero, suc, String, none, some, List, [], ◌∷◌, ◌≡◌, ◌≢◌, inl, inr, subst, sym, arith, eq_iff,
  Option-cases, All, All-append, Bool-cases, str_eq, str_eq_refl, ap, ◌∙◌, length, ◌&&◌, ◌==◌, refl,
}
use krampus.Prelude.Dict.{Dict, lookup, insert, delete, lookup-insert, lookup-delete}
use krampus.Domain.Errors.{ok, Result-cases}
use krampus.Domain.Room.{Room}
use krampus.Storage.Cache.{cached}
use krampus.Storage.Fault.{Fault, exec}
use krampus.Chat.Access.{validate_room, validate_room_iff}
use krampus.Chat.Rooms.{
  create_room, upsert_room, RoomWorld, RoomFaults, get_room, delete_room, run_pending, expire, nth,
  without, stored,
}

-- What the cache and the waiting writes hold of a room is what the table holds.
pub record IsCoherent (w : RoomWorld) : Type 0 where
  pub cache_agrees :
      (id : String) (r : Room) → lookup id w.cache ≡ some r → lookup id w.table ≡ some r
  pub pending_agrees : All (λ p. lookup p.0 w.table ≡ some p.1) w.pending

stored_room :
    (id : String) (room : Room) (table : Dict Room)
    → lookup id table ≡ some room
    → stored none id table ≡ ok room
unfolding stored
stored_room id room table e = rw (e, stored)

cached_room :
    (fault : Fault) (id : String) (room : Room) (cache : Dict Room)
    → cached fault id cache ≡ some room
    → lookup id cache ≡ some room
unfolding cached
cached_room none id room cache e = e
cached_room (some x) id room cache e = cc

in_table :
    (fault : Fault) (id : String) (room : Room) (table : Dict Room)
    → stored fault id table ≡ ok room
    → lookup id table ≡ some room
unfolding stored
in_table (some x) id room table e = cc
in_table none id room table e = elim (Option-cases (lookup id table)) [
  | inl missing ↦ ground (arith, missing)
  | inr (r, found) ↦ ground (arith, found)
]

-- In a coherent world `GetRoom` answers what the table holds, from the cache or not, whenever the
-- database answers: the room, or an error if there is none.
pub get_room-stored :
    (faults : RoomFaults) (id : String) (w : RoomWorld)
    → IsCoherent w
    → faults.db ≡ none
    → (get_room faults id w).0 ≡ stored none id w.table
unfolding get_room stored
get_room-stored faults id w h e = elim (Option-cases (cached faults.cache_get id w.cache)) [
  | inl none_cached ↦ elim (Result-cases (stored none id w.table)) [
    | inl (x, bad) ↦ rw (none_cached, e, bad, get_room)
    | inr (room, good) ↦ rw (none_cached, e, good, get_room)
  ]
  | inr (room, hit) ↦ rw (
    hit,
    get_room,
    stored_room id room w.table
        (h.cache_agrees id room (cached_room faults.cache_get id room w.cache hit)),
  )
]

get_room-IsCoherent :
    (faults : RoomFaults) (id : String) (w : RoomWorld)
    → IsCoherent w
    → IsCoherent (get_room faults id w).1
unfolding get_room
get_room-IsCoherent faults id w h = elim (Option-cases (cached faults.cache_get id w.cache)) [
  | inl none_cached ↦ elim (Result-cases (stored faults.db id w.table)) [
    | inl (x, bad) ↦ rw (none_cached, bad, get_room) h
    | inr (room, good) ↦
        rw (none_cached, good, get_room)
          record {
            cache_agrees = h.cache_agrees;
            pending_agrees =
                All-append _ w.pending _ h.pending_agrees
                  (in_table faults.db id room w.table good, tt);
          }
  ]
  | inr (room, hit) ↦ rw (hit, get_room) h
]

some_inj : (q p : String × Room) → some q ≡ some p → q ≡ p
some_inj q p e = cc

All-nth :
    (P : String × Room → Type 0) (k : ℕ) (ps : List (String × Room)) (p : String × Room)
    → All P ps
    → nth k ps ≡ some p
    → P p
All-nth P k [] p h e = cc
All-nth P zero (q ∷ qs) p h e = subst P (some_inj q p e) h.0
All-nth P (suc k) (q ∷ qs) p h e = All-nth P k qs p h.1 e

All-without :
    (P : String × Room → Type 0) (k : ℕ) (ps : List (String × Room))
    → All P ps
    → All P (without k ps)
All-without P k [] h = tt
All-without P zero (q ∷ qs) h = h.1
All-without P (suc k) (q ∷ qs) h = (h.0, All-without P k qs h.1)

-- A write of what the table holds, run or failed, leaves a cache that the table agrees with.
exec_agrees :
    (fault : Fault) (id j : String) (room r : Room) (w : RoomWorld)
    → lookup id w.table ≡ some room
    → ((i : String) (s : Room) → lookup i w.cache ≡ some s → lookup i w.table ≡ some s)
    → lookup j (exec fault w.cache (insert id room w.cache)).1 ≡ some r
    → lookup j w.table ≡ some r
exec_agrees (some x) id j room r w here h e = h j r e
exec_agrees none id j room r w here h e =
    ground (arith, lookup-insert id j room w.cache, eq_iff id j, h j r)

run_pending-IsCoherent :
    (fault : Fault) (k : ℕ) (w : RoomWorld) → IsCoherent w → IsCoherent (run_pending fault k w)
unfolding run_pending
run_pending-IsCoherent fault k w h = elim (Option-cases (nth k w.pending)) [
  | inl e ↦ rw (e, run_pending) h
  | inr (p, e) ↦
      rw (e, run_pending)
        record {
          cache_agrees = λ j r found.
              exec_agrees fault p.0 j p.1 r w
                (All-nth (λ q. lookup q.0 w.table ≡ some q.1) k w.pending p h.pending_agrees e)
                h.cache_agrees found;
          pending_agrees =
              All-without (λ q. lookup q.0 w.table ≡ some q.1) k w.pending h.pending_agrees;
        }
]

expire-IsCoherent : (id : String) (w : RoomWorld) → IsCoherent w → IsCoherent (expire id w)
unfolding expire
expire-IsCoherent id w h = record {
  cache_agrees = λ j r e. h.cache_agrees j r (ground (arith, lookup-delete id j w.cache));
  pending_agrees = h.pending_agrees;
}

still_agrees :
    (id : String) (table : Dict Room) (ps : List (String × Room))
    → All (λ p. p.0 ≢ id) ps
    → All (λ p. lookup p.0 table ≡ some p.1) ps
    → All (λ p. lookup p.0 (delete id table) ≡ some p.1) ps
still_agrees id table [] free h = tt
still_agrees id table (p ∷ ps) free h = (
  ground (arith, eq_iff id p.0, lookup-delete id p.0 table, free.0, h.0),
  still_agrees id table ps free.1 h.1,
)

-- A room that no waiting write is about can be deleted.
delete_room-IsCoherent :
    (faults : RoomFaults) (id : String) (w : RoomWorld)
    → IsCoherent w
    → All (λ p. p.0 ≢ id) w.pending
    → faults.cache_write ≡ none
    → IsCoherent (delete_room faults id w).1
unfolding delete_room
delete_room-IsCoherent faults id w h free e = elim (Option-cases faults.db) [
  | inr (x, bad) ↦ rw (bad, delete_room) h
  | inl good ↦
      rw (good, e, delete_room)
        record {
          cache_agrees = λ j r found.
              ground
                (arith, lookup-delete id j w.cache, lookup-delete id j w.table, h.cache_agrees j r);
          pending_agrees = still_agrees id w.table w.pending free h.pending_agrees;
        }
]

-- What a table holds of a room it still holds when a room that it did not have is added.
lookup-insert_new :
    (id j : String) (room r : Room) (table : Dict Room)
    → lookup id table ≡ none
    → lookup j table ≡ some r
    → lookup j (insert id room table) ≡ some r
lookup-insert_new id j room r table new e = elim (Bool-cases (str_eq id j)) [
  | inl c ↦ absurd (
      let z : lookup j table ≡ none = subst (λ i. lookup i table ≡ none) ((eq_iff id j).0 c) new in
      cc)
  | inr c ↦ rw (lookup-insert id j room table, c) e
]

still_agrees_new :
    (id : String) (room : Room) (table : Dict Room) (ps : List (String × Room))
    → lookup id table ≡ none
    → All (λ p. lookup p.0 table ≡ some p.1) ps
    → All (λ p. lookup p.0 (insert id room table) ≡ some p.1) ps
still_agrees_new id room table [] new h = tt
still_agrees_new id room table (p ∷ ps) new h =
    (lookup-insert_new id p.0 room p.1 table new h.0, still_agrees_new id room table ps new h.1)

valid_id : (room valid : Room) → validate_room room ≡ ok valid → valid.id ≡ room.id
valid_id room valid h =
    ap (λ r. r.id) ((validate_room_iff room valid).0 h).3
    ∙ (elim (Bool-cases (str_eq room.type "group" && length room.members == 0)) [
      | inl c ↦ rw (c) refl
      | inr c ↦ rw (c) refl
    ])

-- A room with an id that is not in the table can be created.
create_room-IsCoherent :
    (db : Fault) (now : ℕ) (room : Room) (w : RoomWorld)
    → IsCoherent w
    → lookup room.id w.table ≡ none
    → IsCoherent (create_room db now room w).1
unfolding create_room upsert_room
create_room-IsCoherent db now room w h new = elim (Result-cases (validate_room room)) [
  | inl (x, bad) ↦ rw (bad, create_room) h
  | inr (valid, good) ↦ elim (Option-cases db) [
    | inr (x, e) ↦ simp (good, e, create_room) h
    | inl e ↦
        let absent : lookup valid.id w.table ≡ none =
          subst (λ i. lookup i w.table ≡ none) (sym (valid_id room valid good)) new in
        let made : Room = record valid { created_at = now; updated_at = now } in
        let here : lookup valid.id (insert valid.id made w.table) ≡ some made =
          rw (lookup-insert valid.id valid.id made w.table, str_eq_refl valid.id) refl in
        simp (good, e, absent, create_room, upsert_room)
          record {
            cache_agrees = λ j r found.
                lookup-insert_new valid.id j _ r w.table absent (h.cache_agrees j r found);
            pending_agrees =
                All-append _ w.pending _
                  (still_agrees_new valid.id _ w.table w.pending absent h.pending_agrees)
                  (here, tt);
          }
  ]
]

-- One step of the service beside its cache.
pub data Step : RoomWorld → RoomWorld → Type 0 where
  got : {w : RoomWorld} (faults : RoomFaults) (id : String) → Step w (get_room faults id w).1
  ran : {w : RoomWorld} (fault : Fault) (k : ℕ) → Step w (run_pending fault k w)
  created :
      {w : RoomWorld} (db : Fault) (now : ℕ) (room : Room)
      → lookup room.id w.table ≡ none
      → Step w (create_room db now room w).1
  expired : {w : RoomWorld} (id : String) → Step w (expire id w)
  deleted :
      {w : RoomWorld} (faults : RoomFaults) (id : String)
      → faults.cache_write ≡ none
      → All (λ p. p.0 ≢ id) w.pending
      → Step w (delete_room faults id w).1

pub data Reach : RoomWorld → RoomWorld → Type 0 where
  start : {w : RoomWorld} → Reach w w
  next : {u v w : RoomWorld} → Reach u v → Step v w → Reach u w

Step-IsCoherent : {v w : RoomWorld} → Step v w → IsCoherent v → IsCoherent w
Step-IsCoherent (got faults id) h = get_room-IsCoherent faults id _ h
Step-IsCoherent (ran fault k) h = run_pending-IsCoherent fault k _ h
Step-IsCoherent (expired id) h = expire-IsCoherent id _ h
Step-IsCoherent (created db now room new) h = create_room-IsCoherent db now room _ h new
Step-IsCoherent (deleted faults id e free) h = delete_room-IsCoherent faults id _ h free e

Reach-IsCoherent : {u w : RoomWorld} → Reach u w → IsCoherent u → IsCoherent w
Reach-IsCoherent start h = h
Reach-IsCoherent (next path step) h = Step-IsCoherent step (Reach-IsCoherent path h)

-- From a world whose cache and waiting writes hold of a room only what the table holds, after any
-- sequence of reads, late cache writes, expiries of cache entries, creations of rooms with ids that the
-- table does not have, and deletions that Redis does not refuse of rooms that no late write is about,
-- `GetRoom` answers what the table holds if the database answers. Updates, creations over an existing
-- row and other deletions are not among the steps.
pub Reach-get_room :
    {u w : RoomWorld} (faults : RoomFaults) (id : String)
    → Reach u w
    → IsCoherent u
    → faults.db ≡ none
    → (get_room faults id w).0 ≡ stored none id w.table
Reach-get_room faults id path h e = get_room-stored faults id _ (Reach-IsCoherent path h) e
