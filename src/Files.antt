-- ===== src/Files.antt =====
-- internal/files/service: uploads in chunks. Bytes are numbers; SHA-256 and the text of a key are
-- parameters.
pub mod Recorded
pub mod Missing
pub mod Assembly
pub mod Finalized
pub mod Quota
use krampus.Prelude.{
  ℕ, zero, suc, ◌+◌, ◌^◌, ◌%◌, String, Bool, true, false, Option, none, some, List, [], ◌∷◌, ◌++◌,
  if◌then◌else◌, str_eq, ltb, ◌==◌, filter, length,
}
use krampus.Prelude.Dict.{Dict, lookup}
use krampus.Prelude.Order.{order_by}
use krampus.Domain.Errors.{Error, Result, ok, err, plain}
use krampus.Storage.Fault.{Fault, exec, query}

abbrev pub Bytes : Type 0
Bytes = List ℕ

-- `Chunk`, a row of upload_chunks; session_id and chunk_index are its key
pub record Chunk : Type 0 where
  pub session_id : String
  pub chunk_index : ℕ
  pub chunk_size : ℕ
  pub checksum : String
  pub bytes : Bytes
  pub verified : Bool
  pub uploaded_at : ℕ

-- The columns of upload_sessions that a completion writes, and the key.
pub record UploadSession : Type 0 where
  pub id : String
  pub completed : Bool
  pub upload_status : String
  pub updated_at : ℕ

-- The hexadecimal digest of SHA-256, and `ChunkObjectKey`.
pub record FileLib : Type 0 where
  pub sha256 : Bytes → String
  pub chunk_key : String → ℕ → String

-- `VerifyChecksum`
unfoldable pub verify_checksum : FileLib → Bytes → String → Bool
verify_checksum lib bytes expected = str_eq (lib.sha256 bytes) expected

abbrev pub is_chunk : String → ℕ → Chunk → Bool
is_chunk session index c = if str_eq c.session_id session then c.chunk_index == index else false

unfoldable pub has_chunk : String → ℕ → List Chunk → Bool
has_chunk session index [] = false
has_chunk session index (c ∷ rows) =
    let rest = has_chunk session index rows in if is_chunk session index c then true else rest

-- `ChunkExists`
unfoldable pub chunk_exists : Fault → String → ℕ → List Chunk → Result Bool
unfolding has_chunk
chunk_exists fault session index rows = query fault (has_chunk session index rows)

-- `AddChunk`; a second row of the key is refused
unfoldable pub add_chunk : Fault → Chunk → List Chunk → Result (Unit {0}) × List Chunk
unfolding has_chunk
add_chunk fault c rows =
    if has_chunk c.session_id c.chunk_index rows
    then (err (plain "duplicate key value violates unique constraint"), rows)
    else exec fault rows (rows ++ c ∷ [])

abbrev pub new_chunk : ℕ → String → ℕ → Bytes → String → Chunk
new_chunk now session index bytes checksum = record {
  session_id = session;
  chunk_index = index;
  chunk_size = length bytes;
  checksum = checksum;
  bytes = bytes;
  verified = true;
  uploaded_at = now;
}

-- `UploadChunk`. Another node may add rows between the SELECT and the INSERT: `later` is the table then.
unfoldable pub upload_chunk :
    FileLib
    → Fault
    → Fault
    → ℕ
    → String
    → ℕ
    → Bytes
    → String
    → List Chunk
    → List Chunk
    → Result (Unit {0}) × List Chunk
unfolding verify_checksum chunk_exists add_chunk
upload_chunk lib exists_fault add_fault now session index bytes expected rows later =
    if verify_checksum lib bytes expected
    then elim (chunk_exists exists_fault session index rows) [
      | err x ↦ (err x, later)
      | ok found ↦
          if found
          then (err (plain "chunk already uploaded"), later)
          else add_chunk add_fault (new_chunk now session index bytes expected) later
    ]
    else (err (plain "invalid checksum"), later)

abbrev pub is_of_session : String → Chunk → Bool
is_of_session session c = str_eq c.session_id session

abbrev pub by_index : Chunk → ℕ
by_index c = c.chunk_index

-- `GetChunks`
unfoldable pub get_chunks : Fault → String → List Chunk → Result (List Chunk)
get_chunks fault session rows =
    query fault (order_by by_index (filter (is_of_session session) rows))

-- the loop of `MissingChunks` over the indices, `left` of them from `i` on
unfoldable pub missing_from : String → List Chunk → ℕ → ℕ → List ℕ
unfolding has_chunk
missing_from session rows i zero = []
missing_from session rows i (suc left) =
    let rest = missing_from session rows (suc i) left in
    if has_chunk session i rows then rest else i ∷ rest

-- `MissingChunks`
unfoldable pub missing_chunks : Fault → String → ℕ → List Chunk → Result (List ℕ)
unfolding missing_from
missing_chunks fault session total rows = query fault (missing_from session rows 0 total)

-- `VerifyChunkCount` and `VerifyUploadHash`
unfoldable pub verify_chunk_count : ℕ → ℕ → Option Error
verify_chunk_count expected actual =
    if expected == actual then none else some (plain "missing chunks")

unfoldable pub verify_upload_hash : String → String → Option Error
verify_upload_hash actual expected =
    if str_eq actual expected then none else some (plain "upload tampered")

-- `VerifyChunkExists`: the object can be read
unfoldable pub verify_chunk_exists : FileLib → (String → Fault) → Dict Bytes → Chunk → Bool
unfolding lookup
verify_chunk_exists lib fault objects c = elim (fault (lib.chunk_key c.session_id c.chunk_index)) [
  | some text ↦ false
  | none ↦ elim (lookup (lib.chunk_key c.session_id c.chunk_index) objects) [
    | none ↦ false
    | some bytes ↦ true
  ]
]

unfoldable pub all_exist : FileLib → (String → Fault) → Dict Bytes → List Chunk → Bool
unfolding verify_chunk_exists
all_exist lib fault objects [] = true
all_exist lib fault objects (c ∷ chunks) =
    let rest = all_exist lib fault objects chunks in
    if verify_chunk_exists lib fault objects c then rest else false

-- the loop that appends the data of the chunks
unfoldable pub merged : List Chunk → Bytes
merged [] = []
merged (c ∷ chunks) = c.bytes ++ merged chunks

-- `CompleteSession`
unfoldable pub complete_session : ℕ → String → List UploadSession → List UploadSession
complete_session now id [] = []
complete_session now id (s ∷ sessions) =
    let rest = complete_session now id sessions in
    (if str_eq s.id id
      then record s { completed = true; upload_status = "completed"; updated_at = now }
      else s)
    ∷ rest

-- Which calls of `Finalize` fail.
pub record FinalizeFaults : Type 0 where
  pub begin : Fault
  pub lock : Fault
  pub chunks : Fault
  pub object : String → Fault
  pub complete : Fault
  pub commit : Fault

module _ (lib : FileLib) (f : FinalizeFaults) (now : ℕ) (objects : Dict Bytes) where
  -- after the lock, with the chunks of the session
  unfoldable pub finish_upload :
      String → ℕ → String → List Chunk → List UploadSession → Result (Unit {0}) × List UploadSession
  unfolding verify_chunk_count all_exist merged verify_upload_hash complete_session
  finish_upload session expected hash chunks sessions =
      elim (verify_chunk_count expected (length chunks)) [
        | some x ↦ (err x, sessions)
        | none ↦
            if all_exist lib f.object objects chunks
            then elim (verify_upload_hash (lib.sha256 (merged chunks)) hash) [
              | some x ↦ (err x, sessions)
              | none ↦ elim f.complete [
                | some text ↦ (err (plain text), sessions)
                | none ↦ exec f.commit sessions (complete_session now session sessions)
              ]
            ]
            else (err (plain "missing chunks"), sessions)
      ]

  -- `Finalize`
  unfoldable pub finalize :
      String → ℕ → String → List Chunk → List UploadSession → Result (Unit {0}) × List UploadSession
  unfolding get_chunks finish_upload
  finalize session expected hash rows sessions = elim f.begin [
    | some text ↦ (err (plain text), sessions)
    | none ↦ elim f.lock [
      | some text ↦ (err (plain text), sessions)
      | none ↦ elim (get_chunks f.chunks session rows) [
        | err x ↦ (err x, sessions)
        | ok chunks ↦ finish_upload session expected hash chunks sessions
      ]
    ]
  ]

-- `Check` of the quota service: the sum is one of 64 bits with a sign, so one from 2 ^ 63 on is negative
-- and not above the maximum
unfoldable pub check_quota : Result (ℕ × ℕ) → ℕ → Option Error
check_quota (err x) size = some x
check_quota (ok usage) size =
    let sum = (usage.0 + size) % 2 ^ 64 in
    if ltb sum (2 ^ 63)
    then (if ltb usage.1 sum then some (plain "storage quota exceeded") else none)
    else none
