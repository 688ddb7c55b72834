-- ===== src/Examples/Files.antt =====
-- The theorems about files at concrete inputs.
use krampus.Prelude.{
  ℕ, ◌+◌, ◌^◌, ◌≤◌, ◌<◌, false, none, List, [], ◌∷◌, ◌≡◌, ◌↔◌, ◌⊎◌, refl, inl, inr, In, arith,
  length, filter, if◌then◌else◌, ◌==◌,
}
use krampus.Prelude.Order.{order_by}
use krampus.Prelude.Dict.{Dict}
use krampus.Domain.Errors.{ok}
use krampus.Files.{
  Bytes, Chunk, UploadSession, FileLib, FinalizeFaults, new_chunk, upload_chunk, get_chunks,
  is_of_session, has_chunk, missing_chunks, finalize, check_quota,
}
use krampus.Files.Recorded.{IsRecorded, upload_chunk-IsRecorded}
use krampus.Files.Missing.{missing_chunks_iff}
use krampus.Files.Assembly.{get_chunks-parts}
use krampus.Files.Finalized.{IsWhole, IsCompleted, finalize-IsWhole}
use krampus.Files.Quota.{check_quota_iff}

-- The digest tells a chunk from a whole file by the number of bytes.
abbrev lib : FileLib
lib = record {
  sha256 = λ bytes. if length bytes == 1 then "one" else "more";
  chunk_key = λ session index. if index == 0 then "k0" else "k1";
}

abbrev first : Chunk
first = new_chunk 3 "s" 0 (10 ∷ []) "one"

abbrev second : Chunk
second = new_chunk 2 "s" 1 (20 ∷ []) "one"

-- the second part was sent first
abbrev rows : List Chunk
rows = second ∷ first ∷ []

abbrev parts : List Chunk
parts = first ∷ second ∷ []

upload_chunk-IsRecorded_example :
    IsRecorded lib (upload_chunk lib none none 3 "s" 0 (10 ∷ []) "one" [] (second ∷ [])).1
upload_chunk-IsRecorded_example =
    upload_chunk-IsRecorded lib none none 3 "s" 0 (10 ∷ []) "one" [] (second ∷ [])
      (record { keys = (tt, tt); sound = ((refl, refl), tt) })

abbrev listed : List ℕ
listed = 0 ∷ []

abbrev index : ℕ
index = 0

same_rows : (c : Chunk) → In c (filter (is_of_session "s") rows) ↔ In c parts
same_rows c = (
  elim [ inl e ↦ inr (inl e) | inr (inl e) ↦ inl e | inr (inr h) ↦ absurd h ],
  elim [ inl e ↦ inr (inl e) | inr (inl e) ↦ inl e | inr (inr h) ↦ absurd h ],
)

get_chunks-parts_example : get_chunks none "s" rows ≡ ok parts
get_chunks-parts_example =
    get_chunks-parts "s" rows parts ((λ p. omega (arith, p.1), tt), (tt, tt))
      ((omega arith, tt), (tt, tt)) same_rows

abbrev calm : FinalizeFaults
calm = record {
  begin = none;
  lock = none;
  chunks = none;
  object = λ key. none;
  complete = none;
  commit = none;
}

abbrev objects : Dict Bytes
objects = ("k0", 10 ∷ []) ∷ ("k1", 20 ∷ []) ∷ []

abbrev sessions : List UploadSession
sessions = record { id = "s"; completed = false; upload_status = "pending"; updated_at = 0 } ∷ []

finalize-IsWhole_example :
    (chunks : List Chunk) × (get_chunks none "s" rows ≡ ok chunks)
    × IsWhole lib calm 9 objects 2 "more" chunks
    × IsCompleted 9 "s" sessions (finalize lib calm 9 objects "s" 2 "more" rows sessions).1
unfolding finalize order_by
finalize-IsWhole_example = finalize-IsWhole lib calm 9 objects "s" 2 "more" rows sessions refl

check_quota_iff_example : (check_quota (ok (5, 10)) 4 ≡ none) ↔ ((5 + 4 ≤ 10) ⊎ (2 ^ 63 ≤ 5 + 4))
check_quota_iff_example = check_quota_iff 5 4 10 (omega arith) (omega arith) (omega arith)

missing_chunks_iff_example :
    In {A = ℕ} 1 (1 ∷ 2 ∷ []) ↔ ((1 < 3) × (has_chunk "s" 1 (first ∷ []) ≡ false))
unfolding missing_chunks has_chunk
missing_chunks_iff_example = missing_chunks_iff none "s" 3 1 (first ∷ []) (1 ∷ 2 ∷ []) refl
