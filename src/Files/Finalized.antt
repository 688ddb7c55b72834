-- ===== src/Files/Finalized.antt =====
-- What an upload that is completed has gone through, and who can complete one.
use krampus.Prelude.{
  ℕ, String, true, none, List, [], ◌∷◌, ◌≡◌, refl, subst, inl, inr, Bool-cases, Option-cases, In,
  arith, eq_iff, length, str_eq, ◌⊎◌, ◌≢◌,
}
use krampus.Prelude.Dict.{Dict}
use krampus.Domain.Errors.{ok, Result-cases}
use krampus.Files.{
  Bytes, Chunk, UploadSession, FileLib, FinalizeFaults, get_chunks, verify_chunk_count,
  verify_upload_hash, verify_chunk_exists, all_exist, merged, complete_session, finish_upload,
  finalize,
}

-- The row of a session that is completed at a time.
abbrev pub completed_at : ℕ → UploadSession → UploadSession
completed_at now s = record s { completed = true; upload_status = "completed"; updated_at = now }

-- Each row with the id has become a completed one, in its place, and the other rows are as they were;
-- when no row has the id, nothing has changed.
abbrev pub IsCompleted : ℕ → String → List UploadSession → List UploadSession → Type 0
IsCompleted now id [] [] = Unit
IsCompleted now id [] (t ∷ after) = ⊥
IsCompleted now id (s ∷ before) [] = ⊥
IsCompleted now id (s ∷ before) (t ∷ after) =
    (((s.id ≡ id) × (t ≡ completed_at now s)) ⊎ ((s.id ≢ id) × (t ≡ s)))
    × IsCompleted now id before after

complete_session-IsCompleted :
    (now : ℕ) (id : String) (sessions : List UploadSession)
    → IsCompleted now id sessions (complete_session now id sessions)
unfolding complete_session
complete_session-IsCompleted now id [] = tt
complete_session-IsCompleted now id (s ∷ sessions) = elim (Bool-cases (str_eq s.id id)) [
  | inl c ↦
      rw (c, complete_session)
        (inl ((eq_iff s.id id).0 c, refl), complete_session-IsCompleted now id sessions)
  | inr c ↦
      rw (c, complete_session)
        (
          inr (λ e. absurd (let z = (eq_iff s.id id).1 e in cc), refl),
          complete_session-IsCompleted now id sessions,
        )
]

count_none : (expected actual : ℕ) → verify_chunk_count expected actual ≡ none → actual ≡ expected
unfolding verify_chunk_count
count_none expected actual h = ground (arith, h)

hash_none :
    (actual expected : String) → verify_upload_hash actual expected ≡ none → actual ≡ expected
unfolding verify_upload_hash
hash_none actual expected h = ground (arith, h, eq_iff actual expected)

module _ (lib : FileLib) (f : FinalizeFaults) (now : ℕ) (objects : Dict Bytes) where
  -- Each chunk has an object that can be read.
  abbrev pub HasObjects : List Chunk → Type 0
  HasObjects chunks = (c : Chunk) → In c chunks → verify_chunk_exists lib f.object objects c ≡ true

  all_exist-HasObjects :
      (chunks : List Chunk) → all_exist lib f.object objects chunks ≡ true → HasObjects chunks
  unfolding all_exist
  all_exist-HasObjects [] h c m = absurd m
  all_exist-HasObjects (d ∷ chunks) h c (inl e) =
      subst (λ z. verify_chunk_exists lib f.object objects z ≡ true) e (ground (arith, h))
  all_exist-HasObjects (d ∷ chunks) h c (inr m) =
      all_exist-HasObjects chunks (ground (arith, h)) c m

  -- The chunks are as many as expected, have objects, and their bytes, one after the other, the hash.
  abbrev pub IsWhole : ℕ → String → List Chunk → Type 0
  IsWhole expected hash chunks =
      (length chunks ≡ expected) × HasObjects chunks × (lib.sha256 (merged chunks) ≡ hash)

  finish_upload-IsWhole :
      (session : String) (expected : ℕ) (hash : String) (chunks : List Chunk)
      (sessions : List UploadSession)
      → (finish_upload lib f now objects session expected hash chunks sessions).0 ≡ ok tt
      → IsWhole expected hash chunks
        × IsCompleted now session sessions
            (finish_upload lib f now objects session expected hash chunks sessions).1
  unfolding finish_upload
  finish_upload-IsWhole session expected hash chunks sessions =
      elim (Option-cases (verify_chunk_count expected (length chunks))) [
        | inr (x, c) ↦ rw (c, finish_upload) (λ h. absurd (let q = h in cc))
        | inl c ↦ elim (Bool-cases (all_exist lib f.object objects chunks)) [
          | inr e ↦ simp (c, e, finish_upload) (λ h. absurd (let q = h in cc))
          | inl e ↦ elim (Option-cases (verify_upload_hash (lib.sha256 (merged chunks)) hash)) [
            | inr (x, v) ↦ simp (c, e, v, finish_upload) (λ h. absurd (let q = h in cc))
            | inl v ↦ elim (Option-cases f.complete) [
              | inr (x, d) ↦ simp (c, e, v, d, finish_upload) (λ h. absurd (let q = h in cc))
              | inl d ↦ elim (Option-cases f.commit) [
                | inr (x, t) ↦ simp (c, e, v, d, t, finish_upload) (λ h. absurd (let q = h in cc))
                | inl t ↦
                    simp (c, e, v, d, t, finish_upload)
                      (λ h. (
                        (
                          count_none expected (length chunks) c,
                          all_exist-HasObjects chunks e,
                          hash_none (lib.sha256 (merged chunks)) hash v,
                        ),
                        complete_session-IsCompleted now session sessions,
                      ))
              ]
            ]
          ]
        ]
      ]

  -- `Finalize` answers without an error only when the chunks that `GetChunks` gives are as many as
  -- expected, each has an object that can be read, and their bytes in the order of the indices have the
  -- expected hash. Each row of the session is then completed, with the time of the call, and no other row
  -- has changed; there may be no such row, and then nothing is completed.
  pub finalize-IsWhole :
      (session : String) (expected : ℕ) (hash : String) (rows : List Chunk)
      (sessions : List UploadSession)
      → (finalize lib f now objects session expected hash rows sessions).0 ≡ ok tt
      → (chunks : List Chunk) × (get_chunks f.chunks session rows ≡ ok chunks)
        × IsWhole expected hash chunks
        × IsCompleted now session sessions
            (finalize lib f now objects session expected hash rows sessions).1
  unfolding finalize
  finalize-IsWhole session expected hash rows sessions = elim (Option-cases f.begin) [
    | inr (x, b) ↦ rw (b, finalize) (λ h. absurd (let q = h in cc))
    | inl b ↦ elim (Option-cases f.lock) [
      | inr (x, l) ↦ simp (b, l, finalize) (λ h. absurd (let q = h in cc))
      | inl l ↦ elim (Result-cases (get_chunks f.chunks session rows)) [
        | inl (x, c) ↦ simp (b, l, c, finalize) (λ h. absurd (let q = h in cc))
        | inr (chunks, c) ↦
            simp (b, l, c, finalize)
              (λ h.
                let done = finish_upload-IsWhole session expected hash chunks sessions h in
                (chunks, refl, done.0, done.1))
      ]
    ]
  ]
