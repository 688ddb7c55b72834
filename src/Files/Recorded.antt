-- ===== src/Files/Recorded.antt =====
-- What the rows of the chunks satisfy.
use krampus.Prelude.{
  ℕ, String, false, List, [], ◌∷◌, ◌++◌, ◌≡◌, refl, inl, inr, Bool-cases, Option-cases, All,
  All-append, arith, eq_iff, str_eq, length,
}
use krampus.Domain.Errors.{Result-cases}
use krampus.Storage.Fault.{Fault}
use krampus.Files.{
  Bytes, Chunk, FileLib, is_chunk, verify_checksum, has_chunk, chunk_exists, add_chunk, new_chunk,
  upload_chunk,
}

-- Two rows have different keys.
abbrev pub HasOtherKey : Chunk → Chunk → Type 0
HasOtherKey c d = ¬ ((c.session_id ≡ d.session_id) × (c.chunk_index ≡ d.chunk_index))

abbrev pub HasKeys : List Chunk → Type 0
HasKeys [] = Unit
HasKeys (c ∷ rows) = All (HasOtherKey c) rows × HasKeys rows

-- The checksum and the size of a row are those of its bytes.
abbrev pub IsSound : FileLib → Chunk → Type 0
IsSound lib c = (lib.sha256 c.bytes ≡ c.checksum) × (c.chunk_size ≡ length c.bytes)

pub record IsRecorded (lib : FileLib) (rows : List Chunk) : Type 0 where
  pub keys : HasKeys rows
  pub sound : All (IsSound lib) rows

HasKeys-append :
    (rows : List Chunk) (c : Chunk)
    → has_chunk c.session_id c.chunk_index rows ≡ false
    → HasKeys rows
    → HasKeys (rows ++ c ∷ [])
unfolding has_chunk
HasKeys-append [] c h k = (tt, tt)
HasKeys-append (d ∷ rows) c h k = elim (Bool-cases (is_chunk c.session_id c.chunk_index d)) [
  | inl e ↦ absurd (ground (arith, e, h))
  | inr e ↦ (
    All-append (HasOtherKey d) rows (c ∷ []) k.0
        (λ p. ground (arith, e, p.0, p.1, eq_iff d.session_id c.session_id), tt),
    HasKeys-append rows c (ground (arith, e, h)) k.1,
  )
]

add_chunk-IsRecorded :
    (lib : FileLib) (fault : Fault) (c : Chunk) (rows : List Chunk)
    → IsSound lib c
    → IsRecorded lib rows
    → IsRecorded lib (add_chunk fault c rows).1
unfolding add_chunk
add_chunk-IsRecorded lib fault c rows s h =
    elim (Bool-cases (has_chunk c.session_id c.chunk_index rows)) [
      | inl e ↦ rw (e, add_chunk) h
      | inr e ↦ elim (Option-cases fault) [
        | inr (x, q) ↦ rw (e, q, add_chunk) h
        | inl q ↦
            rw (e, q, add_chunk)
              (record {
                keys = HasKeys-append rows c e h.keys;
                sound = All-append (IsSound lib) rows (c ∷ []) h.sound (s, tt);
              })
      ]
    ]

-- When the rows have distinct keys and the checksums and sizes of their bytes, so have the rows after
-- any upload, one that fails included, and one whose table another node has changed in between.
pub upload_chunk-IsRecorded :
    (lib : FileLib) (f g : Fault) (now : ℕ) (session : String) (index : ℕ) (bytes : Bytes)
    (expected : String) (rows later : List Chunk)
    → IsRecorded lib later
    → IsRecorded lib (upload_chunk lib f g now session index bytes expected rows later).1
unfolding upload_chunk verify_checksum
upload_chunk-IsRecorded lib f g now session index bytes expected rows later h =
    elim (Bool-cases (str_eq (lib.sha256 bytes) expected)) [
      | inr v ↦ rw (v, upload_chunk, verify_checksum) h
      | inl v ↦ elim (Result-cases (chunk_exists f session index rows)) [
        | inl (x, e) ↦ simp (v, e, upload_chunk, verify_checksum) h
        | inr (found, e) ↦ elim (Bool-cases found) [
          | inl b ↦ simp (v, e, b, upload_chunk, verify_checksum) h
          | inr b ↦
              simp (v, e, b, upload_chunk, verify_checksum)
                (add_chunk-IsRecorded lib g (new_chunk now session index bytes expected) later
                  (ground (arith, v, eq_iff (lib.sha256 bytes) expected), refl) h)
        ]
      ]
    ]
