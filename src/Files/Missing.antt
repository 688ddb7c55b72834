-- ===== src/Files/Missing.antt =====
-- The chunks that a client is told to send again.
use krampus.Prelude.{
  ℕ, zero, suc, ◌+◌, ◌≤◌, ◌<◌, String, false, List, ◌≡◌, ◌↔◌, subst, sym, inl, inr, Bool-cases, In,
  arith, ◌==◌,
}
use krampus.Domain.Errors.{ok}
use krampus.Storage.Fault.{Fault, query_ok}
use krampus.Files.{Chunk, has_chunk, missing_from, missing_chunks}

missing_from-In :
    (session : String) (rows : List Chunk) (i left n : ℕ)
    → In n (missing_from session rows i left)
    → (i ≤ n) × (n < i + left) × (has_chunk session n rows ≡ false)
unfolding missing_from
missing_from-In session rows i zero n = λ h. absurd h
missing_from-In session rows i (suc left) n = elim (Bool-cases (has_chunk session i rows)) [
  | inl c ↦
      rw (c, missing_from)
        (λ h.
          let rest = missing_from-In session rows (suc i) left n h in
          (omega (arith, rest.0), omega (arith, rest.1), rest.2))
  | inr c ↦
      rw (c, missing_from)
        (λ h. elim h [
          | inl e ↦ (
            omega (arith, e),
            omega (arith, e),
            subst (λ z. has_chunk session z rows ≡ false) e c,
          )
          | inr m ↦
              let rest = missing_from-In session rows (suc i) left n m in
              (omega (arith, rest.0), omega (arith, rest.1), rest.2)
        ])
]

In-missing_from :
    (session : String) (rows : List Chunk) (i left n : ℕ)
    → i ≤ n
    → n < i + left
    → has_chunk session n rows ≡ false
    → In n (missing_from session rows i left)
unfolding missing_from
In-missing_from session rows i zero n l u h = absurd (omega (arith, l, u))
In-missing_from session rows i (suc left) n l u h = elim (Bool-cases (i == n)) [
  | inl e ↦
      let same : i ≡ n = ground (arith, e) in
      rw (subst (λ z. has_chunk session z rows ≡ false) (sym same) h, missing_from) (inl same)
  | inr e ↦
      let rest =
        In-missing_from session rows (suc i) left n (ground (arith, e, l)) (omega (arith, u)) h in
      elim (Bool-cases (has_chunk session i rows)) [
        | inl c ↦ rw (c, missing_from) rest
        | inr c ↦ rw (c, missing_from) (inr rest)
      ]
]

-- When `MissingChunks` answers, an index is in the answer exactly when it is below the number of chunks
-- and the session has no row with it.
pub missing_chunks_iff :
    (fault : Fault) (session : String) (total n : ℕ) (rows : List Chunk) (missing : List ℕ)
    → missing_chunks fault session total rows ≡ ok missing
    → In n missing ↔ ((n < total) × (has_chunk session n rows ≡ false))
unfolding missing_chunks
missing_chunks_iff fault session total n rows missing h =
    let same : missing_from session rows 0 total ≡ missing = query_ok fault _ missing h in
    (
      λ m.
          let found = missing_from-In session rows 0 total n (subst (In n) (sym same) m) in
          (omega (arith, found.1), found.2),
      λ p.
          subst (In n) same
            (In-missing_from session rows 0 total n (omega arith) (omega (arith, p.0)) p.1),
    )
