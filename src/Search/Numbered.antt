-- ===== src/Search/Numbered.antt =====
-- The numbers of the arguments in the conditions that `BuildFilters` writes.
use Prim.Native.String.{◌++◌ as text_append}
use mathlib.Core.List.{append-nil}
use krampus.Prelude.{
  ℕ, suc, ◌+◌, String, Option, none, some, List, [], ◌∷◌, ◌++◌, ◌≡◌, refl, sym, ap, ◌∙◌, subst,
  length, length-append, map, arith,
}
use krampus.Search.{
  Argument, text, truth, number, QueryBuilder, Filters, given, add, add_numbered, add_room,
  add_reactions, build_filters,
}

-- A condition without its number, and its argument.
abbrev pub Wanted : Type 0
Wanted = List (String × Argument)

abbrev pub wanted_one : String → Option Argument → Wanted
wanted_one prefix none = []
wanted_one prefix (some a) = (prefix, a) ∷ []

-- The conditions and arguments that a filter asks for, but for reactions and mentions.
abbrev pub wanted : Filters → Wanted
wanted f =
    (((((((wanted_one "room_id = $" (given text f.room_id)
                  ++ wanted_one "user_id = $" (given text f.user_id))
                ++ wanted_one "topic_id = $" (given text f.topic_id))
              ++ wanted_one "type = $" (given text f.message_type))
            ++ wanted_one "has_attachments = $" (given truth f.has_attachments))
          ++ wanted_one "has_poll = $" (given truth f.has_poll))
        ++ wanted_one "timestamp >= $" (given number f.from_timestamp))
      ++ wanted_one "timestamp <= $" (given number f.to_timestamp))

abbrev pub argument : String × Argument → Argument
argument w = w.1

map-last :
    (xs : Wanted) (x : String × Argument)
    → map argument (xs ++ x ∷ []) ≡ map argument xs ++ argument x ∷ []
map-last [] x = refl
map-last (y ∷ xs) x = ap (λ ys. argument y ∷ ys) (map-last xs x)

module _ (itoa : ℕ → String) where
  -- The conditions numbered from `k` on.
  abbrev pub numbered : ℕ → Wanted → List String
  numbered k [] = []
  numbered k (w ∷ ws) = text_append w.0 (itoa k) ∷ numbered (suc k) ws

  numbered-last :
      (k n : ℕ) (ws : Wanted) (w : String × Argument)
      → n ≡ k + length ws
      → numbered k (ws ++ w ∷ []) ≡ numbered k ws ++ text_append w.0 (itoa n) ∷ []
  numbered-last k n [] w e = ap (λ m. text_append w.0 (itoa m) ∷ []) (omega (arith, e))
  numbered-last k n (v ∷ ws) w e =
      ap (λ xs. text_append v.0 (itoa k) ∷ xs) (numbered-last (suc k) n ws w (omega (arith, e)))

  -- The builder holds the wanted conditions, numbered from 1, and `arg` is the next number.
  abbrev pub IsNumbered : Wanted → QueryBuilder × ℕ → Type 0
  IsNumbered ws s =
      (s.0.conditions ≡ numbered 1 ws) × (s.0.args ≡ map argument ws) × (s.1 ≡ 1 + length ws)

  IsNumbered-last :
      (ws : Wanted) (prefix condition : String) (a : Argument) (s : QueryBuilder × ℕ)
      → condition ≡ text_append prefix (itoa s.1)
      → IsNumbered ws s
      → IsNumbered (ws ++ (prefix, a) ∷ []) (add condition a s.0, s.1 + 1)
  unfolding add
  IsNumbered-last ws prefix condition a s c h = (
    ap (λ xs. xs ++ condition ∷ []) h.0
        ∙ ap (λ x. numbered 1 ws ++ x ∷ []) c
        ∙ sym (numbered-last 1 s.1 ws (prefix, a) h.2),
    ap (λ xs. xs ++ a ∷ []) h.1 ∙ sym (map-last ws (prefix, a)),
    omega (arith, h.2, length-append ws ((prefix, a) ∷ [])),
  )

  add_numbered-IsNumbered :
      (ws : Wanted) (prefix : String) (o : Option Argument) (s : QueryBuilder × ℕ)
      → IsNumbered ws s
      → IsNumbered (ws ++ wanted_one prefix o) (add_numbered itoa prefix o s)
  unfolding add_numbered
  add_numbered-IsNumbered ws prefix none s h = subst (λ z. IsNumbered z s) (sym (append-nil ws)) h
  add_numbered-IsNumbered ws prefix (some a) s h = IsNumbered-last ws prefix _ a s refl h

  add_room-IsNumbered :
      (o : Option String) (b : QueryBuilder)
      → itoa 1 ≡ "1"
      → IsNumbered [] (b, 1)
      → IsNumbered (wanted_one "room_id = $" (given text o)) (add_room itoa o (b, 1))
  unfolding add_room
  add_room-IsNumbered none b e h = h
  add_room-IsNumbered (some r) b e h =
      IsNumbered-last [] "room_id = $" "room_id = $1" (text r) (b, 1)
        (sym (ap (λ t. text_append "room_id = $" t) e)) h

  -- When the number 1 is written 1 and the filter asks neither for reactions nor for the mentions of a
  -- user, `BuildFilters` writes the conditions of the filter in order, each with the number of its own
  -- argument among the arguments.
  pub build_filters-IsNumbered :
      (f : Filters)
      → itoa 1 ≡ "1"
      → f.has_reactions ≡ none
      → f.mentions_user_id ≡ none
      → IsNumbered (wanted f) (build_filters itoa f (record { conditions = []; args = [] }))
  unfolding build_filters add_reactions
  build_filters-IsNumbered f e r m =
      let b : QueryBuilder = record { conditions = []; args = [] } in
      let room = add_room-IsNumbered f.room_id b e (refl, refl, refl) in
      let user = add_numbered-IsNumbered _ "user_id = $" (given text f.user_id) _ room in
      let topic = add_numbered-IsNumbered _ "topic_id = $" (given text f.topic_id) _ user in
      let type = add_numbered-IsNumbered _ "type = $" (given text f.message_type) _ topic in
      let files =
        add_numbered-IsNumbered _ "has_attachments = $" (given truth f.has_attachments) _ type in
      let poll = add_numbered-IsNumbered _ "has_poll = $" (given truth f.has_poll) _ files in
      let from =
        add_numbered-IsNumbered _ "timestamp >= $" (given number f.from_timestamp) _ poll in
      rw (r, build_filters, add_reactions)
        (add_numbered-IsNumbered _ "timestamp <= $" (given number f.to_timestamp) _ from)
