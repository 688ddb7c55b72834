-- ===== src/Storage/Fault.antt =====
-- A statement that the database may refuse: `some text` is the error it answers with.
use krampus.Prelude.{◌≡◌, String, Option, none, some}
use krampus.Domain.Errors.{Result, ok, err, plain}

abbrev pub Fault : Type 0
Fault = Option String

-- Run a statement that turns `t` into `t'`; a refused statement changes nothing.
abbrev pub exec : {T : Type 0} → Fault → T → T → Result (Unit {0}) × T
exec none t t' = (ok tt, t')
exec (some e) t t' = (err (plain e), t)

-- Read from a table.
abbrev pub query : {A : Type 0} → Fault → A → Result A
query none a = ok a
query (some e) a = err (plain e)

pub query_ok : {A : Type 0} (fault : Fault) (a b : A) → query fault a ≡ ok b → a ≡ b
query_ok none a b h = cc
query_ok (some e) a b h = absurd (let q = h in cc)
