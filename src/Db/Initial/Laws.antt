-- ===== src/Db/Initial/Laws.antt =====
-- The statements that sqlite_db_initial of src/util/db_util.cpp runs.
use tau_shell.Prelude.{
  ℕ, ◌+◌, ◌≡◌, refl, ap, sym, ◌∙◌, Bool, Option, some, List, [], ◌∷◌, ◌++◌, Bytes, codes, length,
  append_assoc, append-nil, arith, map,
}
use tau_shell.Fault.{ok}
use tau_shell.Memory.{until_nul}
use tau_shell.Memory.Laws.{NoNul}
use tau_shell.Json.{Token, Tokens, string, find_key_in_array}
use tau_shell.Db.Model.{Engine, Sql}
use tau_shell.Db.CreateSql.{sql_process, NoTick, requote, sql_process-template}
use tau_shell.Db.Initial.{create_tables, sqlite_db_initial}
use tau_shell.Db.Initial.Schema.{table_sql, copy_token, config_tokens, find_tables}

-- A table of the config file: its name, and what stands around the place of the name in its template.
pub record Table : Type 0 where
  pub name : Bytes
  pub before : Bytes
  pub after : Bytes

abbrev pub place : Bytes
place = codes "${TABLE_NAME}"

abbrev pub template : Table → Bytes
template t = t.before ++ b'`' ∷ (place ++ t.after)

-- the statement: double quotes for backticks, and the name in its place
abbrev pub statement : Table → Bytes
statement t = t.before ++ b'"' ∷ (t.name ++ requote t.after)

-- The i-th "tableName" and the i-th "createSql" are those of the table.
pub record HasTable (tokens : Tokens) (buf : Bytes) (i : ℕ) (t : Table) : Type 0 where
  pub named : Token
  pub made : Token
  pub rest : Tokens
  pub more : Tokens
  pub finds_name :
      find_key_in_array (some tokens) buf (codes "tableName") i 2048 string
      ≡ ok (some (named ∷ rest), buf)
  pub finds_sql :
      find_key_in_array (some tokens) buf (codes "createSql") i 2048 string
      ≡ ok (some (made ∷ more), buf)
  pub copies_name : copy_token buf named ≡ ok (t.name ++ 0 ∷ [])
  pub copies_sql : copy_token buf made ≡ ok (template t ++ 0 ∷ [])
  pub plain : NoTick t.before
  pub clean : NoNul (statement t)

abbrev pub HasTables : Tokens → Bytes → ℕ → List Table → Type 0
HasTables tokens buf i [] = Unit
HasTables tokens buf i (t ∷ ts) = HasTable tokens buf i t × HasTables tokens buf (i + 1) ts

requote-end : (a : Bytes) → requote (a ++ 0 ∷ []) ≡ requote a ++ 0 ∷ []
unfolding requote
requote-end [] = refl
requote-end (c ∷ a) = rw (requote-end a)

until_nul-end : (s : Bytes) → NoNul s → until_nul (s ++ 0 ∷ []) ≡ some s
unfolding until_nul
until_nul-end [] h = refl
until_nul-end (c ∷ s) (n, h) = ground (arith, until_nul-end s h)

sql_process-statement :
    (t : Table)
    → NoTick t.before
    → sql_process (template t ++ 0 ∷ []) (t.name ++ 0 ∷ []) ≡ ok (statement t ++ 0 ∷ [])
sql_process-statement t plain =
    let a : template t ++ 0 ∷ [] ≡ t.before ++ b'`' ∷ (place ++ (t.after ++ 0 ∷ [])) =
      append_assoc t.before (b'`' ∷ (place ++ t.after)) (0 ∷ []) in
    let b : statement t ++ 0 ∷ [] ≡ t.before ++ b'"' ∷ (t.name ++ requote (t.after ++ 0 ∷ [])) =
      append_assoc t.before (b'"' ∷ (t.name ++ requote t.after)) (0 ∷ [])
      ∙ ap (λ s. t.before ++ b'"' ∷ s)
          (append_assoc t.name (requote t.after) (0 ∷ [])
            ∙ ap (λ s. t.name ++ s) (sym (requote-end t.after))) in
    rw (a, b) (sql_process-template t.before place (t.after ++ 0 ∷ []) t.name plain refl)

table_sql-statement :
    (tokens : Tokens) (buf : Bytes) (i : ℕ) (t : Table)
    → HasTable tokens buf i t
    → table_sql tokens i buf ≡ ok (statement t, buf)
unfolding table_sql
table_sql-statement tokens buf i t h = rw h.finds_name (
    rw h.copies_name (
      rw h.finds_sql (
        rw h.copies_sql
          (rw (sql_process-statement t h.plain) (rw (until_nul-end (statement t) h.clean))))))

create_tables-statements :
    (e : Engine) (tokens : Tokens) (buf : Bytes) (i : ℕ) (ts : List Table) (s : Sql)
    → HasTables tokens buf i ts
    → create_tables e (length ts) i tokens buf s
      ≡ ok (tt, record s { statements = s.statements ++ map statement ts })
unfolding create_tables
create_tables-statements e tokens buf i [] s h = rw (append-nil s.statements)
create_tables-statements e tokens buf i (t ∷ ts) s (h, hs) =
    let s' = record s { statements = s.statements ++ statement t ∷ [] } in
    rw (table_sql-statement tokens buf i t h)
      (create_tables-statements e tokens buf (i + 1) ts s' hs ∙ rw (append_assoc s.statements))

module _ (e : Engine) (in_front : Bool) (jsmn : Bytes → Tokens) where
  -- Where the tokens of the config file have as many entities as the tables, and the i-th name and the
  -- i-th template are those of the i-th table, the tables are created in this order: in each template
  -- the name stands in the place of "${TABLE_NAME}" and double quotes in those of backticks. What
  -- sqlite3 answers to one does not keep the others from being created.
  pub sqlite_db_initial-statements :
      (file : Option Bytes) (tokens : Tokens) (text buf : Bytes) (ts : List Table) (s : Sql)
      → config_tokens in_front jsmn file ≡ ok (tokens, text)
      → find_tables tokens text ≡ ok (length ts, buf)
      → HasTables tokens buf 0 ts
      → sqlite_db_initial e in_front jsmn file s
        ≡ ok (tt, record s { statements = s.statements ++ map statement ts })
  unfolding sqlite_db_initial
  sqlite_db_initial-statements file tokens text buf ts s read found h =
      rw (read, found) (create_tables-statements e tokens buf 0 ts s h)
