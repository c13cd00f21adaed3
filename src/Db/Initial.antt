-- ===== src/Db/Initial.antt =====
-- sqlite_db_initial of src/util/db_util.cpp: the tables that are made from config/1.json.
pub mod Schema
pub mod Laws
use tau_shell.Prelude.{ℕ, zero, suc, ◌+◌, Bool, Option, Bytes}
use tau_shell.Program.{Program, pure, lift, ◌>>=◌, ◌>>◌}
use tau_shell.Json.{Tokens}
use tau_shell.Db.Model.{Engine, Sql, exec}
use tau_shell.Db.Initial.Schema.{table_sql, config_tokens, find_tables}

-- What sqlite3 answers is printed.
unfoldable pub create_tables : Engine → ℕ → ℕ → Tokens → Bytes → Program Sql (Unit {0})
create_tables e zero i tokens buf = pure tt
create_tables e (suc left) i tokens buf = do
  (sql, buf') ← lift (table_sql tokens i buf)
  made ← exec e sql
  create_tables e left (i + 1) tokens buf'

module _ (e : Engine) (in_front : Bool) (jsmn : Bytes → Tokens) where
  unfoldable pub sqlite_db_initial : Option Bytes → Program Sql (Unit {0})
  sqlite_db_initial file = do
    (tokens, buf) ← lift (config_tokens in_front jsmn file)
    (size, buf') ← lift (find_tables tokens buf)
    create_tables e size 0 tokens buf'
