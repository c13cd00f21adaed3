-- ===== src/Db/Model.antt =====
-- sqlite3 and the objects of libTAU that src/util/db_util.cpp reads.
use tau_shell.Prelude.{ℕ, Bool, Option, List, [], ◌∷◌, ◌++◌, Bytes, codes}
use tau_shell.Prelude.Int.{ℤ}
use tau_shell.Fault.{ok}
use tau_shell.Program.{Program}

pub record Row : Type 0 where
  pub column_int : ℕ → ℤ
  pub column_text : ℕ → Bytes

-- `exec_ok` says whether sqlite3_exec answers SQLITE_OK, `rows` is `none` where sqlite3_prepare_v2
-- fails and else the rows that sqlite3_step yields. A statement is the whole std::string: that
-- sqlite3 reads it up to its first NUL is in the answers.
pub record Engine : Type 0 where
  pub exec_ok : List Bytes → Bytes → Bool
  pub rows : List Bytes → Bytes → Option (List Row)

pub record Sql : Type 0 where
  pub statements : List Bytes
  pub unfinalized : ℕ

module _ (e : Engine) where
  -- sqlite3_exec, and whether it answered SQLITE_OK
  abbrev pub exec : Bytes → Program Sql Bool
  exec sql s = ok (e.exec_ok s.statements sql, record s { statements = s.statements ++ sql ∷ [] })

-- "\"" + s + "\"": nothing in s is escaped
abbrev pub quote : Bytes → Bytes
quote s = codes "\"" ++ (s ++ codes "\"")

-- communication::message
pub record Message : Type 0 where
  pub sha1 : Bytes
  pub timestamp : ℤ
  pub sender : Bytes
  pub receiver : Bytes
  pub payload : Bytes

-- blockchain::transaction
pub record Transaction : Type 0 where
  pub sha1 : Bytes
  pub chain_id : Bytes
  pub timestamp : ℤ
  pub fee : ℤ
  pub amount : ℤ
  pub nonce : ℤ
  pub sender : Bytes
  pub receiver : Bytes
  pub type : ℤ
  pub payload : Bytes

-- blockchain::block
pub record Block : Type 0 where
  pub sha1 : Bytes
  pub chain_id : Bytes
  pub timestamp : ℤ
  pub block_number : ℤ
  pub cumulative_difficulty : ℕ
  pub miner : Bytes
  pub tx : Transaction
