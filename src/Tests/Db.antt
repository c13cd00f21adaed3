-- ===== src/Tests/Db.antt =====
-- The statements of src/util/db_util.cpp against an engine that refuses what it has already run.
use tau_shell.Prelude.{
  ◌≡◌, refl, false, not, ◌||◌, Bool, some, List, [], ◌∷◌, Bytes, codes, bytes_eq,
}
use tau_shell.Prelude.Int.{ℤ, pos}
use tau_shell.Fault.{ok}
use tau_shell.Db.Model.{Engine, Sql, Row, Message, Transaction, Block}
use tau_shell.Db.Queries.{db_get_tx_state}
use tau_shell.Db.Queries.Laws.{db_get_tx_state-rows}

abbrev contains : Bytes → List Bytes → Bool
contains sql [] = false
contains sql (x ∷ xs) = bytes_eq sql x || contains sql xs

abbrev row : ℤ → Row
row n = record { column_int = λ i. n; column_text = λ i. codes "hash" }

-- Every query finds two rows.
abbrev pub engine : Engine
engine = record {
  exec_ok = λ statements sql. not (contains sql statements);
  rows = λ statements sql. some (row (pos 1) ∷ row (pos 2) ∷ []);
}

abbrev pub empty_sql : Sql
empty_sql = record { statements = []; unfinalized = 0 }

abbrev pub chain_id : Bytes
chain_id = 222 ∷ 173 ∷ 190 ∷ 239 ∷ 0 ∷ 1 ∷ 2 ∷ 3 ∷ codes "TAU"

abbrev pub message : Message
message = record {
  sha1 = 1 ∷ [];
  timestamp = pos 7;
  sender = 2 ∷ [];
  receiver = 3 ∷ [];
  payload = codes "hi";
}

abbrev pub transaction : Transaction
transaction = record {
  sha1 = 9 ∷ [];
  chain_id = chain_id;
  timestamp = pos 5;
  fee = pos 1;
  amount = pos 10;
  nonce = pos 2;
  sender = 2 ∷ [];
  receiver = 3 ∷ [];
  type = pos 0;
  payload = [];
}

abbrev pub block : Block
block = record {
  sha1 = 8 ∷ [];
  chain_id = chain_id;
  timestamp = pos 5;
  block_number = pos 42;
  cumulative_difficulty = 100;
  miner = 2 ∷ [];
  tx = transaction;
}

tx_state_unfinalized :
    db_get_tx_state engine (codes "t") empty_sql ≡ ok (1, record empty_sql { unfinalized = 1 })
tx_state_unfinalized =
    db_get_tx_state-rows engine (codes "t") empty_sql (row (pos 1) ∷ row (pos 2) ∷ []) refl
