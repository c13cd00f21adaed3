-- ===== src/Db/Queries.antt =====
-- The queries of src/util/db_util.cpp.
pub mod Laws
use tau_shell.Prelude.{ℕ, ◌+◌, Bool, true, Option, none, some, List, [], ◌∷◌, Bytes, codes, ◌++◌}
use tau_shell.Prelude.Int.{ℤ, pos}
use tau_shell.Fault.{ok}
use tau_shell.Program.{Program}
use tau_shell.Db.Model.{Engine, Sql, Row, quote}

-- What db_get_chain_state writes through its two pointers.
pub record ChainState : Type 0 where
  pub block_number : ℕ → ℤ
  pub block_hash : ℕ → Bytes

abbrev pub empty_state : ChainState
empty_state = record { block_number = λ _. pos 0; block_hash = λ _. [] }

module _ (e : Engine) where
  unfoldable pub chain_state_sql : Bytes → Bytes
  chain_state_sql chain_id =
      codes
        "SELECT headBlock, consensusBlock, tailBlock, headBlockHash, consensusBlockHash, tailBlockHash FROM Communities WHERE chainID ="
      ++ quote chain_id

  abbrev pub row_state : Row → ChainState
  row_state r = record { block_number = r.column_int; block_hash = λ i. r.column_text (3 + i) }

  -- Each row overwrites the one before.
  unfoldable pub last_state : ChainState → List Row → ChainState
  last_state state [] = state
  last_state state (r ∷ rows) = last_state (row_state r) rows

  abbrev pub read_rows : ChainState → Option (List Row) → ChainState
  read_rows state none = state
  read_rows state (some rows) = last_state state rows

  -- `true`, whether the statement could be prepared or not
  unfoldable pub db_get_chain_state : Bytes → ChainState → Program Sql (Bool × ChainState)
  db_get_chain_state chain_id state s =
      ok ((true, read_rows state (e.rows s.statements (chain_state_sql chain_id))), s)

  unfoldable pub tx_state_sql : Bytes → Bytes
  tx_state_sql tx_hash = codes "SELECT txID FROM Txs WHERE txID =" ++ quote tx_hash

  -- The return in the loop leaves the statement unfinalized.
  unfoldable pub db_get_tx_state : Bytes → Program Sql ℕ
  db_get_tx_state tx_hash s = elim (e.rows s.statements (tx_state_sql tx_hash)) [
    | some (r ∷ rows) ↦ ok (1, record s { unfinalized = s.unfinalized + 1 })
    | _ ↦ ok (0, s)
  ]
